-- ===== src/Tftp/Rrq/Steps.antt =====
-- The round that sends the next block of the content, and what an acknowledgement makes of it.
use ecen_602_projects.Common.{
  ℕ, ◌+◌, ◌≤◌, ◌<◌, ◌≡◌, refl, ap, ◌∙◌, List, ◌∷◌, arith, ltb, length, take, drop, length-take,
  lt→ltb, le→ltb-false, ne→==-false, if◌then◌else◌,
}
use ecen_602_projects.Memory.{ok}
use ecen_602_projects.Tftp.Session.{Event, timeout, arrival, returned, tftp_ok, next, stop}
use ecen_602_projects.Tftp.Opcode
use ecen_602_projects.Tftp.Opcode.{max_retry}
use ecen_602_projects.Tftp.Packet.Layout.{packet}
use ecen_602_projects.Tftp.Rrq.Defs.{Rrq, Sent, rrq_send, rrq_receive, rrq_loop, after, quiet}
use ecen_602_projects.Tftp.Rrq.Content.{
  Content, Block, Content-Block, payload, data_block, length-payload, rrq_send-Content,
}
use ecen_602_projects.Tftp.Rrq.Rounds.{
  IsReady, ack_datagram, succ16, received, length-received, rrq_receive-ack, rrq_loop-next,
  rrq_loop-stop,
}

-- The round that sends the next block of `bytes`.
module _ (mode : List ℕ) (s : Rrq) (bytes : List ℕ) (ready : IsReady s)
    (content : Content mode s.reader bytes) where
  b : Block mode s.reader bytes
  b = Content-Block content

  pub out : Sent
  unfolding b
  out = record {
    datagram = data_block s.block_num bytes;
    is_eof = ltb (length (take 512 bytes)) 512;
    state = record s {
      reader = b.rest;
      buf_send = packet Opcode.data' s.block_num (payload bytes);
    };
  }

  pub sends : rrq_send mode s ≡ ok out
  unfolding out
  sends = rrq_send-Content mode s bytes ready.send_size ready.block b

  pub out-IsReady : IsReady out.state
  unfolding out
  out-IsReady = record {
    send_size = omega (arith, length-payload bytes);
    recv_size = ready.recv_size;
    block = ready.block;
  }

  -- The state of the round behind the expected acknowledgement.
  pub acked : Rrq
  unfolding out
  acked = record (out.state) {
    block_num = succ16 s.block_num;
    buf_recv = received s.buf_recv s.block_num;
  }

  pub acked-IsReady : IsReady acked
  unfolding acked
  acked-IsReady = record {
    send_size = omega (arith, length-payload bytes);
    recv_size = length-received s.buf_recv s.block_num ready.recv_size;
    block = omega arith;
  }

  pub acked-Content : Content mode acked.reader (drop 512 bytes)
  unfolding acked
  acked-Content = b.remains

  pub receives :
      rrq_receive out.state out.is_eof (arrival (ack_datagram s.block_num))
      ≡ (if out.is_eof then stop (returned tftp_ok) else next acked)
  unfolding acked
  receives = rrq_receive-ack out.state out.is_eof out-IsReady

  pub last_round :
      length bytes < 512
      → (es : List Event)
      → rrq_loop mode s (arrival (ack_datagram s.block_num) ∷ es)
        ≡ after (data_block s.block_num bytes) (quiet (returned tftp_ok))
  unfolding out
  last_round short es = rrq_loop-stop mode s out (arrival (ack_datagram s.block_num)) sends es (
      receives
      ∙ ap (λ c. if c then stop (returned tftp_ok) else next acked)
          (lt→ltb (length (take 512 bytes)) 512 (omega (arith, length-take 512 bytes))))

  pub full_round :
      512 ≤ length bytes
      → (es : List Event)
      → rrq_loop mode s (arrival (ack_datagram s.block_num) ∷ es)
        ≡ after (data_block s.block_num bytes) (rrq_loop mode acked es)
  unfolding out
  full_round long es = rrq_loop-next mode s out (arrival (ack_datagram s.block_num)) sends es (
      receives
      ∙ ap (λ c. if c then stop (returned tftp_ok) else next acked)
          (le→ltb-false (length (take 512 bytes)) 512 (omega (arith, length-take 512 bytes))))

  pub acked-block_num : acked.block_num ≡ succ16 s.block_num
  unfolding acked
  acked-block_num = refl

  -- The state of the round behind a timeout.
  pub timed_out : Rrq
  unfolding out
  timed_out = record (out.state) { timeout_counter = s.timeout_counter + 1 }

  pub timed_out-IsReady : IsReady timed_out
  unfolding timed_out
  timed_out-IsReady = record {
    send_size = omega (arith, length-payload bytes);
    recv_size = ready.recv_size;
    block = ready.block;
  }

  pub timed_out-Content : Content mode timed_out.reader (drop 512 bytes)
  unfolding timed_out
  timed_out-Content = b.remains

  pub timed_out-block_num : timed_out.block_num ≡ s.block_num
  unfolding timed_out
  timed_out-block_num = refl

  pub timed_out_round :
      s.timeout_counter < 9
      → (es : List Event)
      → rrq_loop mode s (timeout ∷ es)
        ≡ after (data_block s.block_num bytes) (rrq_loop mode timed_out es)
  unfolding timed_out rrq_receive
  timed_out_round few es =
      rrq_loop-next mode s out timeout sends es
        (rw (ne→==-false (s.timeout_counter + 1) max_retry (omega arith)))
