-- ===== src/Tftp/Rrq/Rounds.antt =====
-- One round of the loop: acknowledged, timed out, or the end of the transfer.
use ecen_602_projects.Common.{
  ℕ, ◌+◌, ◌%◌, ◌^◌, ◌<◌, ◌≡◌, refl, List, [], ◌∷◌, arith, length, drop, length-drop, true, false,
  Bool, ==_self, if◌then◌else◌,
}
use ecen_602_projects.Memory.{ok, memcpy-front}
use ecen_602_projects.Tftp.Opcode
use ecen_602_projects.Tftp.Opcode.{max_retry}
use ecen_602_projects.Tftp.Packet.Layout.{packet, parse_header-packet, parse_ack_packet-packet}
use ecen_602_projects.Tftp.Session.{
  Event, arrival, Ending, returned, tftp_ok, next, stop, tftp_recvfrom,
}
use ecen_602_projects.Tftp.Rrq.Defs.{
  Rrq, Sent, rrq_send, rrq_ack, rrq_packet, rrq_receive, rrq_loop, after, quiet,
}

-- The variables of the handler are what their C types can hold.
pub record IsReady (s : Rrq) : Type 0 where
  pub send_size : length s.buf_send ≡ 516
  pub recv_size : length s.buf_recv ≡ 516
  pub block : s.block_num < 2 ^ 16

-- The acknowledgement of block `n`, as RFC 1350 lays it out.
abbrev pub ack_datagram : ℕ → List ℕ
ack_datagram n = packet Opcode.ack n []

-- The receive buffer behind that acknowledgement.
abbrev pub received : (buf : List ℕ) (n : ℕ) → List ℕ
received buf n = packet Opcode.ack n (drop 4 buf)

tftp_recvfrom-ack :
    (buf : List ℕ) (n : ℕ)
    → length buf ≡ 516
    → tftp_recvfrom buf (ack_datagram n) ≡ ok (received buf n, 4)
unfolding tftp_recvfrom
tftp_recvfrom-ack buf n size = rw (memcpy-front buf (ack_datagram n) (omega arith))

pub length-received : (buf : List ℕ) (n : ℕ) → length buf ≡ 516 → length (received buf n) ≡ 516
length-received buf n size = omega (arith, length-drop 4 buf)

abbrev pub succ16 : ℕ → ℕ
succ16 n = (n + 1) % 2 ^ 16

-- The expected ACK takes the session to the next block, or ends it behind a short block.
pub rrq_receive-ack :
    (s : Rrq) (eof : Bool)
    → IsReady s
    → rrq_receive s eof (arrival (ack_datagram s.block_num)) ≡ (
        if eof
        then stop (returned tftp_ok)
        else next (record s {
          block_num = succ16 s.block_num;
          buf_recv = received s.buf_recv s.block_num;
        }))
unfolding rrq_receive rrq_packet rrq_ack
rrq_receive-ack s eof ready =
    rw
      (
        tftp_recvfrom-ack s.buf_recv s.block_num ready.recv_size,
        parse_header-packet Opcode.ack s.block_num (drop 4 s.buf_recv) (omega arith),
        parse_ack_packet-packet Opcode.ack s.block_num (drop 4 s.buf_recv) s.block_num ready.block,
        ==_self s.block_num,
      )
      (cases eof)
  where
    s' : Rrq
    s' = record s { buf_recv = received s.buf_recv s.block_num }

    cases :
        (b : Bool)
        → rrq_ack s' b (ok tt) ≡ (
            if b
            then stop (returned tftp_ok)
            else next (record s' { block_num = succ16 s.block_num }))
    cases true = refl
    cases false = refl

module _ (mode : List ℕ) (s : Rrq) (out : Sent) (e : Event) (sends : rrq_send mode s ≡ ok out) where
  pub rrq_loop-next :
      {s' : Rrq} (es : List Event)
      → rrq_receive out.state out.is_eof e ≡ next s'
      → rrq_loop mode s (e ∷ es) ≡ after out.datagram (rrq_loop mode s' es)
  unfolding rrq_loop
  rrq_loop-next es r = rw (sends, r, rrq_loop)

  pub rrq_loop-stop :
      {end : Ending} (es : List Event)
      → rrq_receive out.state out.is_eof e ≡ stop end
      → rrq_loop mode s (e ∷ es) ≡ after out.datagram (quiet end)
  unfolding rrq_loop
  rrq_loop-stop es r = rw (sends, r, rrq_loop)
