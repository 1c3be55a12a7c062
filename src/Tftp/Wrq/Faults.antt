-- ===== src/Tftp/Wrq/Faults.antt =====
-- Packets that are out of order, and packets that are too short.
use ecen_602_projects.Common.{
  ℕ, ◌+◌, ◌-◌, ◌%◌, ◌^◌, ◌≤◌, ◌<◌, ◌≡◌, ◌≢◌, length-append, refl, ap, ◌∙◌, List, [], ◌∷◌, ◌++◌,
  arith, ltb, length, drop, length-drop, false, le→ltb-false, take_all, append-nil, ◌||◌,
}
use ecen_602_projects.Memory.{
  ok, fail, fault, slice, load_u16, load_u16-big_endian, big_endian, memcpy-front, bswap_16,
}
use ecen_602_projects.Tftp.Opcode
use ecen_602_projects.Tftp.Packet.{parse_data_packet, parse_header}
use ecen_602_projects.Tftp.Session.{Event, arrival, crashed, waiting, stop, tftp_recvfrom}
use ecen_602_projects.Tftp.Wrq.Defs.{Wrq, after, wrq_data, wrq_packet, wrq_receive, wrq_loop}
use ecen_602_projects.Tftp.Wrq.Rounds.{
  IsReady, ack_datagram, acked, data_datagram, stored, receive-old, stored-IsReady,
}
use ecen_602_projects.Tftp.Wrq.Transfer.{wrq_loop-next, wrq_loop-wait, wrq_loop-stop}

-- A whole block whose number is not above the last acknowledged one is acknowledged under its own
-- number, and nothing is written.
pub wrq_loop-old :
    (mode : List ℕ) (s : Wrq) (n : ℕ) (block : List ℕ)
    → IsReady s
    → s.eof ≡ false
    → n ≤ s.block_num
    → length block ≡ 512
    → wrq_loop mode s (arrival (data_datagram n block) ∷ []) ≡ record {
      sent = ack_datagram s.block_num ∷ ack_datagram n ∷ [];
      ending = waiting;
      file = s.file;
    }
wrq_loop-old mode s n block ready open_end old full =
    let small : n < 2 ^ 16 = let h = ready.block in omega arith in
    let again : Wrq = stored (acked s) n block [] in
    let ready' : IsReady again =
      stored-IsReady mode (acked s) n block ready.recv_size small (omega arith)
        (record {
          send_size = let h = ready.send_size in omega (arith, length-drop 4 s.buf_send);
          recv_size = ready.recv_size;
          block = ready.block;
        })
        [] in
    let still : (ltb (length block) 512 || s.eof) ≡ false =
      rw (le→ltb-false (length block) 512 (omega arith), open_end) in
    wrq_loop-next mode s ready (arrival (data_datagram n block)) [] open_end
      (receive-old mode (acked s) n block ready.recv_size small (omega arith) old)
    ∙ ap (after (ack_datagram s.block_num)) (
        wrq_loop-wait mode again ready' still
        ∙ ap (λ f. record { sent = ack_datagram n ∷ []; ending = waiting; file = f })
            (append-nil s.file))

load_u16-ne-fail : (buf : List ℕ) (off : ℕ) → load_u16 buf off ≢ fail
unfolding load_u16 slice
load_u16-ne-fail buf off = ground arith

-- A payload that would end outside the buffer.
parse_data_packet-long :
    (buf : List ℕ) (n : ℕ) → length buf < 4 + n → parse_data_packet buf n ≡ fault
unfolding parse_data_packet slice
parse_data_packet-long buf n long = ground (arith, load_u16-ne-fail buf 2)

parse_header-data :
    (rest : List ℕ) → parse_header (big_endian Opcode.data' ++ rest) ≡ ok Opcode.data'
unfolding parse_header bswap_16
parse_header-data rest = rw (load_u16-big_endian Opcode.data' 0 [] rest refl)

receive-short :
    (mode : List ℕ) (s : Wrq) (tail : List ℕ)
    → length s.buf_recv ≡ 516
    → length tail < 2
    → wrq_receive mode s (arrival (big_endian Opcode.data' ++ tail)) ≡ stop crashed
unfolding wrq_receive wrq_packet wrq_data tftp_recvfrom
receive-short mode s tail size short =
    let datagram = big_endian Opcode.data' ++ tail in
    let rest = drop (length datagram) s.buf_recv in
    rw (
      take_all 514 tail (omega arith),
      memcpy-front s.buf_recv datagram (omega arith),
      parse_header-data (tail ++ rest),
      parse_data_packet-long (datagram ++ rest) ((length datagram + 2 ^ 64 - 4) % 2 ^ 64)
          (omega (arith, length-append tail rest, length-drop (length datagram) s.buf_recv)),
    )

-- A DATA packet that ends before its block number has a payload length of almost 2^64: the copy
-- of the payload leaves the buffer.
pub wrq_loop-short_packet :
    (mode : List ℕ) (s : Wrq) (tail : List ℕ) (es : List Event)
    → IsReady s
    → s.eof ≡ false
    → length tail < 2
    → wrq_loop mode s (arrival (big_endian Opcode.data' ++ tail) ∷ es)
      ≡ record { sent = ack_datagram s.block_num ∷ []; ending = crashed; file = s.file }
wrq_loop-short_packet mode s tail es ready open_end short =
    wrq_loop-stop mode s ready (arrival (big_endian Opcode.data' ++ tail)) es open_end
      (receive-short mode (acked s) tail ready.recv_size short)
