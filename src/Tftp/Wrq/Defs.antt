-- ===== src/Tftp/Wrq/Defs.antt =====
-- The write request handler: Assignment_3/lib.c lines 482-603.
use ecen_602_projects.Common.{
  ℕ, ◌+◌, ◌-◌, ◌%◌, ◌^◌, Bool, true, false, ◌||◌, none, List, [], ◌∷◌, ◌++◌, ltb, ◌==◌,
  if◌then◌else◌,
}
use ecen_602_projects.Memory.{Outcome, ok, fail, fault, ◌>>=◌, slice}
use ecen_602_projects.Tftp.Opcode
use ecen_602_projects.Tftp.Opcode.{file_exists, max_buf_len, max_retry}
use ecen_602_projects.Tftp.Packet.{
  make_ack_packet, parse_header, parse_data_packet, parse_trail_buf,
}
use ecen_602_projects.Tftp.File.{size_max, write_data_to_file}
use ecen_602_projects.Tftp.Request.{Host, zeros, error_reply, already_exists}
use ecen_602_projects.Tftp.Session.{
  tftp_ok, tftp_fail, Event, timeout, arrival, broken, Ending, returned, crashed, waiting, Turn,
  next, stop, turn_of, tftp_recvfrom,
}

-- The local variables of `wrq_handler` that live across rounds, with the bytes appended so far.
pub record Wrq : Type 0 where
  pub file : List ℕ
  pub block_num : ℕ  -- uint16_t
  pub last_block_ack : ℕ  -- uint16_t
  pub timeout_counter : ℕ
  pub eof : Bool
  pub buf_send : List ℕ  -- char[516]
  pub buf_recv : List ℕ  -- char[516]

-- The datagrams that were sent, the end of the run and the bytes in the file.
pub record Saved : Type 0 where
  pub sent : List (List ℕ)
  pub ending : Ending
  pub file : List ℕ

abbrev pub rests : Wrq → Ending → Saved
rests s e = record { sent = []; ending = e; file = s.file }

abbrev pub after : List ℕ → Saved → Saved
after datagram t = record t { sent = datagram ∷ t.sent }

-- The head of a round: the current block is acknowledged.
unfoldable pub wrq_send : Wrq → Outcome (List ℕ × Wrq)
wrq_send s = do
  buf_send ← make_ack_packet s.buf_send s.block_num
  datagram ← slice buf_send 0 4
  ok (datagram, record s { buf_send = buf_send; last_block_ack = s.block_num })

-- A data packet of `numbytes` bytes behind its header. A number above the last acknowledged one is
-- new; a short block is the last.
unfoldable pub wrq_data : List ℕ → Wrq → ℕ → Outcome (Turn Wrq)
wrq_data mode s numbytes = do
  (block_num, buf_recv) ← parse_data_packet s.buf_recv numbytes
  written ←
      (if ltb s.last_block_ack block_num
        then write_data_to_file mode buf_recv numbytes none
        else ok [])
  ok (
      next (record s {
        block_num = block_num;
        buf_recv = buf_recv;
        file = s.file ++ written;
        eof = ltb numbytes max_buf_len || s.eof;
      }))

-- What follows `tftp_recvfrom`. `numbytes -= 4` is on a size_t.
unfoldable pub wrq_packet : List ℕ → Wrq → ℕ → Outcome (Turn Wrq)
wrq_packet mode s numbytes = do
  opcode ← parse_header s.buf_recv
  if opcode == Opcode.data'
      then wrq_data mode s ((numbytes + 2 ^ 64 - 4) % 2 ^ 64)
      else ok (stop (returned tftp_fail))

unfoldable pub wrq_receive : List ℕ → Wrq → Event → Turn Wrq
wrq_receive mode s timeout =
    let counter = s.timeout_counter + 1 in
    if counter == max_retry
    then stop (returned tftp_fail)
    else next (record s { timeout_counter = counter })
wrq_receive mode s (arrival datagram) = turn_of (do
  (buf_recv, numbytes) ← tftp_recvfrom s.buf_recv datagram
  wrq_packet mode (record s { buf_recv = buf_recv }) numbytes)
wrq_receive mode s broken = turn_of (wrq_packet mode s size_max)

-- The `while(1)` loop, one round for each event; behind the last acknowledgement it returns.
unfoldable pub wrq_loop : List ℕ → Wrq → List Event → Saved
wrq_loop mode s [] = elim (wrq_send s) [
  | ok (datagram, s') ↦ after datagram (rests s' (if s.eof then returned tftp_ok else waiting))
  | fail ↦ rests s (returned tftp_fail)
  | fault ↦ rests s crashed
]
wrq_loop mode s (e ∷ es) = elim (wrq_send s) [
  | ok (datagram, s') ↦ elim s.eof [
    | true ↦ after datagram (rests s' (returned tftp_ok))
    | false ↦ elim (wrq_receive mode s' e) [
      | next s'' ↦ after datagram (wrq_loop mode s'' es)
      | stop end ↦ after datagram (rests s' end)
    ]
  ]
  | fail ↦ rests s (returned tftp_fail)
  | fault ↦ rests s crashed
]

abbrev pub wrq_start : Wrq
wrq_start = record {
  file = [];
  block_num = 0;
  last_block_ack = 0;
  timeout_counter = 0;
  eof = false;
  buf_send = zeros 516;
  buf_recv = zeros 516;
}

-- The handler returned with no file open.
abbrev pub no_file : Ending → Saved
no_file e = rests wrq_start e

abbrev pub reply_and_fail : Outcome (List ℕ) → Saved
reply_and_fail (ok datagram) = after datagram (no_file (returned tftp_fail))
reply_and_fail fail = no_file (returned tftp_fail)
reply_and_fail fault = no_file crashed

unfoldable pub wrq_handler : Host → List ℕ → List Event → Saved
wrq_handler host buf events = elim (parse_trail_buf buf) [
  | fail ↦ no_file (returned tftp_fail)
  | fault ↦ no_file crashed
  | ok (filename, mode) ↦
      if host.init_ok
      then (if host.exists_file filename
          then reply_and_fail (error_reply file_exists filename already_exists)
          else if host.open_append filename
          then wrq_loop (mode ++ host.behind_mode) wrq_start events
          else no_file (returned tftp_fail))
      else no_file (returned tftp_fail)
]
