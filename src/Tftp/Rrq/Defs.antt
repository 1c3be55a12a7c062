-- ===== src/Tftp/Rrq/Defs.antt =====
-- The read request handler: Assignment_3/lib.c lines 377-478.
use ecen_602_projects.Common.{
  ℕ, ◌+◌, ◌%◌, ◌^◌, Bool, Option, none, some, List, [], ◌∷◌, ◌++◌, ltb, ◌==◌, if◌then◌else◌,
}
use ecen_602_projects.Memory.{Outcome, ok, fail, fault, ◌>>=◌, slice}
use ecen_602_projects.Tftp.Opcode
use ecen_602_projects.Tftp.Opcode.{ErrorCode, file_not_found, max_buf_len, max_retry}
use ecen_602_projects.Tftp.Packet.{parse_header, parse_ack_packet, parse_trail_buf}
use ecen_602_projects.Tftp.File.{Reader, make_data_packet}
use ecen_602_projects.Tftp.Request.{Host, zeros, error_reply, not_found}
use ecen_602_projects.Tftp.Session.{
  tftp_ok, tftp_fail, Event, timeout, arrival, broken, Ending, returned, crashed, waiting, Turn,
  next, stop, turn_of, tftp_recvfrom,
}

-- The local variables of `rrq_handler` that live across rounds, with the open file.
pub record Rrq : Type 0 where
  pub reader : Reader
  pub block_num : ℕ  -- uint16_t
  pub timeout_counter : ℕ
  pub buf_send : List ℕ  -- char[516]
  pub buf_recv : List ℕ  -- char[516]

pub record Sent : Type 0 where
  pub datagram : List ℕ
  pub is_eof : Bool
  pub state : Rrq

-- The datagrams that were sent, in order, and the end of the run.
pub record Trace : Type 0 where
  pub sent : List (List ℕ)
  pub ending : Ending

-- The head of a round: the next block is read and sent. A failure of `make_data_packet` is not
-- looked at; `4 + numbytes` is a size_t.
unfoldable pub rrq_send : List ℕ → Rrq → Outcome Sent
rrq_send mode s = do
  made ← make_data_packet mode s.block_num s.buf_send s.reader
  datagram ← slice made.buf_send 0 ((4 + made.numbytes) % 2 ^ 64)
  ok (record {
    datagram = datagram;
    is_eof = ltb made.numbytes max_buf_len;
    state = record s { reader = made.reader; buf_send = made.buf_send };
  })

-- An ACK for the current block goes on to the next block, or ends the transfer.
unfoldable pub rrq_ack : Rrq → Bool → Outcome (Unit {0}) → Turn Rrq
rrq_ack s is_eof (ok _) =
    if is_eof
    then stop (returned tftp_ok)
    else next (record s { block_num = (s.block_num + 1) % 2 ^ 16 })
rrq_ack s is_eof fail = next s
rrq_ack s is_eof fault = stop crashed

-- What follows `tftp_recvfrom`, by the opcode in the receive buffer.
unfoldable pub rrq_packet : Rrq → Bool → Turn Rrq
rrq_packet s is_eof = turn_of (do
  opcode ← parse_header s.buf_recv
  ok (
      if opcode == Opcode.error
      then stop (returned tftp_fail)
      else if opcode == Opcode.ack
      then rrq_ack s is_eof (parse_ack_packet s.buf_recv s.block_num)
      else next s))

unfoldable pub rrq_receive : Rrq → Bool → Event → Turn Rrq
rrq_receive s is_eof timeout =
    let counter = s.timeout_counter + 1 in
    if counter == max_retry
    then stop (returned tftp_fail)
    else next (record s { timeout_counter = counter })
rrq_receive s is_eof (arrival datagram) = turn_of (do
  (buf_recv, _) ← tftp_recvfrom s.buf_recv datagram
  ok (rrq_packet (record s { buf_recv = buf_recv }) is_eof))
rrq_receive s is_eof broken = rrq_packet s is_eof

abbrev pub after : List ℕ → Trace → Trace
after datagram t = record { sent = datagram ∷ t.sent; ending = t.ending }

abbrev pub quiet : Ending → Trace
quiet e = record { sent = []; ending = e }

-- The `while (1)` loop, one round for each event.
unfoldable pub rrq_loop : List ℕ → Rrq → List Event → Trace
rrq_loop mode s [] = elim (rrq_send mode s) [
  | ok out ↦ after out.datagram (quiet waiting)
  | fail ↦ quiet (returned tftp_fail)
  | fault ↦ quiet crashed
]
rrq_loop mode s (e ∷ es) = elim (rrq_send mode s) [
  | ok out ↦ elim (rrq_receive out.state out.is_eof e) [
    | next s' ↦ after out.datagram (rrq_loop mode s' es)
    | stop end ↦ after out.datagram (quiet end)
  ]
  | fail ↦ quiet (returned tftp_fail)
  | fault ↦ quiet crashed
]

abbrev pub reply_and_fail : Outcome (List ℕ) → Trace
reply_and_fail (ok datagram) = after datagram (quiet (returned tftp_fail))
reply_and_fail fail = quiet (returned tftp_fail)
reply_and_fail fault = quiet crashed

abbrev pub rrq_start : List ℕ → Rrq
rrq_start file = record {
  reader = record { file = file; nextchar = none };
  block_num = 1;
  timeout_counter = 0;
  buf_send = zeros 516;
  buf_recv = zeros 516;
}

unfoldable pub rrq_open : List ℕ → Option (List ℕ) → List Event → Trace
rrq_open mode none events = quiet (returned tftp_fail)
rrq_open mode (some file) events = rrq_loop mode (rrq_start file) events

unfoldable pub rrq_handler : Host → List ℕ → List Event → Trace
rrq_handler host buf events = elim (parse_trail_buf buf) [
  | fail ↦ quiet (returned tftp_fail)
  | fault ↦ quiet crashed
  | ok (filename, mode) ↦
      if host.init_ok
      then (if host.exists_file filename
          then rrq_open (mode ++ host.behind_mode) (host.open_read filename) events
          else reply_and_fail (error_reply file_not_found filename not_found))
      else quiet (returned tftp_fail)
]
