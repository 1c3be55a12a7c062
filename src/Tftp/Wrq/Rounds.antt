-- ===== src/Tftp/Wrq/Rounds.antt =====
-- One round of the loop: the acknowledgement, and a data packet that is new or old.
use ecen_602_projects.Common.{
  ℕ, ◌+◌, ◌-◌, ◌%◌, ◌^◌, ◌≤◌, ◌<◌, ◌≡◌, refl, ap, ◌∙◌, List, [], ◌++◌, arith, ltb, length, drop,
  length-drop, length-append, lt→ltb, le→ltb-false, if◌then◌else◌, take-append, take_all, none,
  ◌||◌,
}
use ecen_602_projects.Memory.{ok, ◌>>=◌, memcpy-front, slice-append}
use ecen_602_projects.Tftp.Opcode
use ecen_602_projects.Tftp.Packet.{parse_data_packet}
use ecen_602_projects.Tftp.Packet.Layout.{
  packet, make_ack_packet_lem, parse_header-packet, parse_data_packet-packet,
}
use ecen_602_projects.Tftp.File.{write_data_to_file}
use ecen_602_projects.Tftp.Session.{arrival, next, tftp_recvfrom}
use ecen_602_projects.Tftp.Wrq.Defs.{Wrq, wrq_send, wrq_data, wrq_packet, wrq_receive}

-- The variables of the handler are what their C types can hold.
pub record IsReady (s : Wrq) : Type 0 where
  pub send_size : length s.buf_send ≡ 516
  pub recv_size : length s.buf_recv ≡ 516
  pub block : s.block_num < 2 ^ 16

abbrev pub ack_datagram : ℕ → List ℕ
ack_datagram n = packet Opcode.ack n []

-- The state behind the acknowledgement of the current block.
abbrev pub acked : Wrq → Wrq
acked s = record s {
  buf_send = packet Opcode.ack s.block_num (drop 4 s.buf_send);
  last_block_ack = s.block_num;
}

pub wrq_send_lem : (s : Wrq) → IsReady s → wrq_send s ≡ ok (ack_datagram s.block_num, acked s)
unfolding wrq_send
wrq_send_lem s ready = rw (
  make_ack_packet_lem s.buf_send s.block_num (let h = ready.send_size in omega arith) ready.block,
  slice-append [] (ack_datagram s.block_num) (drop 4 s.buf_send) 0 4 refl refl,
)

-- A data packet with `block` behind its header.
abbrev pub data_datagram : ℕ → List ℕ → List ℕ
data_datagram n block = packet Opcode.data' n block

-- What lies in the receive buffer when the payload has been moved to its front.
abbrev pub moved : ℕ → List ℕ → List ℕ → List ℕ
moved n block buf =
    block
    ++ drop (length block)
        (packet Opcode.data' n (block ++ drop (length (data_datagram n block)) buf))

module _ (buf : List ℕ) (n : ℕ) (block : List ℕ) (size : length buf ≡ 516) (small : n < 2 ^ 16)
    (fit : length block ≤ 512) where
  abbrev held : List ℕ
  held = packet Opcode.data' n (block ++ drop (length (data_datagram n block)) buf)

  tftp_recvfrom-data :
      tftp_recvfrom buf (data_datagram n block) ≡ ok (held, length (data_datagram n block))
  unfolding tftp_recvfrom
  tftp_recvfrom-data =
      rw (take_all 512 block fit, memcpy-front buf (data_datagram n block) (omega arith))

  parse_held : parse_data_packet held (length block) ≡ ok (n, moved n block buf)
  parse_held =
      parse_data_packet-packet Opcode.data' n (block ++ drop (length (data_datagram n block)) buf)
        (length block) small
        (omega (arith, length-append block (drop (length (data_datagram n block)) buf)))
      ∙ ap (λ l. ok (n, l ++ drop (length block) held))
          (take-append (length block) block (drop (length (data_datagram n block)) buf) refl)

  pub length-moved : length (moved n block buf) ≡ 516
  length-moved = omega (
    arith,
    length-append block (drop (length block) held),
    length-drop (length block) held,
    length-append block (drop (length (data_datagram n block)) buf),
    length-drop (length (data_datagram n block)) buf,
  )

  wrq_packet-data :
      (mode : List ℕ) (s : Wrq)
      → wrq_packet mode (record s { buf_recv = held }) (length (data_datagram n block)) ≡ (
          (if ltb s.last_block_ack n
            then write_data_to_file mode (moved n block buf) (length block) none
            else ok [])
          >>= λ written. ok (
              next (record s {
                block_num = n;
                buf_recv = moved n block buf;
                file = s.file ++ written;
                eof = ltb (length block) 512 || s.eof;
              })))
  unfolding wrq_packet wrq_data
  wrq_packet-data mode s =
      let wide : (length (data_datagram n block) + 2 ^ 64 - 4) % 2 ^ 64 ≡ length block =
        omega arith in
      rw (
        parse_header-packet Opcode.data' n (block ++ drop (length (data_datagram n block)) buf)
            (omega arith),
        wide,
        parse_held,
      )

-- The state behind a data packet: its number is the current one, and `written` is in the file.
abbrev pub stored : Wrq → ℕ → List ℕ → List ℕ → Wrq
stored s n block written = record s {
  block_num = n;
  buf_recv = moved n block s.buf_recv;
  file = s.file ++ written;
  eof = ltb (length block) 512 || s.eof;
}

module _ (mode : List ℕ) (s : Wrq) (n : ℕ) (block : List ℕ) (size : length s.buf_recv ≡ 516)
    (small : n < 2 ^ 16) (fit : length block ≤ 512) where
  receive-data :
      (written : List ℕ)
      → (if ltb s.last_block_ack n
          then write_data_to_file mode (moved n block s.buf_recv) (length block) none
          else ok [])
        ≡ ok written
      → wrq_receive mode s (arrival (data_datagram n block)) ≡ next (stored s n block written)
  unfolding wrq_receive
  receive-data written e = rw (
    tftp_recvfrom-data s.buf_recv n block size small fit,
    wrq_packet-data s.buf_recv n block size small fit mode s,
    e,
  )

  -- A block above the last acknowledged one is written.
  pub receive-new :
      (written : List ℕ)
      → s.last_block_ack < n
      → write_data_to_file mode (moved n block s.buf_recv) (length block) none ≡ ok written
      → wrq_receive mode s (arrival (data_datagram n block)) ≡ next (stored s n block written)
  receive-new written above e = receive-data written (rw (lt→ltb s.last_block_ack n above) e)

  -- A block at or below the last acknowledged one is not.
  pub receive-old :
      n ≤ s.last_block_ack
      → wrq_receive mode s (arrival (data_datagram n block)) ≡ next (stored s n block [])
  receive-old below = receive-data [] (rw (le→ltb-false s.last_block_ack n below))

  pub stored-IsReady : IsReady s → (written : List ℕ) → IsReady (stored s n block written)
  stored-IsReady ready written = record {
    send_size = ready.send_size;
    recv_size = length-moved s.buf_recv n block size small fit;
    block = small;
  }
