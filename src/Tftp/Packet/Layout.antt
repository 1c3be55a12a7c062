-- ===== src/Tftp/Packet/Layout.antt =====
-- What lies in the buffer after a packet is written, and what the parsers read from it.
use ecen_602_projects.Common.{
  ℕ, ◌+◌, ◌*◌, ◌/◌, ◌%◌, ◌^◌, ◌≤◌, ◌<◌, ◌≡◌, refl, ◌∙◌, List, [], ◌++◌, arith, length, drop,
  drop_all, append-nil, ◌==◌, ap, take, take-append-drop, sym, length-take, if◌then◌else◌,
}
use ecen_602_projects.Memory.{
  ok, fail, ◌>>=◌, memcpy, slice, store_u16, bswap_16, load_u16, big_endian, memcpy-extend,
  memcpy-front, slice-append, store_u16-bswap_16, load_u16-big_endian, bswap_16-big_endian,
}
use ecen_602_projects.Tftp.Opcode
use ecen_602_projects.Tftp.Packet.Defs.{
  DataPacket, ErrorPacket, data_to_buffer, ack_to_buffer, error_to_buffer, make_ack_packet,
  parse_header, parse_ack_packet, parse_data_packet,
}

-- Two words in network order, then the bytes `more`.
abbrev pub packet : ℕ → ℕ → List ℕ → List ℕ
packet a b more = big_endian a ++ (big_endian b ++ more)

module _ (buf : List ℕ) (a b : ℕ) (small_a : a < 2 ^ 16) (small_b : b < 2 ^ 16) where
  first : 4 ≤ length buf → memcpy buf 0 (store_u16 (bswap_16 a)) ≡ ok (big_endian a ++ drop 2 buf)
  first fit =
      rw (store_u16-bswap_16 a small_a) (memcpy-extend [] buf (big_endian a) 0 refl (omega arith))

  second :
      4 ≤ length buf
      → memcpy (big_endian a ++ drop 2 buf) 2 (store_u16 (bswap_16 b))
        ≡ ok (packet a b (drop 4 buf))
  second fit =
      rw (store_u16-bswap_16 b small_b)
        (memcpy-extend (big_endian a) buf (big_endian b) 2 refl (omega arith))

  third :
      (payload : List ℕ)
      → 4 + length payload ≤ length buf
      → memcpy (packet a b (drop 4 buf)) 4 payload
        ≡ ok (packet a b (payload ++ drop (4 + length payload) buf))
  third payload fit = memcpy-extend (packet a b []) buf payload 4 refl fit

-- A data packet of 512 payload bytes fills the buffer: opcode, block number, payload.
pub data_to_buffer_lem :
    (buf : List ℕ) (p : DataPacket)
    → length buf ≡ 516
    → p.opcode < 2 ^ 16
    → p.block_num < 2 ^ 16
    → length p.payload ≡ 512
    → data_to_buffer buf p ≡ ok (packet p.opcode p.block_num p.payload)
unfolding data_to_buffer
data_to_buffer_lem buf p size op bl len = rw (
  first buf p.opcode p.block_num op bl (omega arith),
  second buf p.opcode p.block_num op bl (omega arith),
  third buf p.opcode p.block_num op bl p.payload (omega arith),
  drop_all (4 + length p.payload) buf (omega arith),
  append-nil p.payload,
)

-- An error packet with a message array of `k` bytes is the head of the buffer; the rest is kept.
pub error_to_buffer_lem :
    (buf : List ℕ) (p : ErrorPacket)
    → p.opcode < 2 ^ 16
    → p.error_code < 2 ^ 16
    → 4 + length p.error_msg ≤ length buf
    → error_to_buffer buf p
      ≡ ok (packet p.opcode p.error_code (p.error_msg ++ drop (4 + length p.error_msg) buf))
unfolding error_to_buffer
error_to_buffer_lem buf p op code fit = rw (
  first buf p.opcode p.error_code op code (omega arith),
  second buf p.opcode p.error_code op code (omega arith),
  third buf p.opcode p.error_code op code p.error_msg fit,
)

-- An acknowledgement is the first four bytes of the buffer; the rest is kept.
pub make_ack_packet_lem :
    (buf : List ℕ) (n : ℕ)
    → 4 ≤ length buf
    → n < 2 ^ 16
    → make_ack_packet buf n ≡ ok (packet Opcode.ack n (drop 4 buf))
unfolding make_ack_packet ack_to_buffer
make_ack_packet_lem buf n fit small = rw (
  first buf Opcode.ack n (omega arith) small fit,
  second buf Opcode.ack n (omega arith) small fit,
)

module _ (a b : ℕ) (more : List ℕ) where
  pub parse_header-packet : a < 2 ^ 16 → parse_header (packet a b more) ≡ ok a
  unfolding parse_header
  parse_header-packet small =
      rw (load_u16-big_endian a 0 [] (big_endian b ++ more) refl, bswap_16-big_endian a small)

  load_block : load_u16 (packet a b more) 2 ≡ ok (b / 256 + 256 * (b % 256))
  load_block = load_u16-big_endian b 2 (big_endian a) more refl

  pub parse_ack_packet-packet :
      (n : ℕ) → b < 2 ^ 16 → parse_ack_packet (packet a b more) n ≡ (if b == n then ok tt else fail)
  unfolding parse_ack_packet
  parse_ack_packet-packet n small = rw (load_block, bswap_16-big_endian b small)

  -- The parser moves the first `n` payload bytes to the front, and nothing else changes.
  pub parse_data_packet-packet :
      (n : ℕ)
      → b < 2 ^ 16
      → n ≤ length more
      → parse_data_packet (packet a b more) n ≡ ok (b, take n more ++ drop n (packet a b more))
  unfolding parse_data_packet
  parse_data_packet-packet n small fit =
      let len : length (take n more) ≡ n = omega (arith, length-take n more) in
      let cut : slice (packet a b more) 4 n ≡ ok (take n more) =
        ap (λ l. slice (packet a b l) 4 n) (sym (take-append-drop n more))
        ∙ slice-append (packet a b []) (take n more) (drop n more) 4 n refl len in
      let copied : memcpy (packet a b more) 0 (take n more)
          ≡ ok (take n more ++ drop n (packet a b more)) =
        memcpy-front (packet a b more) (take n more) (omega arith)
        ∙ ap (λ k. ok (take n more ++ drop k (packet a b more))) len in
      rw (load_block, cut, copied, bswap_16-big_endian b small)

-- A data packet that was written is read back: its opcode, its block number and `n` payload bytes.
pub parse_data_packet-data_to_buffer :
    (buf : List ℕ) (p : DataPacket) (n : ℕ)
    → length buf ≡ 516
    → p.opcode < 2 ^ 16
    → p.block_num < 2 ^ 16
    → length p.payload ≡ 512
    → n ≤ 512
    → ((data_to_buffer buf p >>= parse_header) ≡ ok p.opcode)
      × ((data_to_buffer buf p >>= λ w. parse_data_packet w n)
          ≡ ok (p.block_num, take n p.payload ++ drop n (packet p.opcode p.block_num p.payload)))
parse_data_packet-data_to_buffer buf p n size op bl len le = (
  rw (data_to_buffer_lem buf p size op bl len)
      (parse_header-packet p.opcode p.block_num p.payload op),
  rw (data_to_buffer_lem buf p size op bl len)
      (parse_data_packet-packet p.opcode p.block_num p.payload n bl (omega arith)),
)

-- The acknowledgement of block `n` is accepted for `m` exactly if `n` is `m`, and is an ACK.
pub parse_ack_packet-make_ack_packet :
    (buf : List ℕ) (n m : ℕ)
    → 4 ≤ length buf
    → n < 2 ^ 16
    → ((make_ack_packet buf n >>= parse_header) ≡ ok Opcode.ack)
      × ((make_ack_packet buf n >>= λ w. parse_ack_packet w m) ≡ (if n == m then ok tt else fail))
parse_ack_packet-make_ack_packet buf n m fit small = (
  rw (make_ack_packet_lem buf n fit small)
      (parse_header-packet Opcode.ack n (drop 4 buf) (omega arith)),
  rw (make_ack_packet_lem buf n fit small)
      (parse_ack_packet-packet Opcode.ack n (drop 4 buf) m small),
)
