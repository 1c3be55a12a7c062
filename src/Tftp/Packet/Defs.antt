-- ===== src/Tftp/Packet/Defs.antt =====
-- Packets as structs, their layout in a buffer, and the parsers: Assignment_3/lib.c lines 103-175
-- and 223-308. `buf_send` and `buf_recv` of the handlers have 516 bytes.
use ecen_602_projects.Common.{ℕ, ◌+◌, List, ◌==◌, if◌then◌else◌, replicate, length, drop}
use ecen_602_projects.Memory.{
  Outcome, ok, fail, ◌>>=◌, memcpy, slice, c_string, strcpy, bswap_16, store_u16, load_u16,
}
use ecen_602_projects.Tftp.Opcode
use ecen_602_projects.Tftp.Opcode.{ErrorCode, code_of, max_file_name}

pub record DataPacket : Type 0 where
  pub opcode : ℕ
  pub block_num : ℕ
  pub payload : List ℕ  -- char[512]

pub record ErrorPacket : Type 0 where
  pub opcode : ℕ
  pub error_code : ℕ
  pub error_msg : List ℕ  -- char[128]
  pub trailing_zero : ℕ

pub record AckPacket : Type 0 where
  pub opcode : ℕ
  pub block_num : ℕ

unfoldable pub data_to_buffer : List ℕ → DataPacket → Outcome (List ℕ)
data_to_buffer buf_send data_packet = do
  buf_send ← memcpy buf_send 0 (store_u16 (bswap_16 data_packet.opcode))
  buf_send ← memcpy buf_send 2 (store_u16 (bswap_16 data_packet.block_num))
  memcpy buf_send 4 data_packet.payload

unfoldable pub error_to_buffer : List ℕ → ErrorPacket → Outcome (List ℕ)
error_to_buffer buf_send error_packet = do
  buf_send ← memcpy buf_send 0 (store_u16 (bswap_16 error_packet.opcode))
  buf_send ← memcpy buf_send 2 (store_u16 (bswap_16 error_packet.error_code))
  memcpy buf_send 4 error_packet.error_msg

unfoldable pub ack_to_buffer : List ℕ → AckPacket → Outcome (List ℕ)
ack_to_buffer buf_send ack_packet = do
  buf_send ← memcpy buf_send 0 (store_u16 (bswap_16 ack_packet.opcode))
  memcpy buf_send 2 (store_u16 (bswap_16 ack_packet.block_num))

unfoldable pub make_error_packet : ErrorCode → List ℕ → List ℕ → Outcome (List ℕ)
make_error_packet error_code error_msg buf_send = do
  msg ← strcpy (replicate 128 0) error_msg
  error_to_buffer buf_send (record {
    opcode = Opcode.error;
    error_code = code_of error_code;
    error_msg = msg;
    trailing_zero = 0;
  })

unfoldable pub make_ack_packet : List ℕ → ℕ → Outcome (List ℕ)
make_ack_packet buf_send block_num =
    ack_to_buffer buf_send (record { opcode = Opcode.ack; block_num = block_num })

unfoldable pub parse_header : List ℕ → Outcome ℕ
parse_header buf = load_u16 buf 0 >>= λ opcode. ok (bswap_16 opcode)

-- TFTP_OK exactly if the packet acknowledges `block_num`.
unfoldable pub parse_ack_packet : List ℕ → ℕ → Outcome (Unit {0})
parse_ack_packet buf_recv block_num = do
  n ← load_u16 buf_recv 2
  if bswap_16 n == block_num then ok tt else fail

-- Moves the payload to the front of the buffer, and returns the block number with the buffer.
-- The C code calls memcpy on overlapping ranges; this is the copy that memmove makes.
unfoldable pub parse_data_packet : List ℕ → ℕ → Outcome (ℕ × List ℕ)
parse_data_packet buf numbytes = do
  n ← load_u16 buf 2
  payload ← slice buf 4 numbytes
  buf ← memcpy buf 0 payload
  ok (bswap_16 n, buf)

-- File name and mode of a request, in arrays of 255 and 8 zero bytes. The search for the NUL
-- never returns NULL: it finds one or leaves the buffer.
unfoldable pub parse_trail_buf : List ℕ → Outcome (List ℕ × List ℕ)
parse_trail_buf buf = do
  let trail_buf = drop 2 buf
  name ← c_string trail_buf
  filename ← memcpy (replicate max_file_name 0) 0 name
  eight ← slice trail_buf (length name + 1) 8
  mode ← memcpy (replicate 8 0) 0 eight
  ok (filename, mode)
