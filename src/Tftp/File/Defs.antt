-- ===== src/Tftp/File/Defs.antt =====
-- Reading a file in blocks and writing received blocks: Assignment_3/lib.c lines 34-82 and 155-217.
-- A file is the list of the bytes that are left to read. `char` is signed, as on x86-64, so that
-- the byte 255 equals EOF when it is held in a `char`.
use ecen_602_projects.Common.{
  ℕ, zero, suc, ◌-◌, ◌^◌, Bool, true, false, Option, none, some, List, [], ◌∷◌, ◌==◌, if◌then◌else◌,
  length, take, drop, replicate,
}
use ecen_602_projects.Memory.{Outcome, ok, fault, ◌>>=◌, memcpy, slice, strcmp_eq}
use ecen_602_projects.Tftp.Opcode
use ecen_602_projects.Tftp.Opcode.{max_buf_len}
use ecen_602_projects.Tftp.Packet.{data_to_buffer}

-- (size_t)-1
abbrev pub size_max : ℕ
size_max = 2 ^ 64 - 1

abbrev pub eof_byte : ℕ
eof_byte = 255

abbrev pub cr : ℕ
cr = 13

abbrev pub lf : ℕ
lf = 10

abbrev pub netascii : List ℕ
netascii = b'n' ∷ b'e' ∷ b't' ∷ b'a' ∷ b's' ∷ b'c' ∷ b'i' ∷ b'i' ∷ []

abbrev pub octet : List ℕ
octet = b'o' ∷ b'c' ∷ b't' ∷ b'e' ∷ b't' ∷ []

-- An open file and the variable `nextchar`, which is -1 in the case `none`.
pub record Reader : Type 0 where
  pub file : List ℕ
  pub nextchar : Option ℕ

-- The byte that is stored for `c`, and the new `nextchar`.
unfoldable pub translate : ℕ → ℕ × Option ℕ
translate c = if c == lf then (cr, some lf) else if c == cr then (cr, some 0) else (c, none)

abbrev pub push : ℕ → List ℕ × Reader → List ℕ × Reader
push c (out, r) = (c ∷ out, r)

-- The `for` loop of `read_block`, with the rounds that are left.
unfoldable pub read_netascii : ℕ → Option ℕ → List ℕ → List ℕ × Reader
read_netascii zero next file = ([], record { file = file; nextchar = next })
read_netascii (suc n) (some c) file = push c (read_netascii n none file)
read_netascii (suc n) none [] = ([], record { file = []; nextchar = none })
read_netascii (suc n) none (c ∷ file) = elim (c == eof_byte) [
  | true ↦ ([], record { file = file; nextchar = none })
  | false ↦ push (translate c).0 (read_netascii n (translate c).1 file)
]

-- fread(buf, 1, MAXBUFLEN, fp)
unfoldable pub read_octet : Reader → List ℕ × Reader
read_octet r = (take max_buf_len r.file, record r { file = drop max_buf_len r.file })

-- The bytes read, or `none` for the result -1. `mode` is the array and what lies behind it.
unfoldable pub read_block : List ℕ → Reader → Outcome (Option (List ℕ × Reader))
read_block mode r = do
  is_netascii ← strcmp_eq mode netascii
  if is_netascii
      then ok (some (read_netascii max_buf_len r.nextchar r.file))
      else do is_octet ← strcmp_eq mode octet; ok (if is_octet then some (read_octet r) else none)

-- What `make_data_packet` leaves behind: its result, `buf_send`, `*numbytes` and the file.
pub record Made : Type 0 where
  pub succeeded : Bool
  pub buf_send : List ℕ
  pub numbytes : ℕ
  pub reader : Reader

-- A block that was read goes behind the header, in a payload array of zeros.
unfoldable pub fill_packet : ℕ → List ℕ → Option (List ℕ × Reader) → Reader → Outcome Made
fill_packet block_num buf_send none r =
    ok (record { succeeded = false; buf_send = buf_send; numbytes = size_max; reader = r })
fill_packet block_num buf_send (some (block, r')) r = do
  payload ← memcpy (replicate 512 0) 0 block
  buf_send ←
      data_to_buffer buf_send
        (record { opcode = Opcode.data'; block_num = block_num; payload = payload })
  ok (record { succeeded = true; buf_send = buf_send; numbytes = length block; reader = r' })

unfoldable pub make_data_packet : List ℕ → ℕ → List ℕ → Reader → Outcome Made
make_data_packet mode block_num buf_send r = do
  block ← read_block mode r
  fill_packet block_num buf_send block r

abbrev pub emit : ℕ → Outcome (List ℕ) → Outcome (List ℕ)
emit c rest = rest >>= λ out. ok (c ∷ out)

-- The `for` loop of `write_data_to_file`: `k` bytes of the buffer are left, `next` is `_nextchar`.
-- The byte behind a CR is looked at even where it lies behind the last of the `k`.
unfoldable pub write_netascii : ℕ → Option ℕ → List ℕ → Outcome (List ℕ)
write_netascii zero next buf = ok []
write_netascii (suc k) next [] = fault
write_netascii (suc k) (some b) (c ∷ buf) = emit b (write_netascii k none buf)
write_netascii (suc k) none (c ∷ []) =
    if c == eof_byte then ok [] else if c == cr then fault else emit c (write_netascii k none [])
write_netascii (suc k) none (c ∷ d ∷ buf) = elim (c == eof_byte) [
  | true ↦ ok []
  | false ↦ elim (c == cr) [
    | false ↦ emit c (write_netascii k none (d ∷ buf))
    | true ↦ elim (d == 0) [
      | true ↦ emit cr (write_netascii (k - 1) none buf)
      | false ↦ elim (d == lf) [
        | true ↦ emit lf (write_netascii (k - 1) none buf)
        | false ↦ emit cr (write_netascii k none (d ∷ buf))
      ]
    ]
  ]
]

-- The bytes that are appended to the file. Another mode writes nothing (the result -1 is dropped).
unfoldable pub write_data_to_file : List ℕ → List ℕ → ℕ → Option ℕ → Outcome (List ℕ)
write_data_to_file mode buf numbytes next = do
  is_netascii ← strcmp_eq mode netascii
  if is_netascii
      then write_netascii numbytes next buf
      else do is_octet ← strcmp_eq mode octet; if is_octet then slice buf 0 numbytes else ok []
