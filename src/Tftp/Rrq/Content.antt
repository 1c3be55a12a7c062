-- ===== src/Tftp/Rrq/Content.antt =====
-- The bytes that a request transfers, in either mode, and what one round sends of them.
use ecen_602_projects.Common.{
  ℕ, ◌+◌, ◌%◌, ◌^◌, ◌≤◌, ◌<◌, ◌≡◌, refl, ap, ◌∙◌, sym, some, List, [], ◌∷◌, ◌++◌, arith, ltb,
  length, take, drop, replicate, length-take, length-append, length-drop,
}
use ecen_602_projects.Memory.{ok, strcmp_eq_self, strcmp_eq, memcpy-front, slice, slice-append}
use ecen_602_projects.Tftp.Opcode
use ecen_602_projects.Tftp.Packet.Layout.{packet, data_to_buffer_lem}
use ecen_602_projects.Tftp.File.{
  Reader, netascii, octet, read_netascii, read_octet, read_block, fill_packet, make_data_packet,
}
use ecen_602_projects.Tftp.File.Read.{stream, NoEof, read_netascii-Cut}
use ecen_602_projects.Tftp.Rrq.Defs.{Rrq, rrq_send}

-- With this mode string and this file, `bytes` is what is left to send.
pub data Content (mode : List ℕ) (r : Reader) (bytes : List ℕ) : Type 0 where
  in_octet : (more : List ℕ) → mode ≡ octet ++ 0 ∷ more → bytes ≡ r.file → Content mode r bytes
  in_netascii :
      (more : List ℕ)
      → mode ≡ netascii ++ 0 ∷ more
      → NoEof r.file
      → bytes ≡ stream r
      → Content mode r bytes

-- A block is the next 512 bytes, and the file is left with the others.
pub record Block (mode : List ℕ) (r : Reader) (bytes : List ℕ) : Type 0 where
  pub rest : Reader
  pub reads : read_block mode r ≡ ok (some (take 512 bytes, rest))
  pub remains : Content mode rest (drop 512 bytes)

netascii-Block :
    (more : List ℕ) (r : Reader) (bytes : List ℕ)
    → NoEof r.file
    → bytes ≡ stream r
    → Block (netascii ++ 0 ∷ more) r bytes
unfolding read_block
netascii-Block more r bytes plain e =
    let cut = read_netascii-Cut 512 r.nextchar r.file plain in
    record {
      rest = (read_netascii 512 r.nextchar r.file).1;
      reads = rw (strcmp_eq_self netascii more) (
          ap (λ l. ok (some (l, (read_netascii 512 r.nextchar r.file).1)))
            (cut.got ∙ ap (take 512) (sym e)));
      remains = in_netascii more refl cut.plain (ap (drop 512) e ∙ sym cut.left);
    }

octet-Block : (more : List ℕ) (r : Reader) → Block (octet ++ 0 ∷ more) r r.file
unfolding read_block read_octet strcmp_eq
octet-Block more r = record {
  rest = record r { file = drop 512 r.file };
  reads = refl;
  remains = in_octet more refl refl;
}

pub Content-Block :
    {mode : List ℕ} {r : Reader} {bytes : List ℕ} → Content mode r bytes → Block mode r bytes
Content-Block (in_octet more e f) = rw (e, f) (octet-Block more _)
Content-Block {r} {bytes} (in_netascii more e plain f) = rw e (netascii-Block more r bytes plain f)

-- The payload array: the block, then zeros.
abbrev pub payload : List ℕ → List ℕ
payload bytes = take 512 bytes ++ drop (length (take 512 bytes)) (replicate 512 0)

abbrev pub data_block : ℕ → List ℕ → List ℕ
data_block n bytes = packet Opcode.data' n (take 512 bytes)

pub length-payload : (bytes : List ℕ) → length (payload bytes) ≡ 512
length-payload bytes = omega (
  arith,
  length-append (take 512 bytes) (drop (length (take 512 bytes)) (replicate 512 0)),
  length-drop (length (take 512 bytes)) (replicate {A = ℕ} 512 0),
  length-take 512 bytes,
)

-- A round sends the next block under the current number.
pub rrq_send-Content :
    (mode : List ℕ) (s : Rrq) (bytes : List ℕ)
    → length s.buf_send ≡ 516
    → s.block_num < 2 ^ 16
    → (b : Block mode s.reader bytes)
    → rrq_send mode s
      ≡ ok (record {
        datagram = data_block s.block_num bytes;
        is_eof = ltb (length (take 512 bytes)) 512;
        state = record s {
          reader = b.rest;
          buf_send = packet Opcode.data' s.block_num (payload bytes);
        };
      })
unfolding rrq_send make_data_packet fill_packet
rrq_send-Content mode s bytes size small b =
    let len = length-payload bytes in
    let short : length (take 512 bytes) ≤ 512 = omega (arith, length-take 512 bytes) in
    let head : slice (packet Opcode.data' s.block_num (payload bytes)) 0
          (4 + length (take 512 bytes))
        ≡ ok (data_block s.block_num bytes) =
      slice-append [] (data_block s.block_num bytes)
        (drop (length (take 512 bytes)) (replicate 512 0)) 0 (4 + length (take 512 bytes)) refl
        (omega arith) in
    let wide : (4 + length (take 512 bytes)) % 2 ^ 64 ≡ 4 + length (take 512 bytes) = omega arith in
    rw (
      b.reads,
      memcpy-front (replicate 512 0) (take 512 bytes) short,
      data_to_buffer_lem s.buf_send
          (record { opcode = Opcode.data'; block_num = s.block_num; payload = payload bytes }) size
          (omega arith) small len,
      wide,
      head,
    )
