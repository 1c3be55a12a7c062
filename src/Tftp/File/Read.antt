-- ===== src/Tftp/File/Read.antt =====
-- `read_block` in the netascii mode cuts the translated file into blocks.
use ecen_602_projects.Common.{
  ℕ, zero, suc, ◌≡◌, refl, ◌≢◌, ap, Option, none, some, List, [], ◌∷◌, ◌++◌, ◌==◌, if◌then◌else◌,
  arith, take, drop, ne→==-false,
}
use ecen_602_projects.Tftp.File.Defs.{eof_byte, cr, lf, Reader, translate, read_netascii, push}

-- RFC 764: a line feed is sent as CR LF, a carriage return as CR NUL.
unfoldable pub encode_byte : ℕ → List ℕ
encode_byte c = if c == lf then cr ∷ lf ∷ [] else if c == cr then cr ∷ 0 ∷ [] else c ∷ []

unfoldable pub encode : List ℕ → List ℕ
encode [] = []
encode (c ∷ cs) = encode_byte c ++ encode cs

abbrev pub pending : Option ℕ → List ℕ
pending none = []
pending (some c) = c ∷ []

-- What is still to be sent: a byte held back, then the translation of the rest of the file.
unfoldable pub stream : Reader → List ℕ
stream r = pending r.nextchar ++ encode r.file

-- No byte of the file reads as EOF.
abbrev pub NoEof : List ℕ → Type 0
NoEof [] = Unit
NoEof (c ∷ cs) = (c ≢ eof_byte) × NoEof cs

-- One byte of the file gives a stored byte and the byte held back.
encode_byte-translate : (c : ℕ) → encode_byte c ≡ (translate c).0 ∷ pending (translate c).1
unfolding encode_byte translate
encode_byte-translate c = ground arith

pub record Cut (n : ℕ) (bytes : List ℕ) (res : List ℕ × Reader) : Type 0 where
  pub got : res.0 ≡ take n bytes
  pub left : stream res.1 ≡ drop n bytes
  pub plain : NoEof res.1.file

Cut-push :
    {n : ℕ} {bytes : List ℕ} {res : List ℕ × Reader} (c : ℕ)
    → Cut n bytes res
    → Cut (suc n) (c ∷ bytes) (push c res)
Cut-push c cut = record { got = ap (λ l. c ∷ l) cut.got; left = cut.left; plain = cut.plain }

read_netascii-cons :
    (n c : ℕ) (file : List ℕ)
    → c ≢ eof_byte
    → read_netascii (suc n) none (c ∷ file)
      ≡ push (translate c).0 (read_netascii n (translate c).1 file)
unfolding read_netascii
read_netascii-cons n c file h = rw (ne→==-false c eof_byte h, read_netascii)

stream-cons :
    (c : ℕ) (file : List ℕ)
    → stream (record { file = c ∷ file; nextchar = none })
      ≡ (translate c).0 ∷ stream (record { file = file; nextchar = (translate c).1 })
unfolding stream encode
stream-cons c file = ap (λ l. l ++ encode file) (encode_byte-translate c)

Cut-cons :
    (n c : ℕ) (file : List ℕ)
    → c ≢ eof_byte
    → Cut n
        (stream (record { file = file; nextchar = (translate c).1 }))
        (read_netascii n (translate c).1 file)
    → Cut
        (suc n)
        (stream (record { file = c ∷ file; nextchar = none }))
        (read_netascii (suc n) none (c ∷ file))
Cut-cons n c file h cut =
    rw (read_netascii-cons n c file h, stream-cons c file) (Cut-push (translate c).0 cut)

-- A round of `n` bytes returns the first `n` bytes of the stream and leaves the rest.
pub read_netascii-Cut :
    (n : ℕ) (next : Option ℕ) (file : List ℕ)
    → NoEof file
    → Cut n (stream (record { file = file; nextchar = next })) (read_netascii n next file)
unfolding read_netascii stream encode
read_netascii-Cut zero next file h = record { got = refl; left = refl; plain = h }
read_netascii-Cut (suc n) (some c) file h = Cut-push c (read_netascii-Cut n none file h)
read_netascii-Cut (suc n) none [] h = record { got = refl; left = refl; plain = tt }
read_netascii-Cut (suc n) none (c ∷ file) h =
    Cut-cons n c file h.0 (read_netascii-Cut n (translate c).1 file h.1)
