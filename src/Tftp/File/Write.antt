-- ===== src/Tftp/File/Write.antt =====
-- `write_data_to_file` in the netascii mode undoes the translation, within one block.
use ecen_602_projects.Common.{
  ℕ, suc, ◌+◌, ◌≡◌, refl, ◌≢◌, ap, ◌∙◌, none, List, [], ◌∷◌, ◌++◌, ◌==◌, arith, length, inl, inr,
  Bool-cases, length-append, append_assoc, append-nil,
}
use ecen_602_projects.Memory.{Outcome, ok, fail, fault, ◌>>=◌, strcmp_eq_self}
use ecen_602_projects.Tftp.File.Defs.{
  eof_byte, cr, lf, emit, netascii, write_netascii, write_data_to_file,
}
use ecen_602_projects.Tftp.File.Read.{encode_byte, encode, NoEof}

module _ (k : ℕ) (buf : List ℕ) where
  write-plain :
      (c : ℕ) (b : List ℕ)
      → c ≢ eof_byte
      → c ≢ cr
      → write_netascii (suc k) none (c ∷ b) ≡ emit c (write_netascii k none b)
  unfolding write_netascii
  write-plain c [] h g = ground arith
  write-plain c (d ∷ b) h g = ground arith

  write-line_end :
      write_netascii (suc (suc k)) none (cr ∷ lf ∷ buf) ≡ emit lf (write_netascii k none buf)
  unfolding write_netascii
  write-line_end = ap (λ n. emit lf (write_netascii n none buf)) (omega arith)

  write-return :
      write_netascii (suc (suc k)) none (cr ∷ 0 ∷ buf) ≡ emit cr (write_netascii k none buf)
  unfolding write_netascii
  write-return = ap (λ n. emit cr (write_netascii n none buf)) (omega arith)

  write-encode_byte :
      (c : ℕ)
      → c ≢ eof_byte
      → write_netascii (length (encode_byte c) + k) none (encode_byte c ++ buf)
        ≡ emit c (write_netascii k none buf)
  unfolding encode_byte
  write-encode_byte c h = elim (Bool-cases (c == lf)) [
    | inl e ↦
        let q : c ≡ lf = ground arith in
        let two : 2 + k ≡ suc (suc k) = omega arith in
        rw q (ap (λ n. write_netascii n none (cr ∷ lf ∷ buf)) two ∙ write-line_end)
    | inr e ↦ elim (Bool-cases (c == cr)) [
      | inl e' ↦
          let q : c ≡ cr = ground arith in
          let two : 2 + k ≡ suc (suc k) = omega arith in
          rw q (ap (λ n. write_netascii n none (cr ∷ 0 ∷ buf)) two ∙ write-return)
      | inr e' ↦
          let one : 1 + k ≡ suc k = omega arith in
          rw (e, e')
            (ap (λ n. write_netascii n none (c ∷ buf)) one ∙ write-plain c buf h (ground arith))
    ]
  ]

>>=-ok : (m : Outcome (List ℕ)) → m ≡ (m >>= λ out. ok out)
>>=-ok (ok out) = refl
>>=-ok fail = refl
>>=-ok fault = refl

>>=-emit :
    (c : ℕ) (m : Outcome (List ℕ)) (s : List ℕ)
    → emit c (m >>= λ out. ok (s ++ out)) ≡ (m >>= λ out. ok (c ∷ (s ++ out)))
>>=-emit c (ok out) s = refl
>>=-emit c fail s = refl
>>=-emit c fault s = refl

-- The translation of `s` in front of `k` more bytes is written as `s`, and the loop goes on.
pub write_netascii-encode :
    (s buf : List ℕ) (k : ℕ)
    → NoEof s
    → write_netascii (length (encode s) + k) none (encode s ++ buf)
      ≡ (write_netascii k none buf >>= λ out. ok (s ++ out))
unfolding encode
write_netascii-encode [] buf k h =
    ap (λ n. write_netascii n none buf) (omega arith) ∙ >>=-ok (write_netascii k none buf)
write_netascii-encode (c ∷ cs) buf k h =
    ap (λ n. write_netascii n none ((encode_byte c ++ encode cs) ++ buf))
      (omega (arith, length-append (encode_byte c) (encode cs)))
    ∙ (ap (λ l. write_netascii (length (encode_byte c) + (length (encode cs) + k)) none l)
          (append_assoc (encode_byte c) (encode cs) buf)
        ∙ (write-encode_byte (length (encode cs) + k) (encode cs ++ buf) c h.0
            ∙ (ap (emit c) (write_netascii-encode cs buf k h.1)
                ∙ >>=-emit c (write_netascii k none buf) cs)))

nothing : (s rest : List ℕ) → (write_netascii 0 none rest >>= λ out. ok (s ++ out)) ≡ ok s
unfolding write_netascii
nothing s rest = ap ok (append-nil s)

lone :
    (rest : List ℕ) (d : ℕ) → d ≢ 0 → d ≢ lf → write_netascii 1 none (cr ∷ d ∷ rest) ≡ ok (cr ∷ [])
unfolding write_netascii
lone rest d ne ne' = ground arith

-- A file that is translated into one block is written back as it was.
pub write_data_to_file-encode :
    (s rest more : List ℕ)
    → NoEof s
    → write_data_to_file (netascii ++ 0 ∷ more) (encode s ++ rest) (length (encode s)) none ≡ ok s
unfolding write_data_to_file
write_data_to_file-encode s rest more h =
    let whole : write_netascii (length (encode s)) none (encode s ++ rest) ≡ ok s =
      ap (λ n. write_netascii n none (encode s ++ rest)) (omega arith)
      ∙ (write_netascii-encode s rest 0 h ∙ nothing s rest) in
    rw (strcmp_eq_self netascii more) whole

-- A block that ends between CR and LF leaves the CR in the file: only bytes 0 and 10 behind it
-- in the buffer, which belong to no block, would be joined with it.
pub write_netascii-split :
    (s rest : List ℕ) (d : ℕ)
    → NoEof s
    → d ≢ 0
    → d ≢ lf
    → write_netascii (length (encode s) + 1) none (encode s ++ cr ∷ d ∷ rest) ≡ ok (s ++ cr ∷ [])
write_netascii-split s rest d h ne ne' =
    write_netascii-encode s (cr ∷ d ∷ rest) 1 h
    ∙ ap (λ (m : Outcome (List ℕ)). m >>= λ out. ok (s ++ out)) (lone rest d ne ne')
