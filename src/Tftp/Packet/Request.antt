-- ===== src/Tftp/Packet/Request.antt =====
-- What `parse_trail_buf` reads from a request: name, NUL, mode, NUL, and what the buffer holds behind.
use ecen_602_projects.Common.{
  ℕ, ◌+◌, ◌≤◌, ◌<◌, ◌≡◌, ◌∙◌, ap, List, [], ◌∷◌, ◌++◌, arith, length, drop, replicate, drop_all,
  append-nil, sym, append_assoc, length-append,
}
use ecen_602_projects.Memory.{
  ok, fault, memcpy, slice, memcpy-front, memcpy-fault, slice-append, NoNul, c_string-append,
}
use ecen_602_projects.Tftp.Packet.Defs.{parse_trail_buf}

-- A request packet: opcode, name, NUL, the eight bytes behind it, and the rest of the buffer.
abbrev pub request : ℕ → ℕ → List ℕ → List ℕ → List ℕ → List ℕ
request o p name eight rest = o ∷ p ∷ (name ++ 0 ∷ (eight ++ rest))

module _ (o p : ℕ) (name eight rest : List ℕ) (plain : NoNul name) (len : length eight ≡ 8) where
  mode_at : slice (name ++ 0 ∷ (eight ++ rest)) (length name + 1) 8 ≡ ok eight
  mode_at =
      ap (λ l. slice l (length name + 1) 8) (sym (append_assoc name (0 ∷ []) (eight ++ rest)))
      ∙ slice-append (name ++ 0 ∷ []) eight rest (length name + 1) 8
          (omega (arith, length-append name (0 ∷ []))) len

  mode_copy : memcpy (replicate 8 0) 0 eight ≡ ok eight
  mode_copy =
      memcpy-front (replicate 8 0) eight (omega arith)
      ∙ ap ok (
          ap (λ l. eight ++ l) (drop_all (length eight) (replicate 8 0) (omega arith))
          ∙ append-nil eight)

  -- A name of at most 255 bytes is copied into its zeroed array, and the eight bytes behind its
  -- NUL are the mode.
  pub parse_trail_buf_lem :
      length name ≤ 255
      → parse_trail_buf (request o p name eight rest)
        ≡ ok (name ++ drop (length name) (replicate 255 0), eight)
  unfolding parse_trail_buf
  parse_trail_buf_lem fit = rw (
    c_string-append name (eight ++ rest) plain,
    memcpy-front (replicate 255 0) name (omega arith),
    mode_at,
    mode_copy,
  )

  -- A longer name is written past the end of the array.
  pub parse_trail_buf-long :
      255 < length name → parse_trail_buf (request o p name eight rest) ≡ fault
  unfolding parse_trail_buf
  parse_trail_buf-long long = rw (
    c_string-append name (eight ++ rest) plain,
    memcpy-fault (replicate 255 0) name 0 (omega arith),
  )
