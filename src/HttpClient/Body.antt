-- ===== src/HttpClient/Body.antt =====
-- The body of an answer, however recv cuts it.
use mathlib.Core.List.{flatten}
use ecen_602_projects.Common.{
  ℕ, zero, suc, ◌+◌, ◌-◌, ◌≤◌, ◌<◌, ◌≡◌, ◌≢◌, sym, ap, List, [], ◌∷◌, ◌++◌, arith, ltb, length,
  take, Bool-cases, inl, inr, ne→==-false, take-append_within, take_all,
}
use ecen_602_projects.HttpClient.Defs.{copy_body}

-- No result of recv is empty: the connection is open.
abbrev pub Open : List (List ℕ) → Type 0
Open [] = Unit
Open (bytes ∷ more) = (length bytes ≢ 0) × Open more

pub take_behind :
    (k n : ℕ) (xs ys : List ℕ) → k ≡ length xs + n → take k (xs ++ ys) ≡ xs ++ take n ys
take_behind k n [] ys h = ap (λ m. take m ys) (let e : k ≡ n = omega arith in e)
take_behind zero n (x ∷ xs) ys h = absurd (omega arith)
take_behind (suc k) n (x ∷ xs) ys h = ap (λ l. x ∷ l) (take_behind k n xs ys (omega arith))

-- As long as the connection is open, the file is given exactly the bytes that are missing, in order, and
-- nothing of what follows them.
pub copy_body-take :
    (content_length count : ℕ) (rounds : List (List ℕ))
    → Open rounds
    → count ≤ content_length
    → (copy_body content_length count rounds).0 ≡ take (content_length - count) (flatten rounds)
unfolding copy_body flatten
copy_body-take content_length count [] o le =
    sym (take_all (content_length - count) [] (omega arith))
copy_body-take content_length count (bytes ∷ more) o le =
    elim (Bool-cases (ltb content_length (count + length bytes))) [
      | inl over ↦
          let past : content_length < count + length bytes = ground arith in
          let part : length bytes - (count + length bytes - content_length)
              ≡ content_length - count =
            omega arith in
          rw (ne→==-false (length bytes) 0 o.0, over, part)
            (sym (take-append_within (content_length - count) bytes (flatten more) (omega arith)))
      | inr under ↦
          let within : count + length bytes ≤ content_length = ground arith in
          rw
            (
              ne→==-false (length bytes) 0 o.0,
              under,
              copy_body-take content_length (count + length bytes) more o.1 within,
            )
            (sym (
              take_behind (content_length - count) (content_length - (count + length bytes)) bytes
                (flatten more) (omega arith)))
    ]
