-- ===== src/Proxy/Http/Strings.antt =====
-- strchr, strncpy and strtok_r on strings that are put together from parts.
use ecen_602_projects.Common.{
  none, ℕ, zero, suc, ◌+◌, ◌-◌, ◌<◌, ◌≡◌, ◌≢◌, refl, ap, ◌∙◌, false, some, List, [], ◌∷◌, ◌++◌,
  arith, length, drop, replicate, ==_self, ne→==-false,
}
use ecen_602_projects.Memory.{ok, NoNul}
use ecen_602_projects.Proxy.Http.Defs.{
  index_of, padded_string, is_delimiter, first_token, add_front, tokens,
}

-- No byte of the string is `c`.
abbrev pub Without : ℕ → List ℕ → Type 0
Without c [] = Unit
Without c (d ∷ s) = (d ≢ c) × Without c s

pub Without-append : (c : ℕ) (s t : List ℕ) → Without c s → Without c t → Without c (s ++ t)
Without-append c [] t h k = k
Without-append c (d ∷ s) t h k = (h.0, Without-append c s t h.1 k)

pub index_of-append :
    (c : ℕ) (s rest : List ℕ) → Without c s → index_of c (s ++ c ∷ rest) ≡ some (length s)
unfolding index_of
index_of-append c [] rest h = rw (==_self c)
index_of-append c (d ∷ s) rest h = rw (ne→==-false d c h.0, index_of-append c s rest h.1)

pub index_of-none : (c : ℕ) (s : List ℕ) → Without c s → index_of c s ≡ none
unfolding index_of
index_of-none c [] h = refl
index_of-none c (d ∷ s) h = rw (ne→==-false d c h.0, index_of-none c s h.1)

-- strncpy of exactly the string, and of more bytes than it has.
pub padded_string-append : (s rest : List ℕ) → NoNul s → padded_string (length s) (s ++ rest) ≡ ok s
unfolding padded_string
padded_string-append [] rest h = refl
padded_string-append (c ∷ s) rest h = rw (ne→==-false c 0 h.0, padded_string-append s rest h.1)

pub padded_string_filled :
    (k n : ℕ) (s rest : List ℕ)
    → k ≡ length s + suc n
    → NoNul s
    → padded_string k (s ++ 0 ∷ rest) ≡ ok (s ++ replicate (suc n) 0)
unfolding padded_string
padded_string_filled k n [] rest size h = rw (let e : k ≡ suc n = omega arith in e) refl
padded_string_filled zero n (c ∷ s) rest size h = absurd (omega arith)
padded_string_filled (suc k) n (c ∷ s) rest size h =
    rw (ne→==-false c 0 h.0, padded_string_filled k n s rest (omega arith) h.1)

-- A line: no terminator and no byte at which strtok_r cuts.
abbrev pub Plain : List ℕ → Type 0
Plain s = NoNul s × Without 13 s × Without 10 s

pub Plain_delimiter : (c : ℕ) → c ≢ 13 → c ≢ 10 → is_delimiter c ≡ false
unfolding is_delimiter
Plain_delimiter c h k = ground arith

pub first_token_line : (t rest : List ℕ) → Plain t → first_token (t ++ 13 ∷ rest) ≡ t
unfolding first_token is_delimiter
first_token_line [] rest h = refl
first_token_line (c ∷ t) rest h = ground (arith, first_token_line t rest (h.0.1, h.1.1, h.2.1))

-- strtok_r takes a line and goes on behind its end.
pub tokens_line :
    (c : ℕ) (t rest : List ℕ)
    → Plain (c ∷ t)
    → tokens ((c ∷ t) ++ 13 ∷ 10 ∷ rest) ≡ (c ∷ t) ∷ tokens rest
unfolding tokens is_delimiter add_front
tokens_line c [] rest h = rw (Plain_delimiter c h.1.0 h.2.0) (ap (λ l. (c ∷ []) ∷ l) (behind rest))
  where
    behind : (rest : List ℕ) → tokens (13 ∷ 10 ∷ rest) ≡ tokens rest
    behind [] = refl
    behind (d ∷ s) = refl
tokens_line c (d ∷ t) rest h = rw (
  Plain_delimiter c h.1.0 h.2.0,
  Plain_delimiter d h.1.1.0 h.2.1.0,
  tokens_line d t rest (h.0.1, h.1.1, h.2.1),
)

-- The zeros that memset writes in front of what an array held.
pub drop_zeros :
    (k n : ℕ) (r : List ℕ)
    → k < n
    → drop k (replicate n 0 ++ r) ≡ 0 ∷ (replicate (n - k - 1) 0 ++ r)
drop_zeros k zero r h = absurd (omega arith)
drop_zeros zero (suc n) r h = rw (let e : suc n - 0 - 1 ≡ n = omega arith in e)
drop_zeros (suc k) (suc n) r h =
    drop_zeros k n r (omega arith)
    ∙ ap (λ m. 0 ∷ (replicate m 0 ++ r)) (let e : n - k - 1 ≡ suc n - suc k - 1 = omega arith in e)
