-- ===== src/HttpClient/Filename.antt =====
-- The name of the file: the last part of the path.
use ecen_602_projects.Common.{
  ℕ, zero, suc, ◌≡◌, refl, ap, none, some, List, [], ◌∷◌, ◌++◌, arith, replicate, Bool-cases, inl,
  inr, ◌==◌, ne→==-false,
}
use ecen_602_projects.Memory.{ok, fault, NoNul, NoNul-append, c_string-append}
use ecen_602_projects.Proxy.Http.{add_front}
use ecen_602_projects.Proxy.Http.Strings.{Without}
use ecen_602_projects.HttpClient.Receive.{cut, last_token, token_of, get_filename}

cut-front : (c : ℕ) (s : List ℕ) → Without b'/' (c ∷ s) → cut (c ∷ s) ≡ (c ∷ s) ∷ []
unfolding cut add_front
cut-front c [] h = rw (ne→==-false c b'/' h.0)
cut-front c (d ∷ s) h = rw (ne→==-false c b'/' h.0, cut-front d s h.1)

-- A first part and others, of which the last that is not empty is `t`.
record Parts (parts : List (List ℕ)) (t : List ℕ) : Type 0 where
  first : List ℕ
  others : List (List ℕ)
  whole : parts ≡ first ∷ others
  last : last_token others ≡ some t

last_token-others :
    (p : List ℕ) (ps : List (List ℕ)) (t : List ℕ)
    → last_token ps ≡ some t
    → last_token (p ∷ ps) ≡ some t
unfolding last_token
last_token-others [] ps t h = h
last_token-others (c ∷ p) ps t h = rw h refl

-- A slash and the last part behind any directory.
cut-Parts :
    (dir : List ℕ) (c : ℕ) (name : List ℕ)
    → Without b'/' (c ∷ name)
    → Parts (cut (dir ++ b'/' ∷ c ∷ name)) (c ∷ name)
unfolding cut add_front last_token
cut-Parts [] c name h = record {
  first = [];
  others = (c ∷ name) ∷ [];
  whole = ap (λ l. [] ∷ l) (cut-front c name h);
  last = refl;
}
cut-Parts (d ∷ dir) c name h =
    let parts = cut-Parts dir c name h in
    elim (Bool-cases (d == b'/')) [
      | inl e ↦ record {
        first = [];
        others = parts.first ∷ parts.others;
        whole = rw (e, parts.whole) refl;
        last = last_token-others parts.first parts.others (c ∷ name) parts.last;
      }
      | inr e ↦ record {
        first = d ∷ parts.first;
        others = parts.others;
        whole = rw (e, parts.whole) refl;
        last = parts.last;
      }
    ]

last_token-cut :
    (dir : List ℕ) (c : ℕ) (name : List ℕ)
    → Without b'/' (c ∷ name)
    → last_token (cut (dir ++ b'/' ∷ c ∷ name)) ≡ some (c ∷ name)
last_token-cut dir c name h =
    let parts = cut-Parts dir c name h in
    rw parts.whole (last_token-others parts.first parts.others (c ∷ name) parts.last)

-- The file is named by what stands behind the last slash of the path, where that is not empty.
pub get_filename-last_token :
    (dir : List ℕ) (c : ℕ) (name rest : List ℕ)
    → NoNul dir
    → NoNul (c ∷ name)
    → Without b'/' (c ∷ name)
    → get_filename ((dir ++ b'/' ∷ c ∷ name) ++ 0 ∷ rest) ≡ ok (c ∷ name)
unfolding get_filename token_of
get_filename-last_token dir c name rest h k w = rw (
  c_string-append (dir ++ b'/' ∷ c ∷ name) rest
      (NoNul-append dir (b'/' ∷ c ∷ name) h (omega arith, k)),
  last_token-cut dir c name w,
)

-- Slashes only: strtok has no token.
last_token-replicate : (n : ℕ) → last_token (cut (replicate n b'/')) ≡ none
unfolding cut last_token
last_token-replicate zero = refl
last_token-replicate (suc n) = last_token-replicate n

NoNul-replicate : (n : ℕ) → NoNul (replicate n b'/')
NoNul-replicate zero = tt
NoNul-replicate (suc n) = (omega arith, NoNul-replicate n)

-- For a path of slashes only, as the root, the pointer to the name is not set.
pub get_filename-fault :
    (n : ℕ) (rest : List ℕ) → get_filename (replicate n b'/' ++ 0 ∷ rest) ≡ fault
unfolding get_filename token_of
get_filename-fault n rest =
    rw (c_string-append (replicate n b'/') rest (NoNul-replicate n), last_token-replicate n)
