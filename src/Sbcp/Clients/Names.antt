-- ===== src/Sbcp/Clients/Names.antt =====
-- The names of the clients as strings: is_duplicate_name of Assignment_2/server_lib.c.
use ecen_602_projects.Common.{
  ℕ, ◌≡◌, refl, Bool, true, false, List, [], ◌∷◌, ◌++◌, arith, ◌==◌, if◌then◌else◌, map,
}
use ecen_602_projects.Memory.{ok, NoNul, strcmp_arrays}
use ecen_602_projects.Sbcp.Clients.Defs.{Node, is_duplicate_name}

-- A connection whose name array holds a string and its terminator.
pub record Client : Type 0 where
  pub fd : ℕ
  pub name : List ℕ
  pub more : List ℕ

abbrev pub node_of : Client → Node
node_of c = record { fd = c.fd; username = c.name ++ 0 ∷ c.more }

abbrev pub PlainNames : List Client → Type 0
PlainNames [] = Unit
PlainNames (c ∷ cs) = NoNul c.name × PlainNames cs

unfoldable pub same : List ℕ → List ℕ → Bool
same [] [] = true
same [] (d ∷ t) = false
same (c ∷ s) [] = false
same (c ∷ s) (d ∷ t) = if c == d then same s t else false

unfoldable pub has_name : List ℕ → List Client → Bool
has_name name [] = false
has_name name (c ∷ cs) = if same c.name name then true else has_name name cs

pub strcmp_arrays-same :
    (s t more more' : List ℕ)
    → NoNul s
    → NoNul t
    → strcmp_arrays (s ++ 0 ∷ more) (t ++ 0 ∷ more') ≡ ok (same s t)
unfolding strcmp_arrays same
strcmp_arrays-same [] [] more more' p q = refl
strcmp_arrays-same [] (d ∷ t) more more' p q = let h = q.0 in ground arith
strcmp_arrays-same (c ∷ s) [] more more' p q = let h = p.0 in ground arith
strcmp_arrays-same (c ∷ s) (d ∷ t) more more' p q =
    let h = p.0 in let ih = strcmp_arrays-same s t more more' p.1 q.1 in ground arith

-- The search compares strings, whatever stands behind their terminators.
pub is_duplicate_name-has_name :
    (cs : List Client) (name more : List ℕ)
    → PlainNames cs
    → NoNul name
    → is_duplicate_name (map node_of cs) (name ++ 0 ∷ more) ≡ ok (has_name name cs)
unfolding is_duplicate_name has_name
is_duplicate_name-has_name [] name more p q = refl
is_duplicate_name-has_name (c ∷ cs) name more p q =
    rw
      (
        strcmp_arrays-same c.name name c.more more p.0 q,
        is_duplicate_name-has_name cs name more p.1 q,
      )
      (pick (same c.name name))
  where
    pick :
        (b : Bool)
        → (if b then ok true else ok (has_name name cs)) ≡ ok (if b then true else has_name name cs)
    pick true = refl
    pick false = refl
