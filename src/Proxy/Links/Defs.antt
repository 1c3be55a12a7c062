-- ===== src/Proxy/Links/Defs.antt =====
-- Heaps, the interface of a node with two links, and lists on a heap.
use ecen_602_projects.Common.{
  ℕ, ◌≡◌, ◌≢◌, Bool, false, ◌||◌, Option, some, List, [], ◌∷◌, ◌==◌, if◌then◌else◌,
}

abbrev pub Ptr : Type 0
Ptr = ℕ

abbrev pub null : Ptr
null = 0

-- An address with no node is not allocated.
abbrev pub Heap : Type 0 → Type 0
Heap A = Ptr → Option A

unfoldable pub write : {A : Type 0} → Heap A → Ptr → Option A → Heap A
write h p c a = if a == p then c else h a

-- Nodes with the fields `prev` and `next`; `linked` gives both.
pub record Linked (A : Type 0) : Type 0 where
  pub prev : A → Ptr
  pub next : A → Ptr
  pub with_prev : Ptr → A → A
  pub with_next : Ptr → A → A
  pub linked : Ptr → Ptr → A → A
  pub prev-linked : (p n : Ptr) (c : A) → prev (linked p n c) ≡ p
  pub next-linked : (p n : Ptr) (c : A) → next (linked p n c) ≡ n
  pub with_prev-linked : (q p n : Ptr) (c : A) → with_prev q (linked p n c) ≡ linked q n c
  pub with_next-linked : (q p n : Ptr) (c : A) → with_next q (linked p n c) ≡ linked p q c

module _ {A : Type 0} where
  abbrev pub has : Ptr → List (Ptr × A) → Bool
  has a [] = false
  has a ((p, _) ∷ xs) = (a == p) || has a xs

  abbrev pub head_or : Ptr → List (Ptr × A) → Ptr
  head_or n [] = n
  head_or n ((a, _) ∷ xs) = a

  abbrev pub last_or : Ptr → List (Ptr × A) → Ptr
  last_or p [] = p
  last_or p ((a, _) ∷ xs) = last_or a xs

  abbrev pub Distinct : List (Ptr × A) → Type 0
  Distinct [] = Unit
  Distinct ((a, _) ∷ xs) = (a ≢ null) × (has a xs ≡ false) × Distinct xs

  -- The cells stand one behind another, behind `p` and in front of `n`.
  abbrev pub Links : Linked A → Heap A → Ptr → List (Ptr × A) → Ptr → Type 0
  Links l h p [] n = Unit
  Links l h p ((a, c) ∷ xs) n = (h a ≡ some (l.linked p (head_or n xs) c)) × Links l h a xs n

  -- `g` differs from `h` at most at the addresses of the cells.
  abbrev pub SameOutside : List (Ptr × A) → Heap A → Heap A → Type 0
  SameOutside xs h g = (a : Ptr) → has a xs ≡ false → g a ≡ h a
