-- ===== src/Proxy/Links/Segments.antt =====
-- Lists put together and cut, and changes elsewhere on the heap.
use ecen_602_projects.Common.{
  ◌≡◌, ◌≢◌, refl, ◌∙◌, true, false, ◌||◌, Option, List, [], ◌∷◌, ◌++◌, arith,
}
use ecen_602_projects.Proxy.Links.Defs.{
  Ptr, null, Heap, write, Linked, has, head_or, last_or, Distinct, Links,
}

module _ {A : Type 0} where
  pub has-append : (a : Ptr) (xs ys : List (Ptr × A)) → has a (xs ++ ys) ≡ (has a xs || has a ys)
  has-append a [] ys = refl
  has-append a ((p, _) ∷ xs) ys = ground (arith, has-append a xs ys)

  pub head_or-append :
      (n : Ptr) (xs ys : List (Ptr × A)) → head_or n (xs ++ ys) ≡ head_or (head_or n ys) xs
  head_or-append n [] ys = refl
  head_or-append n (x ∷ xs) ys = refl

  pub last_or-append :
      (p : Ptr) (xs ys : List (Ptr × A)) → last_or p (xs ++ ys) ≡ last_or (last_or p xs) ys
  last_or-append p [] ys = refl
  last_or-append p ((a, _) ∷ xs) ys = last_or-append a xs ys

  pub Distinct-front : (xs ys : List (Ptr × A)) → Distinct (xs ++ ys) → Distinct xs
  Distinct-front [] ys d = omega arith
  Distinct-front ((a, c) ∷ xs) ys d =
      (d.0, ground (arith, has-append a xs ys), Distinct-front xs ys d.2)

  -- What stands in one part does not stand in the other.
  pub Distinct-apart :
      (xs ys : List (Ptr × A)) (a : Ptr) → Distinct (xs ++ ys) → has a ys ≡ true → has a xs ≡ false
  Distinct-apart [] ys a d i = refl
  Distinct-apart ((p, c) ∷ xs) ys a d i =
      ground (arith, has-append p xs ys, Distinct-apart xs ys a d.2 i)

  pub Distinct-back : (xs ys : List (Ptr × A)) → Distinct (xs ++ ys) → Distinct ys
  Distinct-back [] ys d = d
  Distinct-back (x ∷ xs) ys d = Distinct-back xs ys d.2

  -- One cell taken out.
  pub Distinct-drop :
      (xs : List (Ptr × A)) (x p : Ptr) (cx c : A) (ys : List (Ptr × A))
      → Distinct (xs ++ (x, cx) ∷ (p, c) ∷ ys)
      → Distinct (xs ++ (x, cx) ∷ ys)
  Distinct-drop [] x p cx c ys d = (d.0, ground arith, d.2.2)
  Distinct-drop ((a, b) ∷ xs) x p cx c ys d = (
    d.0,
    ground (arith, has-append a xs ((x, cx) ∷ (p, c) ∷ ys), has-append a xs ((x, cx) ∷ ys)),
    Distinct-drop xs x p cx c ys d.2,
  )

  -- A new cell put in.
  pub Distinct-insert :
      (xs : List (Ptr × A)) (x p : Ptr) (cx c : A) (ys : List (Ptr × A))
      → Distinct (xs ++ (x, cx) ∷ ys)
      → p ≢ null
      → has p (xs ++ (x, cx) ∷ ys) ≡ false
      → Distinct (xs ++ (x, cx) ∷ (p, c) ∷ ys)
  Distinct-insert [] x p cx c ys d ne out = (d.0, ground arith, (ne, ground arith, d.2))
  Distinct-insert ((a, b) ∷ xs) x p cx c ys d ne out = (
    d.0,
    ground (arith, has-append a xs ((x, cx) ∷ (p, c) ∷ ys), has-append a xs ((x, cx) ∷ ys)),
    Distinct-insert xs x p cx c ys d.2 ne (ground arith),
  )

  -- Another node at the same address.
  pub Distinct-replace :
      (xs : List (Ptr × A)) (p : Ptr) (c c' : A) (ys : List (Ptr × A))
      → Distinct (xs ++ (p, c) ∷ ys)
      → Distinct (xs ++ (p, c') ∷ ys)
  Distinct-replace [] p c c' ys d = d
  Distinct-replace ((a, b) ∷ xs) p c c' ys d = (
    d.0,
    ground (arith, has-append a xs ((p, c) ∷ ys), has-append a xs ((p, c') ∷ ys)),
    Distinct-replace xs p c c' ys d.2,
  )

  module _ (l : Linked A) where
    pub Links-front :
        (h : Heap A) (p n : Ptr) (xs ys : List (Ptr × A))
        → Links l h p (xs ++ ys) n
        → Links l h p xs (head_or n ys)
    Links-front h p n [] ys s = omega arith
    Links-front h p n ((a, c) ∷ xs) ys s =
        (rw (← head_or-append n xs ys) s.0, Links-front h a n xs ys s.1)

    pub Links-back :
        (h : Heap A) (p n : Ptr) (xs ys : List (Ptr × A))
        → Links l h p (xs ++ ys) n
        → Links l h (last_or p xs) ys n
    Links-back h p n [] ys s = s
    Links-back h p n ((a, c) ∷ xs) ys s = Links-back h a n xs ys s.1

    pub Links-append :
        (h : Heap A) (p n : Ptr) (xs ys : List (Ptr × A))
        → Links l h p xs (head_or n ys)
        → Links l h (last_or p xs) ys n
        → Links l h p (xs ++ ys) n
    Links-append h p n [] ys s t = t
    Links-append h p n ((a, c) ∷ xs) ys s t =
        (rw (head_or-append n xs ys) s.0, Links-append h a n xs ys s.1 t)

    pub frame :
        (h g : Heap A) (p n : Ptr) (xs : List (Ptr × A))
        → Links l h p xs n
        → ((a : Ptr) → has a xs ≡ true → g a ≡ h a)
        → Links l g p xs n
    frame h g p n [] s same = omega arith
    frame h g p n ((a, c) ∷ xs) s same =
        (same a (ground arith) ∙ s.0, frame h g a n xs s.1 (λ b i. same b (ground arith)))

    pub frame-write :
        (h : Heap A) (a : Ptr) (c : Option A) (p n : Ptr) (xs : List (Ptr × A))
        → Links l h p xs n
        → has a xs ≡ false
        → Links l (write h a c) p xs n
    unfolding write
    frame-write h a c p n xs s out = frame h (write h a c) p n xs s (λ b i. ground arith)
