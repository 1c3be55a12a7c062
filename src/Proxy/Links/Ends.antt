-- ===== src/Proxy/Links/Ends.antt =====
-- Changes of the links at one place of a list.
use ecen_602_projects.Common.{◌≡◌, true, false, Option, some, List, [], ◌∷◌, ◌++◌, arith, ==_self}
use ecen_602_projects.Proxy.Links.Defs.{
  Ptr, Heap, write, Linked, has, head_or, last_or, Distinct, Links,
}
use ecen_602_projects.Proxy.Links.Segments.{
  frame-write, Distinct-back, Distinct-apart, Links-front, Links-back, Links-append, frame,
  head_or-append,
}

write_here : {A : Type 0} (h : Heap A) (p : Ptr) (c : Option A) → write h p c p ≡ c
unfolding write
write_here h p c = rw (==_self p)

module _ {A : Type 0} (l : Linked A) where
  pub cell_at :
      (h : Heap A) (p n a : Ptr) (c : A) (xs ys : List (Ptr × A))
      → Links l h p (xs ++ (a, c) ∷ ys) n
      → h a ≡ some (l.linked (last_or p xs) (head_or n ys) c)
  cell_at h p n a c xs ys s = (Links-back l h p n xs ((a, c) ∷ ys) s).0

  -- Behind `x` and in front of `y`, the cells `mid` take the place of others.
  pub splice :
      (h g : Heap A) (p n x y : Ptr) (cx cy : A) (xs ys mid : List (Ptr × A))
      → Links l h p xs x
      → Links l h y ys n
      → ((a : Ptr) → has a xs ≡ true → g a ≡ h a)
      → ((a : Ptr) → has a ys ≡ true → g a ≡ h a)
      → g x ≡ some (l.linked (last_or p xs) (head_or y mid) cx)
      → g y ≡ some (l.linked (last_or x mid) (head_or n ys) cy)
      → Links l g x mid y
      → Links l g p (xs ++ (x, cx) ∷ (mid ++ (y, cy) ∷ ys)) n
  splice h g p n x y cx cy xs ys mid before behind same same' at_x at_y between =
      Links-append l g p n xs ((x, cx) ∷ (mid ++ (y, cy) ∷ ys)) (frame l h g p x xs before same) (
        rw (head_or-append n mid ((y, cy) ∷ ys)) at_x,
        Links-append l g x n mid ((y, cy) ∷ ys) between (at_y, frame l h g y n ys behind same'),
      )

  -- `x` becomes the last cell.
  pub cut_behind :
      (h g : Heap A) (p n x : Ptr) (cx : A) (xs : List (Ptr × A))
      → Links l h p xs x
      → ((a : Ptr) → has a xs ≡ true → g a ≡ h a)
      → g x ≡ some (l.linked (last_or p xs) n cx)
      → Links l g p (xs ++ (x, cx) ∷ []) n
  cut_behind h g p n x cx xs before same at_x =
      Links-append l g p n xs ((x, cx) ∷ []) (frame l h g p x xs before same) (at_x, omega arith)

  -- The node at one address of the list is changed, but for its links.
  pub Links-replace :
      (h : Heap A) (p n a : Ptr) (c c' : A) (xs ys : List (Ptr × A))
      → Links l h p (xs ++ (a, c) ∷ ys) n
      → Distinct (xs ++ (a, c) ∷ ys)
      → Links l
          (write h a (some (l.linked (last_or p xs) (head_or n ys) c')))
          p
          (xs ++ (a, c') ∷ ys)
          n
  Links-replace h p n a c c' xs ys s d =
      Links-append l (write h a at_a) p n xs ((a, c') ∷ ys)
        (frame-write l h a at_a p a xs (Links-front l h p n xs ((a, c) ∷ ys) s) before)
        (
          write_here h a at_a,
          frame-write l h a at_a a n ys (Links-back l h p n xs ((a, c) ∷ ys) s).1 behind,
        )
    where
      at_a : Option A
      at_a = some (l.linked (last_or p xs) (head_or n ys) c')

      before : has a xs ≡ false
      before = Distinct-apart xs ((a, c) ∷ ys) a d (ground (arith, ==_self a))

      behind : has a ys ≡ false
      behind = (Distinct-back xs ((a, c) ∷ ys) d).1
