-- ===== src/Memory/Laws.antt =====
-- Copies at the seam of two arrays, strings with their terminator, and byte order.
use ecen_602_projects.Common.{
  take, ℕ, ◌+◌, ◌*◌, ◌/◌, ◌%◌, ◌^◌, ◌<◌, ◌≡◌, refl, ap, ◌∙◌, sym, append-nil, drop_all, ◌≢◌, List,
  [], ◌∷◌, ◌++◌, arith, length, drop, length-append, length-drop, drop-append_add, drop-drop, ◌≤◌,
  take-append, drop-append, append_assoc, leb, le→leb, lt→leb-false, true, ==_self,
}
use ecen_602_projects.Memory.Defs.{
  ok, fault, memcpy, slice, c_string, strcmp_eq, bswap_16, store_u16, load_u16, big_endian,
}

-- A copy over `mid` between what stands in front and what follows.
pub memcpy-append :
    (front mid rest src : List ℕ) (off : ℕ)
    → length front ≡ off
    → length src ≡ length mid
    → memcpy (front ++ (mid ++ rest)) off src ≡ ok (front ++ (src ++ rest))
unfolding memcpy
memcpy-append front mid rest src off h e =
    let fits : leb (off + length src) (length (front ++ (mid ++ rest))) ≡ true =
      le→leb _ _ (omega (arith, length-append front (mid ++ rest), length-append mid rest)) in
    let cut : drop (off + length src) (front ++ (mid ++ rest)) ≡ rest = rw (← append_assoc) (
      drop-append (off + length src) (front ++ mid) rest
        (omega (arith, length-append front mid))) in
    rw (fits, take-append off front (mid ++ rest) h, cut)

-- A copy right behind `front`, which earlier copies have put over the head of `dst`.
pub memcpy-extend :
    (front dst src : List ℕ) (off : ℕ)
    → length front ≡ off
    → off + length src ≤ length dst
    → memcpy (front ++ drop off dst) off src ≡ ok (front ++ (src ++ drop (off + length src) dst))
unfolding memcpy
memcpy-extend front dst src off h fit =
    let fits : leb (off + length src) (length (front ++ drop off dst)) ≡ true =
      le→leb _ _ (omega (arith, length-append front (drop off dst), length-drop off dst)) in
    rw (
      fits,
      take-append off front (drop off dst) h,
      drop-append_add off (length src) front (drop off dst) h,
      drop-drop off (length src) dst,
    )

-- A copy to the front of an array.
pub memcpy-front :
    (dst src : List ℕ)
    → length src ≤ length dst
    → memcpy dst 0 src ≡ ok (src ++ drop (length src) dst)
memcpy-front dst src fit =
    memcpy-extend [] dst src 0 refl (omega arith) ∙ ap (λ k. ok (src ++ drop k dst)) (omega arith)

pub memcpy-fault :
    (dst src : List ℕ) (off : ℕ) → length dst < off + length src → memcpy dst off src ≡ fault
unfolding memcpy
memcpy-fault dst src off h = simp (lt→leb-false (off + length src) (length dst) h)

pub slice-fault : (src : List ℕ) (off n : ℕ) → length src < off + n → slice src off n ≡ fault
unfolding slice
slice-fault src off n h = simp (lt→leb-false (off + n) (length src) h)

pub slice_front : (src : List ℕ) (n : ℕ) → n ≤ length src → slice src 0 n ≡ ok (take n src)
unfolding slice
slice_front src n h = rw (le→leb (0 + n) (length src) (omega arith))

-- Storing the swapped word puts it on the wire in network order.
pub store_u16-bswap_16 : (x : ℕ) → x < 2 ^ 16 → store_u16 (bswap_16 x) ≡ big_endian x
unfolding store_u16 bswap_16
store_u16-bswap_16 x h = ground arith

pub bswap_16-big_endian : (x : ℕ) → x < 2 ^ 16 → bswap_16 (x / 256 + 256 * (x % 256)) ≡ x
unfolding bswap_16
bswap_16-big_endian x h = omega arith

-- Reading back from between `front` and `rest`.
pub slice-append :
    (front mid rest : List ℕ) (off n : ℕ)
    → length front ≡ off
    → length mid ≡ n
    → slice (front ++ (mid ++ rest)) off n ≡ ok mid
unfolding slice
slice-append front mid rest off n h e =
    let fits : leb (off + n) (length (front ++ (mid ++ rest))) ≡ true =
      le→leb _ _ (omega (arith, length-append front (mid ++ rest), length-append mid rest)) in
    rw (fits, drop-append off front (mid ++ rest) h, take-append n mid rest e)

pub load_u16-big_endian :
    (x off : ℕ) (front rest : List ℕ)
    → length front ≡ off
    → load_u16 (front ++ (big_endian x ++ rest)) off ≡ ok (x / 256 + 256 * (x % 256))
unfolding load_u16
load_u16-big_endian x off front rest h = rw (slice-append front (big_endian x) rest off 2 h refl)

-- A string in memory, up to its terminator.
abbrev pub NoNul : List ℕ → Type 0
NoNul [] = Unit
NoNul (c ∷ cs) = (c ≢ 0) × NoNul cs

pub NoNul-append : (xs ys : List ℕ) → NoNul xs → NoNul ys → NoNul (xs ++ ys)
NoNul-append [] ys h g = g
NoNul-append (x ∷ xs) ys h g = (h.0, NoNul-append xs ys h.1 g)

pub c_string-append : (s rest : List ℕ) → NoNul s → c_string (s ++ 0 ∷ rest) ≡ ok s
unfolding c_string
c_string-append [] rest h = refl
c_string-append (c ∷ cs) rest h = ground (arith, c_string-append cs rest h.1)

pub strcmp_eq_self : (literal rest : List ℕ) → strcmp_eq (literal ++ 0 ∷ rest) literal ≡ ok true
unfolding strcmp_eq
strcmp_eq_self [] rest = refl
strcmp_eq_self (c ∷ cs) rest = rw (==_self c) (strcmp_eq_self cs rest)

-- A whole array read, and a whole array overwritten.
pub slice_all : (src : List ℕ) (n : ℕ) → length src ≡ n → slice src 0 n ≡ ok src
slice_all src n size =
    ap (λ l. slice l 0 n) (sym (append-nil src)) ∙ slice-append [] src [] 0 n refl size

pub memcpy_all : (dst src : List ℕ) → length src ≡ length dst → memcpy dst 0 src ≡ ok src
memcpy_all dst src size =
    memcpy-front dst src (omega arith)
    ∙ ap ok (ap (λ l. src ++ l) (drop_all (length src) dst (omega arith)) ∙ append-nil src)
