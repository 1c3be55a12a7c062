-- ===== src/Memory/Defs.antt =====
-- Arrays of bytes and the C library's operations on them. An access outside an array is `fault`,
-- a function that returns its error code is `fail`. The host is little-endian, as x86-64 is.
use ecen_602_projects.Common.{
  ℕ, ◌+◌, ◌*◌, ◌/◌, ◌%◌, List, [], ◌∷◌, ◌++◌, leb, ◌==◌, Bool, true, false, if◌then◌else◌, length,
  take, drop,
}

pub data Outcome {ℓ} (A : Type ℓ) : Type ℓ where
  ok : A → Outcome A
  fail : Outcome A
  fault : Outcome A

infixl 5 ◌>>=◌ ◌>>◌
abbrev pub ◌>>=◌ {ℓ κ} : {A : Type ℓ} {B : Type κ} → Outcome A → (A → Outcome B) → Outcome B
ok a >>= f = f a
fail >>= f = fail
fault >>= f = fault

abbrev pub ◌>>◌ {ℓ} : {B : Type ℓ} → Outcome (Unit {0}) → Outcome B → Outcome B
m >> k = m >>= λ _. k

-- memcpy(dst + off, src, length src)
unfoldable pub memcpy : List ℕ → ℕ → List ℕ → Outcome (List ℕ)
memcpy dst off src =
    if leb (off + length src) (length dst)
    then ok (take off dst ++ (src ++ drop (off + length src) dst))
    else fault

-- The `n` bytes at `src + off`, where a copy reads them.
unfoldable pub slice : List ℕ → ℕ → ℕ → Outcome (List ℕ)
slice src off n = if leb (off + n) (length src) then ok (take n (drop off src)) else fault

-- The bytes in front of the first NUL; a search that leaves the array is a fault.
unfoldable pub c_string : List ℕ → Outcome (List ℕ)
c_string [] = fault
c_string (c ∷ cs) = let rest = c_string cs in if c == 0 then ok [] else rest >>= λ s. ok (c ∷ s)

unfoldable pub strcpy : List ℕ → List ℕ → Outcome (List ℕ)
strcpy dst src = c_string src >>= λ s. memcpy dst 0 (s ++ 0 ∷ [])

-- strcmp(src, literal) == 0, for a literal given without its terminator.
unfoldable pub strcmp_eq : List ℕ → List ℕ → Outcome Bool
strcmp_eq [] literal = fault
strcmp_eq (c ∷ cs) [] = ok (c == 0)
strcmp_eq (c ∷ cs) (d ∷ ds) = let rest = strcmp_eq cs ds in if c == d then rest else ok false

-- strcmp(a, b) == 0 on two arrays
unfoldable pub strcmp_arrays : List ℕ → List ℕ → Outcome Bool
strcmp_arrays [] b = fault
strcmp_arrays (c ∷ a) [] = fault
strcmp_arrays (c ∷ a) (d ∷ b) =
    let rest = strcmp_arrays a b in if c == d then (if c == 0 then ok true else rest) else ok false

-- bswap_16 of byteswap.h
unfoldable pub bswap_16 : ℕ → ℕ
bswap_16 x = x % 256 * 256 + x / 256 % 256

-- The two bytes of a uint16_t in memory, and the uint16_t that two bytes hold.
unfoldable pub store_u16 : ℕ → List ℕ
store_u16 x = x % 256 ∷ x / 256 % 256 ∷ []

pair_u16 : List ℕ → Outcome ℕ
pair_u16 (a ∷ b ∷ []) = ok (a + 256 * b)
pair_u16 _ = fault

unfoldable pub load_u16 : List ℕ → ℕ → Outcome ℕ
unfolding pair_u16
load_u16 buf off = slice buf off 2 >>= pair_u16

-- Network order, as RFC 1350 has it: the high byte first.
abbrev pub big_endian : ℕ → List ℕ
big_endian x = x / 256 ∷ x % 256 ∷ []
