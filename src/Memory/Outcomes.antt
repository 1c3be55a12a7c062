-- ===== src/Memory/Outcomes.antt =====
-- What an outcome holds, through the steps that lead to it.
use ecen_602_projects.Memory.Defs.{Outcome, ok, fail, fault, ◌>>=◌}

-- What an outcome holds, if it is a value.
abbrev pub Gives {ℓ} : {A : Type ℓ} → Outcome A → (A → Type 0) → Type 0
Gives (ok a) P = P a
Gives fail P = Unit
Gives fault P = Unit

pub Gives-bind {ℓ κ} :
    {A : Type ℓ} {B : Type κ} (m : Outcome A) (f : A → Outcome B) (Q : A → Type 0) (P : B → Type 0)
    → Gives m Q
    → ((a : A) → Q a → Gives (f a) P)
    → Gives (m >>= f) P
Gives-bind (ok a) f Q P q k = k a q
Gives-bind fail f Q P q k = tt
Gives-bind fault f Q P q k = tt

Gives_anything {ℓ} : {A : Type ℓ} (m : Outcome A) → Gives m (λ a. Unit)
Gives_anything (ok a) = tt
Gives_anything fail = tt
Gives_anything fault = tt

-- A step whose value does not matter.
pub Gives-behind {ℓ κ} :
    {A : Type ℓ} {B : Type κ} (m : Outcome A) (f : A → Outcome B) (P : B → Type 0)
    → ((a : A) → Gives (f a) P)
    → Gives (m >>= f) P
Gives-behind m f P k = Gives-bind m f (λ a. Unit) P (Gives_anything m) (λ a u. k a)
