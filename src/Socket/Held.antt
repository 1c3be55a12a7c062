-- ===== src/Socket/Held.antt =====
-- The descriptors that are open behind a list of calls.
use ecen_602_projects.Common.{
  ℕ, ◌≡◌, refl, ap, ◌∙◌, Bool, true, false, List, [], ◌∷◌, ◌++◌, Option, none, some, ◌==◌,
  if◌then◌else◌, ==_self,
}
use ecen_602_projects.Socket.Defs.{
  Address, Call, opened, closed, listening, released, Attempt, attach_opened, attach_first,
  finish_with,
}

unfoldable pub close_one : ℕ → List ℕ → List ℕ
close_one fd [] = []
close_one fd (e ∷ held) = if e == fd then held else e ∷ close_one fd held

-- The open descriptors, the last one first.
unfoldable pub held_after : List ℕ → List Call → List ℕ
held_after held [] = held
held_after held (opened fd ∷ calls) = held_after (fd ∷ held) calls
held_after held (closed fd ∷ calls) = held_after (close_one fd held) calls
held_after held (listening fd ∷ calls) = held_after held calls
held_after held (released ∷ calls) = held_after held calls

pub held_after-append :
    (held : List ℕ) (xs ys : List Call)
    → held_after held (xs ++ ys) ≡ held_after (held_after held xs) ys
unfolding held_after
held_after-append held [] ys = refl
held_after-append held (opened fd ∷ xs) ys = held_after-append (fd ∷ held) xs ys
held_after-append held (closed fd ∷ xs) ys = held_after-append (close_one fd held) xs ys
held_after-append held (listening fd ∷ xs) ys = held_after-append held xs ys
held_after-append held (released ∷ xs) ys = held_after-append held xs ys

pub close_one_front : (fd : ℕ) (held : List ℕ) → close_one fd (fd ∷ held) ≡ held
unfolding close_one
close_one_front fd held = rw (==_self fd)

-- The first address for which both calls work.
abbrev pub usable : Address → Option ℕ
usable a = if a.attached then a.fd else none

abbrev pub or_else : Option ℕ → Option ℕ → Option ℕ
or_else none rest = rest
or_else (some fd) rest = some fd

abbrev pub first_usable : List Address → Option ℕ
first_usable [] = none
first_usable (a ∷ more) = or_else (usable a) (first_usable more)

abbrev pub with_result : Option ℕ → List ℕ → List ℕ
with_result none held = held
with_result (some fd) held = fd ∷ held

-- The descriptor is the result, and the only one that is left open beside those that were.
pub record Attached (addresses : List Address) (r : Option ℕ) (calls : List Call) : Type 0 where
  pub first : r ≡ first_usable addresses
  pub held : (held : List ℕ) → held_after held calls ≡ with_result r held

attach-Attached :
    (fd : Option ℕ) (configured attached : Bool) (more : List Address) (rest : Attempt (Option ℕ))
    → Attached more rest.result rest.calls
    → Attached
        (record { fd = fd; configured = configured; attached = attached } ∷ more)
        (attach_opened fd attached rest).result
        (attach_opened fd attached rest).calls
unfolding held_after
attach-Attached none configured true more rest h = record { first = h.first; held = h.held }
attach-Attached none configured false more rest h = record { first = h.first; held = h.held }
attach-Attached (some fd) configured true more rest h = record { first = refl; held = λ held. refl }
attach-Attached (some fd) configured false more rest h = record {
  first = h.first;
  held = λ held. ap (λ l. held_after l rest.calls) (close_one_front fd held) ∙ h.held held;
}

pub attach_first-Attached :
    (addresses : List Address)
    → Attached addresses (attach_first addresses).result (attach_first addresses).calls
unfolding attach_first held_after
attach_first-Attached [] = record { first = refl; held = λ held. refl }
attach_first-Attached (a ∷ more) =
    attach-Attached a.fd a.configured a.attached more (attach_first more)
      (attach_first-Attached more)

-- Without an answer of getaddrinfo there is no address.
abbrev pub addresses_of : Option (List Address) → List Address
addresses_of none = []
addresses_of (some addresses) = addresses

pub no_addresses-Attached : Attached [] none []
unfolding held_after
no_addresses-Attached = record { first = refl; held = λ held. refl }

pub finish_with-Attached :
    (more : ℕ → List Call) (addresses : List Address)
    → ((fd : ℕ) (held : List ℕ) → held_after held (more fd) ≡ held)
    → let a = attach_first addresses in
      Attached addresses (finish_with more a a.result).result (finish_with more a a.result).calls
finish_with-Attached more addresses keeps =
    go (attach_first addresses) (attach_first addresses).result refl
      (attach_first-Attached addresses)
  where
    go :
        (a : Attempt (Option ℕ)) (r : Option ℕ)
        → a.result ≡ r
        → Attached addresses a.result a.calls
        → Attached addresses (finish_with more a r).result (finish_with more a r).calls
    go a none e h = h
    go a (some fd) e h = record {
      first = h.first;
      held = λ held.
          held_after-append held a.calls (more fd)
          ∙ (keeps fd (held_after held a.calls) ∙ h.held held);
    }
