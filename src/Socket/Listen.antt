-- ===== src/Socket/Listen.antt =====
-- The set-up of the servers: what their loop binds, what is open behind it, and what they listen on.
use ecen_602_projects.Common.{
  ℕ, ◌≡◌, refl, sym, ap, ◌∙◌, Bool, true, false, List, [], ◌∷◌, ◌++◌, Option, none, some,
}
use ecen_602_projects.Socket.Defs.{
  Address, Call, opened, closed, listening, released, Attempt, Bound, bound, unbound, exited,
  bind_opened, bind_first, listen_with, start_listening,
}
use ecen_602_projects.Socket.Held.{close_one, close_one_front, held_after, held_after-append}

-- The descriptors that listen is called for, in order.
unfoldable pub listened : List Call → List ℕ
listened [] = []
listened (opened fd ∷ calls) = listened calls
listened (closed fd ∷ calls) = listened calls
listened (listening fd ∷ calls) = fd ∷ listened calls
listened (released ∷ calls) = listened calls

listened-append : (xs ys : List Call) → listened (xs ++ ys) ≡ listened xs ++ listened ys
unfolding listened
listened-append [] ys = refl
listened-append (opened fd ∷ xs) ys = listened-append xs ys
listened-append (closed fd ∷ xs) ys = listened-append xs ys
listened-append (listening fd ∷ xs) ys = ap (λ l. fd ∷ l) (listened-append xs ys)
listened-append (released ∷ xs) ys = listened-append xs ys

-- What the loop of the servers comes to: an address for which socket works and setsockopt does not ends
-- the process.
abbrev pub bound_or : Option ℕ → Bool → Bool → Bound → Bound
bound_or none configured attached rest = rest
bound_or (some fd) false attached rest = exited
bound_or (some fd) true true rest = bound fd
bound_or (some fd) true false rest = rest

abbrev pub first_bound : List Address → Bound
first_bound [] = unbound
first_bound (a ∷ more) = bound_or a.fd a.configured a.attached (first_bound more)

-- The descriptors of a process that goes on; one that has exited holds none.
abbrev pub HoldsBound : Bound → List ℕ → List ℕ → Type 0
HoldsBound (bound fd) held after = after ≡ fd ∷ held
HoldsBound unbound held after = after ≡ held
HoldsBound exited held after = Unit

pub record Tried (addresses : List Address) (r : Bound) (calls : List Call) : Type 0 where
  pub first : r ≡ first_bound addresses
  pub held : (held : List ℕ) → HoldsBound r held (held_after held calls)
  pub quiet : listened calls ≡ []

HoldsBound_closed :
    (r : Bound) (fd : ℕ) (held : List ℕ) (calls : List Call)
    → HoldsBound r held (held_after held calls)
    → HoldsBound r held (held_after (close_one fd (fd ∷ held)) calls)
HoldsBound_closed r fd held calls h = rw (close_one_front fd held) h

bind-Tried :
    (fd : Option ℕ) (configured attached : Bool) (more : List Address) (rest : Attempt Bound)
    → Tried more rest.result rest.calls
    → Tried
        (record { fd = fd; configured = configured; attached = attached } ∷ more)
        (bind_opened fd configured attached rest).result
        (bind_opened fd configured attached rest).calls
unfolding held_after listened
bind-Tried none true attached more rest h = record {
  first = h.first;
  held = h.held;
  quiet = h.quiet;
}
bind-Tried none false attached more rest h = record {
  first = h.first;
  held = h.held;
  quiet = h.quiet;
}
bind-Tried (some fd) false attached more rest h = record {
  first = refl;
  held = λ held. tt;
  quiet = refl;
}
bind-Tried (some fd) true true more rest h = record {
  first = refl;
  held = λ held. refl;
  quiet = refl;
}
bind-Tried (some fd) true false more rest h = record {
  first = h.first;
  held = λ held. HoldsBound_closed rest.result fd held rest.calls (h.held held);
  quiet = h.quiet;
}

pub bind_first-Tried :
    (addresses : List Address)
    → Tried addresses (bind_first addresses).result (bind_first addresses).calls
unfolding bind_first held_after listened
bind_first-Tried [] = record { first = refl; held = λ held. refl; quiet = refl }
bind_first-Tried (a ∷ more) =
    bind-Tried a.fd a.configured a.attached more (bind_first more) (bind_first-Tried more)

-- The outcome of the set-up of a server that has to listen.
abbrev pub listens_on : Bool → Bound → Bound
listens_on listens (bound fd) = listen_with listens fd
listens_on listens unbound = exited
listens_on listens exited = exited

-- One call of listen, for a descriptor that is bound.
abbrev pub listens_for : Bound → List ℕ
listens_for (bound fd) = fd ∷ []
listens_for unbound = []
listens_for exited = []

start-Tried :
    (listens : Bool) (a : Attempt Bound) (addresses : List Address) (r : Bound)
    → a.result ≡ r
    → Tried addresses a.result a.calls
    → let b = start_listening listens a r in
      (b.result ≡ listens_on listens (first_bound addresses))
      × ((held : List ℕ) → HoldsBound b.result held (held_after held b.calls))
      × (listened b.calls ≡ listens_for (first_bound addresses))
unfolding start_listening held_after listened
start-Tried true a addresses (bound fd) e t = (
  ap (listens_on true) (sym e ∙ t.first),
  λ held.
      let h : held_after held a.calls ≡ fd ∷ held = rw e at (t.held held) in
      held_after-append held a.calls (released ∷ listening fd ∷ []) ∙ h,
  listened-append a.calls (released ∷ listening fd ∷ [])
      ∙ (ap (λ l. l ++ fd ∷ []) t.quiet ∙ ap listens_for (sym e ∙ t.first)),
)
start-Tried false a addresses (bound fd) e t = (
  ap (listens_on false) (sym e ∙ t.first),
  λ held. tt,
  listened-append a.calls (released ∷ listening fd ∷ [])
      ∙ (ap (λ l. l ++ fd ∷ []) t.quiet ∙ ap listens_for (sym e ∙ t.first)),
)
start-Tried listens a addresses unbound e t = (
  ap (listens_on listens) (sym e ∙ t.first),
  λ held. tt,
  listened-append a.calls (released ∷ [])
      ∙ (ap (λ l. l ++ []) t.quiet ∙ ap listens_for (sym e ∙ t.first)),
)
start-Tried listens a addresses exited e t = (
  e ∙ ap (listens_on listens) (sym e ∙ t.first),
  λ held. rw e tt,
  t.quiet ∙ ap listens_for (sym e ∙ t.first),
)

pub start_listening-Tried :
    (addresses : List Address) (listens : Bool)
    → let a = bind_first addresses in
      let b = start_listening listens a a.result in
      (b.result ≡ listens_on listens (first_bound addresses))
      × ((held : List ℕ) → HoldsBound b.result held (held_after held b.calls))
      × (listened b.calls ≡ listens_for (first_bound addresses))
start_listening-Tried addresses listens =
    start-Tried listens (bind_first addresses) addresses (bind_first addresses).result refl
      (bind_first-Tried addresses)
