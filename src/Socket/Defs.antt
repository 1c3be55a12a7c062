-- ===== src/Socket/Defs.antt =====
-- The calls of the socket library that open a connection or a server, with their results as arguments:
-- server_lookup_connect, server_init and init.
use ecen_602_projects.Common.{ℕ, Bool, true, false, List, [], ◌∷◌, ◌++◌, Option, none, some}

-- What the system gives for one address: a descriptor, if socket gives one; whether setsockopt works;
-- and whether connect, or bind, does.
pub record Address : Type 0 where
  pub fd : Option ℕ
  pub configured : Bool
  pub attached : Bool

pub data Call : Type 0 where
  opened closed listening : ℕ → Call
  released : Call

-- The calls that a loop makes, and the descriptor that it ends with.
pub record Attempt (R : Type 0) : Type 0 where
  pub calls : List Call
  pub result : R

abbrev pub before : {R : Type 0} → List Call → Attempt R → Attempt R
before calls a = record a { calls = calls ++ a.calls }

-- The loop `for (p = ...; p != NULL; p = p->ai_next)` with connect, or with bind. `rest` is what the
-- addresses behind give.
abbrev pub attach : Bool → ℕ → Attempt (Option ℕ) → Attempt (Option ℕ)
attach true fd rest = record { calls = opened fd ∷ []; result = some fd }
attach false fd rest = before (opened fd ∷ closed fd ∷ []) rest

abbrev pub attach_opened : Option ℕ → Bool → Attempt (Option ℕ) → Attempt (Option ℕ)
attach_opened none attached rest = rest
attach_opened (some fd) attached rest = attach attached fd rest

unfoldable pub attach_first : List Address → Attempt (Option ℕ)
attach_first [] = record { calls = []; result = none }
attach_first (a ∷ more) = attach_opened a.fd a.attached (attach_first more)

-- The loop of the servers that set SO_REUSEADDR first, and exit if that fails.
pub data Bound : Type 0 where
  bound : ℕ → Bound
  unbound exited : Bound

abbrev pub bind_opened : Option ℕ → Bool → Bool → Attempt Bound → Attempt Bound
bind_opened none configured attached rest = rest
bind_opened (some fd) false attached rest = record { calls = opened fd ∷ []; result = exited }
bind_opened (some fd) true true rest = record { calls = opened fd ∷ []; result = bound fd }
bind_opened (some fd) true false rest = before (opened fd ∷ closed fd ∷ []) rest

unfoldable pub bind_first : List Address → Attempt Bound
bind_first [] = record { calls = []; result = unbound }
bind_first (a ∷ more) = bind_opened a.fd a.configured a.attached (bind_first more)

-- What a function does with the descriptor behind the loop, if there is one. Without one it returns at
-- once, and the list of addresses is not given back.
abbrev pub finish_with : (ℕ → List Call) → Attempt (Option ℕ) → Option ℕ → Attempt (Option ℕ)
finish_with more a none = a
finish_with more a (some fd) = record a { calls = a.calls ++ more fd }

-- What the servers with SO_REUSEADDR do behind their loop, with the result of listen: the list of
-- addresses is given back on every path that goes on.
abbrev pub listen_with : Bool → ℕ → Bound
listen_with true fd = bound fd
listen_with false fd = exited

unfoldable pub start_listening : Bool → Attempt Bound → Bound → Attempt Bound
start_listening listens a (bound fd) = record {
  calls = a.calls ++ released ∷ listening fd ∷ [];
  result = listen_with listens fd;
}
start_listening listens a unbound = record { calls = a.calls ++ released ∷ []; result = exited }
start_listening listens a exited = a
