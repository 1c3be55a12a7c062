-- ===== src/Sbcp/Sockets.antt =====
-- server_lookup_connect of Assignment_2/client_lib.c, and server_init of Assignment_2/server_lib.c.
-- `none` for the addresses is an error of getaddrinfo.
use ecen_602_projects.Common.{ℕ, ◌≡◌, refl, Bool, List, [], ◌∷◌, Option, none, some}
use ecen_602_projects.Socket.{
  Address, Call, released, Attempt, attach_first, finish_with, Bound, bound, bind_first,
  start_listening,
}
use ecen_602_projects.Socket.Held.{
  held_after, Attached, addresses_of, no_addresses-Attached, finish_with-Attached,
}
use ecen_602_projects.Socket.Listen.{first_bound, HoldsBound, listened, listens_for, listens_on}

-- As a result `none` is -2.
unfoldable pub server_lookup_connect : Option (List Address) → Attempt (Option ℕ)
server_lookup_connect none = record { calls = []; result = none }
server_lookup_connect (some addresses) =
    let a = attach_first addresses in finish_with (λ fd. released ∷ []) a a.result

pub server_lookup_connect-Attached :
    (found : Option (List Address))
    → Attached
        (addresses_of found)
        (server_lookup_connect found).result
        (server_lookup_connect found).calls
unfolding server_lookup_connect held_after
server_lookup_connect-Attached none = no_addresses-Attached
server_lookup_connect-Attached (some addresses) =
    finish_with-Attached (λ fd. released ∷ []) addresses (λ fd held. refl)

-- An error of getaddrinfo gives the descriptor 1, which is standard output.
unfoldable pub server_init : Option (List Address) → Bool → Attempt Bound
server_init none listens = record { calls = []; result = bound 1 }
server_init (some addresses) listens =
    let a = bind_first addresses in start_listening listens a a.result

-- What the server has behind the set-up.
abbrev pub IsListening : Option (List Address) → Bool → Bound → List Call → Type 0
IsListening none listens r calls =
    (r ≡ bound 1) × ((held : List ℕ) → held_after held calls ≡ held) × (listened calls ≡ [])
IsListening (some addresses) listens r calls =
    (r ≡ listens_on listens (first_bound addresses))
    × ((held : List ℕ) → HoldsBound r held (held_after held calls))
    × (listened calls ≡ listens_for (first_bound addresses))
