-- ===== src/Tftp/Sockets.antt =====
-- init of Assignment_3/lib.c. `none` for the addresses is an error of getaddrinfo, and as a result
-- TFTP_FAIL.
use ecen_602_projects.Common.{ℕ, refl, List, [], ◌∷◌, Option, none, some}
use ecen_602_projects.Socket.{Address, released, Attempt, attach_first, finish_with}
use ecen_602_projects.Socket.Held.{
  held_after, Attached, addresses_of, no_addresses-Attached, finish_with-Attached,
}

unfoldable pub init : Option (List Address) → Attempt (Option ℕ)
init none = record { calls = []; result = none }
init (some addresses) =
    let a = attach_first addresses in finish_with (λ fd. released ∷ []) a a.result

-- The socket is bound to the first address for which socket and bind work, and of the descriptors that
-- have been opened only that one is still open.
pub init-Attached :
    (found : Option (List Address))
    → Attached (addresses_of found) (init found).result (init found).calls
unfolding init held_after
init-Attached none = no_addresses-Attached
init-Attached (some addresses) =
    finish_with-Attached (λ fd. released ∷ []) addresses (λ fd held. refl)
