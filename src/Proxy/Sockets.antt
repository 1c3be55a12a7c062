-- ===== src/Proxy/Sockets.antt =====
-- server_lookup_connect and server_init of Assignment_4/lib.c. `none` for the addresses is an error of
-- getaddrinfo, and as a result HTTP_FAIL.
use ecen_602_projects.Common.{ℕ, refl, List, [], ◌∷◌, Option, none, some}
use ecen_602_projects.Socket.{Address, listening, released, Attempt, attach_first, finish_with}
use ecen_602_projects.Socket.Held.{
  held_after, Attached, addresses_of, no_addresses-Attached, finish_with-Attached,
}

unfoldable pub server_lookup_connect : Option (List Address) → Attempt (Option ℕ)
server_lookup_connect none = record { calls = []; result = none }
server_lookup_connect (some addresses) =
    let a = attach_first addresses in finish_with (λ fd. released ∷ []) a a.result

-- The result of listen is not looked at.
unfoldable pub server_init : Option (List Address) → Attempt (Option ℕ)
server_init none = record { calls = []; result = none }
server_init (some addresses) =
    let a = attach_first addresses in finish_with (λ fd. listening fd ∷ released ∷ []) a a.result

-- The connection is to the first address for which socket and connect work, and of the descriptors that
-- have been opened only that one is still open; without such an address none is.
pub server_lookup_connect-Attached :
    (found : Option (List Address))
    → Attached
        (addresses_of found)
        (server_lookup_connect found).result
        (server_lookup_connect found).calls
unfolding server_lookup_connect held_after
server_lookup_connect-Attached none = no_addresses-Attached
server_lookup_connect-Attached (some addresses) =
    finish_with-Attached (λ fd. released ∷ []) addresses (λ fd held. refl)

pub server_init-Attached :
    (found : Option (List Address))
    → Attached (addresses_of found) (server_init found).result (server_init found).calls
unfolding server_init held_after
server_init-Attached none = no_addresses-Attached
server_init-Attached (some addresses) =
    finish_with-Attached (λ fd. listening fd ∷ released ∷ []) addresses (λ fd held. refl)
