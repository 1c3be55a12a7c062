-- ===== src/Echo/Tests.antt =====
-- The theorems about the echo service at concrete inputs.
use ecen_602_projects.Common.{
  ℕ, ◌≡◌, refl, true, false, some, List, [], ◌∷◌, ◌++◌, arith, map, replicate,
}
use ecen_602_projects.Memory.{ok}
use ecen_602_projects.Socket.{Address, closed}
use ecen_602_projects.Echo.Defs.{received, disconnected, Ending, echo_loop, finished}
use ecen_602_projects.Echo.Sockets.{server_lookup_connect, client_main}
use ecen_602_projects.Echo.Session.{answered, Carries, client_main-echo_loop}

abbrev hello_line : List ℕ
hello_line = b'h' ∷ b'i' ∷ 10 ∷ []

-- A host with an address that connect refuses and one that it does not.
abbrev addresses : List Address
addresses =
    record { fd = some 3; configured = true; attached = false }
    ∷ record { fd = some 4; configured = true; attached = true }
    ∷ []

abbrev lines : List (List ℕ)
lines = hello_line ∷ (b'y' ∷ 10 ∷ []) ∷ []

client_main-echo_loop_example :
    (ds : List (List ℕ)) × Carries lines ds
    × (echo_loop (replicate 100 9) (map received ds ++ disconnected ∷ [])
        ≡ ok (record { sent = ds; ending = Ending.closed }))
    × (client_main (some addresses) (replicate 100 7) (replicate 100 8) (answered lines ds)
        ≡ ok (record {
          calls =
              (server_lookup_connect (some addresses)).calls
              ++ closed (server_lookup_connect (some addresses)).result ∷ [];
          fd = (server_lookup_connect (some addresses)).result;
          client = record { sent = ds; ending = finished };
        }))
client_main-echo_loop_example =
    client_main-echo_loop (some addresses) (replicate 100 7) (replicate 100 8) (replicate 100 9)
      lines refl refl refl ((omega arith, omega arith), ((omega arith, omega arith), tt))
