-- ===== src/Echo/Sockets.antt =====
-- server_lookup_connect and main of Assignment_1/client.c, and what main of Assignment_1/server.c does
-- before it accepts connections. `none` for the addresses is an error of getaddrinfo.
use ecen_602_projects.Common.{ℕ, ◌≡◌, refl, ap, ◌∙◌, Bool, List, [], ◌∷◌, ◌++◌, Option, none, some}
use ecen_602_projects.Memory.{Outcome, ok, ◌>>=◌}
use ecen_602_projects.Socket.{
  Address, Call, closed, released, Attempt, attach_first, finish_with, Bound, exited, bind_first,
  start_listening,
}
use ecen_602_projects.Socket.Held.{
  held_after, Attached, addresses_of, first_usable, with_result, no_addresses-Attached,
  finish_with-Attached,
}
use ecen_602_projects.Socket.Listen.{
  first_bound, HoldsBound, listened, listens_for, listens_on, start_listening-Tried,
}
use ecen_602_projects.Echo.Defs.{Exchange, Client, ClientEnd, finished, given_up, client_loop}

-- A failure gives the number 2.
abbrev pub or_two : Option ℕ → ℕ
or_two none = 2
or_two (some fd) = fd

abbrev connect_first : Option (List Address) → Attempt (Option ℕ)
connect_first none = record { calls = []; result = none }
connect_first (some addresses) =
    let a = attach_first addresses in finish_with (λ fd. released ∷ []) a a.result

unfoldable pub server_lookup_connect : Option (List Address) → Attempt ℕ
server_lookup_connect found =
    let a = connect_first found in record { calls = a.calls; result = or_two a.result }

-- The descriptor is closed behind the last line; an exit does without.
abbrev pub close_behind : ClientEnd → ℕ → List Call
close_behind finished fd = closed fd ∷ []
close_behind given_up fd = []

-- The client's run: its calls, the descriptor that it writes to, and what it writes.
pub record Run : Type 0 where
  pub calls : List Call
  pub fd : ℕ
  pub client : Client

-- The descriptor is not looked at.
unfoldable pub client_main : Option (List Address) → List ℕ → List ℕ → List Exchange → Outcome Run
client_main found buf recvbuf xs = do
  client ← client_loop buf recvbuf xs
  let a = server_lookup_connect found
  ok (record {
    calls = a.calls ++ close_behind client.ending a.result;
    fd = a.result;
    client = client;
  })

-- The set-up of the server, with the result of listen. An error of getaddrinfo ends it.
unfoldable pub open_server : Option (List Address) → Bool → Attempt Bound
open_server none listens = record { calls = []; result = exited }
open_server (some addresses) listens =
    let a = bind_first addresses in start_listening listens a a.result

connect_first-Attached :
    (found : Option (List Address))
    → Attached (addresses_of found) (connect_first found).result (connect_first found).calls
unfolding held_after
connect_first-Attached none = no_addresses-Attached
connect_first-Attached (some addresses) =
    finish_with-Attached (λ fd. released ∷ []) addresses (λ fd held. refl)

-- The client writes to the first address that it could connect to, or to descriptor 2 if there is none,
-- and beside that connection leaves open no descriptor that the lookup has opened.
pub server_lookup_connect_lem :
    (found : Option (List Address))
    → ((server_lookup_connect found).result ≡ or_two (first_usable (addresses_of found)))
      × ((held : List ℕ)
          → held_after held (server_lookup_connect found).calls
            ≡ with_result (first_usable (addresses_of found)) held)
unfolding server_lookup_connect
server_lookup_connect_lem found =
    let a = connect_first-Attached found in
    (ap or_two a.first, λ held. a.held held ∙ ap (λ r. with_result r held) a.first)

pub open_server-HoldsBound :
    (addresses : List Address) (listens : Bool)
    → ((open_server (some addresses) listens).result ≡ listens_on listens (first_bound addresses))
      × ((held : List ℕ)
          → HoldsBound
              (open_server (some addresses) listens).result
              held
              (held_after held (open_server (some addresses) listens).calls))
      × (listened (open_server (some addresses) listens).calls
          ≡ listens_for (first_bound addresses))
unfolding open_server
open_server-HoldsBound addresses listens = start_listening-Tried addresses listens
