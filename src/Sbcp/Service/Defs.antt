-- ===== src/Sbcp/Service/Defs.antt =====
-- The loop of main in Assignment_2/server.c: what each round meets, and what it does. With no descriptor
-- in the set that select gives back, the round only prints.
use ecen_602_projects.Common.{ℕ, List, [], ◌∷◌, Option, none, some}
use ecen_602_projects.Memory.{Outcome, ok, ◌>>=◌}
use ecen_602_projects.Sbcp.Message.{Msg}
use ecen_602_projects.Sbcp.Clients.{Node, Action}
use ecen_602_projects.Sbcp.Router.Defs.{Env, msg_router}

-- A round in which select gives a descriptor: the results of accept and of server_read, and what the
-- stack and the heap held.
pub record Ready : Type 0 where
  pub env : Env
  pub new_client : Option (Option ℕ × List ℕ)
  pub buf : Msg
  pub new_name : List ℕ

-- What a round does: the connection that it accepts, and what it writes and closes.
pub record Deeds : Type 0 where
  pub accepted : Option ℕ
  pub out : List Action

abbrev pub fd_of : Option (Option ℕ × List ℕ) → Option ℕ
fd_of none = none
fd_of (some (fd, heap)) = fd

-- The list behind `listen_fd`, and what each round has done; `none` is a round in which the timer has run out.
unfoldable pub server_loop : List (Option Ready) → List Node → Outcome (List Node × List Deeds)
server_loop [] clients = ok (clients, [])
server_loop (none ∷ rounds) clients = server_loop rounds clients
server_loop (some r ∷ rounds) clients = do
  s ← msg_router r.env r.new_client r.buf r.new_name clients
  (left, deeds) ← server_loop rounds s.clients
  ok (left, record { accepted = fd_of r.new_client; out = s.out } ∷ deeds)
