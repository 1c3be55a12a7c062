-- ===== src/Tftp/Server/Defs.antt =====
-- The loop of the server: one request and the child process that serves it (Assignment_3/server.c
-- lines 44-82). The children run on their own, each on the request that its parent received last.
use ecen_602_projects.Common.{ℕ, List, ◌==◌, if◌then◌else◌}
use ecen_602_projects.Memory.{Outcome, ok, ◌>>=◌}
use ecen_602_projects.Tftp.Opcode
use ecen_602_projects.Tftp.Packet.{parse_header}
use ecen_602_projects.Tftp.Request.{Host}
use ecen_602_projects.Tftp.Session.{Event, tftp_recvfrom}
use ecen_602_projects.Tftp.Rrq.{Trace, rrq_handler}
use ecen_602_projects.Tftp.Wrq.{Saved, wrq_handler}

-- What the child did before it exits.
pub data Served : Type 0 where
  read : Trace → Served
  wrote : Saved → Served
  nothing : Served

-- The body of the child: `events` are what its transfer meets.
unfoldable pub child : Host → List ℕ → List Event → Outcome Served
child host buf_recv events = do
  opcode ← parse_header buf_recv
  ok (
      if opcode == Opcode.rrq
      then read (rrq_handler host buf_recv events)
      else if opcode == Opcode.wrq
      then wrote (wrq_handler host buf_recv events)
      else nothing)

-- A request: `buf_recv` is the array of 512 bytes of `main`, as the last request left it.
unfoldable pub serve : Host → List ℕ → List ℕ → List Event → Outcome Served
serve host buf_recv datagram events = do
  (buf_recv, _) ← tftp_recvfrom buf_recv datagram
  child host buf_recv events
