-- ===== src/Sbcp/Router/Defs.antt =====
-- msg_router (Assignment_2/server_lib.c lines 246-331): one pass over the connections that are
-- ready. The state has the variables of the function and what it writes and closes. Of the buffer
-- only the message at its front is modelled; server_write sends the bytes behind it as well.
use ecen_602_projects.Common.{
  ℕ, ◌+◌, List, [], ◌∷◌, ◌++◌, Option, some, none, ltb, ◌==◌, if◌then◌else◌, length,
}
use ecen_602_projects.Memory.{Outcome, ok, fault, ◌>>=◌, c_string}
use ecen_602_projects.Sbcp.Message.{
  Msg, zeros, get_msg_type, MsgType, type_code, make_msg_offline, make_msg_idle_s, make_msg_fwd,
  make_msg_nak, make_msg_ack, make_msg_online, parse_msg_send, parse_msg_join,
}
use ecen_602_projects.Sbcp.Clients.{
  Node, append_node, remove_node, is_duplicate_name, client_count, get_usernames, rename, Action,
  write_to, close, msg_broadcast,
}

-- The result of server_read: zero, negative, or a message at the front of the buffer.
pub data Recv : Type 0 where
  closed failed : Recv
  received : Msg → Recv

-- `recv` gives the descriptors that are ready; `stack` is what make_msg_ack finds in its array.
pub record Env : Type 0 where
  pub max_clients : ℕ
  pub recv : ℕ → Option Recv
  pub stack : ℕ → List ℕ

pub record Router : Type 0 where
  pub clients : List Node
  pub buf : Msg
  pub usernames : List ℕ  -- char[512]
  pub new_name : List ℕ  -- char[16]
  pub client_chat : List ℕ  -- char[512]
  pub out : List Action

abbrev pub reason_duplicate : List ℕ
reason_duplicate =
    b's' ∷ b'a' ∷ b'm' ∷ b'e' ∷ b' ' ∷ b'u' ∷ b's' ∷ b'e' ∷ b'r' ∷ b'n' ∷ b'a' ∷ b'm' ∷ b'e' ∷ []

abbrev pub reason_maximum : List ℕ
reason_maximum =
    b'r' ∷ b'e' ∷ b'a' ∷ b'c' ∷ b'h' ∷ b'e' ∷ b'd' ∷ b' ' ∷ b'm' ∷ b'a' ∷ b'x' ∷ b'i' ∷ b'm' ∷ b'u'
    ∷ b'm' ∷ b' ' ∷ b'c' ∷ b'l' ∷ b'i' ∷ b'e' ∷ b'n' ∷ b't' ∷ b' ' ∷ b'c' ∷ b'o' ∷ b'u' ∷ b'n'
    ∷ b't' ∷ []

unfoldable pub broadcast : Node → Msg → Router → Router
broadcast node msg s = record s { out = s.out ++ msg_broadcast node.fd s.clients msg }

-- numbytes == 0
unfoldable pub on_closed : Node → Router → Outcome Router
on_closed node s = do
  name ← c_string node.username
  msg ← make_msg_offline node.username (length name + 1)
  left ← remove_node node.fd s.clients
  ok (record s {
    clients = left;
    out = (s.out ++ msg_broadcast node.fd s.clients msg) ++ close node.fd ∷ [];
  })

unfoldable pub on_idle : Node → Router → Outcome Router
on_idle node s = do
  name ← c_string node.username
  msg ← make_msg_idle_s node.username (length name)
  ok (broadcast node msg s)

unfoldable pub on_send : Node → Router → Outcome Router
on_send node s = do
  client_chat ← parse_msg_send s.buf s.client_chat
  name ← c_string node.username
  msg ← make_msg_fwd client_chat 512 node.username (length name + 1)
  ok (broadcast node msg (record s { client_chat = client_chat }))

-- NAK with a string literal, which has its terminator.
unfoldable pub reject : List ℕ → Node → Router → Outcome Router
reject why node s = do
  msg ← make_msg_nak (why ++ 0 ∷ []) (length why + 1)
  left ← remove_node node.fd s.clients
  ok (record s {
    clients = left;
    buf = msg;
    out = s.out ++ write_to node.fd msg ∷ close node.fd ∷ [];
  })

unfoldable pub accept : Env → Node → Router → Outcome Router
accept env node s =
    let clients = rename node.fd s.new_name s.clients in
    (do
      usernames ← get_usernames s.usernames clients
      ack ← make_msg_ack (env.stack node.fd) (client_count clients) usernames
      name ← c_string s.new_name
      online ← make_msg_online s.new_name (length name + 1)
      ok (record s {
        clients = clients;
        buf = ack;
        usernames = usernames;
        out = (s.out ++ write_to node.fd ack ∷ []) ++ msg_broadcast node.fd clients online;
      }))

unfoldable pub check_name : Env → Node → Router → Outcome Router
check_name env node s = do
  duplicate ← is_duplicate_name s.clients s.new_name
  if duplicate then reject reason_duplicate node s else accept env node s

-- client_count - 1 >= max_clients
unfoldable pub on_join : Env → Node → Router → Outcome Router
on_join env node s = do
  new_name ← parse_msg_join s.buf s.new_name
  (if ltb env.max_clients (client_count s.clients)
      then reject reason_maximum node (record s { new_name = new_name })
      else check_name env node (record s { new_name = new_name }))

-- The three tests of msg_type, which at most one number passes.
unfoldable pub dispatch : Env → Node → Router → Outcome Router
dispatch env node s =
    let msg_type = get_msg_type s.buf in
    if msg_type == type_code MsgType.idle
    then on_idle node s
    else if msg_type == type_code MsgType.send
    then on_send node s
    else if msg_type == type_code MsgType.join
    then on_join env node s
    else ok s

-- A node whose descriptor is ready, or is not.
unfoldable pub visit_with : Env → Node → Option Recv → Router → Outcome Router
visit_with env node none s = ok s
visit_with env node (some closed) s = on_closed node s >>= dispatch env node
visit_with env node (some failed) s = dispatch env node s
visit_with env node (some (received m)) s = dispatch env node (record s { buf = m })

unfoldable pub visit : Env → Node → Router → Outcome Router
visit env node s = visit_with env node (env.recv node.fd) s

-- The traversal follows the nodes of the list at its start: a node that is taken out keeps its
-- pointer to the next one.
unfoldable pub visit_all : Env → List Node → Router → Outcome Router
visit_all env [] s = ok s
visit_all env (n ∷ ns) s = visit env n s >>= visit_all env ns

-- The listening descriptor first, if it is ready: the result of accept (`none` is -1), with the memory
-- that malloc returns. A failed accept puts -1 into the list, and the traversal behind it tests the bit
-- of -1 with FD_ISSET, which is outside the set.
unfoldable pub connect : Option (Option ℕ × List ℕ) → List Node → Outcome (List Node)
connect none clients = ok clients
connect (some (none, heap)) clients = fault
connect (some (some new_fd, heap)) clients = append_node heap clients new_fd (0 ∷ [])

-- `buf` and `new_name` are what the stack held.
unfoldable pub msg_router :
    Env → Option (Option ℕ × List ℕ) → Msg → List ℕ → List Node → Outcome Router
msg_router env new_client buf new_name clients = do
  clients ← connect new_client clients
  visit_all env clients (record {
    clients = clients;
    buf = buf;
    usernames = zeros 512;
    new_name = new_name;
    client_chat = zeros 512;
    out = [];
  })
