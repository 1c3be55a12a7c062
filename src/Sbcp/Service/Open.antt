-- ===== src/Sbcp/Service/Open.antt =====
-- The list of connections and the descriptors that are open.
use ecen_602_projects.Common.{
  ℕ, ◌≡◌, refl, sym, ap, ◌∙◌, Bool, true, false, List, [], ◌∷◌, ◌++◌, Option, none, some, ◌==◌,
  if◌then◌else◌, length, ◌+◌, ltb,
}
use ecen_602_projects.Memory.{Outcome, ok, c_string, memcpy, Gives, Gives-bind, Gives-behind}
use ecen_602_projects.Sbcp.Message.{
  Msg, MsgType, type_code, get_msg_type, zeros, make_msg_offline, make_msg_idle_s, make_msg_fwd,
  make_msg_nak, make_msg_ack, make_msg_online, parse_msg_send, parse_msg_join,
}
use ecen_602_projects.Sbcp.Clients.{
  Node, write_to, close, append_node, remove_node, rename, msg_broadcast, is_duplicate_name,
  client_count, get_usernames,
}
use ecen_602_projects.Sbcp.Router.Defs.{
  Env, Router, Recv, broadcast, on_closed, on_idle, on_send, reject, accept, check_name, on_join,
  dispatch, visit_with, visit, visit_all, connect, msg_router, reason_maximum, reason_duplicate,
}
use ecen_602_projects.Sbcp.Service.Defs.{Ready, Deeds, fd_of, server_loop}
use ecen_602_projects.Sbcp.Service.Left.{
  fds, without, left_open, with_accepted, open_after, left_open-append, left_open-msg_broadcast,
  fds-rename, fds-link_last, remove_node-without,
}

module _ (start : List ℕ) where
  -- The list of the router has the descriptors that its actions have left open.
  abbrev Steady : Router → Type 0
  Steady s = left_open start s.out ≡ fds s.clients

  broadcast-Steady :
      (node : Node) (msg : Msg) (s : Router) → Steady s → Steady (broadcast node msg s)
  unfolding broadcast
  broadcast-Steady node msg s h =
      left_open-append start s.out (msg_broadcast node.fd s.clients msg)
      ∙ left_open-msg_broadcast (left_open start s.out) node.fd s.clients msg
      ∙ h

  on_closed-Steady : (node : Node) (s : Router) → Steady s → Gives (on_closed node s) Steady
  unfolding on_closed left_open broadcast
  on_closed-Steady node s h = Gives-behind (c_string node.username) _ Steady (λ name.
      Gives-behind (make_msg_offline node.username (length name + 1)) _ Steady (λ msg.
        Gives-bind (remove_node node.fd s.clients) _
          (λ left. fds left ≡ without node.fd (fds s.clients)) Steady
          (remove_node-without node.fd s.clients)
          (λ left q.
            left_open-append start (s.out ++ msg_broadcast node.fd s.clients msg)
              (close node.fd ∷ [])
            ∙ ap (without node.fd) (broadcast-Steady node msg s h)
            ∙ sym q)))

  on_idle-Steady : (node : Node) (s : Router) → Steady s → Gives (on_idle node s) Steady
  unfolding on_idle
  on_idle-Steady node s h = Gives-behind (c_string node.username) _ Steady (λ name.
      Gives-behind (make_msg_idle_s node.username (length name)) _ Steady
        (λ msg. broadcast-Steady node msg s h))

  on_send-Steady : (node : Node) (s : Router) → Steady s → Gives (on_send node s) Steady
  unfolding on_send
  on_send-Steady node s h =
      Gives-behind (parse_msg_send s.buf s.client_chat) _ Steady (λ client_chat.
        Gives-behind (c_string node.username) _ Steady (λ name.
          Gives-behind (make_msg_fwd client_chat 512 node.username (length name + 1)) _ Steady
            (λ msg. broadcast-Steady node msg (record s { client_chat = client_chat }) h)))

  reject-Steady :
      (why : List ℕ) (node : Node) (s : Router) → Steady s → Gives (reject why node s) Steady
  unfolding reject left_open
  reject-Steady why node s h =
      Gives-behind (make_msg_nak (why ++ 0 ∷ []) (length why + 1)) _ Steady (λ msg.
        Gives-bind (remove_node node.fd s.clients) _
          (λ left. fds left ≡ without node.fd (fds s.clients)) Steady
          (remove_node-without node.fd s.clients)
          (λ left q.
            left_open-append start s.out (write_to node.fd msg ∷ close node.fd ∷ [])
            ∙ ap (without node.fd) h
            ∙ sym q))

  accept-Steady :
      (env : Env) (node : Node) (s : Router) → Steady s → Gives (accept env node s) Steady
  unfolding accept left_open
  accept-Steady env node s h =
      let clients = rename node.fd s.new_name s.clients in
      Gives-behind (get_usernames s.usernames clients) _ Steady (λ usernames.
        Gives-behind (make_msg_ack (env.stack node.fd) (client_count clients) usernames) _ Steady
          (λ ack. Gives-behind (c_string s.new_name) _ Steady (λ name.
            Gives-behind (make_msg_online s.new_name (length name + 1)) _ Steady (λ online.
              left_open-append start (s.out ++ write_to node.fd ack ∷ [])
                (msg_broadcast node.fd clients online)
              ∙ left_open-msg_broadcast (left_open start (s.out ++ write_to node.fd ack ∷ []))
                  node.fd clients online
              ∙ left_open-append start s.out (write_to node.fd ack ∷ [])
              ∙ h
              ∙ sym (fds-rename node.fd s.new_name s.clients)))))

  choice-Steady :
      (b : Bool) (m k : Outcome Router)
      → Gives m Steady
      → Gives k Steady
      → Gives (if b then m else k) Steady
  choice-Steady true m k h g = h
  choice-Steady false m k h g = g

  on_join-Steady :
      (env : Env) (node : Node) (s : Router) → Steady s → Gives (on_join env node s) Steady
  unfolding on_join check_name
  on_join-Steady env node s h = Gives-behind (parse_msg_join s.buf s.new_name) _ Steady (λ new_name.
      let t = record s { new_name = new_name } in
      choice-Steady (ltb env.max_clients (client_count s.clients)) (reject reason_maximum node t)
        (check_name env node t) (reject-Steady reason_maximum node t h)
        (Gives-behind (is_duplicate_name t.clients new_name) _ Steady (λ duplicate.
          choice-Steady duplicate (reject reason_duplicate node t) (accept env node t)
            (reject-Steady reason_duplicate node t h) (accept-Steady env node t h))))

  dispatch-Steady :
      (env : Env) (node : Node) (s : Router) → Steady s → Gives (dispatch env node s) Steady
  unfolding dispatch
  dispatch-Steady env node s h =
      let msg_type = get_msg_type s.buf in
      choice-Steady (msg_type == type_code MsgType.idle) _ _ (on_idle-Steady node s h) (
        choice-Steady (msg_type == type_code MsgType.send) _ _ (on_send-Steady node s h)
          (choice-Steady (msg_type == type_code MsgType.join) _ _ (on_join-Steady env node s h) h))

  visit-Steady :
      (env : Env) (node : Node) (r : Option Recv) (s : Router)
      → Steady s
      → Gives (visit_with env node r s) Steady
  unfolding visit_with
  visit-Steady env node none s h = h
  visit-Steady env node (some Recv.closed) s h =
      Gives-bind (on_closed node s) (dispatch env node) Steady Steady (on_closed-Steady node s h)
        (λ t. dispatch-Steady env node t)
  visit-Steady env node (some Recv.failed) s h = dispatch-Steady env node s h
  visit-Steady env node (some (Recv.received m)) s h =
      dispatch-Steady env node (record s { buf = m }) h

  visit_all-Steady :
      (env : Env) (ns : List Node) (s : Router) → Steady s → Gives (visit_all env ns s) Steady
  unfolding visit_all visit
  visit_all-Steady env [] s h = h
  visit_all-Steady env (n ∷ ns) s h =
      Gives-bind (visit env n s) (visit_all env ns) Steady Steady
        (visit-Steady env n (env.recv n.fd) s h) (λ t. visit_all-Steady env ns t)

connect-fds :
    (new_client : Option (Option ℕ × List ℕ)) (clients : List Node)
    → Gives
        (connect new_client clients)
        (λ l. fds l ≡ with_accepted (fds clients) (fd_of new_client))
unfolding connect append_node
connect-fds none clients = refl
connect-fds (some (none, heap)) clients = tt
connect-fds (some (some fd, heap)) clients =
    Gives-behind (c_string (0 ∷ [])) _ (λ l. fds l ≡ fds clients ++ fd ∷ [])
      (λ name.
        Gives-behind (memcpy heap 0 name) _ (λ l. fds l ≡ fds clients ++ fd ∷ [])
          (λ username. fds-link_last clients (record { fd = fd; username = username })))

msg_router-fds :
    (r : Ready) (clients : List Node)
    → Gives
        (msg_router r.env r.new_client r.buf r.new_name clients)
        (λ s. left_open (with_accepted (fds clients) (fd_of r.new_client)) s.out ≡ fds s.clients)
unfolding msg_router left_open
msg_router-fds r clients =
    let start = with_accepted (fds clients) (fd_of r.new_client) in
    Gives-bind (connect r.new_client clients) _ (λ l. fds l ≡ start) (Steady start)
      (connect-fds r.new_client clients)
      (λ l q.
        visit_all-Steady start r.env l
          (record {
            clients = l;
            buf = r.buf;
            usernames = zeros 512;
            new_name = r.new_name;
            client_chat = zeros 512;
            out = [];
          })
          (sym q))

abbrev Balanced : List Node → List Node × List Deeds → Type 0
Balanced clients (left, deeds) = fds left ≡ open_after (fds clients) deeds

server_loop-Balanced :
    (rounds : List (Option Ready)) (clients : List Node)
    → Gives (server_loop rounds clients) (Balanced clients)
unfolding server_loop open_after
server_loop-Balanced [] clients = refl
server_loop-Balanced (none ∷ rounds) clients = server_loop-Balanced rounds clients
server_loop-Balanced (some r ∷ rounds) clients =
    Gives-bind (msg_router r.env r.new_client r.buf r.new_name clients) _
      (λ s. left_open (with_accepted (fds clients) (fd_of r.new_client)) s.out ≡ fds s.clients)
      (Balanced clients) (msg_router-fds r clients)
      (λ s q.
        Gives-bind (server_loop rounds s.clients) _ (Balanced s.clients) (Balanced clients)
          (server_loop-Balanced rounds s.clients)
          (λ (left, deeds) b. b ∙ ap (λ l. open_after l deeds) (sym q)))

-- Behind any rounds of the server that do not fail, a failed accept among the failures, and whatever
-- accept, recv and select give in them, the connections of the list are exactly the descriptors that are open: those of the list at the
-- start and those that have been accepted, in this order, less those that the router has closed.
pub server_loop-open_after :
    (rounds : List (Option Ready)) (clients left : List Node) (deeds : List Deeds)
    → server_loop rounds clients ≡ ok (left, deeds)
    → fds left ≡ open_after (fds clients) deeds
server_loop-open_after rounds clients left deeds run =
    rw run at (server_loop-Balanced rounds clients)
