-- ===== src/Sbcp/Tests.antt =====
-- The theorems about the chat at concrete inputs.
use ecen_602_projects.Common.{
  ℕ, ◌≡◌, refl, Option, none, some, true, false, List, [], ◌∷◌, ◌++◌, arith, replicate, map, drop,
  ◌*◌,
}
use ecen_602_projects.Memory.{ok, ◌>>=◌, c_string, memcpy, slice}
use ecen_602_projects.Sbcp.Message.{
  Msg, MsgType, AttributeType, header, get_msg_type, empty_attribute, make_msg_send, make_msg_fwd,
  parse_msg_send, parse_msg_fwd, chat, zeros, make_msg_offline, make_msg, fill_attribute,
}
use ecen_602_projects.Sbcp.Message.Layout.{length-zeros}
use ecen_602_projects.Sbcp.Message.Exchange.{text_payload, parse_msg_fwd-chat}
use ecen_602_projects.Sbcp.Clients.{
  Node, is_duplicate_name, client_count, msg_broadcast, write_to, close, append_node, link_last,
  remove_node,
}
use ecen_602_projects.Sbcp.Clients.Nodes.{all_names, others, write_each}
use ecen_602_projects.Sbcp.Clients.Names.{
  Client, node_of, has_name, same, is_duplicate_name-has_name,
}
use ecen_602_projects.Sbcp.Router.Defs.{
  Env, Router, closed, visit, on_join, reason_duplicate, reason_maximum, msg_router, connect,
  visit_all, visit_with, on_closed, dispatch,
}
use ecen_602_projects.Sbcp.Router.Leave.{text_msg, fwd_msg, visit-closed, visit-closed_stale}
use ecen_602_projects.Sbcp.Router.Join.{on_join-full, on_join-duplicate}
use ecen_602_projects.Sbcp.Router.Ack.{ack_msg, decimal}
use ecen_602_projects.Sbcp.Service.{Ready, Deeds, server_loop}
use ecen_602_projects.Sbcp.Service.Left.{fds, open_after}
use ecen_602_projects.Sbcp.Service.Open.{server_loop-open_after}
use ecen_602_projects.Socket.{Address}

abbrev addresses : List Address
addresses =
    record { fd = none; configured = true; attached = true }
    ∷ record { fd = some 3; configured = true; attached = false }
    ∷ record { fd = some 4; configured = true; attached = true }
    ∷ []

-- Ann and Bob are in the chat.
abbrev ann : Client
ann = record { fd = 4; name = b'a' ∷ b'n' ∷ b'n' ∷ []; more = replicate 12 0 }

abbrev bob : Client
bob = record { fd = 5; name = b'b' ∷ b'o' ∷ b'b' ∷ []; more = replicate 12 0 }

abbrev hello : List ℕ
hello = b'h' ∷ b'i' ∷ []

parse_msg_fwd-chat_example :
    (do
      sent ← make_msg_send (hello ++ 0 ∷ []) 3
      client_chat ← parse_msg_send sent (zeros 512)
      fwd ← make_msg_fwd client_chat 512 (ann.name ++ 0 ∷ []) 4
      parse_msg_fwd fwd)
    ≡ ok (chat ann.name hello)
parse_msg_fwd-chat_example =
    parse_msg_fwd-chat hello ann.name [] [] (zeros 512) (omega arith) (omega arith) (omega arith)
      (omega arith) (length-zeros 512)

is_duplicate_name-has_name_example :
    is_duplicate_name (map node_of (ann ∷ bob ∷ [])) (hello ++ 0 ∷ [])
    ≡ ok (has_name hello (ann ∷ bob ∷ []))
is_duplicate_name-has_name_example =
    is_duplicate_name-has_name (ann ∷ bob ∷ []) hello [] (omega arith) (omega arith)

abbrev chat_env : ℕ → Env
chat_env max = record { max_clients = max; recv = λ fd. some closed; stack = λ fd. replicate 5 1 }

-- Bob's message stands in the buffer.
abbrev chat_state : Msg → Router
chat_state msg = record {
  clients = map node_of (ann ∷ []) ++ node_of bob ∷ [];
  buf = msg;
  usernames = replicate 512 0;
  new_name = replicate 16 0;
  client_chat = replicate 512 0;
  out = [];
}

abbrev idle_msg : Msg
idle_msg = record { vrsn_type_len = 0; first = empty_attribute; second = empty_attribute }

abbrev send_msg : Msg
send_msg = text_msg MsgType.send AttributeType.message hello

visit-closed_example :
    visit (chat_env 3) (node_of bob) (chat_state idle_msg)
    ≡ ok (record (chat_state idle_msg) {
      clients = map node_of (ann ∷ []) ++ [];
      out =
          ([]
            ++ write_each
                (others 5 (map node_of (ann ∷ []) ++ node_of bob ∷ []))
                (text_msg MsgType.offline AttributeType.username bob.name))
          ++ close 5 ∷ [];
    })
unfolding get_msg_type
visit-closed_example =
    visit-closed (map node_of (ann ∷ [])) [] 5 bob.name (replicate 12 0) (omega arith) (omega arith)
      (omega arith) (chat_env 3) (chat_state idle_msg) refl refl (omega arith) (omega arith)
      (omega arith)

visit-closed_stale_example :
    visit (chat_env 3) (node_of bob) (chat_state send_msg)
    ≡ ok (record (chat_state send_msg) {
      clients = map node_of (ann ∷ []) ++ [];
      client_chat = text_payload hello;
      out =
          (([]
              ++ write_each
                  (others 5 (map node_of (ann ∷ []) ++ node_of bob ∷ []))
                  (text_msg MsgType.offline AttributeType.username bob.name))
            ++ close 5 ∷ [])
          ++ write_each (others 5 (map node_of (ann ∷ []) ++ [])) (fwd_msg hello bob.name);
    })
visit-closed_stale_example =
    visit-closed_stale (map node_of (ann ∷ [])) [] 5 bob.name (replicate 12 0) (omega arith)
      (omega arith) (omega arith) (chat_env 3) (chat_state send_msg) hello refl refl refl
      (omega arith) refl

-- Bob joins under a name of two letters.
abbrev new_padding : List ℕ
new_padding = replicate 13 0

abbrev join_msg : List ℕ → Msg
join_msg name = record {
  vrsn_type_len = header MsgType.join;
  first = record { attribute_type = 2; len = 8; payload = name ++ replicate 496 0 };
  second = empty_attribute;
}

abbrev refusal : List ℕ → List ℕ → Router
refusal name why = record (chat_state (text_msg MsgType.nak AttributeType.reason why)) {
  clients = map node_of (ann ∷ []) ++ [];
  new_name = name;
  out = write_to 5 (text_msg MsgType.nak AttributeType.reason why) ∷ close 5 ∷ [];
}

two_clients : client_count (map node_of (ann ∷ []) ++ node_of bob ∷ []) ≡ 2
unfolding client_count
two_clients = refl

ann_name : has_name ann.name (ann ∷ bob ∷ []) ≡ true
unfolding has_name same
ann_name = refl

on_join-full_example :
    on_join (chat_env 1) (node_of bob) (chat_state (join_msg (ann.name ++ 0 ∷ ann.more)))
    ≡ ok (refusal (ann.name ++ 0 ∷ ann.more) reason_maximum)
on_join-full_example =
    on_join-full (ann ∷ []) [] bob ann.name ann.more (replicate 496 0) (omega arith) (omega arith)
      refl (chat_env 1) (chat_state (join_msg (ann.name ++ 0 ∷ ann.more))) refl refl refl refl
      (omega arith) (omega arith) (omega arith)

on_join-duplicate_example :
    on_join (chat_env 2) (node_of bob) (chat_state (join_msg (ann.name ++ 0 ∷ ann.more)))
    ≡ ok (refusal (ann.name ++ 0 ∷ ann.more) reason_duplicate)
on_join-duplicate_example =
    on_join-duplicate (ann ∷ []) [] bob ann.name ann.more (replicate 496 0) (omega arith)
      (omega arith) refl (chat_env 2) (chat_state (join_msg (ann.name ++ 0 ∷ ann.more))) refl refl
      refl refl (omega arith) (omega arith) (omega arith) (omega (arith, two_clients)) ann_name

abbrev renamed_clients : List Node
renamed_clients =
    map node_of (ann ∷ []) ++ record { fd = 5; username = hello ++ 0 ∷ new_padding } ∷ []

abbrev names_listed : List ℕ
names_listed = all_names renamed_clients ++ drop (2 * 16) (zeros 8 ++ drop 8 (replicate 512 0))

abbrev ack_sent : Msg
ack_sent = ack_msg (replicate 5 1) (decimal 1) names_listed

-- A connection that comes, a round without any, and one in which it goes again.
abbrev quiet : Env
quiet = record { max_clients = 3; recv = λ fd. none; stack = λ fd. replicate 5 1 }

abbrev comes : Ready
comes = record {
  env = quiet;
  new_client = some (some 4, replicate 16 0);
  buf = idle_msg;
  new_name = replicate 16 0;
}

abbrev goes : Ready
goes = record { env = chat_env 3; new_client = none; buf = idle_msg; new_name = replicate 16 0 }

abbrev rounds : List (Option Ready)
rounds = some comes ∷ none ∷ some goes ∷ []

abbrev deeds : List Deeds
deeds = record { accepted = some 4; out = [] } ∷ record { accepted = none; out = close 4 ∷ [] } ∷ []

rounds_run : server_loop rounds [] ≡ ok ([], deeds)
unfolding server_loop msg_router connect append_node c_string memcpy visit_all link_last visit
    visit_with on_closed make_msg_offline make_msg fill_attribute slice zeros remove_node
    msg_broadcast dispatch get_msg_type empty_attribute
rounds_run = refl

server_loop-open_after_example : fds [] ≡ open_after (fds []) deeds
server_loop-open_after_example = server_loop-open_after rounds [] [] deeds rounds_run
