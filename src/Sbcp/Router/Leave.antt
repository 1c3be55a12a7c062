-- ===== src/Sbcp/Router/Leave.antt =====
-- Disconnection of a client: the branch numbytes == 0 of msg_router, and the tests behind it.
use ecen_602_projects.Common.{ℕ, ◌+◌, ◌<◌, ◌≡◌, ◌≢◌, List, [], ◌∷◌, ◌++◌, some, length, ne→==-false}
use ecen_602_projects.Memory.{ok, NoNul, c_string-append}
use ecen_602_projects.Sbcp.Message.{
  Msg, MsgType, AttributeType, attribute_code, header, get_msg_type, empty_attribute,
  make_msg_offline, make_msg, make_msg_fwd, make_msg_nak,
}
use ecen_602_projects.Sbcp.Message.Exchange.{
  text_payload, fill_text, fill_whole, parse_whole, length-text_payload,
}
use ecen_602_projects.Sbcp.Clients.{Node, close, write_to}
use ecen_602_projects.Sbcp.Clients.Nodes.{
  Absent, remove_node-append, others, write_each, msg_broadcast-others,
}
use ecen_602_projects.Sbcp.Router.Defs.{
  Env, Router, closed, on_closed, on_send, dispatch, visit_with, visit, broadcast, reject,
}

-- A message with one string.
abbrev pub text_msg : MsgType → AttributeType → List ℕ → Msg
text_msg t a s = record {
  vrsn_type_len = header t;
  first = record {
    attribute_type = attribute_code a;
    len = length s + 1;
    payload = text_payload s;
  };
  second = empty_attribute;
}

-- A forwarded line.
abbrev pub fwd_msg : (text user : List ℕ) → Msg
fwd_msg text user = record {
  vrsn_type_len = header MsgType.fwd;
  first = record {
    attribute_type = attribute_code AttributeType.message;
    len = 512;
    payload = text_payload text;
  };
  second = record {
    attribute_type = attribute_code AttributeType.username;
    len = length user + 1;
    payload = text_payload user;
  };
}

module _ (before behind : List Node) (fd : ℕ) (name more : List ℕ) (absent : Absent fd before)
    (plain : NoNul name) (fit : length name < 512) where
  abbrev pub leaver : Node
  leaver = record { fd = fd; username = name ++ 0 ∷ more }

  -- The state behind the branch: the others have the OFFLINE, and the node is out of the list.
  abbrev pub left_state : Router → Router
  left_state s = record s {
    clients = before ++ behind;
    out =
        (s.out
          ++ write_each (others fd (before ++ leaver ∷ behind))
              (text_msg MsgType.offline AttributeType.username name))
        ++ close fd ∷ [];
  }

  on_closed_lem :
      (s : Router) → s.clients ≡ before ++ leaver ∷ behind → on_closed leaver s ≡ ok (left_state s)
  unfolding on_closed make_msg_offline make_msg
  on_closed_lem s here = rw (
    here,
    c_string-append name more plain,
    fill_text name fit AttributeType.username more,
    remove_node-append before behind leaver absent,
    msg_broadcast-others fd (before ++ leaver ∷ behind)
        (text_msg MsgType.offline AttributeType.username name),
  )

  -- If the buffer holds no IDLE, SEND or JOIN, a disconnection does what it means to: every other
  -- connection is sent an OFFLINE with the name, once and in order, the descriptor is closed and the node taken out.
  pub visit-closed :
      (env : Env) (s : Router)
      → s.clients ≡ before ++ leaver ∷ behind
      → env.recv fd ≡ some closed
      → get_msg_type s.buf ≢ 9
      → get_msg_type s.buf ≢ 4
      → get_msg_type s.buf ≢ 2
      → visit env leaver s ≡ ok (left_state s)
  unfolding visit visit_with dispatch
  visit-closed env s here ready idle send join = rw (
    ready,
    on_closed_lem s here,
    ne→==-false (get_msg_type s.buf) 9 idle,
    ne→==-false (get_msg_type s.buf) 4 send,
    ne→==-false (get_msg_type s.buf) 2 join,
  )

  -- If the buffer still holds a line of text that a client sent, the disconnection forwards that
  -- line to the remaining connections, under the name of the one that left, behind the OFFLINE to every
  -- other connection and the close of its descriptor.
  pub visit-closed_stale :
      (env : Env) (s : Router) (text : List ℕ)
      → s.clients ≡ before ++ leaver ∷ behind
      → env.recv fd ≡ some closed
      → s.buf ≡ text_msg MsgType.send AttributeType.message text
      → length text < 512
      → length s.client_chat ≡ 512
      → visit env leaver s
        ≡ ok (record (left_state s) {
          client_chat = text_payload text;
          out = (left_state s).out ++ write_each (others fd (before ++ behind)) (fwd_msg text name);
        })
  unfolding visit visit_with dispatch on_send make_msg_fwd get_msg_type header broadcast
  visit-closed_stale env s text here ready stale short size = rw (
    ready,
    on_closed_lem s here,
    stale,
    parse_whole (text_msg MsgType.send AttributeType.message text) s.client_chat
        (length-text_payload text short) size,
    c_string-append name more plain,
    fill_whole AttributeType.message (text_payload text) (length-text_payload text short),
    fill_text name fit AttributeType.username more,
    msg_broadcast-others fd (before ++ behind) (fwd_msg text name),
  )

  -- A refused client is sent the NAK and nothing else, its descriptor is closed and its node taken
  -- out of the list.
  pub reject_lem :
      (s : Router) (why : List ℕ)
      → s.clients ≡ before ++ leaver ∷ behind
      → length why < 512
      → reject why leaver s
        ≡ ok (record s {
          clients = before ++ behind;
          buf = text_msg MsgType.nak AttributeType.reason why;
          out =
              s.out ++ write_to fd (text_msg MsgType.nak AttributeType.reason why) ∷ close fd ∷ [];
        })
  unfolding reject make_msg_nak make_msg
  reject_lem s why here short = rw (
    here,
    fill_text why short AttributeType.reason [],
    remove_node-append before behind leaver absent,
  )
