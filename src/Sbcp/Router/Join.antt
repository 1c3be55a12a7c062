-- ===== src/Sbcp/Router/Join.antt =====
-- JOIN: the last branch of msg_router.
use mathlib.Core.List.{map-append}
use ecen_602_projects.Common.{
  ℕ, suc, ◌*◌, ◌≤◌, ◌<◌, ◌≡◌, refl, ap, ◌∙◌, sym, true, List, [], ◌∷◌, ◌++◌, arith, length, map,
  drop, lt→ltb, le→ltb-false,
}
use ecen_602_projects.Memory.{ok, NoNul, memcpy_all, slice-append}
use ecen_602_projects.Sbcp.Message.{MsgType, AttributeType, parse_msg_join, zeros}
use ecen_602_projects.Sbcp.Clients.{Node, client_count, write_to, close, is_duplicate_name}
use ecen_602_projects.Sbcp.Clients.Nodes.{Names, all_names, Absent}
use ecen_602_projects.Sbcp.Clients.Names.{
  Client, node_of, PlainNames, has_name, is_duplicate_name-has_name,
}
use ecen_602_projects.Sbcp.Router.Defs.{
  Env, Router, on_join, check_name, reason_maximum, reason_duplicate,
}
use ecen_602_projects.Sbcp.Router.Leave.{text_msg, reject_lem}

client_count-length : (cs : List Client) → client_count (map node_of cs) ≡ length cs
unfolding client_count
client_count-length [] = refl
client_count-length (c ∷ cs) = ap suc (client_count-length cs)

module _ (before behind : List Client) (me : Client) (new more rest : List ℕ)
    (absent : Absent me.fd (map node_of before)) (plain : NoNul new)
    (size : length (new ++ 0 ∷ more) ≡ 16) (env : Env) (s : Router)
    (here : s.clients ≡ map node_of before ++ node_of me ∷ map node_of behind)
    (attribute : s.buf.first.attribute_type ≡ 2)
    (asked : s.buf.first.payload ≡ (new ++ 0 ∷ more) ++ rest) (array : length s.new_name ≡ 16) where
  parsed : parse_msg_join s.buf s.new_name ≡ ok (new ++ 0 ∷ more)
  unfolding parse_msg_join
  parsed = rw (
    attribute,
    asked,
    slice-append [] (new ++ 0 ∷ more) rest 0 16 refl size,
    memcpy_all s.new_name (new ++ 0 ∷ more) (size ∙ sym array),
  )

  -- The state behind a refusal: the NAK, the closed descriptor, and the list without the client.
  abbrev pub refused : List ℕ → Router
  refused why = record s {
    clients = map node_of before ++ map node_of behind;
    new_name = new ++ 0 ∷ more;
    buf = text_msg MsgType.nak AttributeType.reason why;
    out =
        s.out ++ write_to me.fd (text_msg MsgType.nak AttributeType.reason why) ∷ close me.fd ∷ [];
  }

  all_clients : s.clients ≡ map node_of (before ++ me ∷ behind)
  all_clients = here ∙ sym (map-append node_of before (me ∷ behind))

  counted : client_count s.clients ≡ length (before ++ me ∷ behind)
  counted = ap client_count all_clients ∙ client_count-length (before ++ me ∷ behind)

  -- A JOIN with more open connections than clients are allowed is answered by a NAK with that reason and
  -- by nothing else, the descriptor is closed and the node leaves the list, whether or not the name is
  -- taken.
  pub on_join-full :
      NoNul me.name
      → length me.name < 512
      → env.max_clients < length (before ++ me ∷ behind)
      → on_join env (node_of me) s ≡ ok (refused reason_maximum)
  unfolding on_join
  on_join-full mine fit full = rw (
    parsed,
    lt→ltb env.max_clients (client_count s.clients) (omega (arith, counted)),
    reject_lem (map node_of before) (map node_of behind) me.fd me.name me.more absent mine fit
        (record s { new_name = new ++ 0 ∷ more }) reason_maximum here (omega arith),
  )

  module _ (plain_names : PlainNames (before ++ me ∷ behind)) where
    -- With room, a JOIN under a name that a connection has is refused for that reason.
    pub on_join-duplicate :
        NoNul me.name
        → length me.name < 512
        → client_count s.clients ≤ env.max_clients
        → has_name new (before ++ me ∷ behind) ≡ true
        → on_join env (node_of me) s ≡ ok (refused reason_duplicate)
    unfolding on_join check_name
    on_join-duplicate mine fit room taken = rw (
      parsed,
      le→ltb-false env.max_clients (client_count s.clients) room,
      ap (λ l. is_duplicate_name l (new ++ 0 ∷ more)) all_clients,
      is_duplicate_name-has_name (before ++ me ∷ behind) new more plain_names plain,
      taken,
      reject_lem (map node_of before) (map node_of behind) me.fd me.name me.more absent mine fit
          (record s { new_name = new ++ 0 ∷ more }) reason_duplicate here (omega arith),
    )

    abbrev pub connections : ℕ
    connections = length (before ++ me ∷ behind)

    -- The list in which the client has its new name.
    abbrev pub renamed : List Node
    renamed =
        map node_of before ++ record { fd = me.fd; username = new ++ 0 ∷ more } ∷ map node_of behind

    -- The array behind get_usernames.
    abbrev pub listed : List ℕ
    listed = all_names renamed ++ drop (connections * 16) (zeros 8 ++ drop 8 s.usernames)
