-- ===== src/Sbcp/Client/Tests.antt =====
-- The theorems about the client at concrete inputs.
use ecen_602_projects.Common.{
  ℕ, ◌≡◌, true, false, List, [], ◌∷◌, ◌++◌, some, none, arith, replicate,
}
use ecen_602_projects.Memory.{ok}
use ecen_602_projects.Sbcp.Message.{Msg, MsgType, AttributeType, empty_attribute, make_msg_idle_c}
use ecen_602_projects.Sbcp.Router.Leave.{text_msg}
use ecen_602_projects.Sbcp.Client.Defs.{Round, message, line, sent, next, chat_loop}
use ecen_602_projects.Sbcp.Client.Idle.{
  quiet, chat_at, chat_loop-quiet, chat_loop-Timed, OfValue, Timed, chat_of,
}

abbrev ann_name : List ℕ
ann_name = b'a' ∷ b'n' ∷ b'n' ∷ []

abbrev empty_msg : Msg
empty_msg = record { vrsn_type_len = 0; first = empty_attribute; second = empty_attribute }

chat_loop-quiet_example :
    (chat_loop (replicate 5 quiet) (chat_at 0 false (replicate 512 0) empty_msg [])
      ≡ ok (next (chat_at 10000000 false (replicate 512 0) empty_msg [])))
    × (chat_loop
          (replicate 5 quiet ++ quiet ∷ replicate 3 quiet)
          (chat_at 0 false (replicate 512 0) empty_msg [])
        ≡ ok (next (chat_at 10000000 true (replicate 512 0) empty_msg (sent make_msg_idle_c ∷ []))))
chat_loop-quiet_example = chat_loop-quiet (replicate 512 0) empty_msg [] 3

-- Two rounds: a line is typed, then a message arrives.
abbrev busy : List Round
busy =
    record { left = 500000; typed = some (line (b'h' ∷ b'i' ∷ 10 ∷ [])); arrived = none }
    ∷ record {
      left = 1;
      typed = none;
      arrived = some (message (text_msg MsgType.online AttributeType.username ann_name));
    }
    ∷ []

chat_loop-Timed_example :
    OfValue
      (λ t. Timed (chat_of t))
      (chat_loop busy (chat_at 9000000 false (replicate 512 0) empty_msg []))
chat_loop-Timed_example =
    chat_loop-Timed busy (chat_at 9000000 false (replicate 512 0) empty_msg []) (omega arith)
