-- ===== src/Sbcp/Client/Exchange.antt =====
-- What the client sends for a line, and what it shows for the messages of the server.
use ecen_602_projects.Common.{
  ℕ, zero, suc, ◌+◌, ◌/◌, ◌%◌, ltb, ◌<◌, ◌≡◌, ◌≢◌, refl, ap, ◌∙◌, Bool, true, false, List, [], ◌∷◌,
  ◌++◌, some, arith, length, drop, if◌then◌else◌, append_assoc, length-append, ne→==-false,
}
use ecen_602_projects.Memory.{ok, memcpy-front, NoNul, c_string, c_string-append}
use ecen_602_projects.Sbcp.Message.{
  MsgType, AttributeType, header, get_msg_type, make_msg_send, make_msg, chat, has_joined, has_left,
  is_idle, rejected, parse_msg_fwd, parse_msg_nak, parse_msg_online, parse_msg_offline,
  decimal_pred, digits_of, zeros,
}
use ecen_602_projects.Sbcp.Message.Layout.{padded}
use ecen_602_projects.Sbcp.Message.Exchange.{fill_text, text_payload-string}
use ecen_602_projects.Sbcp.Router.Leave.{text_msg, fwd_msg}
use ecen_602_projects.Sbcp.Router.Ack.{ack_msg}
use ecen_602_projects.Sbcp.Client.Defs.{
  Chat, line, fgets, cut_line, on_stdin, sent, shown, show_msg, handshake_reply, parse_msg_ack,
  joined, refused,
}

-- Neither the terminator nor the end of a line.
abbrev pub OneLine : List ℕ → Type 0
OneLine [] = Unit
OneLine (c ∷ cs) = ((c ≢ 0) × (c ≢ 10)) × OneLine cs

OneLine-NoNul : (s : List ℕ) → OneLine s → NoNul s
OneLine-NoNul [] h = h
OneLine-NoNul (c ∷ cs) h = (h.0.0, OneLine-NoNul cs h.1)

cut_line_lem : (s rest : List ℕ) → OneLine s → cut_line (s ++ 10 ∷ rest) ≡ ok (s ++ 0 ∷ rest)
unfolding cut_line
cut_line_lem [] rest h = refl
cut_line_lem (c ∷ cs) rest h =
    rw (ne→==-false c 0 h.0.0, ne→==-false c 10 h.0.1, cut_line_lem cs rest h.1)

-- A line of at most 509 bytes goes out as a SEND with its text, and the timer starts again.
pub on_stdin-line :
    (text : List ℕ) (s : Chat)
    → OneLine text
    → length text < 510
    → length s.send_buf ≡ 512
    → on_stdin (some (line (text ++ 10 ∷ []))) s
      ≡ ok (record s {
        idle_cumulation = 0;
        idle = false;
        send_buf = text ++ 0 ∷ 0 ∷ drop (length text + 2) s.send_buf;
        out = s.out ++ sent (text_msg MsgType.send AttributeType.message text) ∷ [];
      })
unfolding on_stdin fgets make_msg_send make_msg
on_stdin-line text s one short size =
    let tail = drop (length text + 2) s.send_buf in
    let ended = (text ++ 10 ∷ []) ++ 0 ∷ [] in
    let two : length ended ≡ length text + 2 =
      omega (arith, length-append (text ++ 10 ∷ []) (0 ∷ []), length-append text (10 ∷ [])) in
    let flat : ended ++ drop (length ended) s.send_buf ≡ text ++ 10 ∷ 0 ∷ tail =
      ap (λ k. ended ++ drop k s.send_buf) two
      ∙ (append_assoc (text ++ 10 ∷ []) (0 ∷ []) tail ∙ append_assoc text (10 ∷ []) (0 ∷ tail)) in
    rw (
      memcpy-front s.send_buf ended (omega arith),
      flat,
      cut_line_lem text (0 ∷ tail) one,
      c_string-append text (0 ∷ tail) (OneLine-NoNul text one),
      fill_text text (omega arith) AttributeType.message (0 ∷ tail),
    )

-- The client shows each of the server's messages as what it is, with its strings.
pub show_msg-text_msg :
    (user text : List ℕ)
    → NoNul user
    → NoNul text
    → (show_msg (fwd_msg text user) ≡ ok (shown (chat user text)))
      × (show_msg (text_msg MsgType.online AttributeType.username user)
          ≡ ok (shown (has_joined user)))
      × (show_msg (text_msg MsgType.offline AttributeType.username user)
          ≡ ok (shown (has_left user)))
      × (show_msg (text_msg MsgType.idle AttributeType.username user) ≡ ok (shown (is_idle user)))
unfolding show_msg get_msg_type header parse_msg_fwd parse_msg_online parse_msg_offline
show_msg-text_msg user text plain plain' = (
  rw (text_payload-string user plain, text_payload-string text plain'),
  rw (text_payload-string user plain),
  rw (text_payload-string user plain),
  rw (text_payload-string user plain),
)

digits_of-NoNul : (fuel n : ℕ) (acc : List ℕ) → NoNul acc → NoNul (digits_of fuel n acc)
unfolding digits_of
digits_of-NoNul zero n acc h = h
digits_of-NoNul (suc fuel) n acc h =
    choose (ltb n 10) _ _ (omega arith, h)
      (digits_of-NoNul fuel (n / 10) ((b'0' + n % 10) ∷ acc) (omega arith, h))
  where
    choose : (b : Bool) (x y : List ℕ) → NoNul x → NoNul y → NoNul (if b then x else y)
    choose true x y p q = p
    choose false x y p q = q

decimal_pred-NoNul : (n : ℕ) → NoNul (decimal_pred n)
unfolding decimal_pred
decimal_pred-NoNul zero = omega arith
decimal_pred-NoNul (suc n) = digits_of-NoNul 10 n [] (omega arith)

-- The server's ACK lets a client into the chat and shows it the number in it, and a NAK turns it
-- away with the reason.
pub handshake_reply_lem :
    (stack names why : List ℕ) (count : ℕ)
    → NoNul why
    → (handshake_reply (ack_msg stack (decimal_pred count) names)
        ≡ ok (joined (decimal_pred count)))
      × (handshake_reply (text_msg MsgType.nak AttributeType.reason why)
          ≡ ok (refused (rejected why)))
unfolding handshake_reply parse_msg_ack parse_msg_nak get_msg_type header
handshake_reply_lem stack names why count plain =
    (rw count_shown, rw (text_payload-string why plain))
  where
    digits : List ℕ
    digits = decimal_pred count

    old : List ℕ
    old = drop (length (digits ++ 0 ∷ [])) stack

    count_shown : c_string (padded ((digits ++ 0 ∷ []) ++ old)) ≡ ok digits
    count_shown =
        ap c_string (
          append_assoc (digits ++ 0 ∷ []) old
            (drop (length ((digits ++ 0 ∷ []) ++ old)) (zeros 512))
          ∙ append_assoc digits (0 ∷ [])
              (old ++ drop (length ((digits ++ 0 ∷ []) ++ old)) (zeros 512)))
        ∙ c_string-append digits (old ++ drop (length ((digits ++ 0 ∷ []) ++ old)) (zeros 512))
            (decimal_pred-NoNul count)
