-- ===== src/Sbcp/Message/Exchange.antt =====
-- Messages that one side makes and the other parses.
use ecen_602_projects.Common.{
  ℕ, ◌+◌, ◌≤◌, ◌<◌, ◌≡◌, refl, ap, ◌∙◌, sym, List, [], ◌∷◌, ◌++◌, arith, length, drop,
  length-append, length-drop, append_assoc,
}
use ecen_602_projects.Memory.{
  ok, ◌>>=◌, slice, slice-append, slice_all, memcpy_all, NoNul, c_string, c_string-append,
}
use ecen_602_projects.Sbcp.Message.Defs.{
  MsgType, AttributeType, attribute_code, Msg, zeros, header, fill_attribute, make_msg,
  make_msg_send, make_msg_fwd, make_msg_join, make_msg_online, make_msg_offline, make_msg_nak,
  parse_msg_send, parse_msg_fwd, parse_msg_join, parse_msg_online, parse_msg_offline, parse_msg_nak,
  chat, has_joined, has_left, rejected, empty_attribute,
}
use ecen_602_projects.Sbcp.Message.Layout.{padded, length-zeros, fill_attribute_lem}

-- A string with its terminator, in a payload.
abbrev pub text_payload : List ℕ → List ℕ
text_payload s = padded (s ++ 0 ∷ [])

pub length-padded : (bytes : List ℕ) → length bytes ≤ 512 → length (padded bytes) ≡ 512
length-padded bytes fit = omega (
  arith,
  length-append bytes (drop (length bytes) (zeros 512)),
  length-drop (length bytes) (zeros 512),
  length-zeros 512,
)

module _ (s : List ℕ) (fit : length s < 512) where
  pub fill_text :
      (t : AttributeType) (more : List ℕ)
      → fill_attribute t (s ++ 0 ∷ more) (length s + 1)
        ≡ ok (record {
          attribute_type = attribute_code t;
          len = length s + 1;
          payload = text_payload s;
        })
  fill_text t more =
      let n : length (s ++ 0 ∷ []) ≡ length s + 1 = length-append s (0 ∷ []) in
      ap (λ l. fill_attribute t l (length s + 1)) (sym (append_assoc s (0 ∷ []) more))
      ∙ (ap (fill_attribute t ((s ++ 0 ∷ []) ++ more)) (sym n)
          ∙ (fill_attribute_lem t (s ++ 0 ∷ []) more (omega arith)
              ∙ ap
                  (λ k. ok (record {
                    attribute_type = attribute_code t;
                    len = k;
                    payload = text_payload s;
                  }))
                  n))

  pub length-text_payload : length (text_payload s) ≡ 512
  length-text_payload = length-padded (s ++ 0 ∷ []) (omega (arith, length-append s (0 ∷ [])))

pub text_payload-string : (s : List ℕ) → NoNul s → c_string (text_payload s) ≡ ok s
text_payload-string s plain =
    ap c_string (append_assoc s (0 ∷ []) (drop (length (s ++ 0 ∷ [])) (zeros 512)))
    ∙ c_string-append s (drop (length (s ++ 0 ∷ [])) (zeros 512)) plain

-- A whole payload is copied as it is.
pub fill_whole :
    (t : AttributeType) (payload : List ℕ)
    → length payload ≡ 512
    → fill_attribute t payload 512
      ≡ ok (record { attribute_type = attribute_code t; len = 512; payload = payload })
unfolding fill_attribute
fill_whole t payload size =
    rw (slice_all payload 512 size, memcpy_all (zeros 512) payload (size ∙ sym (length-zeros 512)))

pub parse_whole :
    (msg : Msg) (old : List ℕ)
    → length msg.first.payload ≡ 512
    → length old ≡ 512
    → parse_msg_send msg old ≡ ok (msg.first.payload)
unfolding parse_msg_send
parse_whole msg old size size' =
    rw (
      slice_all (msg.first.payload) 512 size,
      memcpy_all old (msg.first.payload) (size ∙ sym size'),
    )

-- A line that a client sends is what the server forwards and the other clients show, under the
-- name that the server has for the sender.
pub parse_msg_fwd-chat :
    (text user more more' old : List ℕ)
    → NoNul text
    → NoNul user
    → length text < 512
    → length user < 512
    → length old ≡ 512
    → (do
      sent ← make_msg_send (text ++ 0 ∷ more) (length text + 1)
      client_chat ← parse_msg_send sent old
      fwd ← make_msg_fwd client_chat 512 (user ++ 0 ∷ more') (length user + 1)
      parse_msg_fwd fwd)
      ≡ ok (chat user text)
unfolding make_msg_send make_msg make_msg_fwd parse_msg_fwd
parse_msg_fwd-chat text user more more' old plain plain' fit fit' size =
    let whole = length-text_payload text fit in
    rw (
      fill_text text fit AttributeType.message more,
      parse_whole
          (record {
            vrsn_type_len = header MsgType.send;
            first = record {
              attribute_type = 4;
              len = length text + 1;
              payload = text_payload text;
            };
            second = empty_attribute;
          })
          old whole size,
      fill_whole AttributeType.message (text_payload text) whole,
      fill_text user fit' AttributeType.username more',
      text_payload-string user plain',
      text_payload-string text plain,
    )

-- The names and reasons in the server's messages are what the client shows.
pub parse_msg-make_msg :
    (s more : List ℕ)
    → NoNul s
    → length s < 512
    → ((make_msg_online (s ++ 0 ∷ more) (length s + 1) >>= parse_msg_online) ≡ ok (has_joined s))
      × ((make_msg_offline (s ++ 0 ∷ more) (length s + 1) >>= parse_msg_offline) ≡ ok (has_left s))
      × ((make_msg_nak (s ++ 0 ∷ more) (length s + 1) >>= parse_msg_nak) ≡ ok (rejected s))
unfolding make_msg_online make_msg_offline make_msg_nak make_msg parse_msg_online parse_msg_offline
    parse_msg_nak
parse_msg-make_msg s more plain fit = (
  rw (fill_text s fit AttributeType.username more, text_payload-string s plain),
  rw (fill_text s fit AttributeType.username more, text_payload-string s plain),
  rw (fill_text s fit AttributeType.reason more, text_payload-string s plain),
)

-- The client passes sizeof(my_name), that is 8, as the length of its name: the server gets its
-- first eight bytes and zeros.
pub parse_msg_join-make_msg_join :
    (eight more old : List ℕ)
    → length eight ≡ 8
    → length old ≡ 16
    → (make_msg_join (eight ++ more) 8 >>= λ msg. parse_msg_join msg old) ≡ ok (eight ++ zeros 8)
unfolding make_msg_join make_msg parse_msg_join zeros
parse_msg_join-make_msg_join eight more old len size = rw (
  named,
  short_name,
  memcpy_all old (eight ++ zeros 8) (omega (arith, length-append eight (zeros 8), length-zeros 8)),
)
  where
    named :
        fill_attribute AttributeType.username (eight ++ more) 8
        ≡ ok (record { attribute_type = 2; len = 8; payload = eight ++ drop 8 (zeros 512) })
    named =
        ap (fill_attribute AttributeType.username (eight ++ more)) (sym len)
        ∙ (fill_attribute_lem AttributeType.username eight more (omega arith)
            ∙ ap
                (λ k.
                  ok
                    (record { attribute_type = 2; len = k; payload = eight ++ drop k (zeros 512) }))
                len)

    short_name : slice (eight ++ drop 8 (zeros 512)) 0 16 ≡ ok (eight ++ zeros 8)
    short_name =
        ap (λ l. slice l 0 16) (sym (append_assoc eight (zeros 8) (zeros 496)))
        ∙ slice-append [] (eight ++ zeros 8) (zeros 496) 0 16 refl
            (omega (arith, length-append eight (zeros 8), length-zeros 8))
