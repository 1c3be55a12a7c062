-- ===== src/Sbcp/Router/Ack.antt =====
-- The list of clients in an ACK: make_msg_ack and get_usernames behind a change of a name.
use ecen_602_projects.Common.{
  ℕ, suc, ◌<◌, ◌+◌, ◌/◌, ◌%◌, ltb, lt→ltb, ◌≤◌, ◌≡◌, refl, ap, ◌∙◌, sym, Bool, true, false, List,
  [], ◌∷◌, ◌++◌, arith, length, take, drop, ◌==◌, if◌then◌else◌, length-take, length-drop,
  append-nil, zero, length-append, take-append-drop,
}
use ecen_602_projects.Memory.{ok, memcpy-front}
use ecen_602_projects.Sbcp.Message.{
  Msg, MsgType, AttributeType, header, fill_attribute, attribute_code, digits_of, decimal_pred,
  make_msg_ack,
}
use ecen_602_projects.Sbcp.Message.Layout.{padded, fill_attribute_lem}
use ecen_602_projects.Sbcp.Clients.{Node, client_count, rename}
use ecen_602_projects.Sbcp.Clients.Nodes.{Names}

length-decimal_pred : (n : ℕ) → n ≤ 100 → length (decimal_pred n) ≤ 2
unfolding decimal_pred digits_of
length-decimal_pred zero small = omega arith
length-decimal_pred (suc n) small = ground arith

-- A number below 100 in decimal.
unfoldable pub decimal : ℕ → List ℕ
decimal n = if ltb n 10 then (b'0' + n) ∷ [] else (b'0' + n / 10) ∷ (b'0' + n % 10) ∷ []

pub decimal_pred-decimal : (n : ℕ) → n < 100 → decimal_pred (suc n) ≡ decimal n
unfolding decimal_pred digits_of decimal
decimal_pred-decimal n small =
    let ten : ltb (n / 10) 10 ≡ true = lt→ltb (n / 10) 10 (omega arith) in rw ten refl

-- The ACK: the count, the bytes behind it in the array, and 170 bytes of names.
abbrev pub ack_msg : (stack count names : List ℕ) → Msg
ack_msg stack count names = record {
  vrsn_type_len = header MsgType.ack;
  first = record {
    attribute_type = 3;
    len = 5;
    payload = padded ((count ++ 0 ∷ []) ++ drop (length (count ++ 0 ∷ [])) stack);
  };
  second = record { attribute_type = 2; len = 4; payload = padded (take 170 names) };
}

fill_front :
    (t : AttributeType) (src : List ℕ) (n : ℕ)
    → length (take n src) ≡ n
    → n ≤ 512
    → fill_attribute t src n
      ≡ ok (record { attribute_type = attribute_code t; len = n; payload = padded (take n src) })
fill_front t src n len fit =
    ap (λ l. fill_attribute t l n) (sym (take-append-drop n src))
    ∙ (ap (fill_attribute t (take n src ++ drop n src)) (sym len)
        ∙ (fill_attribute_lem t (take n src) (drop n src) (omega arith)
            ∙ ap
                (λ k. ok (record {
                  attribute_type = attribute_code t;
                  len = k;
                  payload = padded (take n src);
                }))
                len))

fill_exactly :
    (t : AttributeType) (src : List ℕ) (n : ℕ)
    → length src ≡ n
    → n ≤ 512
    → fill_attribute t src n
      ≡ ok (record { attribute_type = attribute_code t; len = n; payload = padded src })
fill_exactly t src n len fit =
    ap (λ l. fill_attribute t l n) (sym (append-nil src))
    ∙ (ap (fill_attribute t (src ++ [])) (sym len)
        ∙ (fill_attribute_lem t src [] (omega arith)
            ∙ ap
                (λ k.
                  ok (record { attribute_type = attribute_code t; len = k; payload = padded src }))
                len))

pub make_msg_ack_lem :
    (stack : List ℕ) (count : ℕ) (names : List ℕ)
    → length stack ≡ 5
    → count ≤ 100
    → 170 ≤ length names
    → make_msg_ack stack count names ≡ ok (ack_msg stack (decimal_pred count) names)
unfolding make_msg_ack
make_msg_ack_lem stack count names five small enough =
    let digits : length (decimal_pred count ++ 0 ∷ []) ≤ 3 =
      omega (arith, length-append (decimal_pred count) (0 ∷ []), length-decimal_pred count small) in
    let all_five : length
          ((decimal_pred count ++ 0 ∷ []) ++ drop (length (decimal_pred count ++ 0 ∷ [])) stack)
        ≡ 5 =
      omega (
        arith,
        length-append (decimal_pred count ++ 0 ∷ [])
            (drop (length (decimal_pred count ++ 0 ∷ [])) stack),
        length-drop (length (decimal_pred count ++ 0 ∷ [])) stack,
      ) in
    let front : length (take 170 names) ≡ 170 = omega (arith, length-take 170 names) in
    rw (
      memcpy-front stack (decimal_pred count ++ 0 ∷ []) (omega arith),
      fill_exactly AttributeType.client_count
          ((decimal_pred count ++ 0 ∷ []) ++ drop (length (decimal_pred count ++ 0 ∷ [])) stack) 5
          all_five (omega arith),
      fill_front AttributeType.username names 170 front (omega arith),
    )

pub Names-rename :
    (fd : ℕ) (new_name : List ℕ) (ns : List Node)
    → length new_name ≡ 16
    → Names ns
    → Names (rename fd new_name ns)
unfolding rename
Names-rename fd new_name [] size h = h
Names-rename fd new_name (n ∷ ns) size h =
    (renamed (n.fd == fd), Names-rename fd new_name ns size h.1)
  where
    renamed :
        (b : Bool) → length ((if b then record n { username = new_name } else n).username) ≡ 16
    renamed true = size
    renamed false = h.0

pub client_count-rename :
    (fd : ℕ) (new_name : List ℕ) (ns : List Node)
    → client_count (rename fd new_name ns) ≡ client_count ns
unfolding rename client_count
client_count-rename fd new_name [] = refl
client_count-rename fd new_name (n ∷ ns) = ap suc (client_count-rename fd new_name ns)
