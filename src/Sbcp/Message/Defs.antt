-- ===== src/Sbcp/Message/Defs.antt =====
-- Messages: the structs and enums of Assignment_2/config.h, get_msg_type (common_lib.c), the
-- make_msg functions and parsers of server_lib.c and client_lib.c.
use Prim.Native.Nat.{bit_or}
use ecen_602_projects.Common.{
  ℕ, zero, suc, ◌+◌, ◌*◌, ◌/◌, ◌%◌, ◌^◌, ◌&&◌, List, [], ◌∷◌, ◌++◌, ltb, ◌==◌, if◌then◌else◌,
  replicate,
}
use ecen_602_projects.Memory.{Outcome, ok, ◌>>=◌, memcpy, slice, c_string}

-- sbcp_header_type_t and sbcp_attribute_type_t
pub data MsgType : Type 0 where
  join fwd send nak offline ack online idle : MsgType

abbrev pub type_code : MsgType → ℕ
type_code MsgType.join = 2
type_code MsgType.fwd = 3
type_code MsgType.send = 4
type_code MsgType.nak = 5
type_code MsgType.offline = 6
type_code MsgType.ack = 7
type_code MsgType.online = 8
type_code MsgType.idle = 9

pub data AttributeType : Type 0 where
  reason username client_count message : AttributeType

abbrev pub attribute_code : AttributeType → ℕ
attribute_code AttributeType.reason = 1
attribute_code AttributeType.username = 2
attribute_code AttributeType.client_count = 3
attribute_code AttributeType.message = 4

abbrev pub vrsn : ℕ
vrsn = 3

-- sizeof(sbcp_msg_t): a word and two attributes of 516 bytes
abbrev pub sizeof_msg : ℕ
sizeof_msg = 1036

pub record Attribute : Type 0 where
  pub attribute_type : ℕ  -- uint16_t
  pub len : ℕ  -- uint16_t
  pub payload : List ℕ  -- char[512]

pub record Msg : Type 0 where
  pub vrsn_type_len : ℕ  -- uint32_t
  pub first : Attribute
  pub second : Attribute

unfoldable pub zeros : ℕ → List ℕ
zeros n = replicate n 0

unfoldable pub empty_attribute : Attribute
empty_attribute = record { attribute_type = 0; len = 0; payload = zeros 512 }

-- VRSN << 23 | type << 16 | sizeof(sbcp_msg_t)
unfoldable pub header : MsgType → ℕ
header t = bit_or (bit_or (vrsn * 2 ^ 23) (type_code t * 2 ^ 16)) sizeof_msg

-- (vrsn_type_len >> 16) & 0b1111111
unfoldable pub get_msg_type : Msg → ℕ
get_msg_type msg = msg.vrsn_type_len / 2 ^ 16 % 2 ^ 7

-- An attribute of a zeroed message, with `n` bytes of `src` copied into its payload.
unfoldable pub fill_attribute : AttributeType → List ℕ → ℕ → Outcome Attribute
fill_attribute t src n = do
  bytes ← slice src 0 n
  payload ← memcpy (zeros 512) 0 bytes
  ok (record { attribute_type = attribute_code t; len = n % 2 ^ 16; payload = payload })

-- A message with one attribute: JOIN, SEND, NAK, OFFLINE, ONLINE, and IDLE from the server.
unfoldable pub make_msg : MsgType → AttributeType → List ℕ → ℕ → Outcome Msg
make_msg t attribute src n = do
  first ← fill_attribute attribute src n
  ok (record { vrsn_type_len = header t; first = first; second = empty_attribute })

unfoldable pub make_msg_join : List ℕ → ℕ → Outcome Msg
make_msg_join name name_len = make_msg MsgType.join AttributeType.username name name_len

unfoldable pub make_msg_send : List ℕ → ℕ → Outcome Msg
make_msg_send text msg_len = make_msg MsgType.send AttributeType.message text msg_len

unfoldable pub make_msg_nak : List ℕ → ℕ → Outcome Msg
make_msg_nak text reason_len = make_msg MsgType.nak AttributeType.reason text reason_len

unfoldable pub make_msg_offline : List ℕ → ℕ → Outcome Msg
make_msg_offline name name_len = make_msg MsgType.offline AttributeType.username name name_len

unfoldable pub make_msg_online : List ℕ → ℕ → Outcome Msg
make_msg_online name name_len = make_msg MsgType.online AttributeType.username name name_len

unfoldable pub make_msg_idle_s : List ℕ → ℕ → Outcome Msg
make_msg_idle_s name name_len = make_msg MsgType.idle AttributeType.username name name_len

-- The client's IDLE has empty attributes.
unfoldable pub make_msg_idle_c : Msg
make_msg_idle_c = record {
  vrsn_type_len = header MsgType.idle;
  first = empty_attribute;
  second = empty_attribute;
}

unfoldable pub make_msg_fwd : List ℕ → ℕ → List ℕ → ℕ → Outcome Msg
make_msg_fwd text msg_len name name_len = do
  first ← fill_attribute AttributeType.message text msg_len
  second ← fill_attribute AttributeType.username name name_len
  ok (record { vrsn_type_len = header MsgType.fwd; first = first; second = second })

-- sprintf of "%d", for the number `count - 1` of the server's call. The digits are those of a
-- number below 10 ^ fuel.
unfoldable pub digits_of : ℕ → ℕ → List ℕ → List ℕ
digits_of zero n acc = acc
digits_of (suc fuel) n acc =
    let more = digits_of fuel (n / 10) ((b'0' + n % 10) ∷ acc) in
    if ltb n 10 then (b'0' + n) ∷ acc else more

unfoldable pub decimal_pred : ℕ → List ℕ
unfolding digits_of
decimal_pred zero = b'-' ∷ b'1' ∷ []
decimal_pred (suc n) = digits_of 10 n []

-- The count and the first 170 bytes of the name array. `stack` is what the array `count_str` of
-- five bytes holds before sprintf; the recorded length of the names is sizeof(160), that is 4.
unfoldable pub make_msg_ack : List ℕ → ℕ → List ℕ → Outcome Msg
make_msg_ack stack count usernames = do
  count_str ← memcpy stack 0 (decimal_pred count ++ 0 ∷ [])
  first ← fill_attribute AttributeType.client_count count_str 5
  names ← fill_attribute AttributeType.username usernames 170
  ok (record {
    vrsn_type_len = header MsgType.ack;
    first = first;
    second = record names { len = 4 };
  })

-- parse_msg_join writes the new name if the attribute is a user name.
unfoldable pub parse_msg_join : Msg → List ℕ → Outcome (List ℕ)
parse_msg_join msg new_name =
    if msg.first.attribute_type == attribute_code AttributeType.username
    then (slice msg.first.payload 0 16 >>= λ bytes. memcpy new_name 0 bytes)
    else ok new_name

unfoldable pub parse_msg_send : Msg → List ℕ → Outcome (List ℕ)
parse_msg_send msg client_message =
    slice msg.first.payload 0 512 >>= λ bytes. memcpy client_message 0 bytes

-- What the client prints, with the strings that "%s" shows.
pub data Shown : Type 0 where
  chat : (user : List ℕ) → (text : List ℕ) → Shown
  has_joined has_left is_idle : (user : List ℕ) → Shown
  rejected : (why : List ℕ) → Shown
  wrong_attribute : Shown

unfoldable pub parse_msg_fwd : Msg → Outcome Shown
parse_msg_fwd msg =
    if (msg.first.attribute_type == attribute_code AttributeType.message)
      && (msg.second.attribute_type == attribute_code AttributeType.username)
    then (do
      user ← c_string msg.second.payload
      text ← c_string msg.first.payload
      ok (chat user text))
    else ok wrong_attribute

unfoldable pub parse_msg_nak : Msg → Outcome Shown
parse_msg_nak msg =
    if msg.first.attribute_type == attribute_code AttributeType.reason
    then (c_string msg.first.payload >>= λ why. ok (rejected why))
    else ok wrong_attribute

unfoldable pub parse_msg_online : Msg → Outcome Shown
parse_msg_online msg =
    if msg.first.attribute_type == attribute_code AttributeType.username
    then (c_string msg.first.payload >>= λ user. ok (has_joined user))
    else ok wrong_attribute

unfoldable pub parse_msg_offline : Msg → Outcome Shown
parse_msg_offline msg =
    if msg.first.attribute_type == attribute_code AttributeType.username
    then (c_string msg.first.payload >>= λ user. ok (has_left user))
    else ok wrong_attribute
