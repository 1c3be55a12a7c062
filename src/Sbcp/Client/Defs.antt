-- ===== src/Sbcp/Client/Defs.antt =====
-- main of Assignment_2/client.c from the JOIN on, and update_idle_time and parse_msg_ack of
-- client_lib.c. One Round is what select and the reads behind it meet. Times are in microseconds.
use ecen_602_projects.Common.{
  ℕ, ◌+◌, ◌-◌, ◌*◌, Bool, true, false, not, ◌&&◌, List, [], ◌∷◌, ◌++◌, Option, some, none, leb,
  ◌==◌, if◌then◌else◌, length,
}
use ecen_602_projects.Memory.{Outcome, ok, fault, ◌>>=◌, memcpy, c_string}
use ecen_602_projects.Sbcp.Message.{
  Msg, MsgType, type_code, AttributeType, attribute_code, get_msg_type, make_msg_join,
  make_msg_send, make_msg_idle_c, Shown, is_idle, parse_msg_fwd, parse_msg_nak, parse_msg_online,
  parse_msg_offline,
}

abbrev pub select_timeout : ℕ
select_timeout = 2

abbrev pub idle_timeout : ℕ
idle_timeout = 10

-- What select leaves in tv, with tv_usec + 1000000 * tv_sec at most the timeout.
unfoldable pub update_idle_time : ℕ → ℕ → Bool → ℕ
update_idle_time idle_cumulation left idle =
    if not idle then idle_cumulation + (select_timeout * 1000000 - left) else idle_cumulation

-- The count that is printed, or `none` for the result 1.
unfoldable pub parse_msg_ack : Msg → Outcome (Option (List ℕ))
parse_msg_ack msg =
    if (msg.first.attribute_type == attribute_code AttributeType.client_count)
      && (msg.second.attribute_type == attribute_code AttributeType.username)
    then (c_string msg.first.payload >>= λ count. ok (some count))
    else ok none

-- How the handshake ends.
pub data Reply : Type 0 where
  joined : (count : List ℕ) → Reply
  refused : Shown → Reply
  attribute_error : Reply
  type_error : ℕ → Reply

acknowledged : Option (List ℕ) → Reply
acknowledged none = attribute_error
acknowledged (some count) = joined count

unfoldable pub handshake_reply : Msg → Outcome Reply
unfolding acknowledged
handshake_reply msg =
    let msg_type = get_msg_type msg in
    if msg_type == type_code MsgType.ack
    then (parse_msg_ack msg >>= λ count. ok (acknowledged count))
    else if msg_type == type_code MsgType.nak
    then (parse_msg_nak msg >>= λ why. ok (refused why))
    else ok (type_error msg_type)

-- The JOIN that is sent: sizeof(my_name) is the size of a pointer.
unfoldable pub handshake_join : List ℕ → Outcome Msg
handshake_join my_name = make_msg_join my_name 8

pub data Output : Type 0 where
  sent : Msg → Output
  shown : Shown → Output
  unknown_type : ℕ → Output
  server_disconnect : Output

pub record Chat : Type 0 where
  pub idle_cumulation : ℕ
  pub idle : Bool
  pub send_buf : List ℕ  -- char[512]
  pub recv_buf : Msg
  pub out : List Output

-- fgets stores a line of at most 510 bytes with a terminator, or nothing at the end of the input.
pub data Typed : Type 0 where
  line : List ℕ → Typed
  end_of_input : Typed

pub data Arrival : Type 0 where
  message : Msg → Arrival
  disconnected failed : Arrival

pub record Round : Type 0 where
  pub left : ℕ
  pub typed : Option Typed
  pub arrived : Option Arrival

-- The head of the loop: IDLE goes out once the time is up.
unfoldable pub announce : Chat → Chat
announce s =
    if not s.idle && leb (idle_timeout * 1000000) s.idle_cumulation
    then record s { idle = true; out = s.out ++ sent make_msg_idle_c ∷ [] }
    else s

unfoldable pub measure : ℕ → Chat → Chat
measure left s = record s { idle_cumulation = update_idle_time s.idle_cumulation left s.idle }

-- send_buf[strcspn(send_buf, "\n")] = 0
unfoldable pub cut_line : List ℕ → Outcome (List ℕ)
cut_line [] = fault
cut_line (c ∷ cs) =
    let rest = cut_line cs in
    if c == 0 then ok (c ∷ cs) else if c == 10 then ok (0 ∷ cs) else rest >>= λ cut. ok (c ∷ cut)

unfoldable pub fgets : List ℕ → Typed → Outcome (List ℕ)
fgets send_buf (line text) = memcpy send_buf 0 (text ++ 0 ∷ [])
fgets send_buf end_of_input = ok send_buf

unfoldable pub on_stdin : Option Typed → Chat → Outcome Chat
on_stdin none s = ok s
on_stdin (some typed) s = do
  filled ← fgets s.send_buf typed
  send_buf ← cut_line filled
  text ← c_string send_buf
  msg ← make_msg_send send_buf (length text + 1)
  ok (record s {
    idle_cumulation = 0;
    idle = false;
    send_buf = send_buf;
    out = s.out ++ sent msg ∷ [];
  })

unfoldable pub show_msg : Msg → Outcome Output
show_msg msg =
    let msg_type = get_msg_type msg in
    if msg_type == type_code MsgType.fwd
    then (parse_msg_fwd msg >>= λ text. ok (shown text))
    else if msg_type == type_code MsgType.offline
    then (parse_msg_offline msg >>= λ text. ok (shown text))
    else if msg_type == type_code MsgType.online
    then (parse_msg_online msg >>= λ text. ok (shown text))
    else if msg_type == type_code MsgType.idle
    then (c_string msg.first.payload >>= λ user. ok (shown (is_idle user)))
    else ok (unknown_type msg_type)

unfoldable pub show_buffer : Chat → Outcome Chat
show_buffer s = show_msg s.recv_buf >>= λ text. ok (record s { out = s.out ++ text ∷ [] })

-- The loop goes on, or main has returned.
pub data Turn : Type 0 where
  next : Chat → Turn
  finished : Chat → Turn

unfoldable pub on_socket : Option Arrival → Chat → Outcome Turn
on_socket none s = ok (next s)
on_socket (some disconnected) s = ok (finished (record s { out = s.out ++ server_disconnect ∷ [] }))
on_socket (some failed) s = show_buffer s >>= λ s'. ok (next s')
on_socket (some (message msg)) s = show_buffer (record s { recv_buf = msg }) >>= λ s'. ok (next s')

unfoldable pub chat_round : Chat → Round → Outcome Turn
chat_round s r = on_stdin r.typed (measure r.left (announce s)) >>= on_socket r.arrived

-- The rounds of the loop, until main returns or the events are used up.
unfoldable pub continue_with : (Chat → Outcome Turn) → Turn → Outcome Turn
continue_with loop (next s) = loop s
continue_with loop (finished s) = ok (finished s)

unfoldable pub chat_loop : List Round → Chat → Outcome Turn
chat_loop [] s = ok (next s)
chat_loop (r ∷ rs) s = chat_round s r >>= continue_with (chat_loop rs)
