-- ===== src/Sbcp/Client/Idle.antt =====
-- The idle timer of the client.
use ecen_602_projects.Common.{
  ℕ, zero, suc, ◌+◌, ◌≤◌, ◌<◌, ◌≡◌, refl, Bool, true, false, List, [], ◌∷◌, ◌++◌, Option, some,
  none, arith, replicate, length,
}
use ecen_602_projects.Memory.{Outcome, ok, fail, fault, ◌>>=◌, c_string}
use ecen_602_projects.Sbcp.Message.{Msg, make_msg_idle_c, make_msg_send}
use ecen_602_projects.Sbcp.Client.Defs.{
  Chat, Round, Turn, next, finished, Typed, Arrival, message, disconnected, failed, Output, sent,
  update_idle_time, announce, measure, fgets, cut_line, on_stdin, show_msg, show_buffer, on_socket,
  chat_round, continue_with, chat_loop,
}

-- A property of the value, if there is one.
abbrev pub OfValue {ℓ} : {A : Type ℓ} → (A → Type 0) → Outcome A → Type 0
OfValue p o = elim o [ ok a ↦ p a | fail ↦ Unit | fault ↦ Unit ]

OfValue-bind {ℓ ℓ'} :
    {A : Type ℓ} {B : Type ℓ'} (p : A → Type 0) (q : B → Type 0) (o : Outcome A) (f : A → Outcome B)
    → OfValue p o
    → ((a : A) → p a → OfValue q (f a))
    → OfValue q (o >>= f)
OfValue-bind p q (ok a) f h step = step a h
OfValue-bind p q fail f h step = h
OfValue-bind p q fault f h step = h

trivial_value {ℓ} : {A : Type ℓ} (o : Outcome A) → OfValue (λ a. 0 ≤ 0) o
trivial_value (ok a) = omega arith
trivial_value fail = omega arith
trivial_value fault = omega arith

-- The timer stays below twelve seconds.
abbrev pub Timed : Chat → Type 0
Timed s = s.idle_cumulation < 12000000

abbrev pub chat_of : Turn → Chat
chat_of (next s) = s
chat_of (finished s) = s

measure-announce : (left : ℕ) (s : Chat) → Timed s → Timed (measure left (announce s))
unfolding measure announce update_idle_time
measure-announce left s h = ground arith

on_stdin-Timed : (typed : Option Typed) (s : Chat) → Timed s → OfValue Timed (on_stdin typed s)
unfolding on_stdin
on_stdin-Timed none s h = h
on_stdin-Timed (some typed) s h = skip (fgets s.send_buf typed) _ λ filled.
    skip (cut_line filled) _ λ send_buf.
      skip (c_string send_buf) _
        λ text. skip (make_msg_send send_buf (length text + 1)) _ λ msg. omega arith
  where
    skip :
        {A : Type 0} (o : Outcome A) (f : A → Outcome Chat)
        → ((a : A) → OfValue Timed (f a))
        → OfValue Timed (o >>= f)
    skip o f h = OfValue-bind (λ a. 0 ≤ 0) Timed o f (trivial_value o) (λ a t. h a)

show_buffer-Timed : (s : Chat) → Timed s → OfValue Timed (show_buffer s)
unfolding show_buffer
show_buffer-Timed s h =
    OfValue-bind (λ a. 0 ≤ 0) Timed (show_msg s.recv_buf)
      (λ text. ok (record s { out = s.out ++ text ∷ [] })) (trivial_value (show_msg s.recv_buf))
      (λ a t. h)

on_socket-Timed :
    (arrived : Option Arrival) (s : Chat)
    → Timed s
    → OfValue (λ t. Timed (chat_of t)) (on_socket arrived s)
unfolding on_socket
on_socket-Timed none s h = h
on_socket-Timed (some disconnected) s h = h
on_socket-Timed (some failed) s h =
    OfValue-bind Timed (λ t. Timed (chat_of t)) (show_buffer s) (λ s'. ok (next s'))
      (show_buffer-Timed s h) (λ s' h'. h')
on_socket-Timed (some (message msg)) s h =
    OfValue-bind Timed (λ t. Timed (chat_of t)) (show_buffer (record s { recv_buf = msg }))
      (λ s'. ok (next s')) (show_buffer-Timed (record s { recv_buf = msg }) h) (λ s' h'. h')

chat_round-Timed :
    (s : Chat) (r : Round) → Timed s → OfValue (λ t. Timed (chat_of t)) (chat_round s r)
unfolding chat_round
chat_round-Timed s r h =
    OfValue-bind Timed (λ t. Timed (chat_of t)) (on_stdin r.typed (measure r.left (announce s)))
      (on_socket r.arrived)
      (on_stdin-Timed r.typed (measure r.left (announce s)) (measure-announce r.left s h))
      (on_socket-Timed r.arrived)

-- Whatever happens, the timer stays below twelve seconds in microseconds, and so within an int.
pub chat_loop-Timed :
    (rs : List Round) (s : Chat) → Timed s → OfValue (λ t. Timed (chat_of t)) (chat_loop rs s)
unfolding chat_loop continue_with
chat_loop-Timed [] s h = h
chat_loop-Timed (r ∷ rs) s h =
    OfValue-bind (λ t. Timed (chat_of t)) (λ t. Timed (chat_of t)) (chat_round s r)
      (continue_with (chat_loop rs)) (chat_round-Timed s r h) (go (chat_loop-Timed rs))
  where
    go :
        ((s' : Chat) → Timed s' → OfValue (λ t. Timed (chat_of t)) (chat_loop rs s'))
        → (t : Turn) → Timed (chat_of t)
        → OfValue (λ t. Timed (chat_of t)) (continue_with (chat_loop rs) t)
    go ih (next s') h' = ih s' h'
    go ih (finished s') h' = h'

-- select times out, with nothing to read.
abbrev pub quiet : Round
quiet = record { left = 0; typed = none; arrived = none }

abbrev pub chat_at : ℕ → Bool → List ℕ → Msg → List Output → Chat
chat_at time idle send_buf recv_buf out = record {
  idle_cumulation = time;
  idle = idle;
  send_buf = send_buf;
  recv_buf = recv_buf;
  out = out;
}

module _ (send_buf : List ℕ) (recv_buf : Msg) (out : List Output) where
  still_idle :
      (n : ℕ)
      → chat_loop (replicate n quiet) (chat_at 10000000 true send_buf recv_buf out)
        ≡ ok (next (chat_at 10000000 true send_buf recv_buf out))
  unfolding chat_loop chat_round on_stdin on_socket measure announce update_idle_time continue_with
  still_idle zero = refl
  still_idle (suc n) = still_idle n

-- From a fresh timer, five quiet rounds send nothing; the sixth sends one IDLE, and however many
-- follow, no other.
pub chat_loop-quiet :
    (send_buf : List ℕ) (recv_buf : Msg) (out : List Output) (n : ℕ)
    → (chat_loop (replicate 5 quiet) (chat_at 0 false send_buf recv_buf out)
        ≡ ok (next (chat_at 10000000 false send_buf recv_buf out)))
      × (chat_loop
            (replicate 5 quiet ++ quiet ∷ replicate n quiet)
            (chat_at 0 false send_buf recv_buf out)
          ≡ ok (next (chat_at 10000000 true send_buf recv_buf (out ++ sent make_msg_idle_c ∷ []))))
unfolding chat_loop chat_round on_stdin on_socket measure announce update_idle_time continue_with
chat_loop-quiet send_buf recv_buf out n =
    (refl, still_idle send_buf recv_buf (out ++ sent make_msg_idle_c ∷ []) n)
