-- ===== src/Tftp/Rrq/Retries.antt =====
-- How long the handler puts up with timeouts: `timeout_counter` is never set back.
use ecen_602_projects.Common.{ℕ, ◌+◌, ◌≤◌, ◌<◌, ◌≡◌, ◌≢◌, refl, List, [], ◌∷◌, arith, Bool}
use mathlib.Core.Path.{subst}
use ecen_602_projects.Memory.{Outcome, ok, fail, fault, ◌>>=◌}
use ecen_602_projects.Tftp.Session.{
  Event, timeout, arrival, broken, waiting, Turn, next, stop, turn_of, tftp_recvfrom,
}
use ecen_602_projects.Tftp.Rrq.Defs.{
  Rrq, Sent, rrq_send, rrq_receive, rrq_packet, rrq_ack, rrq_loop,
}

-- A timeout counts one.
abbrev pub cost : Event → ℕ
cost timeout = 1
cost (arrival _) = 0
cost broken = 0

unfoldable pub timeouts : List Event → ℕ
timeouts [] = 0
timeouts (e ∷ es) = cost e + timeouts es

-- What a turn does to the counter: it adds `k`, and stays below ten; or the handler is at an end.
abbrev Counts : ℕ → ℕ → Turn Rrq → Type 0
Counts c k (next s) = (s.timeout_counter ≡ c + k) × (c + k ≢ 10)
Counts c k (stop end) = end ≢ waiting

cost-le : (e : Event) → cost e ≤ 1
cost-le timeout = omega arith
cost-le (arrival _) = omega arith
cost-le broken = omega arith

rrq_packet-Counts :
    (s : Rrq) (eof : Bool) → s.timeout_counter < 10 → Counts s.timeout_counter 0 (rrq_packet s eof)
unfolding rrq_packet rrq_ack
rrq_packet-Counts s eof h = ground arith

rrq_receive-Counts :
    (s : Rrq) (eof : Bool) (e : Event)
    → s.timeout_counter < 10
    → Counts s.timeout_counter (cost e) (rrq_receive s eof e)
unfolding rrq_receive
rrq_receive-Counts s eof timeout h = ground arith
rrq_receive-Counts s eof (arrival d) h = go (tftp_recvfrom s.buf_recv d)
  where
    go :
        (o : Outcome (List ℕ × ℕ))
        → Counts s.timeout_counter 0
            (turn_of (o >>= λ (buf, n). ok (rrq_packet (record s { buf_recv = buf }) eof)))
    go (ok (buf, n)) = rrq_packet-Counts (record s { buf_recv = buf }) eof h
    go fail = λ p. cc
    go fault = λ p. cc
rrq_receive-Counts s eof broken h = rrq_packet-Counts s eof h

rrq_send-timeout_counter :
    (mode : List ℕ) (s : Rrq) (out : Sent)
    → rrq_send mode s ≡ ok out
    → out.state.timeout_counter ≡ s.timeout_counter
unfolding rrq_send
rrq_send-timeout_counter mode s out h = ground arith

-- With the counter below ten and ten timeouts to come, the run does not end in a wait.
abbrev GivesUp : List ℕ → List Event → Rrq → Type 0
GivesUp mode es s =
    s.timeout_counter < 10
    → 10 ≤ s.timeout_counter + timeouts es
    → (rrq_loop mode s es).ending ≢ waiting

module _ (mode : List ℕ) (e : Event) (es : List Event) (s : Rrq)
    (ih : (s' : Rrq) → GivesUp mode es s') (h : s.timeout_counter < 10)
    (enough : 10 ≤ s.timeout_counter + timeouts (e ∷ es)) where
  GivesUp-turn :
      (out : Sent) (t : Turn Rrq)
      → rrq_send mode s ≡ ok out
      → rrq_receive out.state out.is_eof e ≡ t
      → Counts s.timeout_counter (cost e) t
      → (rrq_loop mode s (e ∷ es)).ending ≢ waiting
  unfolding rrq_loop timeouts
  GivesUp-turn out (next s') p q c =
      rw (p, q, rrq_loop) (ih s' (omega (arith, cost-le e)) (omega arith))
  GivesUp-turn out (stop end) p q c = rw (p, q, rrq_loop) c

  GivesUp-cons :
      (o : Outcome Sent) → rrq_send mode s ≡ o → (rrq_loop mode s (e ∷ es)).ending ≢ waiting
  unfolding rrq_loop
  GivesUp-cons (ok out) p =
      let same = rrq_send-timeout_counter mode s out p in
      GivesUp-turn out (rrq_receive out.state out.is_eof e) p refl (
        subst (λ c. Counts c (cost e) (rrq_receive out.state out.is_eof e)) same
          (rrq_receive-Counts out.state out.is_eof e (omega arith)))
  GivesUp-cons fail p = rw (p, rrq_loop) (λ q. cc)
  GivesUp-cons fault p = rw (p, rrq_loop) (λ q. cc)

-- Ten timeouts in all end the handler, whatever arrives between them.
pub rrq_loop-gives_up :
    (mode : List ℕ) (es : List Event) (s : Rrq)
    → s.timeout_counter < 10
    → 10 ≤ s.timeout_counter + timeouts es
    → (rrq_loop mode s es).ending ≢ waiting
unfolding timeouts
rrq_loop-gives_up mode [] s h enough = absurd (omega arith)
rrq_loop-gives_up mode (e ∷ es) s h enough =
    GivesUp-cons mode e es s (rrq_loop-gives_up mode es) h enough (rrq_send mode s) refl
