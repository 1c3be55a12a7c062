-- ===== src/Echo/Defs.antt =====
-- The loop of the child in Assignment_1/server.c and the loop over the lines in Assignment_1/client.c.
use ecen_602_projects.Common.{
  ℕ, zero, suc, Bool, true, false, Option, none, some, List, [], ◌∷◌, ◌++◌, ◌==◌, if◌then◌else◌,
  length,
}
use ecen_602_projects.Memory.{strcmp_arrays, Outcome, ok, fault, ◌>>=◌, memcpy, slice}

-- What server_read meets: at most 99 bytes, the end of the stream, EINTR, or another error.
pub data Read : Type 0 where
  received : List ℕ → Read
  disconnected interrupted failed : Read

pub data Ending : Type 0 where
  waiting closed exited : Ending

pub record Child : Type 0 where
  pub sent : List (List ℕ)
  pub ending : Ending

abbrev sending : List ℕ → Child → Child
sending datagram c = record c { sent = datagram ∷ c.sent }

abbrev ends : Ending → Outcome Child
ends e = ok (record { sent = []; ending = e })

-- One round for each read. The answer has 99 bytes, however many came in. A failed send is not
-- noticed: numbytes is given the value of the comparison, which is 0 behind the loop.
unfoldable pub echo_loop : List ℕ → List Read → Outcome Child
echo_loop buf [] = ends waiting
echo_loop buf (disconnected ∷ rs) = ends closed
echo_loop buf (failed ∷ rs) = ends exited
echo_loop buf (interrupted ∷ rs) = echo_loop buf rs
echo_loop buf (received bytes ∷ rs) = do
  buf ← memcpy buf 0 bytes
  datagram ← slice buf 0 99
  child ← echo_loop buf rs
  ok (sending datagram child)

-- fgets stores a line of at most 99 bytes with a terminator.
unfoldable pub read_line : List ℕ → List ℕ → Outcome (List ℕ)
read_line buf text = memcpy buf 0 (text ++ 0 ∷ [])

unfoldable pub writen : List ℕ → Outcome (List ℕ)
writen buf = slice buf 0 99

-- strncmp(a, b, n) == 0
unfoldable pub strncmp_arrays : ℕ → List ℕ → List ℕ → Outcome Bool
strncmp_arrays zero a b = ok true
strncmp_arrays (suc n) [] b = fault
strncmp_arrays (suc n) (c ∷ a) [] = fault
strncmp_arrays (suc n) (c ∷ a) (d ∷ b) =
    let rest = strncmp_arrays n a b in
    if c == d then (if c == 0 then ok true else rest) else ok false

-- A reply that matches, one that has the beginning of the line, and one at which the client exits.
pub data Verdict : Type 0 where
  matched out_of_space mismatch : Verdict

prefix_verdict : Bool → Verdict
prefix_verdict true = out_of_space
prefix_verdict false = mismatch

unfoldable pub compare_reply : List ℕ → List ℕ → List ℕ → Outcome Verdict
unfolding prefix_verdict
compare_reply buf recvbuf reply = do
  recvbuf ← memcpy recvbuf 0 reply
  equal ← strcmp_arrays buf recvbuf
  (if equal
      then ok matched
      else (strncmp_arrays (length reply) buf recvbuf >>= λ prefix. ok (prefix_verdict prefix)))

-- One round of the client's loop: a line of the input, whether send works, and what recv gives.
pub record Exchange : Type 0 where
  pub text : List ℕ
  pub sends : Bool
  pub reply : Option (List ℕ)

pub data ClientEnd : Type 0 where
  finished given_up : ClientEnd

pub record Client : Type 0 where
  pub sent : List (List ℕ)
  pub ending : ClientEnd

abbrev goes_on : Verdict → Bool
goes_on matched = true
goes_on out_of_space = true
goes_on mismatch = false

abbrev gives_up : List (List ℕ) → Outcome Client
gives_up sent = ok (record { sent = sent; ending = given_up })

abbrev sends_first : List ℕ → Outcome Client → Outcome Client
sends_first datagram m = m >>= λ c. ok (record c { sent = datagram ∷ c.sent })

-- The loop over the lines of the input, which ends with them. The client exits at a failed call, and at
-- a reply that does not begin as the line does.
unfoldable pub client_loop : List ℕ → List ℕ → List Exchange → Outcome Client
client_loop buf recvbuf [] = ok (record { sent = []; ending = finished })
client_loop buf recvbuf (x ∷ xs) = do
  buf ← read_line buf x.text
  datagram ← writen buf
  (elim x.sends as (λ b. Outcome Client) [
    | false ↦ gives_up []
    | true ↦ elim x.reply as (λ r. Outcome Client) [
      | none ↦ gives_up (datagram ∷ [])
      | some reply ↦ (do
        verdict ← compare_reply buf recvbuf reply
        recvbuf ← memcpy recvbuf 0 reply
        let rest = client_loop buf recvbuf xs
        (if goes_on verdict then sends_first datagram rest else gives_up (datagram ∷ [])))
    ]
  ])
