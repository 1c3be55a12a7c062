-- ===== src/Sbcp/Service/Left.antt =====
-- The descriptors that the router's actions leave open, and those of the list.
use ecen_602_projects.Common.{
  ℕ, ◌≡◌, refl, ap, List, [], ◌∷◌, ◌++◌, Option, none, some, ◌==◌, if◌then◌else◌, Bool-cases, inl,
  inr,
}
use ecen_602_projects.Memory.{ok, Gives, Gives-bind}
use ecen_602_projects.Sbcp.Message.{Msg}
use ecen_602_projects.Sbcp.Clients.{
  Node, Action, write_to, close, link_last, remove_node, rename, msg_broadcast,
}
use ecen_602_projects.Sbcp.Service.Defs.{Deeds}

abbrev pub fds : List Node → List ℕ
fds [] = []
fds (n ∷ ns) = n.fd ∷ fds ns

unfoldable pub without : ℕ → List ℕ → List ℕ
without fd [] = []
without fd (e ∷ es) = if e == fd then es else e ∷ without fd es

-- The open descriptors behind what a round has written and closed.
unfoldable pub left_open : List ℕ → List Action → List ℕ
left_open open_fds [] = open_fds
left_open open_fds (write_to fd msg ∷ out) = left_open open_fds out
left_open open_fds (close fd ∷ out) = left_open (without fd open_fds) out

abbrev pub with_accepted : List ℕ → Option ℕ → List ℕ
with_accepted open_fds none = open_fds
with_accepted open_fds (some fd) = open_fds ++ fd ∷ []

-- The open descriptors behind the rounds, of connections only.
unfoldable pub open_after : List ℕ → List Deeds → List ℕ
open_after open_fds [] = open_fds
open_after open_fds (d ∷ deeds) =
    open_after (left_open (with_accepted open_fds d.accepted) d.out) deeds

pub left_open-append :
    (open_fds : List ℕ) (xs ys : List Action)
    → left_open open_fds (xs ++ ys) ≡ left_open (left_open open_fds xs) ys
unfolding left_open
left_open-append open_fds [] ys = refl
left_open-append open_fds (write_to fd msg ∷ xs) ys = left_open-append open_fds xs ys
left_open-append open_fds (close fd ∷ xs) ys = left_open-append (without fd open_fds) xs ys

-- A broadcast closes nothing.
pub left_open-msg_broadcast :
    (open_fds : List ℕ) (fd : ℕ) (ns : List Node) (msg : Msg)
    → left_open open_fds (msg_broadcast fd ns msg) ≡ open_fds
unfolding left_open msg_broadcast
left_open-msg_broadcast open_fds fd [] msg = refl
left_open-msg_broadcast open_fds fd (n ∷ ns) msg = elim (Bool-cases (n.fd == fd)) [
  | inl e ↦ rw e (left_open-msg_broadcast open_fds fd ns msg)
  | inr e ↦ rw e (left_open-msg_broadcast open_fds fd ns msg)
]

pub fds-rename : (fd : ℕ) (name : List ℕ) (ns : List Node) → fds (rename fd name ns) ≡ fds ns
unfolding rename
fds-rename fd name [] = refl
fds-rename fd name (n ∷ ns) = elim (Bool-cases (n.fd == fd)) [
  | inl e ↦ rw (e, fds-rename fd name ns) refl
  | inr e ↦ rw (e, fds-rename fd name ns) refl
]

pub fds-link_last : (ns : List Node) (n : Node) → fds (link_last ns n) ≡ fds ns ++ n.fd ∷ []
unfolding link_last
fds-link_last [] n = refl
fds-link_last (m ∷ ns) n = ap (λ l. m.fd ∷ l) (fds-link_last ns n)

pub remove_node-without :
    (fd : ℕ) (ns : List Node) → Gives (remove_node fd ns) (λ left. fds left ≡ without fd (fds ns))
unfolding remove_node without
remove_node-without fd [] = tt
remove_node-without fd (n ∷ ns) = elim (Bool-cases (n.fd == fd)) [
  | inl e ↦ rw e refl
  | inr e ↦ rw e (
      Gives-bind (remove_node fd ns) (λ left. ok (n ∷ left))
        (λ left. fds left ≡ without fd (fds ns)) (λ left. fds left ≡ n.fd ∷ without fd (fds ns))
        (remove_node-without fd ns) (λ left q. ap (λ l. n.fd ∷ l) q))
]
