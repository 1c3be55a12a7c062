-- ===== src/Sbcp/Clients/Nodes.antt =====
-- The list operations: order, counts, names and recipients.
use ecen_602_projects.Common.{
  ℕ, suc, ◌+◌, ◌*◌, ◌≤◌, ◌≡◌, ◌≢◌, refl, ap, ◌∙◌, sym, List, [], ◌∷◌, ◌++◌, arith, ◌==◌,
  if◌then◌else◌, Bool-cases, inl, inr, length, ==_self, ne→==-false, drop, append_assoc,
  length-append, length-drop,
}
use ecen_602_projects.Memory.{
  Outcome, ok, fail, fault, memcpy, memcpy-front, memcpy-extend, c_string,
}
use ecen_602_projects.Sbcp.Message.{Msg, zeros}
use ecen_602_projects.Sbcp.Message.Layout.{length-zeros}
use ecen_602_projects.Sbcp.Clients.Defs.{
  Node, link_last, append_node, remove_node, client_count, copy_usernames, get_usernames,
  msg_broadcast, Action, write_to, close, rename,
}

-- No node has this descriptor.
abbrev pub Absent : ℕ → List Node → Type 0
Absent fd [] = Unit
Absent fd (n ∷ ns) = (n.fd ≢ fd) × Absent fd ns

-- The node leaves the list, the others keep their order.
pub remove_node-append :
    (before behind : List Node) (n : Node)
    → Absent n.fd before
    → remove_node n.fd (before ++ n ∷ behind) ≡ ok (before ++ behind)
unfolding remove_node
remove_node-append [] behind n h = rw (==_self n.fd)
remove_node-append (m ∷ before) behind n h =
    rw (ne→==-false m.fd n.fd h.0, remove_node-append before behind n h.1)

-- A descriptor that is not in the list makes the search leave it.
pub remove_node-Absent : (fd : ℕ) (ns : List Node) → Absent fd ns → remove_node fd ns ≡ fault
unfolding remove_node
remove_node-Absent fd [] h = refl
remove_node-Absent fd (n ∷ ns) h = rw (ne→==-false n.fd fd h.0, remove_node-Absent fd ns h.1)

pub client_count-remove_node :
    (fd : ℕ) (ns ms : List Node)
    → remove_node fd ns ≡ ok ms
    → client_count ns ≡ suc (client_count ms)
unfolding remove_node client_count
client_count-remove_node fd [] ms h = cc
client_count-remove_node fd (n ∷ ns) ms h =
    go (remove_node fd ns) refl (client_count-remove_node fd ns)
  where
    go :
        (o : Outcome (List Node))
        → remove_node fd ns ≡ o
        → ((left : List Node)
            → remove_node fd ns ≡ ok left
            → client_count ns ≡ suc (client_count left))
        → suc (client_count ns) ≡ suc (client_count ms)
    go (ok left) e ih = let i = ih left e in ground arith
    go fail e ih = ground arith
    go fault e ih = ground arith

link_last_lem : (ns : List Node) (n : Node) → link_last ns n ≡ ns ++ n ∷ []
unfolding link_last
link_last_lem [] n = refl
link_last_lem (m ∷ ns) n = ap (λ l. m ∷ l) (link_last_lem ns n)

-- A new connection stands at the end, with the memory of its node as its name.
pub append_node_lem :
    (heap : List ℕ) (ns : List Node) (fd : ℕ)
    → append_node heap ns fd (0 ∷ []) ≡ ok (ns ++ record { fd = fd; username = heap } ∷ [])
unfolding append_node c_string
append_node_lem heap ns fd =
    rw (memcpy-front heap [] (omega arith))
      (ap ok (link_last_lem ns (record { fd = fd; username = heap })))

-- What a descriptor is sent.
unfoldable pub sent_to : ℕ → List Action → List Msg
sent_to fd [] = []
sent_to fd (write_to f m ∷ more) = (if f == fd then m ∷ [] else []) ++ sent_to fd more
sent_to fd (close f ∷ more) = sent_to fd more

-- A copy for each node with this descriptor.
unfoldable pub copies : ℕ → List Node → Msg → List Msg
copies fd [] m = []
copies fd (n ∷ ns) m = (if n.fd == fd then m ∷ [] else []) ++ copies fd ns m

-- The origin is sent nothing, and every other connection the message once.
pub sent_to-msg_broadcast :
    (fd origin : ℕ) (ns : List Node) (m : Msg)
    → sent_to fd (msg_broadcast origin ns m) ≡ (if fd == origin then [] else copies fd ns m)
unfolding sent_to copies msg_broadcast
sent_to-msg_broadcast fd origin [] m = ground arith
sent_to-msg_broadcast fd origin (n ∷ ns) m = ground (arith, sent_to-msg_broadcast fd origin ns m)

-- The nodes with another descriptor, in order.
unfoldable pub others : ℕ → List Node → List Node
others fd [] = []
others fd (n ∷ ns) = if n.fd == fd then others fd ns else n ∷ others fd ns

-- One write to each node, in order.
unfoldable pub write_each : List Node → Msg → List Action
write_each [] m = []
write_each (n ∷ ns) m = write_to n.fd m ∷ write_each ns m

pub msg_broadcast-others :
    (fd : ℕ) (ns : List Node) (m : Msg) → msg_broadcast fd ns m ≡ write_each (others fd ns) m
unfolding msg_broadcast others write_each
msg_broadcast-others fd [] m = refl
msg_broadcast-others fd (n ∷ ns) m = elim (Bool-cases (n.fd == fd)) [
  | inl e ↦ rw e (msg_broadcast-others fd ns m)
  | inr e ↦ rw e (ap (λ l. write_to n.fd m ∷ l) (msg_broadcast-others fd ns m))
]

rename-Absent :
    (fd : ℕ) (new_name : List ℕ) (ns : List Node) → Absent fd ns → rename fd new_name ns ≡ ns
unfolding rename
rename-Absent fd new_name [] h = refl
rename-Absent fd new_name (n ∷ ns) h =
    rw (ne→==-false n.fd fd h.0, rename-Absent fd new_name ns h.1)

-- One node has the new name, and the others are as they were.
pub rename-append :
    (new_name : List ℕ) (before behind : List Node) (n : Node)
    → Absent n.fd before
    → Absent n.fd behind
    → rename n.fd new_name (before ++ n ∷ behind)
      ≡ before ++ record n { username = new_name } ∷ behind
unfolding rename
rename-append new_name [] behind n h k = rw (==_self n.fd, rename-Absent n.fd new_name behind k)
rename-append new_name (m ∷ before) behind n h k =
    rw (ne→==-false m.fd n.fd h.0, rename-append new_name before behind n h.1 k)

-- The name arrays have 16 bytes.
abbrev pub Names : List Node → Type 0
Names [] = Unit
Names (n ∷ ns) = (length n.username ≡ 16) × Names ns

unfoldable pub all_names : List Node → List ℕ
all_names [] = []
all_names (n ∷ ns) = n.username ++ all_names ns

pub length-all_names : (ns : List Node) → Names ns → length (all_names ns) ≡ client_count ns * 16
unfolding all_names client_count
length-all_names [] h = refl
length-all_names (n ∷ ns) h =
    let e = h.0 in omega (arith, length-append n.username (all_names ns), length-all_names ns h.1)

copy_usernames-all_names :
    (ns : List Node) (k : ℕ) (front mem : List ℕ)
    → Names ns
    → length front ≡ k * 16
    → (k + client_count ns) * 16 ≤ length mem
    → copy_usernames k ns (front ++ drop (k * 16) mem)
      ≡ ok (front ++ (all_names ns ++ drop ((k + client_count ns) * 16) mem))
unfolding copy_usernames all_names client_count
copy_usernames-all_names [] k front mem names size room =
    ap (λ j. ok (front ++ drop (j * 16) mem)) (let e : k ≡ k + 0 = omega arith in e)
copy_usernames-all_names (n ∷ ns) k front mem names size room =
    let next : k * 16 + length n.username ≡ (k + 1) * 16 = let h = names.0 in omega arith in
    let count : k + 1 + client_count ns ≡ k + suc (client_count ns) = omega arith in
    let one : memcpy (front ++ drop (k * 16) mem) (k * 16) n.username
        ≡ ok ((front ++ n.username) ++ drop ((k + 1) * 16) mem) =
      memcpy-extend front mem n.username (k * 16) size (omega arith)
      ∙ (ap (λ j. ok (front ++ (n.username ++ drop j mem))) next
          ∙ ap ok (sym (append_assoc front n.username (drop ((k + 1) * 16) mem)))) in
    rw one (
      copy_usernames-all_names ns (k + 1) (front ++ n.username) mem names.1
        (omega (arith, length-append front n.username)) (omega arith)
      ∙ (ap (λ j. ok ((front ++ n.username) ++ (all_names ns ++ drop (j * 16) mem))) count
          ∙ ap ok (
              append_assoc front n.username
                (all_names ns ++ drop ((k + suc (client_count ns)) * 16) mem)
              ∙ ap (λ l. front ++ l)
                  (sym (
                    append_assoc n.username (all_names ns)
                      (drop ((k + suc (client_count ns)) * 16) mem))))))

-- The names of all nodes stand at the front of the array in the order of the list, as long as it
-- holds them; of what stood there only the first eight bytes are cleared.
pub get_usernames-all_names :
    (mem : List ℕ) (ns : List Node)
    → Names ns
    → 8 ≤ length mem
    → client_count ns * 16 ≤ length mem
    → get_usernames mem ns
      ≡ ok (all_names ns ++ drop (client_count ns * 16) (zeros 8 ++ drop 8 mem))
unfolding get_usernames
get_usernames-all_names mem ns names eight room =
    let cleared : memcpy mem 0 (zeros 8) ≡ ok (zeros 8 ++ drop 8 mem) =
      memcpy-front mem (zeros 8) (omega (arith, length-zeros 8))
      ∙ ap (λ k. ok (zeros 8 ++ drop k mem)) (length-zeros 8) in
    rw cleared (
      copy_usernames-all_names ns 0 [] (zeros 8 ++ drop 8 mem) names refl
        (omega (arith, length-append (zeros 8) (drop 8 mem), length-zeros 8, length-drop 8 mem))
      ∙ ap (λ k. ok (all_names ns ++ drop (k * 16) (zeros 8 ++ drop 8 mem))) (omega arith))
