-- ===== src/Sbcp/Clients/Defs.antt =====
-- The linked list of connections behind the listening node: Assignment_2/server_lib.c lines 5-82 and
-- 227-303. The list stands for the nodes in order; the descriptors of open connections differ.
use ecen_602_projects.Common.{
  ℕ, suc, ◌+◌, ◌*◌, Bool, true, false, List, [], ◌∷◌, ◌++◌, ltb, ◌==◌, if◌then◌else◌,
}
use ecen_602_projects.Memory.{Outcome, ok, fault, ◌>>=◌, memcpy, c_string, strcmp_arrays}
use ecen_602_projects.Sbcp.Message.{Msg, zeros}

-- socket_fd_t
pub record Node : Type 0 where
  pub fd : ℕ
  pub username : List ℕ  -- char[16]

-- The walk to the last node, and the link to the new one.
unfoldable pub link_last : List Node → Node → List Node
link_last [] new_node = new_node ∷ []
link_last (n ∷ ns) new_node = n ∷ link_last ns new_node

-- The characters of the name are copied without a terminator over what malloc returned.
unfoldable pub append_node : List ℕ → List Node → ℕ → List ℕ → Outcome (List Node)
append_node heap nodes new_fd new_username = do
  name ← c_string new_username
  username ← memcpy heap 0 name
  ok (link_last nodes (record { fd = new_fd; username = username }))

-- At the end of the list the code follows a null pointer.
unfoldable pub remove_node : ℕ → List Node → Outcome (List Node)
remove_node fd [] = fault
remove_node fd (n ∷ ns) =
    let rest = remove_node fd ns in if n.fd == fd then ok ns else rest >>= λ left. ok (n ∷ left)

unfoldable pub is_duplicate_name : List Node → List ℕ → Outcome Bool
is_duplicate_name [] new_name = ok false
is_duplicate_name (n ∷ ns) new_name =
    let rest = is_duplicate_name ns new_name in
    strcmp_arrays n.username new_name >>= λ same. if same then ok true else rest

unfoldable pub client_count : List Node → ℕ
client_count [] = 0
client_count (n ∷ ns) = suc (client_count ns)

-- The names of the nodes from number `count` on, 16 bytes each.
unfoldable pub copy_usernames : ℕ → List Node → List ℕ → Outcome (List ℕ)
copy_usernames count [] usernames = ok usernames
copy_usernames count (n ∷ ns) usernames = do
  usernames ← memcpy usernames (count * 16) n.username
  copy_usernames (count + 1) ns usernames

-- memset clears sizeof(usernames) bytes, which is the size of a pointer.
unfoldable pub get_usernames : List ℕ → List Node → Outcome (List ℕ)
get_usernames usernames nodes = do
  usernames ← memcpy usernames 0 (zeros 8)
  copy_usernames 0 nodes usernames

-- memcpy(node->username, new_name, 16), for the node with this descriptor
unfoldable pub rename : ℕ → List ℕ → List Node → List Node
rename fd new_name [] = []
rename fd new_name (n ∷ ns) =
    (if n.fd == fd then record n { username = new_name } else n) ∷ rename fd new_name ns

-- The largest descriptor, from the value that the variable `max_fd` holds.
unfoldable pub max_fd : ℕ → List Node → ℕ
max_fd max [] = max
max_fd max (n ∷ ns) = max_fd (if ltb n.fd max then max else n.fd) ns

pub data Action : Type 0 where
  write_to : ℕ → Msg → Action
  close : ℕ → Action

-- The message goes to every node but its origin.
unfoldable pub msg_broadcast : ℕ → List Node → Msg → List Action
msg_broadcast message_origin_fd [] msg = []
msg_broadcast message_origin_fd (n ∷ ns) msg =
    (if n.fd == message_origin_fd then [] else write_to n.fd msg ∷ [])
    ++ msg_broadcast message_origin_fd ns msg
