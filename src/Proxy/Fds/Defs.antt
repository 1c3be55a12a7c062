-- ===== src/Proxy/Fds/Defs.antt =====
-- new_fd_node, new_fd_list, free_fd_node, fd_list_append, fd_list_remove, count_client, get_max_fd, and what
-- fd_select asks for. An fd_list_t lives outside the heap. A walk along the list has fuel.
use ecen_602_projects.Common.{
  ℕ, zero, suc, ◌+◌, List, [], ◌∷◌, Option, none, some, ltb, ◌==◌, if◌then◌else◌,
}
use ecen_602_projects.Memory.{fail}
use ecen_602_projects.Proxy.Links.{Ptr, null}
use ecen_602_projects.Proxy.Heap.{
  NodeStatus, in_use, idle, reading, writing, FdType, dummy, client, FdNode, Cmd, pure, lift, ◌>>=◌,
  ◌>>◌, load_fd, put_fd, update_fd, calloc_fd,
}

pub record FdList : Type 0 where
  pub front : Ptr
  pub rear : Ptr
  pub max_client : ℕ

unfoldable pub new_fd_node : Ptr → Ptr → Option ℕ → FdType → NodeStatus → Ptr → Cmd Ptr
new_fd_node prev next fd fd_type status cache_node = calloc_fd (record {
  prev = prev;
  next = next;
  proxied = null;
  fd = fd;
  fd_type = fd_type;
  status = status;
  cache_node = cache_node;
  cache_node_backup = null;
  offset = 0;
  flag = 0;
})

-- Two dummy nodes.
unfoldable pub new_fd_list : ℕ → Cmd FdList
new_fd_list max_client = do
  front ← new_fd_node null null none dummy idle null
  rear ← new_fd_node null null none dummy idle null
  update_fd front (λ f. record f { next = rear })
  update_fd rear (λ f. record f { prev = front })
  pure (record { front = front; rear = rear; max_client = max_client })

unfoldable pub free_fd_node : Ptr → Cmd (Unit {0})
free_fd_node p = if p == null then pure tt else (load_fd p >> put_fd p none)

-- In front of the rear dummy.
unfoldable pub fd_list_append : FdList → Ptr → Cmd (Unit {0})
fd_list_append l new_node = do
  rear ← load_fd l.rear
  update_fd new_node (λ f. record f { prev = rear.prev })
  update_fd new_node (λ f. record f { next = l.rear })
  last ← load_fd l.rear
  update_fd last.prev (λ f. record f { next = new_node })
  update_fd l.rear (λ f. record f { prev = new_node })

unfoldable pub fd_list_remove : Ptr → Cmd (Unit {0})
fd_list_remove p = do
  node ← load_fd p
  update_fd node.prev (λ f. record f { next = node.next })
  again ← load_fd p
  update_fd again.next (λ f. record f { prev = again.prev })
  update_fd p (λ f. record f { prev = null })
  update_fd p (λ f. record f { next = null })

abbrev pub larger_fd : Option ℕ → ℕ → ℕ
larger_fd none fd_max = fd_max
larger_fd (some fd) fd_max = if ltb fd_max fd then fd else fd_max

unfoldable pub max_from : ℕ → Ptr → ℕ → Cmd ℕ
max_from zero p fd_max = lift fail
max_from (suc fuel) p fd_max =
    if p == null
    then pure fd_max
    else do f ← load_fd p; max_from fuel f.next (larger_fd f.fd fd_max)

unfoldable pub get_max_fd : ℕ → FdList → Cmd ℕ
get_max_fd fuel l = max_from fuel l.front 0

-- The descriptors that fd_select puts into read_fds and write_fds, in the order of the list.
pub record Interest : Type 0 where
  pub reads : List (Option ℕ)
  pub writes : List (Option ℕ)

abbrev pub add_interest : FdNode → NodeStatus → Interest → Interest
add_interest f reading i = record i { reads = f.fd ∷ i.reads }
add_interest f writing i = record i { writes = f.fd ∷ i.writes }
add_interest f in_use i = i
add_interest f idle i = i

unfoldable pub interest_from : ℕ → Ptr → Cmd Interest
interest_from zero p = lift fail
interest_from (suc fuel) p =
    if p == null
    then pure (record { reads = []; writes = [] })
    else do f ← load_fd p; rest ← interest_from fuel f.next; pure (add_interest f f.status rest)

unfoldable pub fd_select : ℕ → FdList → Cmd (Interest × ℕ)
fd_select fuel l = do
  interest ← interest_from fuel l.front
  fd_max ← get_max_fd fuel l
  pure (interest, fd_max + 1)

-- The assignment in the condition makes every node it meets a client, and `next` stays where it is.
unfoldable pub count_from : ℕ → Ptr → ℕ → Cmd ℕ
count_from zero p count = lift fail
count_from (suc fuel) p count =
    if p == null
    then pure count
    else (update_fd p (λ f. record f { fd_type = client }) >> count_from fuel p (count + 1))

unfoldable pub count_client : ℕ → FdList → Cmd ℕ
count_client fuel l = count_from fuel l.front 0
