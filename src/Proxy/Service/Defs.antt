-- ===== src/Proxy/Service/Defs.antt =====
-- main of Assignment_4/proxy.c: the traversal of the nodes behind one call of select, and the rounds.
use ecen_602_projects.Common.{
  ℕ, zero, suc, Bool, true, false, ◌&&◌, List, [], ◌∷◌, Option, none, some, ◌==◌, if◌then◌else◌,
}
use ecen_602_projects.Memory.{fail}
use ecen_602_projects.Proxy.Links.{Ptr, null}
use ecen_602_projects.Proxy.Heap.{
  NodeStatus, in_use, idle, reading, writing, FdType, dummy, listen, client, server, FdNode, Cmd,
  pure, lift, ◌>>=◌, ◌>>◌, load_fd,
}
use ecen_602_projects.Proxy.Cache.{CacheQueue, new_cache_queue}
use ecen_602_projects.Proxy.Fds.{FdList, new_fd_list, new_fd_node, fd_list_append}
use ecen_602_projects.Proxy.Transfer.{Env}
use ecen_602_projects.Proxy.Handlers.{
  listen_fd_handler, client_read_handler, client_write_handler, server_read_handler,
  server_write_handler,
}

-- What the system gives behind one call of select: the sets, and the result of each call, by the node
-- and the number of steps of the traversal that are left.
pub record Ready : Type 0 where
  pub readable : Option ℕ → Bool
  pub writable : Option ℕ → Bool
  pub accepted : Option ℕ
  pub received : ℕ → Ptr → Option (List ℕ)
  pub taken : ℕ → Ptr → Option ℕ
  pub connected : ℕ → Ptr → Option ℕ

abbrev pub is_reading : NodeStatus → Bool
is_reading reading = true
is_reading in_use = false
is_reading idle = false
is_reading writing = false

abbrev pub is_writing : NodeStatus → Bool
is_writing writing = true
is_writing in_use = false
is_writing idle = false
is_writing reading = false

module _ (env : Env) (l : FdList) (ready : Ready) where
  -- What is done for one node, and the node that the traversal goes on with. Behind
  -- client_write_handler it goes on with the same node.
  unfoldable pub serve_client : ℕ → Ptr → FdNode → CacheQueue → Cmd (Ptr × CacheQueue)
  serve_client left p f q =
      if is_reading f.status && ready.readable f.fd
      then (client_read_handler env l q p (ready.received left p) (ready.connected left p)
          >> pure (f.next, q))
      else if is_writing f.status && ready.writable f.fd
      then (client_write_handler p (ready.taken left p) >> pure (p, q))
      else pure (f.next, q)

  unfoldable pub serve_server : ℕ → Ptr → FdNode → CacheQueue → Cmd (Ptr × CacheQueue)
  serve_server left p f q =
      if is_reading f.status && ready.readable f.fd
      then (server_read_handler env q p (ready.received left p) >>= λ q'. pure (f.next, q'))
      else if is_writing f.status && ready.writable f.fd
      then (server_write_handler p (ready.taken left p) >> pure (f.next, q))
      else pure (f.next, q)

  unfoldable pub serve_node : ℕ → Ptr → FdNode → FdType → CacheQueue → Cmd (Ptr × CacheQueue)
  serve_node left p f dummy q = pure (f.next, q)
  serve_node left p f listen q =
      if ready.readable f.fd
      then (listen_fd_handler l ready.accepted >> pure (f.next, q))
      else pure (f.next, q)
  serve_node left p f client q = serve_client left p f q
  serve_node left p f server q = serve_server left p f q

  -- `fail` when the steps are used up.
  unfoldable pub serve_nodes : ℕ → Ptr → CacheQueue → Cmd CacheQueue
  serve_nodes zero p q = lift fail
  serve_nodes (suc left) p q =
      if p == null
      then pure q
      else do f ← load_fd p; (p', q) ← serve_node left p f f.fd_type q; serve_nodes left p' q

-- The results of select: nothing ready, an error, or ready descriptors.
pub data Selected : Type 0 where
  timeout failed : Selected
  some_ready : Ready → Selected

-- The rounds of the loop, one for each result of select, each with `steps` steps at most. The result
-- says whether the program goes on: an error ends it.
unfoldable pub service_loop : Env → FdList → ℕ → List Selected → CacheQueue → Cmd Bool
service_loop env l steps [] q = pure true
service_loop env l steps (timeout ∷ more) q = service_loop env l steps more q
service_loop env l steps (failed ∷ more) q = pure false
service_loop env l steps (some_ready ready ∷ more) q =
    serve_nodes env l ready steps l.front q >>= service_loop env l steps more

abbrev pub lru_max_slot : ℕ
lru_max_slot = 10

abbrev pub proxy_max_client : ℕ
proxy_max_client = 3

-- The listening socket, if server_init gives one, is the one node at the start.
unfoldable pub serve_socket : Env → ℕ → List Selected → FdList → CacheQueue → Option ℕ → Cmd Bool
serve_socket env steps selected l q none = pure false
serve_socket env steps selected l q (some listen_fd) = do
  node ← new_fd_node null null (some listen_fd) listen reading null
  fd_list_append l node
  service_loop env l steps selected q

unfoldable pub main : Env → Option ℕ → ℕ → List Selected → Cmd Bool
main env listen_fd steps selected = do
  l ← new_fd_list proxy_max_client
  q ← new_cache_queue lru_max_slot
  serve_socket env steps selected l q listen_fd
