-- ===== src/Proxy/Handlers/Defs.antt =====
-- listen_fd_handler, client_read_handler, client_write_handler, server_read_handler and
-- server_write_handler (Assignment_4/lib.c). What accept, recv, send and server_lookup_connect give
-- are arguments, `none` for a failure. A handler that may enqueue returns the cache queue.
use ecen_602_projects.Common.{
  ℕ, Bool, true, false, List, ◌++◌, Option, none, some, ◌==◌, if◌then◌else◌,
}
use ecen_602_projects.Memory.{c_string}
use ecen_602_projects.Proxy.Links.{Ptr, null}
use ecen_602_projects.Proxy.Http.{parse_request}
use ecen_602_projects.Proxy.Heap.{
  reading, writing, client, server, close, Cmd, pure, lift, ◌>>=◌, ◌>>◌, load_cache, load_fd,
  update_cache, update_fd, act,
}
use ecen_602_projects.Proxy.Cache.{CacheQueue, new_cache_node, is_idle, is_cache_hit, cache_enqueue}
use ecen_602_projects.Proxy.Fds.{FdList, new_fd_node, free_fd_node, fd_list_append, fd_list_remove}
use ecen_602_projects.Proxy.Transfer.{Env, bytes_of, contains, end_text, cache_recv, cache_send}

abbrev pub initial_buffer : ℕ
initial_buffer = 200

unfoldable pub listen_fd_handler : FdList → Option ℕ → Cmd Bool
listen_fd_handler l none = pure false
listen_fd_handler l (some client_fd) = do
  cache_node ← new_cache_node null null initial_buffer
  client_node ← new_fd_node null null (some client_fd) client reading cache_node
  fd_list_append l client_node
  pure true

-- A connection is given up.
unfoldable pub drop_node : Ptr → Cmd (Unit {0})
drop_node p = do f ← load_fd p; act (close f.fd); fd_list_remove p; free_fd_node p

-- The request is parsed if its end is there. `buffer` is read up to its NUL, wherever that is.
unfoldable pub read_request : Env → Ptr → Cmd (Unit {0})
read_request env cache_node = do
  c ← load_cache cache_node
  request ← lift (c_string (bytes_of c.buffer ++ env.behind_heap))
  (if contains end_text request
      then (do
        http_info ← lift (parse_request env.junk (bytes_of c.buffer ++ env.behind_heap) c.http_info)
        update_cache cache_node (λ c. record c { http_info = http_info }))
      else pure tt)

-- Conditional for a hit, else normal.
unfoldable pub choose_get : Ptr → Ptr → Ptr → Cmd (Unit {0})
choose_get p server_node hit =
    if hit == null then update_fd server_node (λ g. record g { flag = 2 }) else (do
      f ← load_fd p
      update_fd f.proxied (λ g. record g { cache_node_backup = hit })
      update_fd server_node (λ g. record g { flag = 1 }))

unfoldable pub connect_server : FdList → CacheQueue → Ptr → Option ℕ → Cmd (Unit {0})
connect_server l q p none = drop_node p
connect_server l q p (some server_fd) = do
  f ← load_fd p
  server_node ← new_fd_node null null (some server_fd) server writing f.cache_node
  update_fd server_node (λ g. record g { proxied = p })
  update_fd p (λ g. record g { proxied = server_node })
  fd_list_append l server_node
  c ← load_cache f.cache_node
  hit ← is_cache_hit q c.http_info
  choose_get p server_node hit

unfoldable pub client_read_handler :
    Env → FdList → CacheQueue → Ptr → Option (List ℕ) → Option ℕ → Cmd (Unit {0})
client_read_handler env l q p received connected = do
  cache_recv env p received
  f ← load_fd p
  (if is_idle f.status
      then (read_request env f.cache_node >> connect_server l q p connected)
      else pure tt)

unfoldable pub client_write_handler : Ptr → Option ℕ → Cmd (Unit {0})
client_write_handler p result = do
  cache_send p result
  f ← load_fd p
  (if is_idle f.status then drop_node p else pure tt)

-- An answer that is complete: the client is served next, and a URL that is not cached is.
unfoldable pub keep_response : CacheQueue → Ptr → Cmd CacheQueue
keep_response q p = do
  f ← load_fd p
  update_fd f.proxied (λ g. record g { status = writing })
  c ← load_cache f.cache_node
  hit ← is_cache_hit q c.http_info
  q ← (if hit == null then cache_enqueue q f.cache_node else pure q)
  fd_list_remove p
  free_fd_node p
  pure q

unfoldable pub server_read_handler : Env → CacheQueue → Ptr → Option (List ℕ) → Cmd CacheQueue
server_read_handler env q p received = do
  cache_recv env p received
  f ← load_fd p
  (if is_idle f.status then keep_response q p else pure q)

unfoldable pub server_write_handler : Ptr → Option ℕ → Cmd (Unit {0})
server_write_handler p result = do
  cache_send p result
  f ← load_fd p
  (if is_idle f.status then update_fd p (λ f. record f { status = reading }) else pure tt)
