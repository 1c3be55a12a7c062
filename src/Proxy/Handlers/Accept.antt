-- ===== src/Proxy/Handlers/Accept.antt =====
-- listen_fd_handler when a client has been accepted.
use ecen_602_projects.Common.{
  ℕ, ◌+◌, ◌≡◌, ◌≢◌, refl, ap, ◌∙◌, true, false, some, [], ◌∷◌, ◌++◌, arith, replicate,
}
use ecen_602_projects.Memory.{ok}
use ecen_602_projects.Proxy.Links.{Ptr, null, write, has, has-append, frame-write}
use ecen_602_projects.Proxy.Http.{empty_info}
use ecen_602_projects.Proxy.Heap.{
  idle, reading, client, CacheNode, FdNode, fd_links, World, calloc_cache, calloc_fd,
}
use ecen_602_projects.Proxy.Heap.Steps.{write_self, write_other}
use ecen_602_projects.Proxy.Cache.{empty_buffer, new_cache_node}
use ecen_602_projects.Proxy.Cache.Init.{no_info}
use ecen_602_projects.Proxy.Fds.{FdList, new_fd_node}
use ecen_602_projects.Proxy.Fds.Order.{Cells, IsList}
use ecen_602_projects.Proxy.Fds.Append.{fd_list_append-IsList}
use ecen_602_projects.Proxy.Handlers.Defs.{listen_fd_handler}

-- The buffer that a client's request is read into: 200 bytes, all of them zero.
abbrev pub request_node : CacheNode
request_node = record {
  prev = null;
  next = null;
  buffer = some (replicate 200 0);
  buffer_size = 200;
  http_info = no_info;
  status = idle;
}

-- A connection from which a request is to be read.
abbrev pub client_node : (fd : ℕ) → (cache_node : Ptr) → FdNode
client_node fd cache_node = record {
  prev = null;
  next = null;
  proxied = null;
  fd = some fd;
  fd_type = client;
  status = reading;
  cache_node = cache_node;
  cache_node_backup = null;
  offset = 0;
  flag = 0;
}

-- The list with the new connection in front of its rear, and the new buffer.
pub record Accepted (w : World) (cells : Cells) (w' : World) : Type 0 where
  pub list : IsList w' cells
  pub buffer : w'.caches w.fresh ≡ some request_node
  pub same_caches : (a : Ptr) → a ≢ w.fresh → w'.caches a ≡ w.caches a
  pub same_fds : (a : Ptr) → has a cells ≡ false → w'.fds a ≡ w.fds a
  pub out : w'.out ≡ w.out

-- Where the next address of calloc is free, a client that is accepted gets a buffer of 200 zeros at
-- that address, and a node that waits for its request and refers to it, in front of the rear of the
-- list, which stays linked both ways; the other nodes keep their order and contents, the other buffers
-- stay as they are, and nothing is sent or closed.
pub listen_fd_handler-Accepted :
    (w : World) (l : FdList) (xs : Cells) (x r : Ptr) (cx cr : FdNode) (fd : ℕ)
    → IsList w (xs ++ (x, cx) ∷ (r, cr) ∷ [])
    → l.rear ≡ r
    → has (w.fresh + 1) (xs ++ (x, cx) ∷ (r, cr) ∷ []) ≡ false
    → (w' : World) × (listen_fd_handler l (some fd) w ≡ ok (true, w'))
      × Accepted w (xs ++ (x, cx) ∷ (w.fresh + 1, client_node fd w.fresh) ∷ (r, cr) ∷ []) w'
unfolding listen_fd_handler empty_buffer empty_info new_cache_node new_fd_node calloc_cache
    calloc_fd
listen_fd_handler-Accepted w l xs x r cx cr fd is rear free =
    let p = w.fresh + 1 in
    let c = client_node fd w.fresh in
    let w2 : World = record w {
      caches = write w.caches w.fresh (some request_node);
      fds = write w.fds p (some c);
      fresh = w.fresh + 1 + 1;
    } in
    let is2 : IsList w2 (xs ++ (x, cx) ∷ (r, cr) ∷ []) = (
      frame-write fd_links w.fds p (some c) null null (xs ++ (x, cx) ∷ (r, cr) ∷ []) is.0 free,
      is.1,
    ) in
    let (w', run, list, changed) =
      fd_list_append-IsList w2 l xs x p r cx c cr is2 rear (omega arith)
        (write_self w.fds p (some c)) free in
    (
      w',
      rw run refl,
      record {
        list = list;
        buffer =
            ap (λ h. h w.fresh) changed.caches ∙ write_self w.caches w.fresh (some request_node);
        same_caches = λ a ne.
            ap (λ h. h a) changed.caches ∙ write_other w.caches w.fresh (some request_node) a ne;
        same_fds = λ a out.
            changed.same a out
            ∙ write_other w.fds p (some c) a
                (ground (arith, has-append a xs ((x, cx) ∷ (p, c) ∷ (r, cr) ∷ [])));
        out = changed.out;
      },
    )
