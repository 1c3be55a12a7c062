-- ===== src/Proxy/Heap/Defs.antt =====
-- The state of the proxy: its two kinds of nodes on the heap, and what it has sent and closed
-- (Assignment_4/lib.h and config.h). `fresh` is the next address that calloc returns.
use ecen_602_projects.Common.{
  ℕ, ◌+◌, refl, List, [], ◌∷◌, ◌++◌, Option, none, some, ◌==◌, if◌then◌else◌,
}
use ecen_602_projects.Memory.{Outcome, ok, fail, fault}
use ecen_602_projects.Proxy.Links.{Ptr, null, Heap, write, Linked}
use ecen_602_projects.Proxy.Http.{HttpInfo}

-- node_status_t
pub data NodeStatus : Type 0 where
  in_use idle reading writing : NodeStatus

-- fd_type_t
pub data FdType : Type 0 where
  dummy listen client server : FdType

-- cache_node_t; the node's http_info has no other owner and stands in the node.
pub record CacheNode : Type 0 where
  pub prev : Ptr
  pub next : Ptr
  pub buffer : Option (List ℕ)
  pub buffer_size : ℕ
  pub http_info : HttpInfo
  pub status : NodeStatus

-- fd_node_t; `none` is the descriptor -1.
pub record FdNode : Type 0 where
  pub prev : Ptr
  pub next : Ptr
  pub proxied : Ptr
  pub fd : Option ℕ
  pub fd_type : FdType
  pub status : NodeStatus
  pub cache_node : Ptr
  pub cache_node_backup : Ptr
  pub offset : ℕ
  pub flag : ℕ

abbrev pub cache_links : Linked CacheNode
cache_links = record {
  prev = λ c. c.prev;
  next = λ c. c.next;
  with_prev = λ p c. record c { prev = p };
  with_next = λ n c. record c { next = n };
  linked = λ p n c. record c { prev = p; next = n };
  prev-linked = λ p n c. refl;
  next-linked = λ p n c. refl;
  with_prev-linked = λ q p n c. refl;
  with_next-linked = λ q p n c. refl;
}

abbrev pub fd_links : Linked FdNode
fd_links = record {
  prev = λ c. c.prev;
  next = λ c. c.next;
  with_prev = λ p c. record c { prev = p };
  with_next = λ n c. record c { next = n };
  linked = λ p n c. record c { prev = p; next = n };
  prev-linked = λ p n c. refl;
  next-linked = λ p n c. refl;
  with_prev-linked = λ q p n c. refl;
  with_next-linked = λ q p n c. refl;
}

pub data Action : Type 0 where
  sent : Option ℕ → List ℕ → Action
  close : Option ℕ → Action

pub record World : Type 0 where
  pub caches : Heap CacheNode
  pub fds : Heap FdNode
  pub fresh : Ptr
  pub out : List Action

abbrev pub Cmd : Type 0 → Type 0
Cmd A = World → Outcome (A × World)

abbrev pub pure : {A : Type 0} → A → Cmd A
pure a w = ok (a, w)

abbrev pub lift : {A : Type 0} → Outcome A → Cmd A
lift o w = elim o [ ok a ↦ ok (a, w) | fail ↦ fail | fault ↦ fault ]

abbrev pub and_then : {A B : Type 0} → Outcome (A × World) → (A → Cmd B) → Outcome (B × World)
and_then (ok (a, w)) f = f a w
and_then fail f = fail
and_then fault f = fault

infixl 5 ◌>>=◌ ◌>>◌
abbrev pub ◌>>=◌ : {A B : Type 0} → Cmd A → (A → Cmd B) → Cmd B
m >>= f = λ w. and_then (m w) f

abbrev pub ◌>>◌ : {A B : Type 0} → Cmd A → Cmd B → Cmd B
m >> n = m >>= λ _. n

-- `*p`: a fault at a null pointer and at an address that holds no node.
unfoldable pub load : {A : Type 0} → Heap A → Ptr → Outcome A
load h p = if p == null then fault else elim (h p) [ none ↦ fault | some c ↦ ok c ]

unfoldable pub load_cache : Ptr → Cmd CacheNode
load_cache p w = lift (load w.caches p) w

unfoldable pub load_fd : Ptr → Cmd FdNode
load_fd p w = lift (load w.fds p) w

-- The raw writes, `none` gives the address back.
unfoldable pub put_cache : Ptr → Option CacheNode → Cmd (Unit {0})
put_cache p c w = ok (tt, record w { caches = write w.caches p c })

unfoldable pub put_fd : Ptr → Option FdNode → Cmd (Unit {0})
put_fd p c w = ok (tt, record w { fds = write w.fds p c })

-- An assignment to fields of `*p`.
unfoldable pub update_cache : Ptr → (CacheNode → CacheNode) → Cmd (Unit {0})
update_cache p f = do c ← load_cache p; put_cache p (some (f c))

unfoldable pub update_fd : Ptr → (FdNode → FdNode) → Cmd (Unit {0})
update_fd p f = do c ← load_fd p; put_fd p (some (f c))

unfoldable pub calloc_cache : CacheNode → Cmd Ptr
calloc_cache c w =
    ok (w.fresh, record w { caches = write w.caches w.fresh (some c); fresh = w.fresh + 1 })

unfoldable pub calloc_fd : FdNode → Cmd Ptr
calloc_fd c w = ok (w.fresh, record w { fds = write w.fds w.fresh (some c); fresh = w.fresh + 1 })

unfoldable pub act : Action → Cmd (Unit {0})
act a w = ok (tt, record w { out = w.out ++ a ∷ [] })
