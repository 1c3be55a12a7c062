-- ===== src/Proxy/Cache/Search.antt =====
-- is_cache_hit walks along the list: the fuel is enough, and the first hit is found.
use ecen_602_projects.Common.{
  ℕ, zero, suc, ◌+◌, ◌<◌, ◌≤◌, ◌≡◌, refl, Bool, true, false, [], ◌∷◌, arith, if◌then◌else◌, length,
  ne→==-false,
}
use ecen_602_projects.Memory.{Outcome, ok, fail, fault}
use ecen_602_projects.Proxy.Links.{Ptr, null, head_or, Distinct, Links}
use ecen_602_projects.Proxy.Http.{HttpInfo}
use ecen_602_projects.Proxy.Heap.{cache_links, World, Cmd, pure, lift, ◌>>=◌}
use ecen_602_projects.Proxy.Heap.Steps.{load_cache-ok}
use ecen_602_projects.Proxy.Cache.Defs.{CacheQueue, is_hit, search_cache, is_cache_hit}
use ecen_602_projects.Proxy.Cache.Queue.{Cells, IsQueue}

-- One node of the search: its address if it is a hit, else what the rest gives.
unfoldable pub hit_or : Outcome Bool → Ptr → Outcome Ptr → Outcome Ptr
hit_or (ok true) a rest = ok a
hit_or (ok false) a rest = rest
hit_or fail a rest = fail
hit_or fault a rest = fault

-- The address of the first hit, or null; a comparison may leave its array.
unfoldable pub first_hit : HttpInfo → Cells → Outcome Ptr
first_hit http_info [] = ok null
first_hit http_info ((a, c) ∷ cells) =
    hit_or (is_hit http_info c.http_info) a (first_hit http_info cells)

hit_or-lift :
    (w : World) (o : Outcome Bool) (a : Ptr) (search : Cmd Ptr) (rest : Outcome Ptr)
    → search w ≡ lift rest w
    → (lift o >>= λ hit. if hit then pure a else search) w ≡ lift (hit_or o a rest) w
unfolding hit_or
hit_or-lift w (ok true) a search rest h = refl
hit_or-lift w (ok false) a search rest h = h
hit_or-lift w fail a search rest h = refl
hit_or-lift w fault a search rest h = refl

search_cache-first_hit :
    (w : World) (http_info : HttpInfo) (fuel : ℕ) (prev : Ptr) (cells : Cells)
    → Links cache_links w.caches prev cells null
    → Distinct cells
    → length cells < fuel
    → search_cache fuel (head_or null cells) http_info w ≡ lift (first_hit http_info cells) w
unfolding search_cache first_hit
search_cache-first_hit w http_info zero prev cells s d enough = absurd (omega arith)
search_cache-first_hit w http_info (suc fuel) prev [] s d enough = refl
search_cache-first_hit w http_info (suc fuel) prev ((a, c) ∷ cells) s d enough =
    rw
      (
        ne→==-false a null (d.0),
        load_cache-ok w a (d.0) (record c { prev = prev; next = head_or null cells }) (s.0),
      )
      (hit_or-lift w (is_hit http_info c.http_info) a
        (search_cache fuel (head_or null cells) http_info) (first_hit http_info cells)
        (search_cache-first_hit w http_info fuel a cells (s.1) (d.2) (omega arith)))

-- In a queue of at most as many nodes as slots the search ends, changes nothing, and finds the
-- first node in the order of the queue that is complete and has the same URL.
pub is_cache_hit-first_hit :
    (w : World) (q : CacheQueue) (cells : Cells) (http_info : HttpInfo)
    → IsQueue w q cells
    → length cells ≤ q.max_slot
    → is_cache_hit q http_info w ≡ lift (first_hit http_info cells) w
unfolding is_cache_hit
is_cache_hit-first_hit w q cells http_info is few = rw is.front (
    search_cache-first_hit w http_info (q.max_slot + 1) null cells is.links is.distinct
      (omega arith))
