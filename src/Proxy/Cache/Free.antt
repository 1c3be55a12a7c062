-- ===== src/Proxy/Cache/Free.antt =====
-- free_cache_queue gives back every node.
use ecen_602_projects.Common.{
  ℕ, zero, suc, ◌+◌, ◌≤◌, ◌<◌, ◌≡◌, ◌≢◌, refl, ◌∙◌, true, false, none, some, [], ◌∷◌, arith, length,
  ne→==-false, Bool-cases, inl, inr,
}
use ecen_602_projects.Memory.{ok}
use ecen_602_projects.Proxy.Links.{Ptr, null, write, has, head_or, Distinct, Links, frame-write}
use ecen_602_projects.Proxy.Heap.{CacheNode, cache_links, World, put_cache}
use ecen_602_projects.Proxy.Heap.Steps.{load_cache-ok, write_self, write_other}
use ecen_602_projects.Proxy.Cache.Defs.{CacheQueue, free_cache_node, free_nodes, free_cache_queue}
use ecen_602_projects.Proxy.Cache.Queue.{Cells, IsQueue}

-- The nodes are gone, and nothing else has changed.
pub record Freed (w : World) (cells : Cells) (w' : World) : Type 0 where
  pub gone : (a : Ptr) → has a cells ≡ true → w'.caches a ≡ none
  pub same : (a : Ptr) → has a cells ≡ false → w'.caches a ≡ w.caches a
  pub fds : w'.fds ≡ w.fds
  pub out : w'.out ≡ w.out

free_cache_node-ok :
    (w : World) (p : Ptr) (c : CacheNode)
    → p ≢ null
    → w.caches p ≡ some c
    → free_cache_node p w ≡ ok (tt, record w { caches = write w.caches p none })
unfolding free_cache_node put_cache
free_cache_node-ok w p c ne e = rw (ne→==-false p null ne, load_cache-ok w p ne c e)

Freed-front :
    (w : World) (p : Ptr) (c : CacheNode) (cells : Cells) (w' : World)
    → has p cells ≡ false
    → Freed (record w { caches = write w.caches p none }) cells w'
    → Freed w ((p, c) ∷ cells) w'
Freed-front w p c cells w' out f = record {
  gone = λ a h. elim (Bool-cases (has a cells)) [
    | inl i ↦ f.gone a i
    | inr o ↦ f.same a o ∙ here a (let e : a ≡ p = ground arith in e)
  ];
  same = λ a h. f.same a (ground arith) ∙ write_other w.caches p none a (ground arith);
  fds = f.fds;
  out = f.out;
}
  where
    here : (a : Ptr) → a ≡ p → write w.caches p none a ≡ none
    here a e = rw e (write_self w.caches p none)

free_nodes-Freed :
    (w : World) (fuel : ℕ) (prev : Ptr) (cells : Cells)
    → Links cache_links w.caches prev cells null
    → Distinct cells
    → length cells < fuel
    → (w' : World) × (free_nodes fuel (head_or null cells) w ≡ ok (tt, w')) × Freed w cells w'
unfolding free_nodes
free_nodes-Freed w zero prev cells s d enough = absurd (omega arith)
free_nodes-Freed w (suc fuel) prev [] s d enough = (
  w,
  refl,
  record { gone = λ a h. absurd (ground arith); same = λ a h. refl; fds = refl; out = refl },
)
free_nodes-Freed w (suc fuel) prev ((a, c) ∷ cells) s d enough =
    let node = record c { prev = prev; next = head_or null cells } in
    let (w', run, f) =
      free_nodes-Freed (record w { caches = write w.caches a none }) fuel a cells
        (frame-write cache_links w.caches a none a null cells s.1 d.1) d.2 (omega arith) in
    (
      w',
      rw (
        ne→==-false a null d.0,
        load_cache-ok w a d.0 node s.0,
        free_cache_node-ok w a node d.0 s.0,
        run,
      ),
      Freed-front w a c cells w' d.1 f,
    )

-- For a queue with at most as many nodes as slots, free_cache_queue ends, follows no pointer that does not
-- lead to a node, gives back every node of the queue, and changes nothing else.
pub free_cache_queue-Freed :
    (w : World) (q : CacheQueue) (cells : Cells)
    → IsQueue w q cells
    → length cells ≤ q.max_slot
    → (w' : World) × (free_cache_queue q w ≡ ok (tt, w')) × Freed w cells w'
unfolding free_cache_queue
free_cache_queue-Freed w q cells is few =
    let (w', run, f) =
      free_nodes-Freed w (q.max_slot + 1) null cells is.links is.distinct (omega arith) in
    (w', rw (is.front, run), f)
