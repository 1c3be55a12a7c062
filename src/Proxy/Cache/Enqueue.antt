-- ===== src/Proxy/Cache/Enqueue.antt =====
-- cache_enqueue: the new node stands in front, the last one is gone, and the number of nodes is kept.
use ecen_602_projects.Common.{◌≡◌, ◌≢◌, refl, sym, ◌∙◌, false, some, [], ◌∷◌, ◌++◌, arith}
use ecen_602_projects.Memory.{ok}
use ecen_602_projects.Proxy.Links.{
  Ptr, null, Heap, write, has, head_or, last_or, has-append, frame, last_or-append, Distinct-back,
  Distinct-apart,
}
use ecen_602_projects.Proxy.Heap.{CacheNode, cache_links, World}
use ecen_602_projects.Proxy.Heap.Steps.{update_cache-ok, write_self, write_other}
use ecen_602_projects.Proxy.Cache.Defs.{CacheQueue, cache_enqueue, push_front}
use ecen_602_projects.Proxy.Cache.Queue.{
  Cells, IsQueue, evicted, cache_dequeue-Dequeued, cache_dequeue-IsQueue,
}

module _ (w : World) (q : CacheQueue) (f p : Ptr) (cf c : CacheNode) (ys : Cells)
    (is : IsQueue w q ((f, cf) ∷ ys)) (ne : p ≢ null) (new : w.caches p ≡ some c)
    (out : has p ((f, cf) ∷ ys) ≡ false) where
  h1 : Heap CacheNode
  h1 = write w.caches f (some (record cf { prev = p; next = head_or null ys }))

  h2 : Heap CacheNode
  h2 = write h1 p (some (record c { next = f }))

  pushed : World
  pushed = record w { caches = write h2 p (some (record c { prev = null; next = f })) }

  apart : p ≢ f
  apart = ground arith

  push_front-ok : push_front p q w ≡ ok (record q { front = p }, pushed)
  unfolding push_front pushed h1 h2
  push_front-ok = rw (
    is.front,
    update_cache-ok w f (is.distinct.0) (record cf { prev = null; next = head_or null ys })
        (λ c. record c { prev = p }) (is.links.0),
    update_cache-ok (record w { caches = h1 }) p ne c (λ c. record c { next = f })
        (write_other w.caches f _ p apart ∙ new),
    update_cache-ok (record w { caches = h2 }) p ne (record c { next = f })
        (λ c. record c { prev = null }) (write_self h1 p _),
  )

  pushed_other : (a : Ptr) → a ≢ p → a ≢ f → pushed.caches a ≡ w.caches a
  unfolding pushed h2 h1 write
  pushed_other a ne ne' = ground arith

  pushed-IsQueue : IsQueue pushed (record q { front = p }) ((p, c) ∷ (f, cf) ∷ ys)
  unfolding pushed h2 h1
  pushed-IsQueue = record {
    links = (
      write_self h2 p _,
      (
        write_other h2 p _ f (λ h. apart (sym h))
            ∙ (write_other h1 p _ f (λ h. apart (sym h)) ∙ write_self w.caches f _),
        frame cache_links w.caches pushed.caches f null ys (is.links.1)
            (λ a i. pushed_other a (λ h. ground arith) (λ h. ground arith)),
      ),
    );
    distinct = (ne, out, is.distinct);
    front = refl;
    rear = is.rear;
  }

-- The state behind a push: the queue, and what is not touched.
pub record Pushed (w : World) (q : CacheQueue) (p : Ptr) (c : CacheNode) (cells : Cells)
    (w' : World) : Type 0 where
  pub queue : IsQueue w' (record q { front = p }) ((p, c) ∷ cells)
  pub same : (a : Ptr) → a ≢ p → has a cells ≡ false → w'.caches a ≡ w.caches a
  pub fds : w'.fds ≡ w.fds

push_front-Pushed :
    (w : World) (q : CacheQueue) (xs : Cells) (s p : Ptr) (cs c : CacheNode)
    → IsQueue w q (xs ++ (s, cs) ∷ [])
    → p ≢ null
    → w.caches p ≡ some c
    → has p (xs ++ (s, cs) ∷ []) ≡ false
    → (w' : World) × (push_front p q w ≡ ok (record q { front = p }, w'))
      × Pushed w q p c (xs ++ (s, cs) ∷ []) w'
unfolding pushed h1 h2
push_front-Pushed w q [] s p cs c is ne new out = (
  pushed w q s p cs c [] is ne new out,
  push_front-ok w q s p cs c [] is ne new out,
  record {
    queue = pushed-IsQueue w q s p cs c [] is ne new out;
    same = λ a other h. pushed_other w q s p cs c [] is ne new out a other (ground arith);
    fds = refl;
  },
)
push_front-Pushed w q ((f, cf) ∷ xs) s p cs c is ne new out = (
  pushed w q f p cf c (xs ++ (s, cs) ∷ []) is ne new out,
  push_front-ok w q f p cf c (xs ++ (s, cs) ∷ []) is ne new out,
  record {
    queue = pushed-IsQueue w q f p cf c (xs ++ (s, cs) ∷ []) is ne new out;
    same = λ a other h.
        pushed_other w q f p cf c (xs ++ (s, cs) ∷ []) is ne new out a other (ground arith);
    fds = refl;
  },
)

-- What cache_enqueue leaves: `e` was the last node.
pub record Enqueued (w : World) (q : CacheQueue) (p e : Ptr) (c ce : CacheNode) (kept : Cells)
    (w' : World) : Type 0 where
  pub queue : IsQueue w' (record q { front = p; rear = last_or null kept }) ((p, c) ∷ kept)
  pub last : w'.caches e ≡ evicted ce
  pub same : (a : Ptr) → a ≢ p → a ≢ e → has a kept ≡ false → w'.caches a ≡ w.caches a
  pub fds : w'.fds ≡ w.fds

-- A node that is not in the queue is put in front, the other nodes keep their order and contents but
-- for the last one, which leaves the queue and is freed if its status is IDLE. Nothing else on the heap
-- changes, and no pointer is followed that does not lead to a node.
pub cache_enqueue-Enqueued :
    (w : World) (q : CacheQueue) (xs : Cells) (s e p : Ptr) (cs ce c : CacheNode)
    → IsQueue w q (xs ++ (s, cs) ∷ (e, ce) ∷ [])
    → p ≢ null
    → w.caches p ≡ some c
    → has p (xs ++ (s, cs) ∷ (e, ce) ∷ []) ≡ false
    → (w' : World) × (cache_enqueue q p w ≡ ok (record q { front = p; rear = s }, w'))
      × Enqueued w q p e c ce (xs ++ (s, cs) ∷ []) w'
unfolding cache_enqueue
cache_enqueue-Enqueued w q xs s e p cs ce c is ne new out =
    let (w1, run1, d) = cache_dequeue-Dequeued w q xs s e cs ce is in
    let is1 = cache_dequeue-IsQueue w q xs s e cs ce is w1 d in
    let still : w1.caches p ≡ some c = d.same p (λ h. other.0 h) (λ h. other.1 h) ∙ new in
    let (w2, run2, pushed) =
      push_front-Pushed w1 (record q { rear = s }) xs s p cs c is1 ne still other.2 in
    (
      w2,
      rw run1 run2,
      record {
        queue = rw (last_or-append null xs ((s, cs) ∷ [])) pushed.queue;
        last = pushed.same e (λ h. other.0 (sym h)) e_out ∙ d.at_e;
        same = λ a a_p a_e a_out. pushed.same a a_p a_out ∙ d.same a a_e (not_s a a_out);
        fds = pushed.fds ∙ d.fds;
      },
    )
  where
    other : (p ≢ e) × (p ≢ s) × (has p (xs ++ (s, cs) ∷ []) ≡ false)
    other = (
      ground (arith, has-append p xs ((s, cs) ∷ (e, ce) ∷ [])),
      ground (arith, has-append p xs ((s, cs) ∷ (e, ce) ∷ [])),
      ground (arith, has-append p xs ((s, cs) ∷ (e, ce) ∷ []), has-append p xs ((s, cs) ∷ [])),
    )

    e_out : has e (xs ++ (s, cs) ∷ []) ≡ false
    e_out =
        let back = Distinct-back xs ((s, cs) ∷ (e, ce) ∷ []) is.distinct in
        ground (
          arith,
          has-append e xs ((s, cs) ∷ []),
          Distinct-apart xs ((s, cs) ∷ (e, ce) ∷ []) e is.distinct,
        )

    not_s : (a : Ptr) → has a (xs ++ (s, cs) ∷ []) ≡ false → a ≢ s
    not_s a h = ground (arith, has-append a xs ((s, cs) ∷ []))
