-- ===== src/Proxy/Cache/History.antt =====
-- The cache behind a run of insertions.
use mathlib.Core.Path.{subst}
use ecen_602_projects.Common.{
  ℕ, zero, suc, ◌≤◌, ◌≡◌, ◌≢◌, refl, sym, ap, ◌∙◌, false, some, [], ◌∷◌, ◌++◌, arith, length, take,
  length-append, length-take, take-append, append_assoc,
}
use ecen_602_projects.Memory.{ok}
use ecen_602_projects.Proxy.Links.{Ptr, null, has, has-append, last_or-append}
use ecen_602_projects.Proxy.Http.{HttpInfo}
use ecen_602_projects.Proxy.Heap.{CacheNode, World, Cmd, pure, lift, ◌>>=◌}
use ecen_602_projects.Proxy.Cache.Defs.{CacheQueue, cache_enqueue, is_cache_hit}
use ecen_602_projects.Proxy.Cache.Queue.{Cells, IsQueue}
use ecen_602_projects.Proxy.Cache.Enqueue.{Enqueued, cache_enqueue-Enqueued}
use ecen_602_projects.Proxy.Cache.Search.{first_hit, is_cache_hit-first_hit}

unfoldable pub enqueue_all : CacheQueue → Cells → Cmd CacheQueue
enqueue_all q [] = pure q
enqueue_all q ((p, c) ∷ nodes) = do q ← cache_enqueue q p; enqueue_all q nodes

-- The nodes that are put in, the last one in front of the others.
abbrev pub newest : Cells → Cells → Cells
newest [] cells = cells
newest (x ∷ nodes) cells = newest nodes (x ∷ cells)

-- The nodes stand on the heap, at addresses that differ and are not in the queue.
abbrev pub Waiting : World → Cells → Cells → Type 0
Waiting w cells [] = Unit
Waiting w cells ((p, c) ∷ nodes) =
    (p ≢ null)
    × (w.caches p ≡ some c)
    × (has p cells ≡ false)
    × (has p nodes ≡ false)
    × Waiting w cells nodes

-- A list of two cells or more.
record Ends (cells : Cells) : Type 0 where
  xs : Cells
  s : Ptr
  e : Ptr
  cs : CacheNode
  ce : CacheNode
  whole : cells ≡ xs ++ (s, cs) ∷ (e, ce) ∷ []

split_last : (cells : Cells) → 2 ≤ length cells → Ends cells
split_last [] h = absurd (omega arith)
split_last (x ∷ []) h = absurd (omega arith)
split_last ((s, cs) ∷ (e, ce) ∷ []) h = record {
  xs = [];
  s = s;
  e = e;
  cs = cs;
  ce = ce;
  whole = refl;
}
split_last (x ∷ y ∷ z ∷ cells) h =
    let rest = split_last (y ∷ z ∷ cells) (omega arith) in
    record {
      xs = x ∷ rest.xs;
      s = rest.s;
      e = rest.e;
      cs = rest.cs;
      ce = rest.ce;
      whole = ap (λ l. x ∷ l) rest.whole;
    }

Waiting-Enqueued :
    (w : World) (q : CacheQueue) (xs : Cells) (s e p : Ptr) (cs ce c : CacheNode) (w' : World)
    (nodes : Cells)
    → Enqueued w q p e c ce (xs ++ (s, cs) ∷ []) w'
    → has p nodes ≡ false
    → Waiting w (xs ++ (s, cs) ∷ (e, ce) ∷ []) nodes
    → Waiting w' ((p, c) ∷ (xs ++ (s, cs) ∷ [])) nodes
Waiting-Enqueued w q xs s e p cs ce c w' [] d out waits = tt
Waiting-Enqueued w q xs s e p cs ce c w' ((a, ca) ∷ nodes) d out waits =
    let two = has-append a xs ((s, cs) ∷ (e, ce) ∷ []) in
    let one = has-append a xs ((s, cs) ∷ []) in
    let clear = waits.2 in
    let kept : has a (xs ++ (s, cs) ∷ []) ≡ false = ground arith in
    let not_p : a ≢ p = ground arith in
    let not_e : a ≢ e = ground arith in
    (
      waits.0,
      d.same a not_p not_e kept ∙ waits.1,
      ground arith,
      waits.3,
      Waiting-Enqueued w q xs s e p cs ce c w' nodes d (ground arith) waits.4,
    )

newest-append : (nodes cells : Cells) → newest nodes cells ≡ newest nodes [] ++ cells
newest-append [] cells = refl
newest-append (x ∷ nodes) cells =
    newest-append nodes (x ∷ cells)
    ∙ (sym (append_assoc (newest nodes []) (x ∷ []) cells)
        ∙ ap (λ l. l ++ cells) (sym (newest-append nodes (x ∷ []))))

take-take : (n m : ℕ) (zs ys : Cells) → n ≤ m → take n (zs ++ take m ys) ≡ take n (zs ++ ys)
take-take zero m zs ys h = refl
take-take (suc n) m (z ∷ zs) ys h = ap (λ l. z ∷ l) (take-take n m zs ys (omega arith))
take-take (suc n) zero [] ys h = absurd (omega arith)
take-take (suc n) (suc m) [] [] h = refl
take-take (suc n) (suc m) [] (y ∷ ys) h = ap (λ l. y ∷ l) (take-take n m [] ys (omega arith))

-- One insertion, seen from the newest nodes.
take_kept :
    (x : Ptr × CacheNode) (xs : Cells) (a b : Ptr × CacheNode)
    → x ∷ (xs ++ a ∷ []) ≡ take (length (xs ++ a ∷ b ∷ [])) (x ∷ (xs ++ a ∷ b ∷ []))
take_kept x xs a b =
    let n = length (xs ++ a ∷ []) in
    let size : length (xs ++ a ∷ b ∷ []) ≡ suc n =
      omega (arith, length-append xs (a ∷ b ∷ []), length-append xs (a ∷ [])) in
    rw (size, ← append_assoc xs (a ∷ []) (b ∷ []), take-append n (xs ++ a ∷ []) (b ∷ []) refl) refl

-- The queue behind a run, and what a search finds there.
pub record Ran (w : World) (q : CacheQueue) (cells nodes : Cells) (q' : CacheQueue) (w' : World)
    : Type 0 where
  pub run : enqueue_all q nodes w ≡ ok (q', w')
  pub queue : IsQueue w' q' (take (length cells) (newest nodes cells))
  pub slots : q'.max_slot ≡ q.max_slot
  pub fds : w'.fds ≡ w.fds

take_whole : (n : ℕ) (xs : Cells) → length xs ≡ n → xs ≡ take n xs
take_whole zero [] h = refl
take_whole zero (x ∷ xs) h = absurd (omega arith)
take_whole (suc n) [] h = absurd (omega arith)
take_whole (suc n) (x ∷ xs) h = ap (λ l. x ∷ l) (take_whole n xs (omega arith))

take-newest :
    (n : ℕ) (nodes ys : Cells) → take n (newest nodes (take n ys)) ≡ take n (newest nodes ys)
take-newest n nodes ys =
    ap (take n) (newest-append nodes (take n ys))
    ∙ (take-take n n (newest nodes []) ys (omega arith)
        ∙ ap (take n) (sym (newest-append nodes ys)))

newest_kept :
    (x a b : Ptr × CacheNode) (xs nodes cells : Cells)
    → cells ≡ xs ++ a ∷ b ∷ []
    → take (length (x ∷ (xs ++ a ∷ []))) (newest nodes (x ∷ (xs ++ a ∷ [])))
      ≡ take (length cells) (newest nodes (x ∷ cells))
newest_kept x a b xs nodes cells whole =
    let full = xs ++ a ∷ b ∷ [] in
    let size : length (x ∷ (xs ++ a ∷ [])) ≡ length full =
      omega (arith, length-append xs (a ∷ b ∷ []), length-append xs (a ∷ [])) in
    rw (whole, size, take_kept x xs a b) (take-newest (length full) nodes (x ∷ full))

-- Insertions into a queue of two nodes or more: none follows a pointer that does not lead to a node, and
-- behind them the queue has as many nodes as before, which are the newest ones, the last inserted in front.
enqueue_all-Ran :
    (w : World) (q : CacheQueue) (cells nodes : Cells) (n : ℕ)
    → length cells ≡ n
    → 2 ≤ n
    → IsQueue w q cells
    → Waiting w cells nodes
    → (q' : CacheQueue) × (w' : World) × Ran w q cells nodes q' w'
unfolding enqueue_all
enqueue_all-Ran w q cells [] n size two is waits = (
  q,
  w,
  record {
    run = refl;
    queue = rw (take_whole (length cells) cells refl) at is;
    slots = refl;
    fds = refl;
  },
)
enqueue_all-Ran w q cells ((p, c) ∷ nodes) n size two is waits =
    let ends = split_last cells (omega arith) in
    let full = ends.xs ++ (ends.s, ends.cs) ∷ (ends.e, ends.ce) ∷ [] in
    let left = ends.xs ++ (ends.s, ends.cs) ∷ [] in
    let m : length full ≡ n = ap length (sym ends.whole) ∙ size in
    let same_size : length ((p, c) ∷ left) ≡ length full = omega (
      arith,
      length-append ends.xs ((ends.s, ends.cs) ∷ (ends.e, ends.ce) ∷ []),
      length-append ends.xs ((ends.s, ends.cs) ∷ []),
    ) in
    let (w1, run1, d) =
      cache_enqueue-Enqueued w q ends.xs ends.s ends.e p ends.cs ends.ce c (rw ends.whole at is)
        waits.0 waits.1 (rw ends.whole at waits.2) in
    let q1 = record q { front = p; rear = ends.s } in
    let is1 : IsQueue w1 q1 ((p, c) ∷ left) =
      rw (last_or-append null ends.xs ((ends.s, ends.cs) ∷ [])) at d.queue in
    let (q2, w2, r) = enqueue_all-Ran w1 q1 ((p, c) ∷ left) nodes n (same_size ∙ m) two is1 (
      Waiting-Enqueued w q ends.xs ends.s ends.e p ends.cs ends.ce c w1 nodes d waits.3
        (subst (λ l. Waiting w l nodes) ends.whole waits.4)) in
    let behind =
      newest_kept (p, c) (ends.s, ends.cs) (ends.e, ends.ce) ends.xs nodes cells ends.whole in
    (
      q2,
      w2,
      record {
        run = rw run1 r.run;
        queue = rw behind at r.queue;
        slots = r.slots;
        fds = r.fds ∙ d.fds;
      },
    )

-- The cache as a bounded sequence. From a queue with `n` nodes, two or more and at most one for each
-- slot, any run of insertions of nodes that are on the heap and not in the queue returns, and is_cache_hit
-- behind it finds the first hit among the `n` newest nodes, those inserted last in front and the old ones
-- behind them; it changes nothing.
pub is_cache_hit-newest :
    (w : World) (q : CacheQueue) (cells nodes : Cells) (http_info : HttpInfo)
    → IsQueue w q cells
    → 2 ≤ length cells
    → length cells ≤ q.max_slot
    → Waiting w cells nodes
    → (q' : CacheQueue) × (w' : World) × (enqueue_all q nodes w ≡ ok (q', w'))
      × (is_cache_hit q' http_info w'
          ≡ lift (first_hit http_info (take (length cells) (newest nodes cells))) w')
      × (w'.fds ≡ w.fds)
is_cache_hit-newest w q cells nodes http_info is two few waits =
    let (q', w', r) = enqueue_all-Ran w q cells nodes (length cells) refl two is waits in
    let slots = r.slots in
    (
      q',
      w',
      r.run,
      is_cache_hit-first_hit w' q' (take (length cells) (newest nodes cells)) http_info r.queue
          (omega (arith, length-take (length cells) (newest nodes cells))),
      r.fds,
    )
