-- ===== src/Proxy/Cache/Queue.antt =====
-- The cache as a list, and the two operations on it.
use ecen_602_projects.Common.{
  ◌≡◌, ◌≢◌, refl, sym, ◌∙◌, true, Option, none, some, List, [], ◌∷◌, ◌++◌, arith, if◌then◌else◌,
  Bool-cases, ne→==-false, inl, inr, append_assoc,
}
use ecen_602_projects.Memory.{ok}
use ecen_602_projects.Proxy.Links.{
  Ptr, null, Heap, write, has, head_or, last_or, Distinct, Links, Distinct-front, Distinct-back,
  Distinct-apart, Links-front, cell_at, cut_behind, last_or-append, head_or-append,
}
use ecen_602_projects.Proxy.Heap.{CacheNode, cache_links, World, pure, put_cache}
use ecen_602_projects.Proxy.Heap.Steps.{load_cache-ok, update_cache-ok, write_self, write_other}
use ecen_602_projects.Proxy.Cache.Defs.{CacheQueue, free_cache_node, cache_dequeue, is_idle}

abbrev pub Cells : Type 0
Cells = List (Ptr × CacheNode)

pub record IsQueue (w : World) (q : CacheQueue) (cells : Cells) : Type 0 where
  pub links : Links cache_links w.caches null cells null
  pub distinct : Distinct cells
  pub front : q.front ≡ head_or null cells
  pub rear : q.rear ≡ last_or null cells

-- What is left at the address of an evicted node.
abbrev pub evicted : CacheNode → Option CacheNode
evicted c = if is_idle c.status then none else some (record c { prev = null; next = null })

-- The state after `e` has been evicted from behind `s`.
pub record Dequeued (w : World) (s e : Ptr) (cs ce : CacheNode) (prev : Ptr) (w' : World)
    : Type 0 where
  pub at_e : w'.caches e ≡ evicted ce
  pub at_s : w'.caches s ≡ some (record cs { prev = prev; next = null })
  pub same : (a : Ptr) → a ≢ e → a ≢ s → w'.caches a ≡ w.caches a
  pub fds : w'.fds ≡ w.fds
  pub out : w'.out ≡ w.out
  pub fresh : w'.fresh ≡ w.fresh

module _ (w : World) (q : CacheQueue) (xs : Cells) (s e : Ptr) (cs ce : CacheNode)
    (is : IsQueue w q (xs ++ (s, cs) ∷ (e, ce) ∷ [])) where
  s_cell : w.caches s ≡ some (record cs { prev = last_or null xs; next = e })
  s_cell = cell_at cache_links w.caches null null s cs xs ((e, ce) ∷ []) is.links

  e_cell : w.caches e ≡ some (record ce { prev = s; next = null })
  e_cell = rw (last_or-append null xs ((s, cs) ∷ [])) at (
      cell_at cache_links w.caches null null e ce (xs ++ (s, cs) ∷ []) []
        (rw (append_assoc xs ((s, cs) ∷ []) ((e, ce) ∷ [])) is.links))

  ends_apart : (s ≢ null) × (e ≢ null) × (s ≢ e)
  ends_apart =
      let d = Distinct-back xs ((s, cs) ∷ (e, ce) ∷ []) is.distinct in (d.0, d.2.0, ground arith)

  rear_e : q.rear ≡ e
  rear_e = is.rear ∙ last_or-append null xs ((s, cs) ∷ (e, ce) ∷ [])

  cleared : CacheNode
  cleared = record ce { prev = null; next = null }

  h1 : Heap CacheNode
  h1 = write w.caches e (some (record ce { prev = null; next = null }))

  h2 : Heap CacheNode
  h2 = write h1 e (some cleared)

  released : Heap CacheNode
  released = if is_idle ce.status then write h2 e none else h2

  release-ok :
      (if is_idle ce.status then free_cache_node e else pure tt) (record w { caches = h2 })
      ≡ ok (tt, record w { caches = released })
  unfolding free_cache_node put_cache released h2
  release-ok = elim (Bool-cases (is_idle ce.status)) [
    | inl free ↦ rw (
      free,
      ne→==-false e null (ends_apart.1),
      load_cache-ok (record w { caches = h2 }) e (ends_apart.1) cleared
          (write_self h1 e (some cleared)),
    )
    | inr used ↦ rw used
  ]

  released_other : (a : Ptr) → a ≢ e → released a ≡ w.caches a
  unfolding released h2 h1 write
  released_other a ne = ground arith

  released_e : released e ≡ evicted ce
  unfolding released h2 write cleared
  released_e = ground arith

  s_node : CacheNode
  s_node = record cs { prev = last_or null xs; next = null }

  cache_dequeue-ok :
      cache_dequeue q w
      ≡ ok (record q { rear = s }, record w { caches = write released s (some s_node) })
  unfolding cache_dequeue h1 h2 cleared s_node
  cache_dequeue-ok = rw (
    rear_e,
    load_cache-ok w e (ends_apart.1) (record ce { prev = s; next = null }) e_cell,
    update_cache-ok w e (ends_apart.1) (record ce { prev = s; next = null })
        (λ c. record c { prev = null }) e_cell,
    update_cache-ok (record w { caches = h1 }) e (ends_apart.1)
        (record ce { prev = null; next = null }) (λ c. record c { next = null })
        (write_self w.caches e _),
    release-ok,
    update_cache-ok (record w { caches = released }) s (ends_apart.0)
        (record cs { prev = last_or null xs; next = e }) (λ c. record c { next = null })
        (released_other s (ends_apart.2) ∙ s_cell),
  )

  pub cache_dequeue-Dequeued :
      (w' : World) × (cache_dequeue q w ≡ ok (record q { rear = s }, w'))
      × Dequeued w s e cs ce (last_or null xs) w'
  unfolding s_node
  cache_dequeue-Dequeued = (
    record w { caches = write released s (some s_node) },
    cache_dequeue-ok,
    record {
      at_e = write_other released s (some s_node) e (λ h. ends_apart.2 (sym h)) ∙ released_e;
      at_s = write_self released s (some s_node);
      same = λ a ne ne'. write_other released s (some s_node) a ne' ∙ released_other a ne;
      fds = refl;
      out = refl;
      fresh = refl;
    },
  )

  -- The queue that is left.
  pub cache_dequeue-IsQueue :
      (w' : World)
      → Dequeued w s e cs ce (last_or null xs) w'
      → IsQueue w' (record q { rear = s }) (xs ++ (s, cs) ∷ [])
  cache_dequeue-IsQueue w' d = record {
    links =
        cut_behind cache_links w.caches w'.caches null null s cs xs
          (Links-front cache_links w.caches null null xs ((s, cs) ∷ (e, ce) ∷ []) is.links)
          (λ a i. d.same a (λ h. out_of_e a i h) (λ h. out_of_s a i h)) d.at_s;
    distinct =
        Distinct-front (xs ++ (s, cs) ∷ []) ((e, ce) ∷ [])
          (rw (append_assoc xs ((s, cs) ∷ []) ((e, ce) ∷ [])) is.distinct);
    front =
        is.front
        ∙ (head_or-append null xs ((s, cs) ∷ (e, ce) ∷ [])
            ∙ sym (head_or-append null xs ((s, cs) ∷ [])));
    rear = sym (last_or-append null xs ((s, cs) ∷ []));
  }
    where
      out_of_s : (a : Ptr) → has a xs ≡ true → a ≡ s → ⊥
      out_of_s a i h = ground (arith, Distinct-apart xs ((s, cs) ∷ (e, ce) ∷ []) a is.distinct)

      out_of_e : (a : Ptr) → has a xs ≡ true → a ≡ e → ⊥
      out_of_e a i h = ground (arith, Distinct-apart xs ((s, cs) ∷ (e, ce) ∷ []) a is.distinct)
