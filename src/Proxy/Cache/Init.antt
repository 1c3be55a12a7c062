-- ===== src/Proxy/Cache/Init.antt =====
-- new_cache_queue: as many empty nodes as slots, linked in order.
use ecen_602_projects.Common.{
  replicate, ℕ, zero, suc, ◌+◌, ◌-◌, ◌%◌, ◌^◌, ◌<◌, ◌≡◌, ◌≢◌, refl, ap, ◌∙◌, false, none, some, [],
  ◌∷◌, arith, length, ne→==-false, ltb, true,
}
use ecen_602_projects.Memory.{ok}
use ecen_602_projects.Proxy.Links.{Ptr, null, write, has, last_or, Distinct, Links}
use ecen_602_projects.Proxy.Http.{HttpInfo, empty_info}
use ecen_602_projects.Proxy.Heap.{CacheNode, idle, cache_links, World, calloc_cache}
use ecen_602_projects.Proxy.Heap.Steps.{update_cache-ok, write_self, write_other}
use ecen_602_projects.Proxy.Cache.Defs.{
  CacheQueue, empty_buffer, new_cache_node, add_nodes, new_cache_queue,
}
use ecen_602_projects.Proxy.Cache.Queue.{Cells, IsQueue}

-- No information: arrays of zeros.
abbrev pub no_info : HttpInfo
no_info = record {
  host = replicate 253 0;
  path = replicate 100 0;
  user_agent = replicate 10 0;
  connection = replicate 10 0;
  status = replicate 20 0;
  content_length = replicate 10 0;
  date = replicate 30 0;
  info_complete = false;
}

-- A node with no buffer and no information.
abbrev pub empty_node : Ptr → Ptr → CacheNode
empty_node p n = record {
  prev = p;
  next = n;
  buffer = none;
  buffer_size = 0;
  http_info = no_info;
  status = idle;
}

-- Nodes at consecutive addresses.
abbrev pub empty_cells : ℕ → Ptr → Cells
empty_cells zero f = []
empty_cells (suc n) f = (f, empty_node null null) ∷ empty_cells n (f + 1)

record Added (w : World) (n : ℕ) (p prev : Ptr) (c : CacheNode) (w' : World) : Type 0 where
  links : Links cache_links w'.caches p ((prev, c) ∷ empty_cells n w.fresh) null
  same : (a : Ptr) → a < w.fresh → a ≢ prev → w'.caches a ≡ w.caches a
  fds : w'.fds ≡ w.fds

add_nodes-Added :
    (n : ℕ) (w : World) (p prev new_node : Ptr) (c : CacheNode)
    → prev ≢ null
    → prev < w.fresh
    → w.caches prev ≡ some (record c { prev = p; next = null })
    → (w' : World) × (add_nodes n prev new_node w
        ≡ ok (last_or new_node (empty_cells n w.fresh), w'))
      × Added w n p prev c w'
unfolding add_nodes new_cache_node calloc_cache empty_buffer empty_info
add_nodes-Added zero w p prev new_node c ne low here =
    (w, refl, record { links = (here, omega arith); same = λ a h k. refl; fds = refl })
add_nodes-Added (suc n) w p prev new_node c ne low here =
    let (w', run, added) =
      add_nodes-Added n w2 prev f f (empty_node prev null) (omega arith) (omega arith) at_f in
    (
      w',
      rw
          (
            ne→==-false prev null ne,
            update_cache-ok w1 prev ne (record c { prev = p; next = null })
                (λ c. record c { next = f }) at_prev,
          )
          run,
      record {
        links = (
          added.same prev (omega arith) (omega arith) ∙ write_self w1.caches prev _,
          added.links,
        );
        same = λ a h k.
            added.same a (omega arith) (omega arith)
            ∙ (write_other w1.caches prev _ a k ∙ write_other w.caches f _ a (omega arith));
        fds = added.fds;
      },
    )
  where
    f : Ptr
    f = w.fresh

    w1 : World
    w1 = record w { caches = write w.caches f (some (empty_node prev null)); fresh = f + 1 }

    w2 : World
    w2 = record w1 { caches = write w1.caches prev (some (record c { prev = p; next = f })) }

    at_prev : w1.caches prev ≡ some (record c { prev = p; next = null })
    at_prev = write_other w.caches f _ prev (omega arith) ∙ here

    at_f : w2.caches f ≡ some (empty_node prev null)
    at_f = write_other w1.caches prev _ f (omega arith) ∙ write_self w.caches f _

has-empty_cells : (n : ℕ) (f a : Ptr) → a < f → has a (empty_cells n f) ≡ false
has-empty_cells zero f a h = refl
has-empty_cells (suc n) f a h = ground (arith, has-empty_cells n (f + 1) a)

Distinct-empty_cells : (n : ℕ) (f : Ptr) → f ≢ null → Distinct (empty_cells n f)
Distinct-empty_cells zero f h = omega arith
Distinct-empty_cells (suc n) f h =
    (h, has-empty_cells n (f + 1) f (omega arith), Distinct-empty_cells n (f + 1) (omega arith))

pub length-empty_cells : (n : ℕ) (f : Ptr) → length (empty_cells n f) ≡ n
length-empty_cells zero f = refl
length-empty_cells (suc n) f = ap suc (length-empty_cells n (f + 1))

-- With two slots or more (fewer than 2 ^ 31), the new queue has one empty node for each slot, linked
-- in order both ways, and its max_slot is their number.
pub new_cache_queue-IsQueue :
    (slots : ℕ) (w : World)
    → slots + 2 < 2 ^ 31
    → w.fresh ≢ null
    → (q : CacheQueue) × (w' : World) × (new_cache_queue (slots + 2) w ≡ ok (q, w'))
      × (q.max_slot ≡ slots + 2)
      × IsQueue w' q (empty_cells (slots + 2) w.fresh)
unfolding new_cache_queue new_cache_node calloc_cache empty_buffer empty_info
new_cache_queue-IsQueue slots w small ne =
    let rounds : (slots + 2 + 2 ^ 64 - 1) % 2 ^ 64 ≡ suc slots = omega arith in
    let in_int : ltb (suc slots) (2 ^ 31) ≡ true = ground arith in
    let kept : (slots + 2) % 2 ^ 32 ≡ slots + 2 = omega arith in
    let two : slots + 2 ≡ suc (suc slots) = omega arith in
    let (w', run, added) =
      add_nodes-Added (suc slots) w1 null w.fresh null (empty_node null null) ne (omega arith)
        (write_self w.caches w.fresh _) in
    (
      record {
        max_slot = slots + 2;
        front = w.fresh;
        rear = last_or null (empty_cells (suc slots) (w.fresh + 1));
      },
      w',
      rw (rounds, in_int, run, kept) refl,
      refl,
      rw two (record {
        links = added.links;
        distinct = Distinct-empty_cells (suc (suc slots)) w.fresh ne;
        front = refl;
        rear = refl;
      }),
    )
  where
    w1 : World
    w1 = record w {
      caches = write w.caches w.fresh (some (empty_node null null));
      fresh = w.fresh + 1;
    }
