-- ===== src/Proxy/Cache/Defs.antt =====
-- new_cache_node, new_cache_queue, free_cache_node, free_cache_queue, cache_dequeue, cache_enqueue
-- and is_cache_hit. A cache_queue_t lives outside the heap. A walk along the list has fuel.
use ecen_602_projects.Common.{
  ℕ, zero, suc, ◌+◌, ◌-◌, ◌%◌, ◌^◌, Bool, true, false, List, Option, none, some, ◌==◌,
  if◌then◌else◌, replicate, ltb,
}
use ecen_602_projects.Memory.{strcmp_arrays, Outcome, ok, fail, fault}
use ecen_602_projects.Proxy.Links.{Ptr, null}
use ecen_602_projects.Proxy.Http.{HttpInfo, empty_info}
use ecen_602_projects.Proxy.Heap.{
  NodeStatus, in_use, idle, reading, writing, Cmd, pure, lift, ◌>>=◌, ◌>>◌, load_cache, put_cache,
  update_cache, calloc_cache,
}

pub record CacheQueue : Type 0 where
  pub max_slot : ℕ  -- int, as its 32 bits
  pub front : Ptr
  pub rear : Ptr

unfoldable pub empty_buffer : ℕ → Option (List ℕ)
empty_buffer buffer_size = if buffer_size == 0 then none else some (replicate buffer_size 0)

unfoldable pub new_cache_node : Ptr → Ptr → ℕ → Cmd Ptr
new_cache_node prev next buffer_size = calloc_cache (record {
  prev = prev;
  next = next;
  buffer = empty_buffer buffer_size;
  buffer_size = buffer_size;
  http_info = empty_info;
  status = idle;
})

-- The loop that puts nodes behind the first; the pointer to the last one made, or null.
unfoldable pub add_nodes : ℕ → Ptr → Ptr → Cmd Ptr
add_nodes zero prev_node new_node = pure new_node
add_nodes (suc rounds) prev_node new_node = do
  new ← new_cache_node prev_node null 0
  (if prev_node == null then pure tt else update_cache prev_node (λ c. record c { next = new }))
  add_nodes rounds new new

-- `i < max_slot - 1` is unsigned, of 64 bits, and `int i` overflows in more than 2 ^ 31 - 1 rounds. The
-- queue keeps the 32 low bits of the number.
unfoldable pub new_cache_queue : ℕ → Cmd CacheQueue
new_cache_queue max_slot = do
  front ← new_cache_node null null 0
  let rounds = (max_slot + 2 ^ 64 - 1) % 2 ^ 64
  rear ← if ltb rounds (2 ^ 31) then add_nodes rounds front null else lift fault
  pure (record { max_slot = max_slot % 2 ^ 32; front = front; rear = rear })

unfoldable pub free_cache_node : Ptr → Cmd (Unit {0})
free_cache_node p = if p == null then pure tt else (load_cache p >> put_cache p none)

-- `none` when the fuel is used up.
unfoldable pub free_nodes : ℕ → Ptr → Cmd (Unit {0})
free_nodes zero p = lift fail
free_nodes (suc fuel) p =
    if p == null then pure tt else do c ← load_cache p; free_cache_node p; free_nodes fuel c.next

unfoldable pub free_cache_queue : CacheQueue → Cmd (Unit {0})
free_cache_queue q = free_nodes (q.max_slot + 1) q.front

abbrev pub is_idle : NodeStatus → Bool
is_idle idle = true
is_idle in_use = false
is_idle reading = false
is_idle writing = false

unfoldable pub cache_dequeue : CacheQueue → Cmd CacheQueue
cache_dequeue q = do
  rear ← load_cache q.rear
  update_cache q.rear (λ c. record c { prev = null })
  update_cache q.rear (λ c. record c { next = null })
  (if is_idle rear.status then free_cache_node q.rear else pure tt)
  update_cache rear.prev (λ c. record c { next = null })
  pure (record q { rear = rear.prev })

-- What cache_enqueue does behind the eviction.
unfoldable pub push_front : Ptr → CacheQueue → Cmd CacheQueue
push_front new_node q = do
  update_cache q.front (λ c. record c { prev = new_node })
  update_cache new_node (λ c. record c { next = q.front })
  update_cache new_node (λ c. record c { prev = null })
  pure (record q { front = new_node })

unfoldable pub cache_enqueue : CacheQueue → Ptr → Cmd CacheQueue
cache_enqueue q new_node = cache_dequeue q >>= push_front new_node

-- `a && b`, where `b` is not computed if `a` is false.
abbrev pub both : Outcome Bool → Outcome Bool → Outcome Bool
both (ok true) b = b
both (ok false) b = ok false
both fail b = fail
both fault b = fault

unfoldable pub same_url : HttpInfo → HttpInfo → Outcome Bool
same_url a b = both (strcmp_arrays a.host b.host) (strcmp_arrays a.path b.path)

-- A node with complete information and the same URL.
unfoldable pub is_hit : HttpInfo → HttpInfo → Outcome Bool
is_hit http_info node = if node.info_complete then same_url node http_info else ok false

unfoldable pub search_cache : ℕ → Ptr → HttpInfo → Cmd Ptr
search_cache zero p http_info = lift fail
search_cache (suc fuel) p http_info = if p == null then pure null else do
  c ← load_cache p
  hit ← lift (is_hit http_info c.http_info)
  (if hit then pure p else search_cache fuel c.next http_info)

unfoldable pub is_cache_hit : CacheQueue → HttpInfo → Cmd Ptr
is_cache_hit q http_info = search_cache (q.max_slot + 1) q.front http_info
