-- ===== src/Proxy/Transfer/Receive.antt =====
-- cache_recv keeps within the buffer of the cache node, and grows it when it must.
use ecen_602_projects.Common.{
  ℕ, ◌⊎◌, ◌+◌, ◌-◌, ◌%◌, ◌^◌, ◌≤◌, ◌<◌, ◌≡◌, ◌≢◌, refl, sym, ap, ◌∙◌, true, false, some, List, ◌++◌,
  arith, leb, length, take, drop, length-append, length-take, length-drop, Bool-cases, inl, inr,
  take-append_within, take-append, append_assoc, le→leb, ne→==-false,
}
use ecen_602_projects.Memory.{ok, memcpy}
use ecen_602_projects.Proxy.Links.{Ptr, null, write}
use ecen_602_projects.Proxy.Heap.{idle, client, server, CacheNode, FdNode, World}
use ecen_602_projects.Proxy.Heap.Steps.{
  load_cache-ok, load_fd-ok, update_cache-ok, update_fd-ok, write_self,
}
use ecen_602_projects.Proxy.Transfer.Defs.{
  Env, bytes_of, make_room, keep_bytes, cache_recv, client_received, server_received, is_client,
  is_server,
}

-- The offset lies within the buffer, which has the size that its node says.
pub record Fits (offset : ℕ) (c : CacheNode) : Type 0 where
  pub size : c.buffer_size ≡ length (bytes_of c.buffer)
  pub within : offset ≤ c.buffer_size
  pub small : c.buffer_size < 2 ^ 31

-- There is room for the bytes behind the offset, and what stands in the buffer stays.
record HasRoom (c : CacheNode) (offset n : ℕ) (c' : CacheNode) : Type 0 where
  size : c'.buffer_size ≡ length (bytes_of c'.buffer)
  room : offset + n ≤ length (bytes_of c'.buffer)
  grown : (c'.buffer_size ≡ c.buffer_size) ⊎ (c'.buffer_size ≡ c.buffer_size + 1500)
  front : take offset (bytes_of c'.buffer) ≡ take offset (bytes_of c.buffer)

space_left :
    (c : CacheNode) (offset n : ℕ)
    → Fits offset c
    → leb ((c.buffer_size + 2 ^ 64 - offset) % 2 ^ 64) n ≡ false
    → offset + n ≤ c.buffer_size
space_left c offset n fits space =
    let within = fits.within in
    let small = fits.small in
    let rest : (c.buffer_size + 2 ^ 64 - offset) % 2 ^ 64 ≡ c.buffer_size - offset = omega arith in
    let test : leb (c.buffer_size - offset) n ≡ false = rw (← rest) space in ground arith

make_room-HasRoom :
    (env : Env) (c : CacheNode) (offset n : ℕ)
    → Fits offset c
    → n ≤ 1500
    → length env.grown ≡ 1500
    → HasRoom c offset n (make_room env c offset n)
unfolding make_room
make_room-HasRoom env c offset n fits few more =
    let size = fits.size in
    let within = fits.within in
    let small = fits.small in
    elim (Bool-cases (leb ((c.buffer_size + 2 ^ 64 - offset) % 2 ^ 64) n)) [
      | inl full ↦ rw full (record {
        size = omega (arith, length-append (bytes_of c.buffer) env.grown);
        room = omega (arith, length-append (bytes_of c.buffer) env.grown);
        grown = inr refl;
        front = take-append_within offset (bytes_of c.buffer) env.grown (omega arith);
      })
      | inr space ↦ rw space (record {
        size = fits.size;
        room = omega (arith, space_left c offset n fits space);
        grown = inl refl;
        front = refl;
      })
    ]

-- The buffer behind a receipt: what stood in front of the offset, then the bytes.
pub record Received (c : CacheNode) (offset : ℕ) (bytes : List ℕ) (c' : CacheNode) : Type 0 where
  pub size : c'.buffer_size ≡ length (bytes_of c'.buffer)
  pub content :
      take (offset + length bytes) (bytes_of c'.buffer) ≡ take offset (bytes_of c.buffer) ++ bytes
  pub grown : (c'.buffer_size ≡ c.buffer_size) ⊎ (c'.buffer_size ≡ c.buffer_size + 1500)

module _ (env : Env) (c : CacheNode) (offset : ℕ) (bytes : List ℕ) (fits : Fits offset c)
    (few : length bytes ≤ 1500) (more : length env.grown ≡ 1500) where
  roomy : HasRoom c offset (length bytes) (make_room env c offset (length bytes))
  roomy = make_room-HasRoom env c offset (length bytes) fits few more

  old : List ℕ
  old = bytes_of (make_room env c offset (length bytes)).buffer

  pub new_bytes : List ℕ
  new_bytes = take offset old ++ (bytes ++ drop (offset + length bytes) old)

  memcpy-ok :
      memcpy (bytes_of (make_room env c offset (length bytes)).buffer) offset bytes ≡ ok new_bytes
  unfolding memcpy new_bytes old
  memcpy-ok = let r = roomy.room in rw (le→leb (offset + length bytes) (length old) (omega arith))

  front_length : length (take offset old ++ bytes) ≡ offset + length bytes
  unfolding old
  front_length =
      let r = roomy.room in
      omega (arith, length-append (take offset old) bytes, length-take offset old)

  new_bytes-Received :
      Received c offset bytes
        (record (make_room env c offset (length bytes)) { buffer = some new_bytes })
  unfolding new_bytes old
  new_bytes-Received = record {
    size =
        let r = roomy.room in
        let s = roomy.size in
        omega (
          arith,
          length-append (take offset old) (bytes ++ drop (offset + length bytes) old),
          length-append bytes (drop (offset + length bytes) old),
          length-take offset old,
          length-drop (offset + length bytes) old,
        );
    content =
        ap (take (offset + length bytes))
          (sym (append_assoc (take offset old) bytes (drop (offset + length bytes) old)))
        ∙ (take-append (offset + length bytes) (take offset old ++ bytes)
              (drop (offset + length bytes) old) front_length
            ∙ ap (λ l. l ++ bytes) roomy.front);
    grown = roomy.grown;
  }

module _ (env : Env) (w : World) (p : Ptr) (f : FdNode) (c : CacheNode) (bytes : List ℕ)
    (ne : p ≢ null) (node : w.fds p ≡ some f) (ne' : f.cache_node ≢ null)
    (cell : w.caches f.cache_node ≡ some c) (fits : Fits f.offset c) (few : length bytes ≤ 1500)
    (more : length env.grown ≡ 1500) where
  -- The cache node that is left.
  pub filled : CacheNode
  filled = record (make_room env c f.offset (length bytes)) {
    buffer = some (new_bytes env c f.offset bytes fits few more);
  }

  stored : World
  stored = record w {
    caches = write w.caches f.cache_node (some filled);
    fds = write w.fds p (some (record f { offset = f.offset + length bytes }));
  }

  keep_bytes-ok : keep_bytes env p bytes w ≡ ok (tt, stored)
  unfolding keep_bytes stored filled
  keep_bytes-ok =
      let small = fits.small in
      let within = fits.within in
      let sum : (f.offset + length bytes) % 2 ^ 64 ≡ f.offset + length bytes = omega arith in
      rw (
        load_fd-ok w p ne f node,
        load_cache-ok w f.cache_node ne' c cell,
        memcpy-ok env c f.offset bytes fits few more,
        update_cache-ok w f.cache_node ne' c
            (λ c'. record (make_room env c' f.offset (length bytes)) {
              buffer = some (new_bytes env c f.offset bytes fits few more);
            })
            cell,
        update_fd-ok (record w { caches = write w.caches f.cache_node (some filled) }) p ne f
            (λ f. record f { offset = (f.offset + length bytes) % 2 ^ 64 }) node,
        sum,
      )

  filled-Received : Received c f.offset bytes filled
  unfolding filled
  filled-Received = new_bytes-Received env c f.offset bytes fits few more

  -- A request: the bytes stand in the buffer behind the offset, within its size, and the node waits
  -- with its offset at the start.
  pub cache_recv-client :
      f.fd_type ≡ client
      → (c' : CacheNode) × (w' : World) × (cache_recv env p (some bytes) w ≡ ok (length bytes, w'))
        × Received c f.offset bytes c'
        × (w'.caches f.cache_node ≡ some c')
        × (w'.fds p ≡ some (record f { status = idle; offset = 0 }))
  unfolding cache_recv client_received stored
  cache_recv-client type = (
    filled,
    record stored { fds = write stored.fds p (some (record f { status = idle; offset = 0 })) },
    rw (
      keep_bytes-ok,
      load_fd-ok stored p ne (record f { offset = f.offset + length bytes }) (write_self w.fds p _),
      ap is_client type,
      update_fd-ok stored p ne (record f { offset = f.offset + length bytes })
          (λ f. record f { status = idle; offset = 0 }) (write_self w.fds p _),
      ap is_server type,
    ),
    filled-Received,
    write_self w.caches f.cache_node _,
    write_self stored.fds p _,
  )

  still_complete : c.http_info.info_complete ≡ true → filled.http_info.info_complete ≡ true
  unfolding filled make_room
  still_complete h = ground arith

  -- A part of an answer whose header has been parsed: the node goes on behind the bytes.
  pub cache_recv-server :
      f.fd_type ≡ server
      → c.http_info.info_complete ≡ true
      → 0 < length bytes
      → (c' : CacheNode) × (w' : World) × (cache_recv env p (some bytes) w ≡ ok (length bytes, w'))
        × Received c f.offset bytes c'
        × (w'.caches f.cache_node ≡ some c')
        × (w'.fds p ≡ some (record f { offset = f.offset + length bytes }))
  unfolding cache_recv server_received stored
  cache_recv-server type complete some_bytes = (
    filled,
    stored,
    rw (
      keep_bytes-ok,
      load_fd-ok stored p ne (record f { offset = f.offset + length bytes }) (write_self w.fds p _),
      ap is_client type,
      ap is_server type,
      load_fd-ok stored p ne (record f { offset = f.offset + length bytes }) (write_self w.fds p _),
      load_cache-ok stored f.cache_node ne' filled (write_self w.caches f.cache_node _),
      still_complete complete,
      ne→==-false (length bytes) 0 (omega arith),
    ),
    filled-Received,
    write_self w.caches f.cache_node _,
    write_self w.fds p _,
  )
