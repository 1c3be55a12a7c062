-- ===== src/Proxy/Tests/Lists.antt =====
-- The theorems about the cache and the list of descriptors at concrete inputs.
use ecen_602_projects.Common.{ℕ, ◌≡◌, refl, some, [], ◌∷◌, arith}
use ecen_602_projects.Memory.{ok, fault}
use ecen_602_projects.Proxy.Heap.{World, lift}
use ecen_602_projects.Proxy.Cache.{
  free_cache_queue, CacheQueue, cache_enqueue, is_cache_hit, new_cache_queue,
}
use ecen_602_projects.Proxy.Cache.Queue.{IsQueue}
use ecen_602_projects.Proxy.Cache.Enqueue.{Enqueued, cache_enqueue-Enqueued}
use ecen_602_projects.Proxy.Cache.Search.{first_hit}
use ecen_602_projects.Proxy.Cache.Init.{empty_cells, new_cache_queue-IsQueue}
use ecen_602_projects.Proxy.Cache.Lookup.{
  Url, HasUrl, matches, first_match, is_cache_hit-first_match,
}
use ecen_602_projects.Sbcp.Clients.Names.{same}
use ecen_602_projects.Proxy.Http.{HttpInfo}
use ecen_602_projects.Proxy.Cache.Free.{Freed, free_cache_queue-Freed}
use ecen_602_projects.Proxy.Cache.History.{enqueue_all, Waiting, is_cache_hit-newest}
use ecen_602_projects.Proxy.Fds.{fd_list_remove}
use ecen_602_projects.Proxy.Fds.Order.{IsList, Changed}
use ecen_602_projects.Proxy.Fds.Remove.{fd_list_remove-IsList}
use ecen_602_projects.Proxy.Transfer.{cache_send}
use ecen_602_projects.Proxy.Handlers.Evict.{cache_send-cache_enqueue}
use ecen_602_projects.Proxy.Tests.Setup.{
  info, page, edge, reader, writer, world, queue, cells, cells-IsQueue, around, around-IsList,
}

cache_enqueue-Enqueued_example :
    (w' : World) × (cache_enqueue queue 3 (world reader writer)
      ≡ ok (record queue { front = 3; rear = 1 }, w'))
    × Enqueued (world reader writer) queue 3 2 (page b'c') (page b'b') ((1, page b'a') ∷ []) w'
cache_enqueue-Enqueued_example =
    cache_enqueue-Enqueued (world reader writer) queue [] 1 2 3 (page b'a') (page b'b') (page b'c')
      cells-IsQueue (omega arith) refl refl

-- The page of a letter, in arrays that hold just the strings.
abbrev url : ℕ → Url
url path = record { host = b'h' ∷ []; path = path ∷ []; host_rest = []; path_rest = [] }

-- A request for the page b, with other bytes behind the terminators.
abbrev asked : HttpInfo
asked = record (info b'b') { host = b'h' ∷ 0 ∷ 9 ∷ []; path = b'b' ∷ 0 ∷ 8 ∷ 7 ∷ [] }

abbrev asked_url : Url
asked_url = record {
  host = b'h' ∷ [];
  path = b'b' ∷ [];
  host_rest = 9 ∷ [];
  path_rest = 8 ∷ 7 ∷ [];
}

second_match : first_match asked_url (url b'a' ∷ url b'b' ∷ []) cells ≡ 2
unfolding first_match matches same
second_match = refl

asked-HasUrl : HasUrl asked_url asked
asked-HasUrl = record { host = refl; path = refl; plain = (omega arith, omega arith) }

is_cache_hit-first_match_example :
    is_cache_hit queue asked (world reader writer)
    ≡ ok (first_match asked_url (url b'a' ∷ url b'b' ∷ []) cells, world reader writer)
is_cache_hit-first_match_example =
    is_cache_hit-first_match (world reader writer) queue cells asked asked_url
      (url b'a' ∷ url b'b' ∷ []) cells-IsQueue (omega arith) asked-HasUrl
      (
        record { host = refl; path = refl; plain = (omega arith, omega arith) },
        (record { host = refl; path = refl; plain = (omega arith, omega arith) }, tt),
      )

new_cache_queue-IsQueue_example :
    (q : CacheQueue) × (w' : World) × (new_cache_queue 10 (world reader writer) ≡ ok (q, w'))
    × (q.max_slot ≡ 10)
    × IsQueue w' q (empty_cells 10 10)
new_cache_queue-IsQueue_example =
    new_cache_queue-IsQueue 8 (world reader writer) (omega arith) (omega arith)

fd_list_remove-IsList_example :
    (w' : World) × (fd_list_remove 5 (world reader writer) ≡ ok (tt, w'))
    × IsList w' ((4, edge) ∷ (6, edge) ∷ [])
    × (w'.fds 5 ≡ some reader)
    × Changed (world reader writer) (around reader) w'
fd_list_remove-IsList_example =
    fd_list_remove-IsList (world reader writer) [] [] 4 5 6 edge reader edge
      (around-IsList reader writer)

cache_send-cache_enqueue_example :
    (w' : World) × (cache_enqueue queue 3 (world reader writer)
      ≡ ok (record queue { front = 3; rear = 1 }, w'))
    × (cache_send 7 (some 3) w' ≡ fault)
cache_send-cache_enqueue_example =
    cache_send-cache_enqueue (world reader writer) queue [] 1 2 3 7 (page b'a') (page b'b')
      (page b'c') writer (some 3) cells-IsQueue (omega arith) refl refl refl (omega arith) refl refl

-- The pages a and b in the cache, and the page c put in front.
third_Waiting : Waiting (world reader writer) cells ((3, page b'c') ∷ [])
third_Waiting = (omega arith, refl, refl, refl, tt)

is_cache_hit-newest_example :
    (q' : CacheQueue) × (w' : World) × (enqueue_all queue
        ((3, page b'c') ∷ [])
        (world reader writer)
      ≡ ok (q', w'))
    × (is_cache_hit q' (info b'a') w'
        ≡ lift (first_hit (info b'a') ((3, page b'c') ∷ (1, page b'a') ∷ [])) w')
    × (w'.fds ≡ (world reader writer).fds)
is_cache_hit-newest_example =
    is_cache_hit-newest (world reader writer) queue cells ((3, page b'c') ∷ []) (info b'a')
      cells-IsQueue (omega arith) (omega arith) third_Waiting

free_cache_queue-Freed_example :
    (w' : World) × (free_cache_queue queue (world reader writer) ≡ ok (tt, w'))
    × Freed (world reader writer) cells w'
free_cache_queue-Freed_example =
    free_cache_queue-Freed (world reader writer) queue cells cells-IsQueue (omega arith)
