-- ===== src/Proxy/Tests/Transfers.antt =====
-- The theorems about requests, transfers, handlers and the service loop at concrete inputs.
use ecen_602_projects.Common.{length-replicate, drop, ℕ, ◌≡◌, refl, some, [], ◌∷◌, arith, replicate}
use ecen_602_projects.Memory.{ok, fault}
use ecen_602_projects.Proxy.Http.{parse_request, empty_info}
use ecen_602_projects.Proxy.Http.Line.{field}
use ecen_602_projects.Proxy.Http.Request.{request_memory, parse_request-request_memory}
use ecen_602_projects.Proxy.Heap.{idle, CacheNode, sent, close, World}
use ecen_602_projects.Proxy.Transfer.{conditional_get, cache_recv}
use ecen_602_projects.Proxy.Transfer.Receive.{Received, cache_recv-client, cache_recv-server}
use ecen_602_projects.Proxy.Transfer.Send.{send_pieces, send_pieces-ok}
use ecen_602_projects.Proxy.Transfer.Conditional.{request_array, conditional_get-request_array}
use ecen_602_projects.Proxy.Handlers.{client_write_handler}
use ecen_602_projects.Proxy.Handlers.Leave.{Dropped, client_write_handler-Dropped}
use ecen_602_projects.Proxy.Service.{serve_nodes}
use ecen_602_projects.Proxy.Service.Stale.{serve_nodes-stale}
use ecen_602_projects.Proxy.Tests.Setup.{
  info, page, edge, reader, writer, answers, world, queue, around-IsList, env, page-Fits, second,
  second-Fits, hello, cached, cached-IsCached, size_3, list, ready, site, team, ones, ones-length,
  room,
}

cache_recv-client_example :
    (c' : CacheNode) × (w' : World) × (cache_recv env 7 (some hello) (world writer reader)
      ≡ ok (2, w'))
    × Received (page b'c') 0 hello c'
    × (w'.caches 3 ≡ some c')
    × (w'.fds 7 ≡ some (record reader { status = idle }))
cache_recv-client_example =
    cache_recv-client env (world writer reader) 7 reader (page b'c') hello (omega arith) refl
      (omega arith) refl page-Fits (omega arith) refl refl

cache_recv-server_example :
    (c' : CacheNode) × (w' : World) × (cache_recv env 7 (some hello) (world writer answers)
      ≡ ok (2, w'))
    × Received (page b'c') 0 hello c'
    × (w'.caches 3 ≡ some c')
    × (w'.fds 7 ≡ some (record answers { offset = 2 }))
cache_recv-server_example =
    cache_recv-server env (world writer answers) 7 answers (page b'c') hello (omega arith) refl
      (omega arith) refl page-Fits (omega arith) refl refl refl (omega arith)

send_pieces-ok_example :
    (w' : World) × (send_pieces 7 (2 ∷ 1 ∷ []) (world reader writer) ≡ ok (tt, w'))
    × (w'.out ≡ sent (some 7) (b'y' ∷ b'e' ∷ []) ∷ sent (some 7) (b's' ∷ []) ∷ [])
    × (w'.fds 7 ≡ some (record writer { status = idle }))
    × (w'.caches ≡ (world reader writer).caches)
send_pieces-ok_example =
    send_pieces-ok 7 second (omega arith) (2 ∷ 1 ∷ []) (world reader writer) writer refl
      (omega arith) refl (second-Fits) refl (omega arith, omega arith, (refl, omega arith))

conditional_get-request_array_example :
    conditional_get (info b'b') (world reader writer)
    ≡ ok (request_array cached, world reader writer)
conditional_get-request_array_example =
    conditional_get-request_array cached (info b'b') cached-IsCached (world reader writer)

client_write_handler-Dropped_example :
    (w' : World) × (client_write_handler 5 (some 3) (world writer reader) ≡ ok (tt, w'))
    × Dropped
        (world writer reader)
        5
        ((4, edge) ∷ (6, edge) ∷ [])
        (sent (some 7) (b'y' ∷ b'e' ∷ b's' ∷ []) ∷ close (some 7) ∷ [])
        w'
client_write_handler-Dropped_example =
    client_write_handler-Dropped (world writer reader) [] [] 4 5 6 edge writer edge second 3
      (around-IsList writer reader) (omega arith) refl (second-Fits) refl size_3 (omega arith)

serve_nodes-stale_example : serve_nodes env list ready 5 5 queue (world writer reader) ≡ fault
serve_nodes-stale_example =
    serve_nodes-stale env list ready queue 3 (world writer reader) [] [] 4 5 6 edge writer edge
      second 3 (around-IsList writer reader) (omega arith) refl (second-Fits) refl refl refl refl
      size_3 (omega arith)

parse_request-request_memory_example :
    parse_request ones (request_memory (b'/' ∷ []) site team (replicate 1464 0) []) empty_info
    ≡ ok (record empty_info {
      path = b'/' ∷ drop 1 empty_info.path;
      host = field site empty_info.host;
      user_agent = field team empty_info.user_agent;
    })
parse_request-request_memory_example =
    parse_request-request_memory (b'/' ∷ []) site team (replicate 1464 0) []
      (omega arith, omega arith, omega arith) (omega arith, omega arith, omega arith)
      (omega arith, omega arith, omega arith) ones empty_info ones-length
      (let z : ℕ = 0 in omega (arith, length-replicate 1464 z)) (omega arith) room.2 room.0 room.1
