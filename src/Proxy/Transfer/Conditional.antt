-- ===== src/Proxy/Transfer/Conditional.antt =====
-- The conditional request for a cached answer: it fits into its array, but is sent with the size of
-- another buffer.
use ecen_602_projects.Common.{
  ℕ, ◌%◌, ◌^◌, ◌+◌, ◌-◌, ◌≤◌, ◌<◌, ◌≡◌, ◌≢◌, refl, ap, Option, some, List, [], ◌∷◌, ◌++◌, arith,
  ◌==◌, length, take, drop, length-append, length-drop, length-replicate, replicate,
}
use ecen_602_projects.Memory.{
  ok, fault, slice-fault, slice_front, memcpy-front, NoNul, c_string-append,
}
use ecen_602_projects.Proxy.Links.{Ptr, null, write}
use ecen_602_projects.Proxy.Http.{HttpInfo}
use ecen_602_projects.Proxy.Heap.{CacheNode, FdNode, World, server, act, sent}
use ecen_602_projects.Proxy.Heap.Steps.{load_cache-ok, load_fd-ok, write_self}
use ecen_602_projects.Proxy.Transfer.Defs.{
  get_text, version_text, since_text, end_text, conditional_get, send_buffer, send_size, cache_send,
  is_server,
}
use ecen_602_projects.Proxy.Transfer.Send.{after_send, take-take, sent_so_far-ok}

-- The strings in the fields, and the memory behind their terminators.
pub record Cached : Type 0 where
  pub path : List ℕ
  pub host : List ℕ
  pub date : List ℕ
  pub path_rest : List ℕ
  pub host_rest : List ℕ
  pub date_rest : List ℕ

pub record IsCached (s : Cached) (http_info : HttpInfo) : Type 0 where
  pub path : http_info.path ≡ s.path ++ 0 ∷ s.path_rest
  pub host : http_info.host ≡ s.host ++ 0 ∷ s.host_rest
  pub date : http_info.date ≡ s.date ++ 0 ∷ s.date_rest
  pub plain : NoNul s.path × NoNul s.host × NoNul s.date
  -- char[100], char[253] and char[30]
  pub sizes : (length s.path < 100) × (length s.host < 253) × (length s.date < 30)

abbrev pub request_text : Cached → List ℕ
request_text s =
    get_text
    ++ (s.path ++ (version_text ++ (s.host ++ (since_text ++ (s.date ++ (end_text ++ 0 ∷ []))))))

-- The array of 500 bytes: the request, then zeros.
unfoldable pub request_array : Cached → List ℕ
request_array s = request_text s ++ drop (length (request_text s)) (replicate 500 0)

send_size_le : (c : CacheNode) (f : FdNode) → 500 < c.buffer_size - f.offset → 500 < send_size c f
unfolding send_size
send_size_le c f h = ground arith

send_size_all :
    (c : CacheNode) (f : FdNode)
    → f.offset ≡ 0
    → c.buffer_size ≤ 500
    → send_size c f ≡ c.buffer_size
unfolding send_size
send_size_all c f h k = ground arith

module _ (s : Cached) (http_info : HttpInfo) (is : IsCached s http_info) where
  length-request_text : length (request_text s) ≤ 427
  length-request_text =
      let n = is.sizes in
      omega (
        arith,
        length-append get_text (
            s.path
            ++ (version_text ++ (s.host ++ (since_text ++ (s.date ++ (end_text ++ 0 ∷ [])))))),
        length-append s.path
            (version_text ++ (s.host ++ (since_text ++ (s.date ++ (end_text ++ 0 ∷ []))))),
        length-append version_text (s.host ++ (since_text ++ (s.date ++ (end_text ++ 0 ∷ [])))),
        length-append s.host (since_text ++ (s.date ++ (end_text ++ 0 ∷ []))),
        length-append since_text (s.date ++ (end_text ++ 0 ∷ [])),
        length-append s.date (end_text ++ 0 ∷ []),
      )

  -- Whatever stands in the fields of a cached answer, the request fits into its array.
  pub conditional_get-request_array :
      (w : World) → conditional_get http_info w ≡ ok (request_array s, w)
  unfolding conditional_get request_array
  conditional_get-request_array w = rw (
    is.path,
    is.host,
    is.date,
    c_string-append s.path s.path_rest (is.plain.0),
    c_string-append s.host s.host_rest (is.plain.1),
    c_string-append s.date s.date_rest (is.plain.2),
    memcpy-front (replicate 500 0) (request_text s)
        (omega (arith, length-request_text, length-replicate 500 (let z : ℕ = 0 in z))),
  )

  pub length-request_array : length (request_array s) ≡ 500
  unfolding request_array
  length-request_array = omega (
    arith,
    length-request_text,
    length-append (request_text s) (drop (length (request_text s)) (replicate 500 0)),
    length-drop (length (request_text s)) (replicate 500 (let z : ℕ = 0 in z)),
    length-replicate 500 (let z : ℕ = 0 in z),
  )

module _ (w : World) (p : Ptr) (f : FdNode) (c hit : CacheNode) (s : Cached) (ne : p ≢ null)
    (node : w.fds p ≡ some f) (ne' : f.cache_node ≢ null) (cell : w.caches f.cache_node ≡ some c)
    (backup : f.cache_node_backup ≢ null) (cell' : w.caches f.cache_node_backup ≡ some hit)
    (is : IsCached s hit.http_info) (type : f.fd_type ≡ server) (conditional : f.flag ≡ 1) where
  chosen : send_buffer f c w ≡ ok ((request_array s, 0), w)
  unfolding send_buffer
  chosen = rw (
    ap is_server type,
    ap (λ n. n == 1) conditional,
    load_cache-ok w f.cache_node_backup backup hit cell',
    conditional_get-request_array s hit.http_info is w,
  )

  -- If the buffer of the client's request has grown, send is told to read behind the array in which the
  -- conditional request stands.
  pub cache_send-overread :
      (result : Option ℕ) → 500 < c.buffer_size - f.offset → cache_send p result w ≡ fault
  unfolding cache_send
  cache_send-overread result big = rw (
    load_fd-ok w p ne f node,
    load_cache-ok w f.cache_node ne' c cell,
    chosen,
    slice-fault (request_array s) 0 (send_size c f)
        (omega (arith, length-request_array s hit.http_info is, send_size_le c f big)),
  )

  -- If it has not, what goes out is at most as long as that buffer, however long the request is.
  pub cache_send-conditional :
      (n : ℕ)
      → c.buffer_size ≤ 500
      → n ≤ c.buffer_size
      → f.offset ≡ 0
      → (w' : World) × (cache_send p (some n) w ≡ ok (some n, w'))
        × (w'.out ≡ w.out ++ sent f.fd (take n (request_array s)) ∷ [])
        × (w'.fds p ≡ some (after_send f c n))
  unfolding cache_send act
  cache_send-conditional n small part start =
      let size : send_size c f ≡ c.buffer_size = send_size_all c f start small in
      (
        record w {
          fds = write w.fds p (some (after_send f c n));
          out = w.out ++ sent f.fd (take n (request_array s)) ∷ [];
        },
        rw (
          load_fd-ok w p ne f node,
          load_cache-ok w f.cache_node ne' c cell,
          chosen,
          size,
          slice_front (request_array s) c.buffer_size
              (omega (arith, length-request_array s hit.http_info is)),
          take-take n c.buffer_size (request_array s) part,
          let sum : (f.offset + n) % 2 ^ 64 ≡ f.offset + n = omega arith in sum,
          sent_so_far-ok (record w { out = w.out ++ sent f.fd (take n (request_array s)) ∷ [] }) p f
              c n ne node,
        ),
        refl,
        write_self w.fds p _,
      )
