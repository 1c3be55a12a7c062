-- ===== src/Proxy/Transfer/Send.antt =====
-- cache_send hands out the buffer piece by piece, as far as send takes it.
use mathlib.Core.List.{flatten}
use ecen_602_projects.Common.{
  ℕ, zero, suc, ◌+◌, ◌-◌, ◌%◌, ◌^◌, ◌≤◌, ◌<◌, ◌≡◌, ◌≢◌, refl, sym, ap, ◌∙◌, false, some, List, [],
  ◌∷◌, ◌++◌, arith, leb, if◌then◌else◌, length, take, drop, map, length-drop, drop-drop, take_all,
  append_assoc, append-nil, Bool-cases, inl, inr, le→leb, lt→leb-false, take-append-drop,
}
use ecen_602_projects.Memory.{ok, slice}
use ecen_602_projects.Proxy.Links.{Ptr, null, write}
use ecen_602_projects.Proxy.Heap.{idle, CacheNode, FdNode, sent, World, Cmd, pure, ◌>>◌, act}
use ecen_602_projects.Proxy.Heap.Steps.{load_cache-ok, load_fd-ok, update_fd-ok, write_self}
use ecen_602_projects.Proxy.Transfer.Defs.{
  bytes_of, send_buffer, send_size, sent_so_far, cache_send, is_server,
}
use ecen_602_projects.Proxy.Transfer.Receive.{Fits}

pub take-take : {A : Type 0} (n m : ℕ) (xs : List A) → n ≤ m → take n (take m xs) ≡ take n xs
take-take zero m xs h = refl
take-take (suc n) zero xs h = absurd (omega arith)
take-take (suc n) (suc m) [] h = refl
take-take (suc n) (suc m) (x ∷ xs) h = ap (λ l. x ∷ l) (take-take n m xs (omega arith))

-- The node behind a call that took `n` bytes.
abbrev pub after_send : FdNode → CacheNode → ℕ → FdNode
after_send f c n =
    if leb c.buffer_size (f.offset + n)
    then record f { status = idle; offset = 0 }
    else record f { offset = f.offset + n }

le-send_size :
    (c : CacheNode) (f : FdNode) (n : ℕ)
    → f.offset ≤ c.buffer_size
    → n ≤ c.buffer_size - f.offset
    → n ≤ 1500
    → n ≤ send_size c f
unfolding send_size
le-send_size c f n w h k = ground arith

pub sent_so_far-ok :
    (w : World) (p : Ptr) (f : FdNode) (c : CacheNode) (n : ℕ)
    → p ≢ null
    → w.fds p ≡ some f
    → sent_so_far p (f.offset + n) c.buffer_size w
      ≡ ok (tt, record w { fds = write w.fds p (some (after_send f c n)) })
unfolding sent_so_far
sent_so_far-ok w p f c n ne node = elim (Bool-cases (leb c.buffer_size (f.offset + n))) [
  | inl done ↦ rw (done, update_fd-ok w p ne f (λ f. record f { status = idle; offset = 0 }) node)
  | inr more ↦ rw (more, update_fd-ok w p ne f (λ g. record g { offset = f.offset + n }) node)
]

send_size_bounds :
    (c : CacheNode) (f : FdNode)
    → f.offset ≤ c.buffer_size
    → (send_size c f ≤ c.buffer_size - f.offset) × (send_size c f ≤ 1500)
unfolding send_size
send_size_bounds c f h = ground arith

module _ (w : World) (p : Ptr) (f : FdNode) (c : CacheNode) (n : ℕ) (ne : p ≢ null)
    (node : w.fds p ≡ some f) (ne' : f.cache_node ≢ null) (cell : w.caches f.cache_node ≡ some c)
    (fits : Fits f.offset c) (plain : is_server f.fd_type ≡ false)
    (n_size : n ≤ send_size c f) where
  -- One call: the next `n` bytes of the buffer go out.
  pub cache_send-plain :
      cache_send p (some n) w
      ≡ ok (
        some n,
        record w {
          fds = write w.fds p (some (after_send f c n));
          out = w.out ++ sent f.fd (take n (drop f.offset (bytes_of c.buffer))) ∷ [];
        },
      )
  unfolding cache_send send_buffer slice act
  cache_send-plain =
      let size = fits.size in
      let within = fits.within in
      let small = fits.small in
      let sum : (f.offset + n) % 2 ^ 64 ≡ f.offset + n =
        omega (arith, send_size_bounds c f fits.within) in
      rw (
        load_fd-ok w p ne f node,
        load_cache-ok w f.cache_node ne' c cell,
        plain,
        le→leb (f.offset + send_size c f) (length (bytes_of c.buffer))
            (omega (arith, send_size_bounds c f fits.within)),
        take-take n (send_size c f) (drop f.offset (bytes_of c.buffer)) n_size,
        sum,
        sent_so_far-ok
            (record w {
              out = w.out ++ sent f.fd (take n (drop f.offset (bytes_of c.buffer))) ∷ [];
            })
            p f c n ne node,
      )

-- Calls of cache_send, one for each result of send.
unfoldable pub send_pieces : Ptr → List ℕ → Cmd (Unit {0})
send_pieces p [] = pure tt
send_pieces p (n ∷ ns) = cache_send p (some n) >> send_pieces p ns

-- Pieces of at most 1500 bytes that make up `left` bytes, the last one not empty.
abbrev pub Parts : List ℕ → ℕ → Type 0
Parts [] left = ⊥
Parts (n ∷ []) left = (n ≡ left) × (n ≤ 1500)
Parts (n ∷ m ∷ ns) left = (n < left) × (n ≤ 1500) × Parts (m ∷ ns) (left - n)

abbrev pub pieces : List ℕ → List ℕ → List (List ℕ)
pieces [] l = []
pieces (n ∷ ns) l = take n l ∷ pieces ns (drop n l)

pub flatten-pieces : (ns : List ℕ) (l : List ℕ) → Parts ns (length l) → flatten (pieces ns l) ≡ l
unfolding flatten
flatten-pieces [] l h = absurd h
flatten-pieces (n ∷ []) l h = append-nil (take n l) ∙ take_all n l (omega arith)
flatten-pieces (n ∷ m ∷ ns) l h =
    ap (λ r. take n l ++ r) (flatten-pieces (m ∷ ns) (drop n l) (rw (length-drop n l) (h.2)))
    ∙ take-append-drop n l

module _ (p : Ptr) (c : CacheNode) (ne : p ≢ null) where
  -- However send cuts it, a node that is no conditional request hands out the rest of its buffer
  -- exactly once and in order, and is then idle with its offset at the start. The cache is not changed.
  pub send_pieces-ok :
      (ns : List ℕ) (w : World) (f : FdNode)
      → w.fds p ≡ some f
      → f.cache_node ≢ null
      → w.caches f.cache_node ≡ some c
      → Fits f.offset c
      → is_server f.fd_type ≡ false
      → Parts ns (c.buffer_size - f.offset)
      → (w' : World) × (send_pieces p ns w ≡ ok (tt, w'))
        × (w'.out ≡ w.out ++ map (sent f.fd) (pieces ns (drop f.offset (bytes_of c.buffer))))
        × (w'.fds p ≡ some (record f { status = idle; offset = 0 }))
        × (w'.caches ≡ w.caches)
  unfolding send_pieces
  send_pieces-ok [] w f node ne' cell fits plain parts = absurd parts
  send_pieces-ok (n ∷ []) w f node ne' cell fits plain parts = (
    record w {
      fds = write w.fds p (some (after_send f c n));
      out = w.out ++ sent f.fd (take n (drop f.offset (bytes_of c.buffer))) ∷ [];
    },
    rw (
        cache_send-plain w p f c n ne node ne' cell fits plain
          (le-send_size c f n fits.within (omega arith) (parts.1))),
    refl,
    write_self w.fds p _ ∙ rw (le→leb c.buffer_size (f.offset + n) (omega arith)),
    refl,
  )
  send_pieces-ok (n ∷ m ∷ ns) w f node ne' cell fits plain parts =
      let (w', run, out, end, same) =
        send_pieces-ok (m ∷ ns) w1 f1 at_p ne' cell fits1 plain parts1 in
      (
        w',
        rw
            (cache_send-plain w p f c n ne node ne' cell fits plain
              (le-send_size c f n fits.within (omega arith) (parts.1)))
            run,
        out
            ∙ (append_assoc w.out (sent f.fd (take n (drop f.offset (bytes_of c.buffer))) ∷ [])
                  (map (sent f.fd) (pieces (m ∷ ns) (drop (f.offset + n) (bytes_of c.buffer))))
                ∙ ap
                    (λ l.
                      w.out
                      ++ (sent f.fd (take n (drop f.offset (bytes_of c.buffer)))
                          ∷ map (sent f.fd) (pieces (m ∷ ns) l)))
                    (sym (drop-drop f.offset n (bytes_of c.buffer)))),
        end,
        same,
      )
    where
      w1 : World
      w1 = record w {
        fds = write w.fds p (some (after_send f c n));
        out = w.out ++ sent f.fd (take n (drop f.offset (bytes_of c.buffer))) ∷ [];
      }

      f1 : FdNode
      f1 = record f { offset = f.offset + n }

      at_p : w1.fds p ≡ some f1
      at_p = write_self w.fds p _ ∙ rw (lt→leb-false c.buffer_size (f.offset + n) (omega arith))

      fits1 : Fits f1.offset c
      fits1 = record { size = fits.size; within = omega arith; small = fits.small }

      parts1 : Parts (m ∷ ns) (c.buffer_size - f1.offset)
      parts1 =
          rw
            (let e : c.buffer_size - (f.offset + n) ≡ c.buffer_size - f.offset - n = omega arith in
              e)
            (parts.2)
