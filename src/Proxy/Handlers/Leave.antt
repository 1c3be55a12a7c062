-- ===== src/Proxy/Handlers/Leave.antt =====
-- drop_node, and client_write_handler when the answer has been sent to its end.
use ecen_602_projects.Common.{
  ℕ, ◌+◌, ◌≤◌, ◌≡◌, ◌≢◌, ap, ◌∙◌, false, none, some, List, [], ◌∷◌, ◌++◌, arith, drop, take, le→leb,
  ne→==-false, append_assoc,
}
use ecen_602_projects.Memory.{ok}
use ecen_602_projects.Proxy.Links.{
  Distinct-replace, Links-replace, Ptr, null, write, has, last_or, Distinct, Links, has-append,
  Distinct-back, Distinct-apart, cell_at, frame-write,
}
use ecen_602_projects.Proxy.Heap.{
  idle, client, FdNode, fd_links, CacheNode, Action, sent, close, World, put_fd, act,
}
use ecen_602_projects.Proxy.Heap.Steps.{load_fd-ok, write_self}
use ecen_602_projects.Proxy.Fds.{free_fd_node}
use ecen_602_projects.Proxy.Fds.Order.{Cells, IsList}
use ecen_602_projects.Proxy.Fds.Remove.{fd_list_remove-IsList}
use ecen_602_projects.Proxy.Transfer.{bytes_of, is_server, send_size}
use ecen_602_projects.Proxy.Transfer.Receive.{Fits}
use ecen_602_projects.Proxy.Transfer.Send.{cache_send-plain}
use ecen_602_projects.Proxy.Handlers.Defs.{drop_node, client_write_handler}

-- The node is gone, and the list is what was around it.
pub record Dropped (w : World) (p : Ptr) (rest : Cells) (actions : List Action) (w' : World)
    : Type 0 where
  pub list : IsList w' rest
  pub gone : w'.fds p ≡ none
  pub out : w'.out ≡ w.out ++ actions
  pub caches : w'.caches ≡ w.caches

-- A connection in the list is closed, and its node leaves the list and is freed.
pub drop_node-Dropped :
    (w : World) (xs ys : Cells) (x p y : Ptr) (cx c cy : FdNode)
    → IsList w (xs ++ (x, cx) ∷ (p, c) ∷ (y, cy) ∷ ys)
    → (w' : World) × (drop_node p w ≡ ok (tt, w'))
      × Dropped w p (xs ++ (x, cx) ∷ (y, cy) ∷ ys) (close c.fd ∷ []) w'
unfolding drop_node act free_fd_node put_fd
drop_node-Dropped w xs ys x p y cx c cy is =
    let (w2, run, is2, at_p, changed) = fd_list_remove-IsList w1 xs ys x p y cx c cy is in
    (
      record w2 { fds = write w2.fds p none },
      rw (
        load_fd-ok w p ne (record c { prev = last_or null (xs ++ (x, cx) ∷ []); next = y }) cell,
        run,
        ne→==-false p null ne,
        load_fd-ok w2 p ne (record c { prev = null; next = null }) at_p,
      ),
      record {
        list = (frame_at_p w2 is2.0, is2.1);
        gone = write_self w2.fds p none;
        out = changed.out;
        caches = changed.caches;
      },
    )
  where
    w1 : World
    w1 = record w { out = w.out ++ close c.fd ∷ [] }

    apart : Distinct ((x, cx) ∷ (p, c) ∷ (y, cy) ∷ ys)
    apart = Distinct-back xs ((x, cx) ∷ (p, c) ∷ (y, cy) ∷ ys) is.1

    ne : p ≢ null
    ne = apart.2.0

    cell : w.fds p ≡ some (record c { prev = last_or null (xs ++ (x, cx) ∷ []); next = y })
    cell =
        cell_at fd_links w.fds null null p c (xs ++ (x, cx) ∷ []) ((y, cy) ∷ ys)
          (rw (append_assoc xs ((x, cx) ∷ []) ((p, c) ∷ (y, cy) ∷ ys)) is.0)

    p_out : has p (xs ++ (x, cx) ∷ (y, cy) ∷ ys) ≡ false
    p_out =
        let d = apart in
        ground (
          arith,
          has-append p xs ((x, cx) ∷ (y, cy) ∷ ys),
          Distinct-apart xs ((x, cx) ∷ (p, c) ∷ (y, cy) ∷ ys) p is.1,
        )

    frame_at_p :
        (w2 : World)
        → Links fd_links w2.fds null (xs ++ (x, cx) ∷ (y, cy) ∷ ys) null
        → Links fd_links (write w2.fds p none) null (xs ++ (x, cx) ∷ (y, cy) ∷ ys) null
    frame_at_p w2 links =
        frame-write fd_links w2.fds p none null null (xs ++ (x, cx) ∷ (y, cy) ∷ ys) links p_out

module _ (w : World) (xs ys : Cells) (x p y : Ptr) (cx f cy : FdNode) (c : CacheNode) (n : ℕ)
    (is : IsList w (xs ++ (x, cx) ∷ (p, f) ∷ (y, cy) ∷ ys)) (ne' : f.cache_node ≢ null)
    (cell : w.caches f.cache_node ≡ some c) (fits : Fits f.offset c) (type : f.fd_type ≡ client)
    (n_size : n ≤ send_size c f) (end : c.buffer_size ≤ f.offset + n) where
  all : IsList w ((xs ++ (x, cx) ∷ []) ++ (p, f) ∷ (y, cy) ∷ ys)
  all = rw (append_assoc xs ((x, cx) ∷ []) ((p, f) ∷ (y, cy) ∷ ys)) is

  abbrev pub linked_f : FdNode
  linked_f = record f { prev = last_or null (xs ++ (x, cx) ∷ []); next = y }

  pub at_p : w.fds p ≡ some linked_f
  at_p = cell_at fd_links w.fds null null p f (xs ++ (x, cx) ∷ []) ((y, cy) ∷ ys) all.0

  finished : World
  finished = record w {
    fds = write w.fds p (some (record linked_f { status = idle; offset = 0 }));
    out = w.out ++ sent f.fd (take n (drop f.offset (bytes_of c.buffer))) ∷ [];
  }

  finished-IsList :
      IsList finished (xs ++ (x, cx) ∷ (p, record f { status = idle; offset = 0 }) ∷ (y, cy) ∷ ys)
  unfolding finished
  finished-IsList =
      rw
        (← append_assoc xs ((x, cx) ∷ [])
          ((p, record f { status = idle; offset = 0 }) ∷ (y, cy) ∷ ys))
        (
          Links-replace fd_links w.fds null null p f (record f { status = idle; offset = 0 })
              (xs ++ (x, cx) ∷ []) ((y, cy) ∷ ys) all.0 all.1,
          Distinct-replace (xs ++ (x, cx) ∷ []) p f (record f { status = idle; offset = 0 })
              ((y, cy) ∷ ys) all.1,
        )

  -- The bytes that close an answer go out, the connection is closed, and the node of the client leaves
  -- the list and is freed.
  pub client_write_handler-Dropped :
      (w' : World) × (client_write_handler p (some n) w ≡ ok (tt, w'))
      × Dropped w p
          (xs ++ (x, cx) ∷ (y, cy) ∷ ys)
          (sent f.fd (take n (drop f.offset (bytes_of c.buffer))) ∷ close f.fd ∷ [])
          w'
  unfolding client_write_handler finished send_size
  client_write_handler-Dropped =
      let (w', run, d) =
        drop_node-Dropped finished xs ys x p y cx (record f { status = idle; offset = 0 }) cy
          finished-IsList in
      (
        w',
        rw
            (
              cache_send-plain w p linked_f c n p_ne at_p ne' cell fits (ap is_server type) n_size,
              le→leb c.buffer_size (f.offset + n) end,
              load_fd-ok finished p p_ne (record linked_f { status = idle; offset = 0 })
                  (write_self w.fds p _),
            )
            run,
        record {
          list = d.list;
          gone = d.gone;
          out =
              d.out
              ∙ append_assoc w.out (sent f.fd (take n (drop f.offset (bytes_of c.buffer))) ∷ [])
                  (close f.fd ∷ []);
          caches = d.caches;
        },
      )
    where
      p_ne : p ≢ null
      p_ne = (Distinct-back (xs ++ (x, cx) ∷ []) ((p, f) ∷ (y, cy) ∷ ys) all.1).0
