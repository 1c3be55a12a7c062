-- ===== src/Proxy/Fds/Append.antt =====
-- fd_list_append.
use ecen_602_projects.Common.{◌≡◌, ◌≢◌, refl, sym, ◌∙◌, true, false, some, [], ◌∷◌, ◌++◌, arith}
use ecen_602_projects.Memory.{ok}
use ecen_602_projects.Proxy.Links.{
  Ptr, null, Heap, write, has, last_or, Distinct, Links, has-append, Distinct-back, Distinct-insert,
  Distinct-apart, Links-front, Links-back, splice,
}
use ecen_602_projects.Proxy.Heap.{FdNode, fd_links, World}
use ecen_602_projects.Proxy.Heap.Steps.{load_fd-ok, update_fd-ok, write_self, write_other}
use ecen_602_projects.Proxy.Fds.Defs.{FdList, fd_list_append}
use ecen_602_projects.Proxy.Fds.Order.{Cells, IsList, Changed}

module _ (w : World) (l : FdList) (xs : Cells) (x p r : Ptr) (cx c cr : FdNode)
    (is : IsList w (xs ++ (x, cx) ∷ (r, cr) ∷ [])) (rear : l.rear ≡ r) (ne : p ≢ null)
    (new : w.fds p ≡ some c) (out : has p (xs ++ (x, cx) ∷ (r, cr) ∷ []) ≡ false) where
  back : Links fd_links w.fds (last_or null xs) ((x, cx) ∷ (r, cr) ∷ []) null
  back = Links-back fd_links w.fds null null xs ((x, cx) ∷ (r, cr) ∷ []) is.0

  apart : Distinct ((x, cx) ∷ (r, cr) ∷ [])
  apart = Distinct-back xs ((x, cx) ∷ (r, cr) ∷ []) is.1

  h1 : Heap FdNode
  h1 = write w.fds p (some (record c { prev = x }))

  h2 : Heap FdNode
  h2 = write h1 p (some (record c { prev = x; next = r }))

  h3 : Heap FdNode
  h3 = write h2 x (some (record cx { prev = last_or null xs; next = p }))

  appended : World
  appended = record w { fds = write h3 r (some (record cr { prev = p; next = null })) }

  p_x : p ≢ x
  p_x = ground (arith, has-append p xs ((x, cx) ∷ (r, cr) ∷ []))

  p_r : p ≢ r
  p_r = ground (arith, has-append p xs ((x, cx) ∷ (r, cr) ∷ []))

  x_r : x ≢ r
  x_r = let d = apart in ground arith

  r_h2 : h2 r ≡ some (record cr { prev = x; next = null })
  unfolding h2 h1
  r_h2 =
      write_other h1 p _ r (λ h. p_r (sym h))
      ∙ (write_other w.fds p _ r (λ h. p_r (sym h)) ∙ back.1.0)

  x_h2 : h2 x ≡ some (record cx { prev = last_or null xs; next = r })
  unfolding h2 h1
  x_h2 =
      write_other h1 p _ x (λ h. p_x (sym h))
      ∙ (write_other w.fds p _ x (λ h. p_x (sym h)) ∙ back.0)

  fd_list_append-ok : fd_list_append l p w ≡ ok (tt, appended)
  unfolding fd_list_append appended h3 h2 h1
  fd_list_append-ok = rw (
    rear,
    load_fd-ok w r (apart.2.0) (record cr { prev = x; next = null }) (back.1.0),
    update_fd-ok w p ne c (λ f. record f { prev = x }) new,
    update_fd-ok (record w { fds = h1 }) p ne (record c { prev = x }) (λ f. record f { next = r })
        (write_self w.fds p _),
    load_fd-ok (record w { fds = h2 }) r (apart.2.0) (record cr { prev = x; next = null }) r_h2,
    update_fd-ok (record w { fds = h2 }) x (apart.0)
        (record cx { prev = last_or null xs; next = r }) (λ f. record f { next = p }) x_h2,
    update_fd-ok (record w { fds = h3 }) r (apart.2.0) (record cr { prev = x; next = null })
        (λ f. record f { prev = p }) (write_other h2 x _ r (λ h. x_r (sym h)) ∙ r_h2),
  )

  appended_other : (a : Ptr) → a ≢ x → a ≢ p → a ≢ r → appended.fds a ≡ w.fds a
  unfolding appended h3 h2 h1 write
  appended_other a a_x a_p a_r = ground arith

  front_out : (a : Ptr) → has a xs ≡ true → (a ≢ x) × (a ≢ p) × (a ≢ r)
  front_out a i = (
    λ h. ground (arith, Distinct-apart xs ((x, cx) ∷ (r, cr) ∷ []) a is.1),
    λ h. ground (arith, has-append p xs ((x, cx) ∷ (r, cr) ∷ [])),
    λ h. ground (arith, Distinct-apart xs ((x, cx) ∷ (r, cr) ∷ []) a is.1),
  )

  appended-Links : Links fd_links appended.fds null (xs ++ (x, cx) ∷ (p, c) ∷ (r, cr) ∷ []) null
  unfolding appended h3 h2 h1
  appended-Links =
      splice fd_links w.fds appended.fds null null x r cx cr xs [] ((p, c) ∷ [])
        (Links-front fd_links w.fds null null xs ((x, cx) ∷ (r, cr) ∷ []) is.0) (omega arith)
        (λ a i. let o = front_out a i in appended_other a (o.0) (o.1) (o.2)) (λ a i. cc)
        (write_other h3 r _ x x_r ∙ write_self h2 x _) (write_self h3 r _)
        (write_other h3 r _ p p_r ∙ (write_other h2 x _ p p_x ∙ write_self h1 p _), omega arith)

  -- A node that is not in the list is put in front of the rear dummy; the others keep their order
  -- and contents.
  pub fd_list_append-IsList :
      (w' : World) × (fd_list_append l p w ≡ ok (tt, w'))
      × IsList w' (xs ++ (x, cx) ∷ (p, c) ∷ (r, cr) ∷ [])
      × Changed w (xs ++ (x, cx) ∷ (p, c) ∷ (r, cr) ∷ []) w'
  unfolding appended
  fd_list_append-IsList = (
    appended,
    fd_list_append-ok,
    (appended-Links, Distinct-insert xs x p cx c ((r, cr) ∷ []) is.1 ne out),
    record {
      same = λ a other.
          appended_other a (ground (arith, has-append a xs ((x, cx) ∷ (p, c) ∷ (r, cr) ∷ [])))
            (ground (arith, has-append a xs ((x, cx) ∷ (p, c) ∷ (r, cr) ∷ [])))
            (ground (arith, has-append a xs ((x, cx) ∷ (p, c) ∷ (r, cr) ∷ [])));
      caches = refl;
      out = refl;
    },
  )
