-- ===== src/Proxy/Fds/Remove.antt =====
-- fd_list_remove.
use ecen_602_projects.Common.{◌≡◌, ◌≢◌, refl, sym, ◌∙◌, true, some, [], ◌∷◌, ◌++◌, arith}
use ecen_602_projects.Memory.{ok}
use ecen_602_projects.Proxy.Links.{
  Ptr, null, Heap, write, has, head_or, last_or, Distinct, Links, has-append, Distinct-back,
  Distinct-drop, Distinct-apart, Links-front, Links-back, splice,
}
use ecen_602_projects.Proxy.Heap.{FdNode, fd_links, World}
use ecen_602_projects.Proxy.Heap.Steps.{load_fd-ok, update_fd-ok, write_self, write_other}
use ecen_602_projects.Proxy.Fds.Defs.{fd_list_remove}
use ecen_602_projects.Proxy.Fds.Order.{Cells, IsList, Changed}

module _ (w : World) (xs ys : Cells) (x p y : Ptr) (cx c cy : FdNode)
    (is : IsList w (xs ++ (x, cx) ∷ (p, c) ∷ (y, cy) ∷ ys)) where
  back : Links fd_links w.fds (last_or null xs) ((x, cx) ∷ (p, c) ∷ (y, cy) ∷ ys) null
  back = Links-back fd_links w.fds null null xs ((x, cx) ∷ (p, c) ∷ (y, cy) ∷ ys) is.0

  apart : Distinct ((x, cx) ∷ (p, c) ∷ (y, cy) ∷ ys)
  apart = Distinct-back xs ((x, cx) ∷ (p, c) ∷ (y, cy) ∷ ys) is.1

  h1 : Heap FdNode
  h1 = write w.fds x (some (record cx { prev = last_or null xs; next = y }))

  h2 : Heap FdNode
  h2 = write h1 y (some (record cy { prev = x; next = head_or null ys }))

  h3 : Heap FdNode
  h3 = write h2 p (some (record c { prev = null; next = y }))

  removed : World
  removed = record w { fds = write h3 p (some (record c { prev = null; next = null })) }

  p_x : p ≢ x
  p_x = let d = apart in ground arith

  p_y : p ≢ y
  p_y = let d = apart in ground arith

  x_y : y ≢ x
  x_y = let d = apart in ground arith

  fd_list_remove-ok : fd_list_remove p w ≡ ok (tt, removed)
  unfolding fd_list_remove removed h3 h2 h1
  fd_list_remove-ok = rw (
    load_fd-ok w p (apart.2.0) (record c { prev = x; next = y }) (back.1.0),
    update_fd-ok w x (apart.0) (record cx { prev = last_or null xs; next = p })
        (λ f. record f { next = y }) (back.0),
    load_fd-ok (record w { fds = h1 }) p (apart.2.0) (record c { prev = x; next = y })
        (write_other w.fds x _ p p_x ∙ back.1.0),
    update_fd-ok (record w { fds = h1 }) y (apart.2.2.0)
        (record cy { prev = p; next = head_or null ys }) (λ f. record f { prev = x })
        (write_other w.fds x _ y x_y ∙ back.1.1.0),
    update_fd-ok (record w { fds = h2 }) p (apart.2.0) (record c { prev = x; next = y })
        (λ f. record f { prev = null })
        (write_other h1 y _ p p_y ∙ (write_other w.fds x _ p p_x ∙ back.1.0)),
    update_fd-ok (record w { fds = h3 }) p (apart.2.0) (record c { prev = null; next = y })
        (λ f. record f { next = null }) (write_self h2 p _),
  )

  removed_other : (a : Ptr) → a ≢ x → a ≢ p → a ≢ y → removed.fds a ≡ w.fds a
  unfolding removed h3 h2 h1 write
  removed_other a a_x a_p a_y = ground arith

  rest_out : (a : Ptr) → has a ys ≡ true → (a ≢ x) × (a ≢ p) × (a ≢ y)
  rest_out a i = let d = apart in (λ h. ground arith, λ h. ground arith, λ h. ground arith)

  front_out : (a : Ptr) → has a xs ≡ true → (a ≢ x) × (a ≢ p) × (a ≢ y)
  front_out a i = (
    λ h. ground (arith, Distinct-apart xs ((x, cx) ∷ (p, c) ∷ (y, cy) ∷ ys) a is.1),
    λ h. ground (arith, Distinct-apart xs ((x, cx) ∷ (p, c) ∷ (y, cy) ∷ ys) a is.1),
    λ h. ground (arith, Distinct-apart xs ((x, cx) ∷ (p, c) ∷ (y, cy) ∷ ys) a is.1),
  )

  removed-Links : Links fd_links removed.fds null (xs ++ (x, cx) ∷ (y, cy) ∷ ys) null
  unfolding removed h3 h2 h1
  removed-Links =
      splice fd_links w.fds removed.fds null null x y cx cy xs ys []
        (Links-front fd_links w.fds null null xs ((x, cx) ∷ (p, c) ∷ (y, cy) ∷ ys) is.0)
        (back.1.1.1) (λ a i. let o = front_out a i in removed_other a (o.0) (o.1) (o.2))
        (λ a i. let o = rest_out a i in removed_other a (o.0) (o.1) (o.2))
        (write_other h3 p _ x (λ h. p_x (sym h))
          ∙ (write_other h2 p _ x (λ h. p_x (sym h))
              ∙ (write_other h1 y _ x (λ h. x_y (sym h)) ∙ write_self w.fds x _)))
        (write_other h3 p _ y (λ h. p_y (sym h))
          ∙ (write_other h2 p _ y (λ h. p_y (sym h)) ∙ write_self h1 y _))
        (omega arith)

  -- A node between two others leaves the list, the others keep their order and contents, and the
  -- node itself is left with null links.
  pub fd_list_remove-IsList :
      (w' : World) × (fd_list_remove p w ≡ ok (tt, w'))
      × IsList w' (xs ++ (x, cx) ∷ (y, cy) ∷ ys)
      × (w'.fds p ≡ some (record c { prev = null; next = null }))
      × Changed w (xs ++ (x, cx) ∷ (p, c) ∷ (y, cy) ∷ ys) w'
  unfolding removed
  fd_list_remove-IsList = (
    removed,
    fd_list_remove-ok,
    (removed-Links, Distinct-drop xs x p cx c ((y, cy) ∷ ys) is.1),
    write_self h3 p _,
    record {
      same = λ a out.
          removed_other a (ground (arith, has-append a xs ((x, cx) ∷ (p, c) ∷ (y, cy) ∷ ys)))
            (ground (arith, has-append a xs ((x, cx) ∷ (p, c) ∷ (y, cy) ∷ ys)))
            (ground (arith, has-append a xs ((x, cx) ∷ (p, c) ∷ (y, cy) ∷ ys)));
      caches = refl;
      out = refl;
    },
  )
