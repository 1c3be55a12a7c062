-- ===== src/Proxy/Fds/Select.antt =====
-- Walks along the list of descriptors: what fd_select hands to select, and count_client.
use ecen_602_projects.Common.{
  ℕ, zero, suc, ◌+◌, ◌≤◌, ◌<◌, ◌≡◌, ◌≢◌, refl, Option, some, none, List, [], ◌∷◌, arith, ltb,
  Bool-cases, inl, inr, length, ne→==-false, ap, ◌∙◌, ◌++◌,
}
use ecen_602_projects.Memory.{ok, fail}
use ecen_602_projects.Proxy.Links.{Ptr, null, write, head_or, Distinct, Links}
use ecen_602_projects.Proxy.Heap.{
  NodeStatus, in_use, idle, reading, writing, fd_links, FdNode, client, World,
}
use ecen_602_projects.Proxy.Heap.Steps.{load_fd-ok, update_fd-ok, write_self}
use ecen_602_projects.Proxy.Fds.Defs.{
  FdList, larger_fd, max_from, get_max_fd, Interest, add_interest, interest_from, fd_select,
  count_from, count_client,
}
use ecen_602_projects.Proxy.Fds.Order.{Cells, IsList}

abbrev pub max_of : Cells → ℕ → ℕ
max_of [] fd_max = fd_max
max_of ((a, c) ∷ cells) fd_max = max_of cells (larger_fd c.fd fd_max)

max_from-max_of :
    (w : World) (fuel : ℕ) (prev : Ptr) (cells : Cells) (fd_max : ℕ)
    → Links fd_links w.fds prev cells null
    → Distinct cells
    → length cells < fuel
    → max_from fuel (head_or null cells) fd_max w ≡ ok (max_of cells fd_max, w)
unfolding max_from
max_from-max_of w zero prev cells fd_max s d enough = absurd (omega arith)
max_from-max_of w (suc fuel) prev [] fd_max s d enough = refl
max_from-max_of w (suc fuel) prev ((a, c) ∷ cells) fd_max s d enough = rw (
  ne→==-false a null d.0,
  load_fd-ok w a d.0 (record c { prev = prev; next = head_or null cells }) s.0,
  max_from-max_of w fuel a cells (larger_fd c.fd fd_max) s.1 d.2 (omega arith),
)

abbrev pub interest_of : Cells → Interest
interest_of [] = record { reads = []; writes = [] }
interest_of ((a, c) ∷ cells) = add_interest c c.status (interest_of cells)

add_interest-links :
    (c : FdNode) (p n : Ptr) (status : NodeStatus) (i : Interest)
    → add_interest (record c { prev = p; next = n }) status i ≡ add_interest c status i
add_interest-links c p n reading i = refl
add_interest-links c p n writing i = refl
add_interest-links c p n in_use i = refl
add_interest-links c p n idle i = refl

interest_from-interest_of :
    (w : World) (fuel : ℕ) (prev : Ptr) (cells : Cells)
    → Links fd_links w.fds prev cells null
    → Distinct cells
    → length cells < fuel
    → interest_from fuel (head_or null cells) w ≡ ok (interest_of cells, w)
unfolding interest_from
interest_from-interest_of w zero prev cells s d enough = absurd (omega arith)
interest_from-interest_of w (suc fuel) prev [] s d enough = refl
interest_from-interest_of w (suc fuel) prev ((a, c) ∷ cells) s d enough = rw (
  ne→==-false a null d.0,
  load_fd-ok w a d.0 (record c { prev = prev; next = head_or null cells }) s.0,
  interest_from-interest_of w fuel a cells s.1 d.2 (omega arith),
  add_interest-links c prev (head_or null cells) c.status (interest_of cells),
)

-- The descriptor of a node that is reading, and of one that is writing.
abbrev pub if_reading : NodeStatus → Option ℕ → List (Option ℕ)
if_reading reading fd = fd ∷ []
if_reading in_use fd = []
if_reading idle fd = []
if_reading writing fd = []

abbrev pub if_writing : NodeStatus → Option ℕ → List (Option ℕ)
if_writing writing fd = fd ∷ []
if_writing in_use fd = []
if_writing idle fd = []
if_writing reading fd = []

-- The descriptors of all nodes that are reading, and of all that are writing, in order.
abbrev pub readers : Cells → List (Option ℕ)
readers [] = []
readers ((a, c) ∷ cells) = if_reading c.status c.fd ++ readers cells

abbrev pub writers : Cells → List (Option ℕ)
writers [] = []
writers ((a, c) ∷ cells) = if_writing c.status c.fd ++ writers cells

add_interest_lem :
    (c : FdNode) (status : NodeStatus) (reads writes : List (Option ℕ))
    → add_interest c status (record { reads = reads; writes = writes }) ≡ record {
      reads = if_reading status c.fd ++ reads;
      writes = if_writing status c.fd ++ writes;
    }
add_interest_lem c reading reads writes = refl
add_interest_lem c writing reads writes = refl
add_interest_lem c in_use reads writes = refl
add_interest_lem c idle reads writes = refl

interest_of-readers :
    (cells : Cells) → interest_of cells ≡ record { reads = readers cells; writes = writers cells }
interest_of-readers [] = refl
interest_of-readers ((a, c) ∷ cells) =
    ap (add_interest c c.status) (interest_of-readers cells)
    ∙ add_interest_lem c c.status (readers cells) (writers cells)

-- Every descriptor of a set is below `n`.
abbrev pub Below : ℕ → List (Option ℕ) → Type 0
Below n [] = Unit
Below n (none ∷ fds) = Below n fds
Below n (some fd ∷ fds) = (fd < n) × Below n fds

larger_fd-start : (fd : Option ℕ) (m : ℕ) → m ≤ larger_fd fd m
larger_fd-start none m = omega arith
larger_fd-start (some fd) m = elim (Bool-cases (ltb m fd)) [
  | inl e ↦ rw e (ground arith)
  | inr e ↦ rw e (omega arith)
]

max_of-start : (cells : Cells) (m : ℕ) → m ≤ max_of cells m
max_of-start [] m = omega arith
max_of-start ((a, c) ∷ cells) m =
    omega (arith, larger_fd-start c.fd m, max_of-start cells (larger_fd c.fd m))

-- The descriptor is below `n`, if there is one.
abbrev Under : ℕ → Option ℕ → Type 0
Under n none = Unit
Under n (some fd) = fd < n

larger_fd-Under : (fd : Option ℕ) (m n : ℕ) → larger_fd fd m < n → Under n fd
larger_fd-Under none m n h = tt
larger_fd-Under (some fd) m n h = elim (Bool-cases (ltb m fd)) [
  | inl e ↦ rw e at h
  | inr e ↦ ground arith
]

Below-Under :
    (n : ℕ) (fd : Option ℕ) (fds : List (Option ℕ)) → Under n fd → Below n fds → Below n (fd ∷ fds)
Below-Under n none fds u h = h
Below-Under n (some fd) fds u h = (u, h)

add_interest-Below :
    (n : ℕ) (c : FdNode) (status : NodeStatus) (i : Interest)
    → Under n c.fd
    → Below n i.reads × Below n i.writes
    → Below n (add_interest c status i).reads × Below n (add_interest c status i).writes
add_interest-Below n c reading i u h = (Below-Under n c.fd i.reads u h.0, h.1)
add_interest-Below n c writing i u h = (h.0, Below-Under n c.fd i.writes u h.1)
add_interest-Below n c in_use i u h = h
add_interest-Below n c idle i u h = h

interest_of-Below :
    (cells : Cells) (m n : ℕ)
    → max_of cells m < n
    → Below n (interest_of cells).reads × Below n (interest_of cells).writes
interest_of-Below [] m n h = (tt, tt)
interest_of-Below ((a, c) ∷ cells) m n h =
    add_interest-Below n c c.status (interest_of cells)
      (larger_fd-Under c.fd m n (let e = max_of-start cells (larger_fd c.fd m) in omega arith))
      (interest_of-Below cells (larger_fd c.fd m) n h)

-- With fuel for one node more than the list has, fd_select asks to read from the descriptors of the
-- nodes that are reading and to write to those of the nodes that are writing, in the order of the list,
-- changes nothing, and the number that it gives to select is above all of them.
pub fd_select-interest_of :
    (w : World) (l : FdList) (cells : Cells) (fuel : ℕ)
    → IsList w cells
    → l.front ≡ head_or null cells
    → length cells < fuel
    → (nfds : ℕ) × (fd_select fuel l w
        ≡ ok ((record { reads = readers cells; writes = writers cells }, nfds), w))
      × Below nfds (readers cells)
      × Below nfds (writers cells)
unfolding fd_select get_max_fd
fd_select-interest_of w l cells fuel is front enough =
    let split = interest_of-readers cells in
    let below = interest_of-Below cells 0 (max_of cells 0 + 1) (omega arith) in
    (
      max_of cells 0 + 1,
      rw (
        front,
        interest_from-interest_of w fuel null cells is.0 is.1 enough,
        max_from-max_of w fuel null cells 0 is.0 is.1 enough,
        split,
      ),
      rw split at (below.0),
      rw split at (below.1),
    )

count_from-fail :
    (fuel : ℕ) (w : World) (p : Ptr) (c : FdNode) (count : ℕ)
    → p ≢ null
    → w.fds p ≡ some c
    → count_from fuel p count w ≡ fail
unfolding count_from
count_from-fail zero w p c count ne e = refl
count_from-fail (suc fuel) w p c count ne e =
    let d = record c { fd_type = client } in
    rw (ne→==-false p null ne, update_fd-ok w p ne c (λ f. record f { fd_type = client }) e)
      (count_from-fail fuel (record w { fds = write w.fds p (some d) }) p d (count + 1) ne
        (write_self w.fds p (some d)))

-- No number of steps is enough for count_client on a list with a node, as every list has its dummies.
pub count_client-fail :
    (w : World) (l : FdList) (c : FdNode) (fuel : ℕ)
    → l.front ≢ null
    → w.fds l.front ≡ some c
    → count_client fuel l w ≡ fail
unfolding count_client
count_client-fail w l c fuel ne e = count_from-fail fuel w l.front c 0 ne e
