-- ===== src/Echo/Session.antt =====
-- The client and the child of the server over a whole input.
use ecen_602_projects.Common.{
  ℕ, ◌<◌, ◌≡◌, refl, true, List, [], ◌∷◌, ◌++◌, Option, some, arith, length, drop, map,
  length-append, length-drop,
}
use ecen_602_projects.Memory.{ok, NoNul, memcpy-front}
use ecen_602_projects.Socket.{Address, closed}
use ecen_602_projects.Echo.Defs.{
  received, disconnected, Ending, echo_loop, Exchange, finished, client_loop,
}
use ecen_602_projects.Echo.Lines.{Full, line_out, echo_loop-Full}
use ecen_602_projects.Echo.Sockets.{server_lookup_connect, client_main}

-- Lines as fgets stores them, without a NUL.
abbrev pub Lines : List (List ℕ) → Type 0
Lines [] = Unit
Lines (t ∷ ts) = (NoNul t × (length t < 99)) × Lines ts

-- A datagram for each line, in order: the line, a NUL and whatever else, 99 bytes in all.
abbrev pub Carries : List (List ℕ) → List (List ℕ) → Type 0
Carries [] [] = Unit
Carries [] (d ∷ ds) = ⊥
Carries (t ∷ ts) [] = ⊥
Carries (t ∷ ts) (d ∷ ds) =
    ((behind : List ℕ) × (d ≡ t ++ 0 ∷ behind) × (length d ≡ 99)) × Carries ts ds

-- Every call of send works, and the replies come in order.
abbrev pub answered : List (List ℕ) → List (List ℕ) → List Exchange
answered [] ds = []
answered (t ∷ ts) [] = []
answered (t ∷ ts) (d ∷ ds) = record { text = t; sends = true; reply = some d } ∷ answered ts ds

-- What the client sends for the lines.
pub record Sent (buf recvbuf : List ℕ) (texts : List (List ℕ)) : Type 0 where
  pub datagrams : List (List ℕ)
  pub full : Full datagrams
  pub all : Carries texts datagrams
  pub run :
      client_loop buf recvbuf (answered texts datagrams)
      ≡ ok (record { sent = datagrams; ending = finished })

client_loop-Sent :
    (buf recvbuf : List ℕ) (texts : List (List ℕ))
    → length buf ≡ 100
    → length recvbuf ≡ 100
    → Lines texts
    → Sent buf recvbuf texts
unfolding client_loop
client_loop-Sent buf recvbuf [] b r lines = record {
  datagrams = [];
  full = tt;
  all = tt;
  run = refl;
}
client_loop-Sent buf recvbuf (t ∷ ts) b r lines =
    let line = line_out t buf lines.0.0 lines.0.1 b in
    let left = drop (length line.datagram) recvbuf in
    let few = line.full in
    let rest =
      client_loop-Sent (line.datagram ++ line.tail) (line.datagram ++ left) ts line.whole
        (omega
          (arith, length-append line.datagram left, length-drop (length line.datagram) recvbuf))
        lines.1 in
    record {
      datagrams = line.datagram ∷ rest.datagrams;
      full = (line.full, rest.full);
      all = ((line.behind, line.carries, line.full), rest.all);
      run = rw (
        line.stored,
        line.written,
        line.matches recvbuf r,
        memcpy-front recvbuf line.datagram (omega arith),
        rest.run,
      );
    }

-- Whatever the three buffers held: lines of at most 98 bytes with no NUL go out in order, each as one
-- datagram of 99 bytes that starts with the line and a NUL, to the descriptor of server_lookup_connect; the child of the server sends just these
-- back, and with them as replies the client accepts each, goes on to the end and closes the descriptor.
pub client_main-echo_loop :
    (found : Option (List Address)) (buf recvbuf server_buf : List ℕ) (texts : List (List ℕ))
    → length buf ≡ 100
    → length recvbuf ≡ 100
    → length server_buf ≡ 100
    → Lines texts
    → (ds : List (List ℕ)) × Carries texts ds
      × (echo_loop server_buf (map received ds ++ disconnected ∷ [])
          ≡ ok (record { sent = ds; ending = Ending.closed }))
      × (client_main found buf recvbuf (answered texts ds)
          ≡ ok (record {
            calls =
                (server_lookup_connect found).calls
                ++ closed (server_lookup_connect found).result ∷ [];
            fd = (server_lookup_connect found).result;
            client = record { sent = ds; ending = finished };
          }))
unfolding client_main
client_main-echo_loop found buf recvbuf server_buf texts b r s lines =
    let out = client_loop-Sent buf recvbuf texts b r lines in
    (out.datagrams, out.all, echo_loop-Full server_buf out.datagrams s out.full, rw out.run)
