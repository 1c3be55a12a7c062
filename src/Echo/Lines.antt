-- ===== src/Echo/Lines.antt =====
-- Lines that come back.
use ecen_602_projects.Common.{
  ℕ, ◌+◌, ◌-◌, ◌<◌, ◌≡◌, refl, ap, ◌∙◌, sym, true, List, [], ◌∷◌, ◌++◌, arith, length, take, drop,
  map, ==_self, append_assoc, length-append, length-drop, length-take, take-append-drop,
}
use ecen_602_projects.Memory.{strcmp_arrays, Outcome, ok, ◌>>=◌, memcpy-front, slice-append, NoNul}
use ecen_602_projects.Sbcp.Clients.Names.{same, strcmp_arrays-same}
use ecen_602_projects.Echo.Defs.{
  received, disconnected, closed, echo_loop, read_line, writen, compare_reply, Verdict, matched,
}

abbrev pub Full : List (List ℕ) → Type 0
Full [] = Unit
Full (d ∷ ds) = (length d ≡ 99) × Full ds

-- Datagrams of 99 bytes are sent back in order, and the child ends when the client disconnects.
pub echo_loop-Full :
    (buf : List ℕ) (datagrams : List (List ℕ))
    → length buf ≡ 100
    → Full datagrams
    → echo_loop buf (map received datagrams ++ disconnected ∷ [])
      ≡ ok (record { sent = datagrams; ending = closed })
unfolding echo_loop
echo_loop-Full buf [] size full = refl
echo_loop-Full buf (d ∷ ds) size full = rw (
  memcpy-front buf d (let e = full.0 in omega arith),
  slice-append [] d (drop (length d) buf) 0 99 refl full.0,
  echo_loop-Full (d ++ drop (length d) buf) ds
      (let e = full.0 in
        omega (arith, length-append d (drop (length d) buf), length-drop (length d) buf))
      full.1,
)

same_self : (s : List ℕ) → same s s ≡ true
unfolding same
same_self [] = refl
same_self (c ∷ s) = rw (==_self c) (same_self s)

strcmp_arrays_front :
    (text front tail tail' : List ℕ)
    → NoNul text
    → strcmp_arrays ((text ++ 0 ∷ front) ++ tail) ((text ++ 0 ∷ front) ++ tail') ≡ ok true
strcmp_arrays_front text front tail tail' plain =
    rw (append_assoc text (0 ∷ front) tail, append_assoc text (0 ∷ front) tail')
      (strcmp_arrays-same text text (front ++ tail) (front ++ tail') plain plain
        ∙ ap ok (same_self text))

-- What one line comes to: the datagram, and what stands behind it in the buffer.
pub record LineOut (text buf : List ℕ) : Type 0 where
  pub datagram : List ℕ
  pub behind : List ℕ
  pub tail : List ℕ
  pub stored : read_line buf text ≡ ok (datagram ++ tail)
  pub written : writen (datagram ++ tail) ≡ ok datagram
  pub full : length datagram ≡ 99
  pub whole : length (datagram ++ tail) ≡ 100
  pub carries : datagram ≡ text ++ 0 ∷ behind
  -- The datagram as a reply matches.
  pub matches :
      (recvbuf : List ℕ)
      → length recvbuf ≡ 100
      → compare_reply (datagram ++ tail) recvbuf datagram ≡ ok matched

module _ (text buf : List ℕ) (plain : NoNul text) (short : length text < 99)
    (b : length buf ≡ 100) where
  abbrev pad : List ℕ
  pad = drop (length (text ++ 0 ∷ [])) buf

  abbrev line_front : List ℕ
  line_front = take (98 - length text) pad

  abbrev line_tail : List ℕ
  line_tail = drop (98 - length text) pad

  abbrev line_datagram : List ℕ
  line_datagram = text ++ 0 ∷ line_front

  one : length (text ++ 0 ∷ []) ≡ length text + 1
  one = length-append text (0 ∷ [])

  size : length line_datagram ≡ 99
  size = omega (
    arith,
    one,
    length-append text (0 ∷ line_front),
    length-take (98 - length text) pad,
    length-drop (length (text ++ 0 ∷ [])) buf,
  )

  line_stored : read_line buf text ≡ ok (line_datagram ++ line_tail)
  unfolding read_line
  line_stored =
      memcpy-front buf (text ++ 0 ∷ []) (omega (arith, one))
      ∙ ap ok (
          append_assoc text (0 ∷ []) pad
          ∙ (ap (λ l. text ++ 0 ∷ l) (sym (take-append-drop (98 - length text) pad))
              ∙ sym (append_assoc text (0 ∷ line_front) line_tail)))

  line_matches :
      (recvbuf : List ℕ)
      → length recvbuf ≡ 100
      → compare_reply (line_datagram ++ line_tail) recvbuf line_datagram ≡ ok matched
  unfolding compare_reply
  line_matches recvbuf r = rw (
    memcpy-front recvbuf line_datagram (omega (arith, size)),
    strcmp_arrays_front text line_front line_tail (drop (length line_datagram) recvbuf) plain,
  )

  pub line_out : LineOut text buf
  unfolding writen
  line_out = record {
    datagram = line_datagram;
    behind = line_front;
    tail = line_tail;
    stored = line_stored;
    written = slice-append [] line_datagram line_tail 0 99 refl size;
    full = size;
    carries = refl;
    whole = omega (
      arith,
      size,
      length-append line_datagram line_tail,
      one,
      length-drop (98 - length text) pad,
      length-drop (length (text ++ 0 ∷ [])) buf,
    );
    matches = line_matches;
  }

-- A line of at most 98 bytes without a NUL, sent to a server that answers with what it was sent,
-- comes back as a reply that matches, whatever the three buffers held.
pub compare_reply-echo_loop :
    (text buf recvbuf server_buf : List ℕ)
    → NoNul text
    → length text < 99
    → length buf ≡ 100
    → length recvbuf ≡ 100
    → length server_buf ≡ 100
    → (do
      text_buf ← read_line buf text
      datagram ← writen text_buf
      child ← echo_loop server_buf (received datagram ∷ disconnected ∷ [])
      (elim child.sent as (λ l. Outcome Verdict) [
        | [] ↦ ok Verdict.mismatch
        | reply ∷ more ↦ compare_reply text_buf recvbuf reply
      ]))
      ≡ ok matched
compare_reply-echo_loop text buf recvbuf server_buf plain short b r s =
    let line = line_out text buf plain short b in
    rw (
      line.stored,
      line.written,
      echo_loop-Full server_buf (line.datagram ∷ []) s (line.full, omega arith),
      line.matches recvbuf r,
    )
