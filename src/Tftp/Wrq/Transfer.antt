-- ===== src/Tftp/Wrq/Transfer.antt =====
-- The whole write transfer: blocks in order, a repeated block, and what goes wrong.
use ecen_602_projects.Common.{
  ℕ, zero, suc, ◌+◌, ◌/◌, ◌^◌, ◌≤◌, ◌<◌, ◌≡◌, refl, ap, ◌∙◌, sym, List, [], ◌∷◌, ◌++◌, arith, ltb,
  length, take, drop, length-take, length-drop, true, false, lt→ltb, le→ltb-false, take_all, none,
  map, append_assoc, take-append-drop,
}
use mathlib.Core.Path.{subst}
use ecen_602_projects.Memory.{ok, strcmp_eq, slice-append}
use ecen_602_projects.Tftp.File.{write_data_to_file, octet}
use ecen_602_projects.Tftp.Session.{Event, arrival, Ending, returned, waiting, tftp_ok, next, stop}
use ecen_602_projects.Tftp.Rrq.Rounds.{succ16}
use ecen_602_projects.Tftp.Rrq.Transfer.{blocks}
use ecen_602_projects.Tftp.Wrq.Defs.{Wrq, rests, after, wrq_receive, wrq_loop}
use ecen_602_projects.Tftp.Wrq.Rounds.{
  IsReady, ack_datagram, acked, wrq_send_lem, data_datagram, stored, receive-new, stored-IsReady,
}

-- In this mode the block is written as `out`, whatever lies behind it in the buffer.
abbrev pub WritesAs : List ℕ → List ℕ → List ℕ → Type 0
WritesAs mode block out =
    (rest : List ℕ) → write_data_to_file mode (block ++ rest) (length block) none ≡ ok out

-- `k` whole blocks and a short one are written as `out` together.
abbrev pub Stores : List ℕ → ℕ → List ℕ → List ℕ → Type 0
Stores mode zero bytes out = WritesAs mode bytes out
Stores mode (suc k) bytes out =
    (first : List ℕ) × (later : List ℕ) × WritesAs mode (take 512 bytes) first
    × Stores mode k (drop 512 bytes) later
    × (out ≡ first ++ later)

octet-WritesAs : (more block : List ℕ) → WritesAs (octet ++ 0 ∷ more) block block
unfolding write_data_to_file strcmp_eq
octet-WritesAs more block rest = slice-append [] block rest 0 (length block) refl refl

-- In the octet mode every block is written as it is.
pub octet-Stores :
    (more : List ℕ) (k : ℕ) (bytes : List ℕ) → Stores (octet ++ 0 ∷ more) k bytes bytes
octet-Stores more zero bytes = octet-WritesAs more bytes
octet-Stores more (suc k) bytes = (
  take 512 bytes,
  drop 512 bytes,
  octet-WritesAs more (take 512 bytes),
  octet-Stores more k (drop 512 bytes),
  sym (take-append-drop 512 bytes),
)

-- The acknowledgements from `m` on: one before each of the blocks, and one behind the last.
unfoldable pub ack_datagrams : ℕ → ℕ → List (List ℕ)
ack_datagrams zero m = ack_datagram m ∷ ack_datagram (m + 1) ∷ []
ack_datagrams (suc k) m = ack_datagram m ∷ ack_datagrams k (m + 1)

module _ (mode : List ℕ) (s : Wrq) (ready : IsReady s) where
  pub wrq_loop-next :
      {s' : Wrq} (e : Event) (es : List Event)
      → s.eof ≡ false
      → wrq_receive mode (acked s) e ≡ next s'
      → wrq_loop mode s (e ∷ es) ≡ after (ack_datagram s.block_num) (wrq_loop mode s' es)
  unfolding wrq_loop
  wrq_loop-next e es open_end r = rw (wrq_send_lem s ready, open_end, r, wrq_loop)

  pub wrq_loop-end :
      s.eof ≡ true
      → wrq_loop mode s [] ≡ after (ack_datagram s.block_num) (rests s (returned tftp_ok))
  unfolding wrq_loop
  wrq_loop-end closed = rw (wrq_send_lem s ready, closed, wrq_loop)

  pub wrq_loop-wait :
      s.eof ≡ false → wrq_loop mode s [] ≡ after (ack_datagram s.block_num) (rests s waiting)
  unfolding wrq_loop
  wrq_loop-wait open_end = rw (wrq_send_lem s ready, open_end, wrq_loop)

  pub wrq_loop-stop :
      {end : Ending} (e : Event) (es : List Event)
      → s.eof ≡ false
      → wrq_receive mode (acked s) e ≡ stop end
      → wrq_loop mode s (e ∷ es) ≡ after (ack_datagram s.block_num) (rests s end)
  unfolding wrq_loop
  wrq_loop-stop e es open_end r = rw (wrq_send_lem s ready, open_end, r, wrq_loop)

module _ (mode : List ℕ) (s : Wrq) (ready : IsReady s) (bytes written : List ℕ)
    (room : s.block_num + 1 < 2 ^ 16) where
  short_block : length (take 512 bytes) ≤ 512
  short_block = omega (arith, length-take 512 bytes)

  -- The round of the next block.
  new_round :
      WritesAs mode (take 512 bytes) written
      → wrq_receive mode (acked s) (arrival (data_datagram (s.block_num + 1) (take 512 bytes)))
        ≡ next (stored (acked s) (s.block_num + 1) (take 512 bytes) written)
  new_round w =
      receive-new mode (acked s) (s.block_num + 1) (take 512 bytes) ready.recv_size room short_block
        written (omega arith) (w _)

  new_round-IsReady : IsReady (stored (acked s) (s.block_num + 1) (take 512 bytes) written)
  new_round-IsReady =
      stored-IsReady mode (acked s) (s.block_num + 1) (take 512 bytes) ready.recv_size room
        short_block
        (record {
          send_size = let h = ready.send_size in omega (arith, length-drop 4 s.buf_send);
          recv_size = ready.recv_size;
          block = ready.block;
        })
        written

-- Blocks that arrive in order, numbered on from the current one, are all written and acknowledged
-- one by one, and the handler returns TFTP_OK behind the first short one.
pub wrq_loop-blocks :
    (mode : List ℕ) (k : ℕ) (s : Wrq) (bytes out : List ℕ)
    → IsReady s
    → s.eof ≡ false
    → length bytes / 512 ≡ k
    → s.block_num + k + 1 < 2 ^ 16
    → Stores mode k bytes out
    → wrq_loop mode s (map arrival (blocks k (s.block_num + 1) bytes)) ≡ record {
      sent = ack_datagrams k s.block_num;
      ending = returned tftp_ok;
      file = s.file ++ out;
    }
unfolding blocks ack_datagrams
wrq_loop-blocks mode zero s bytes out ready open_end e room stores =
    let n = s.block_num + 1 in
    let all : take 512 bytes ≡ bytes = take_all 512 bytes (omega arith) in
    let w : WritesAs mode (take 512 bytes) out =
      subst (λ l. WritesAs mode l out) (sym all) stores in
    let short : ltb (length (take 512 bytes)) 512 ≡ true =
      lt→ltb (length (take 512 bytes)) 512 (omega (arith, length-take 512 bytes)) in
    wrq_loop-next mode s ready (arrival (data_datagram n (take 512 bytes))) [] open_end
      (new_round mode s ready bytes out (omega arith) w)
    ∙ ap (after (ack_datagram s.block_num)) (
        wrq_loop-end mode (stored (acked s) n (take 512 bytes) out)
          (new_round-IsReady mode s ready bytes out (omega arith)) (rw short))
wrq_loop-blocks mode (suc k) s bytes out ready open_end e room (first, later, w, rest, cut) =
    let n = s.block_num + 1 in
    let s' : Wrq = stored (acked s) n (take 512 bytes) first in
    let full : ltb (length (take 512 bytes)) 512 ≡ false =
      le→ltb-false (length (take 512 bytes)) 512 (omega (arith, length-take 512 bytes)) in
    let count : succ16 n ≡ n + 1 = omega arith in
    wrq_loop-next mode s ready (arrival (data_datagram n (take 512 bytes)))
      (map arrival (blocks k (succ16 n) (drop 512 bytes))) open_end
      (new_round mode s ready bytes first (omega arith) w)
    ∙ ap (after (ack_datagram s.block_num)) (
        ap (λ m. wrq_loop mode s' (map arrival (blocks k m (drop 512 bytes)))) count
        ∙ (wrq_loop-blocks mode k s' (drop 512 bytes) later
              (new_round-IsReady mode s ready bytes first (omega arith)) (rw (full, open_end))
              (omega (arith, length-drop 512 bytes)) (omega arith) rest
            ∙ ap (λ f. record { sent = ack_datagrams k n; ending = returned tftp_ok; file = f })
                (append_assoc s.file first later ∙ ap (λ l. s.file ++ l) (sym cut))))
