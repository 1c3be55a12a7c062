-- ===== src/Tftp/Rrq/Transfer.antt =====
-- The whole read transfer: with every block acknowledged, with a timeout, and with ten of them.
use ecen_602_projects.Common.{
  ℕ, zero, suc, ◌/◌, ◌<◌, ◌≡◌, ap, ◌∙◌, sym, List, [], ◌∷◌, ◌++◌, arith, length, take, drop,
  length-drop, take_all, append-nil, take-append-drop, map,
}
use mathlib.Core.List.{flatten}
use ecen_602_projects.Tftp.Session.{Event, timeout, arrival, returned, tftp_ok}
use ecen_602_projects.Tftp.Rrq.Defs.{Rrq, rrq_loop, after}
use ecen_602_projects.Tftp.Rrq.Content.{Content, data_block}
use ecen_602_projects.Tftp.Rrq.Rounds.{IsReady, ack_datagram, succ16}
use ecen_602_projects.Tftp.Rrq.Steps.{
  acked, acked-IsReady, acked-Content, acked-block_num, last_round, full_round, timed_out,
  timed_out-IsReady, timed_out-Content, timed_out-block_num, timed_out_round,
}

-- The data packets of `bytes` in `k` whole blocks and a short one, numbered from `n` modulo 2^16.
unfoldable pub blocks : ℕ → ℕ → List ℕ → List (List ℕ)
blocks zero n bytes = data_block n bytes ∷ []
blocks (suc k) n bytes = data_block n bytes ∷ blocks k (succ16 n) (drop 512 bytes)

-- The acknowledgements of those blocks.
unfoldable pub acks : ℕ → ℕ → List Event
acks zero n = arrival (ack_datagram n) ∷ []
acks (suc k) n = arrival (ack_datagram n) ∷ acks k (succ16 n)

-- If every block is acknowledged, the handler sends the blocks of the content in order, under
-- consecutive numbers, and returns TFTP_OK behind the first short one.
pub rrq_loop-acks :
    (mode : List ℕ) (k : ℕ) (s : Rrq) (bytes : List ℕ)
    → IsReady s
    → Content mode s.reader bytes
    → length bytes / 512 ≡ k
    → rrq_loop mode s (acks k s.block_num)
      ≡ record { sent = blocks k s.block_num bytes; ending = returned tftp_ok }
unfolding blocks acks
rrq_loop-acks mode zero s bytes ready content e =
    last_round mode s bytes ready content (omega arith) []
rrq_loop-acks mode (suc k) s bytes ready content e =
    let n = acked-block_num mode s bytes ready content in
    let s' = acked mode s bytes ready content in
    full_round mode s bytes ready content (omega arith) (acks k (succ16 s.block_num))
    ∙ ap (after (data_block s.block_num bytes)) (
        ap (λ m. rrq_loop mode s' (acks k m)) (sym n)
        ∙ (rrq_loop-acks mode k s' (drop 512 bytes) (acked-IsReady mode s bytes ready content)
              (acked-Content mode s bytes ready content) (omega (arith, length-drop 512 bytes))
            ∙ ap (λ m. record { sent = blocks k m (drop 512 bytes); ending = returned tftp_ok }) n))

-- What the packets carry behind their headers is the content, all of it and in order.
pub flatten-blocks :
    (k n : ℕ) (bytes : List ℕ)
    → length bytes / 512 ≡ k
    → flatten (map (drop 4) (blocks k n bytes)) ≡ bytes
unfolding blocks flatten
flatten-blocks zero n bytes e = append-nil (take 512 bytes) ∙ take_all 512 bytes (omega arith)
flatten-blocks (suc k) n bytes e =
    ap (λ l. take 512 bytes ++ l)
      (flatten-blocks k (succ16 n) (drop 512 bytes) (omega (arith, length-drop 512 bytes)))
    ∙ take-append-drop 512 bytes

-- After a timeout the loop reads on: the number of the block that was not acknowledged goes out
-- with the next block. If all is acknowledged from there, the handler returns TFTP_OK, and the
-- client that missed the first packet has got the content less its first 512 bytes.
pub rrq_loop-timeout :
    (mode : List ℕ) (k : ℕ) (s : Rrq) (bytes : List ℕ)
    → IsReady s
    → Content mode s.reader bytes
    → s.timeout_counter < 9
    → length (drop 512 bytes) / 512 ≡ k
    → rrq_loop mode s (timeout ∷ acks k s.block_num) ≡ record {
      sent = data_block s.block_num bytes ∷ blocks k s.block_num (drop 512 bytes);
      ending = returned tftp_ok;
    }
rrq_loop-timeout mode k s bytes ready content few e =
    let n = timed_out-block_num mode s bytes ready content in
    let s' = timed_out mode s bytes ready content in
    timed_out_round mode s bytes ready content few (acks k s.block_num)
    ∙ ap (after (data_block s.block_num bytes)) (
        ap (λ m. rrq_loop mode s' (acks k m)) (sym n)
        ∙ (rrq_loop-acks mode k s' (drop 512 bytes) (timed_out-IsReady mode s bytes ready content)
              (timed_out-Content mode s bytes ready content) e
            ∙ ap (λ m. record { sent = blocks k m (drop 512 bytes); ending = returned tftp_ok }) n))
