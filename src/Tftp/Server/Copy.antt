-- ===== src/Tftp/Server/Copy.antt =====
-- The handlers from the request on: a refused request, and a file that one server reads out and
-- another takes in.
use ecen_602_projects.Common.{
  ℕ, zero, suc, ◌+◌, ◌/◌, ◌^◌, ◌<◌, ◌≡◌, refl, ap, ◌∙◌, sym, some, none, List, [], ◌∷◌, ◌++◌, arith,
  length, true, false, map, length-replicate,
}
use mathlib.Core.Path.{subst}
use ecen_602_projects.Memory.{ok}
use ecen_602_projects.Tftp.Opcode.{file_not_found, file_exists}
use ecen_602_projects.Tftp.Packet.{parse_trail_buf}
use ecen_602_projects.Tftp.File.{netascii, octet}
use ecen_602_projects.Tftp.File.Read.{encode, stream, NoEof}
use ecen_602_projects.Tftp.File.Write.{write_data_to_file-encode}
use ecen_602_projects.Tftp.Request.{Host, not_found, already_exists}
use ecen_602_projects.Tftp.Request.Reply.{Refusal, error_reply-Refusal}
use ecen_602_projects.Tftp.Session.{Event, arrival, returned, tftp_ok, tftp_fail}
use ecen_602_projects.Tftp.Rrq.{Trace, rrq_start, rrq_open, rrq_loop, rrq_handler}
use ecen_602_projects.Tftp.Rrq.Content.{Content, in_octet, in_netascii}
use ecen_602_projects.Tftp.Rrq.Rounds.{succ16}
use ecen_602_projects.Tftp.Rrq.Transfer.{blocks, acks, rrq_loop-acks}
use ecen_602_projects.Tftp.Wrq.{Saved, wrq_start, wrq_loop, wrq_handler}
use ecen_602_projects.Tftp.Wrq.Rounds.{ack_datagram}
use ecen_602_projects.Tftp.Wrq.Transfer.{Stores, octet-Stores, ack_datagrams, wrq_loop-blocks}

-- A read request for a file that is not there is answered by one error packet, which names it, and
-- the handler returns TFTP_FAIL.
pub rrq_handler-not_found :
    (host : Host) (buf filename mode : List ℕ) (events : List Event)
    → parse_trail_buf buf ≡ ok (filename, mode)
    → host.init_ok ≡ true
    → host.exists_file filename ≡ false
    → (r : Refusal file_not_found filename not_found) × (rrq_handler host buf events
        ≡ record { sent = r.reply ∷ []; ending = returned tftp_fail })
unfolding rrq_handler
rrq_handler-not_found host buf filename mode events parsed init absent =
    let r = error_reply-Refusal file_not_found filename not_found (omega arith) (omega arith) in
    (r, rw (parsed, init, absent, r.sent, rrq_handler))

-- A write request for a file that exists is answered by one error packet, which names it, and the
-- handler writes nothing and returns TFTP_FAIL.
pub wrq_handler-file_exists :
    (host : Host) (buf filename mode : List ℕ) (events : List Event)
    → parse_trail_buf buf ≡ ok (filename, mode)
    → host.init_ok ≡ true
    → host.exists_file filename ≡ true
    → (r : Refusal file_exists filename already_exists) × (wrq_handler host buf events
        ≡ record { sent = r.reply ∷ []; ending = returned tftp_fail; file = [] })
unfolding wrq_handler
wrq_handler-file_exists host buf filename mode events parsed init there =
    let r = error_reply-Refusal file_exists filename already_exists (omega arith) (omega arith) in
    (r, rw (parsed, init, there, r.sent, wrq_handler))

-- The host will read this file out for the request, or take it in.
pub record Offers (host : Host) (buf filename mode file : List ℕ) : Type 0 where
  pub parsed : parse_trail_buf buf ≡ ok (filename, mode)
  pub init : host.init_ok ≡ true
  pub there : host.exists_file filename ≡ true
  pub opens : host.open_read filename ≡ some file

pub record Accepts (host : Host) (buf filename mode : List ℕ) : Type 0 where
  pub parsed : parse_trail_buf buf ≡ ok (filename, mode)
  pub init : host.init_ok ≡ true
  pub absent : host.exists_file filename ≡ false
  pub opens : host.open_append filename ≡ true

pub rrq_handler-Offers :
    {host : Host} {buf filename mode file : List ℕ} (events : List Event)
    → Offers host buf filename mode file
    → rrq_handler host buf events ≡ rrq_loop (mode ++ host.behind_mode) (rrq_start file) events
unfolding rrq_handler rrq_open
rrq_handler-Offers events o = rw (o.parsed, o.init, o.there, o.opens, rrq_handler)

pub wrq_handler-Accepts :
    {host : Host} {buf filename mode : List ℕ} (events : List Event)
    → Accepts host buf filename mode
    → wrq_handler host buf events ≡ wrq_loop (mode ++ host.behind_mode) wrq_start events
unfolding wrq_handler
wrq_handler-Accepts events a = rw (a.parsed, a.init, a.absent, a.opens, wrq_handler)

-- The writer's acknowledgements are what the reader waits for, behind the one of the request.
ack_datagrams-acks :
    (k m : ℕ)
    → m + k + 1 < 2 ^ 16
    → map arrival (ack_datagrams k m) ≡ arrival (ack_datagram m) ∷ acks k (m + 1)
unfolding ack_datagrams acks
ack_datagrams-acks zero m h = refl
ack_datagrams-acks (suc k) m h =
    let next : m + 1 + 1 ≡ succ16 (m + 1) = omega arith in
    ap (λ l. arrival (ack_datagram m) ∷ l)
      (ack_datagrams-acks k (m + 1) (omega arith)
        ∙ ap (λ n. arrival (ack_datagram (m + 1)) ∷ acks k n) next)

-- The handler that reads the file out, given the acknowledgements of `k` whole blocks and a short
-- one, and the handler that takes in what the first one sends.
abbrev pub reading : Host → List ℕ → ℕ → Trace
reading host buf k = rrq_handler host buf (acks k 1)

abbrev pub writing : Host → List ℕ → Trace → Saved
writing host buf reader = wrq_handler host buf (map arrival reader.sent)

-- Both return TFTP_OK, the file is `out`, and the acknowledgements of the writer are those that the
-- reader was given, behind the one of the request.
pub record Copies (reader : Trace) (writer : Saved) (k : ℕ) (out : List ℕ) : Type 0 where
  pub read_ok : reader.ending ≡ returned tftp_ok
  pub write_ok : writer.ending ≡ returned tftp_ok
  pub saved : writer.file ≡ out
  pub closed : map arrival writer.sent ≡ arrival (ack_datagram 0) ∷ acks k 1

module _ {from to : Host} {buf buf' filename mode filename' mode' file : List ℕ}
    (offers : Offers from buf filename mode file) (accepts : Accepts to buf' filename' mode')
    (k : ℕ) (bytes out : List ℕ) (whole : length bytes / 512 ≡ k) (few : k + 1 < 2 ^ 16) where
  reader_lem :
      Content (mode ++ from.behind_mode) (record { file = file; nextchar = none }) bytes
      → reading from buf k ≡ record { sent = blocks k 1 bytes; ending = returned tftp_ok }
  reader_lem content =
      rrq_handler-Offers (acks k 1) offers
      ∙ rrq_loop-acks (mode ++ from.behind_mode) k (rrq_start file) bytes
          (record {
            send_size = length-replicate {A = ℕ} 516 0;
            recv_size = length-replicate {A = ℕ} 516 0;
            block = omega arith;
          })
          content whole

  writer_lem :
      Stores (mode' ++ to.behind_mode) k bytes out
      → wrq_handler to buf' (map arrival (blocks k 1 bytes))
        ≡ record { sent = ack_datagrams k 0; ending = returned tftp_ok; file = out }
  writer_lem stores =
      wrq_handler-Accepts (map arrival (blocks k 1 bytes)) accepts
      ∙ wrq_loop-blocks (mode' ++ to.behind_mode) k wrq_start bytes out
          (record {
            send_size = length-replicate {A = ℕ} 516 0;
            recv_size = length-replicate {A = ℕ} 516 0;
            block = omega arith;
          })
          refl whole (omega arith) stores

  pub copy_lem :
      Content (mode ++ from.behind_mode) (record { file = file; nextchar = none }) bytes
      → Stores (mode' ++ to.behind_mode) k bytes out
      → Copies (reading from buf k) (writing to buf' (reading from buf k)) k out
  copy_lem content stores =
      rw (reader_lem content, writer_lem stores)
        (record {
          read_ok = refl;
          write_ok = refl;
          saved = refl;
          closed = ack_datagrams-acks k 0 (omega arith);
        })

-- In the octet mode a file of less than 65535 blocks is copied as it is.
pub copy_octet :
    {from to : Host} {buf buf' filename mode filename' mode' file : List ℕ} (more more' : List ℕ)
    → Offers from buf filename mode file
    → Accepts to buf' filename' mode'
    → mode ++ from.behind_mode ≡ octet ++ 0 ∷ more
    → mode' ++ to.behind_mode ≡ octet ++ 0 ∷ more'
    → length file / 512 + 1 < 2 ^ 16
    → Copies
        (reading from buf (length file / 512))
        (writing to buf' (reading from buf (length file / 512)))
        (length file / 512)
        file
copy_octet {file} more more' offers accepts e e' few =
    copy_lem offers accepts (length file / 512) file file refl few (in_octet more e refl) (
      subst (λ m. Stores m (length file / 512) file file) (sym e')
        (octet-Stores more' (length file / 512) file))

-- In the netascii mode a file whose translation fits into one block is copied as it is, if none of
-- its bytes is 255.
pub copy_netascii :
    {from to : Host} {buf buf' filename mode filename' mode' file : List ℕ} (more more' : List ℕ)
    → Offers from buf filename mode file
    → Accepts to buf' filename' mode'
    → mode ++ from.behind_mode ≡ netascii ++ 0 ∷ more
    → mode' ++ to.behind_mode ≡ netascii ++ 0 ∷ more'
    → NoEof file
    → length (encode file) < 512
    → Copies (reading from buf 0) (writing to buf' (reading from buf 0)) 0 file
unfolding stream
copy_netascii {file} more more' offers accepts e e' plain short =
    copy_lem offers accepts 0 (encode file) file (omega arith) (omega arith)
      (in_netascii more e plain refl)
      (subst (λ m. Stores m 0 (encode file) file) (sym e')
        (λ rest. write_data_to_file-encode file rest more' plain))
