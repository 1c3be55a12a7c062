-- ===== src/Proxy/Tests/Answers.antt =====
-- The theorems about answers, sockets and walks along the descriptors at concrete inputs.
use ecen_602_projects.Common.{
  length-replicate, drop, ℕ, ◌≡◌, refl, true, false, some, List, [], ◌∷◌, ◌++◌, arith, replicate,
}
use ecen_602_projects.Memory.{ok}
use ecen_602_projects.Socket.{Address}
use ecen_602_projects.Socket.Held.{Attached}
use ecen_602_projects.Proxy.Http.{
  parse_response, empty_info, length_key, date_key, tokens, is_delimiter, add_front,
}
use ecen_602_projects.Proxy.Http.Message.{message_memory}
use ecen_602_projects.Proxy.Http.Fields.{store_lines, Sized}
use ecen_602_projects.Proxy.Http.Response.{answer_text, parse_response-store_lines}
use ecen_602_projects.Proxy.Fds.{fd_select}
use ecen_602_projects.Proxy.Fds.Select.{Below, fd_select-interest_of}
use ecen_602_projects.Proxy.Heap.{World}
use ecen_602_projects.Proxy.Handlers.{listen_fd_handler}
use ecen_602_projects.Proxy.Handlers.Accept.{client_node, Accepted, listen_fd_handler-Accepted}
use ecen_602_projects.Proxy.Sockets.{server_lookup_connect, server_lookup_connect-Attached}
use ecen_602_projects.Proxy.Tests.Setup.{
  world, reader, writer, around, around-IsList, list, edge, ones, ones-length,
}

abbrev version : List ℕ
version = b'H' ∷ b'T' ∷ b'T' ∷ b'P' ∷ b'/' ∷ b'1' ∷ b'.' ∷ b'1' ∷ b' ' ∷ []

abbrev status : List ℕ
status = b'2' ∷ b'0' ∷ b'0' ∷ []

abbrev three : List ℕ
three = b'3' ∷ []

-- A body whose only line reads like a header line.
abbrev date_line : List ℕ
date_line = date_key ++ b' ' ∷ b'x' ∷ []

empty-Sized : Sized empty_info
unfolding empty_info
empty-Sized =
    let z : ℕ = 0 in record { content_length = length-replicate 10 z; date = length-replicate 30 z }

parse_response-store_lines_example :
    parse_response ones
      (message_memory
        (version ++ status)
        (answer_text ((length_key, three) ∷ []) date_line)
        (replicate 1471 0)
        [])
      empty_info
    ≡ ok (
        store_lines
          ((length_key, three) ∷ (date_key, b'x' ∷ []) ∷ [])
          (record empty_info { status = status ++ drop 3 empty_info.status }))
unfolding tokens is_delimiter add_front empty_info
parse_response-store_lines_example =
    let z : ℕ = 0 in
    parse_response-store_lines version status length_key three [] ((date_key, b'x' ∷ []) ∷ [])
      date_line (replicate 1471 0) [] ones empty_info refl (omega arith, omega arith, omega arith)
      (omega arith, omega arith, omega arith) (omega (arith, length-replicate 20 z))
      (((omega arith, omega arith, omega arith), (omega arith, omega arith, omega arith)), tt)
      (
        record {
          one_word = omega arith;
          short = omega arith;
          length_fits = λ e. omega arith;
          date_fits = λ e. omega arith;
        },
        tt,
      )
      (omega arith)
      (record {
        stop = [];
        cut = refl;
        plain = (
          ((omega arith, omega arith, omega arith), (omega arith, omega arith, omega arith)),
          tt,
        );
        headers = (
          record {
            one_word = omega arith;
            short = omega arith;
            length_fits = λ e. omega arith;
            date_fits = λ e. omega arith;
          },
          tt,
        );
        stops = tt;
      })
      ones-length (omega (arith, length-replicate 1471 z)) empty-Sized

-- An address that cannot be reached, and one that can.
abbrev addresses : List Address
addresses =
    record { fd = some 3; configured = true; attached = false }
    ∷ record { fd = some 4; configured = true; attached = true }
    ∷ []

server_lookup_connect-Attached_example :
    Attached addresses
      (server_lookup_connect (some addresses)).result
      (server_lookup_connect (some addresses)).calls
server_lookup_connect-Attached_example = server_lookup_connect-Attached (some addresses)

fd_select-interest_of_example :
    (nfds : ℕ) × (fd_select 4 list (world reader writer)
      ≡ ok ((record { reads = some 7 ∷ []; writes = [] }, nfds), world reader writer))
    × Below nfds (some 7 ∷ [])
    × Below nfds []
fd_select-interest_of_example =
    fd_select-interest_of (world reader writer) list (around reader) 4 (around-IsList reader writer)
      refl (omega arith)

listen_fd_handler-Accepted_example :
    (w' : World) × (listen_fd_handler list (some 9) (world reader writer) ≡ ok (true, w'))
    × Accepted
        (world reader writer)
        ((4, edge) ∷ (5, reader) ∷ (11, client_node 9 10) ∷ (6, edge) ∷ [])
        w'
listen_fd_handler-Accepted_example =
    listen_fd_handler-Accepted (world reader writer) list ((4, edge) ∷ []) 5 6 reader edge 9
      (around-IsList reader writer) refl refl
