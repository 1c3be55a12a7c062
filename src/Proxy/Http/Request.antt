-- ===== src/Proxy/Http/Request.antt =====
-- parse_request on a request as the client of the repository writes it.
use ecen_602_projects.Common.{
  ℕ, ◌+◌, ◌-◌, ◌≤◌, ◌<◌, ◌≡◌, refl, sym, ap, ◌∙◌, some, List, [], ◌∷◌, ◌++◌, arith, length, drop,
  length-append, append_assoc, append-nil, le→ltb-false,
}
use ecen_602_projects.Memory.{ok, NoNul-append, memcpy-front, slice, slice-append}
use ecen_602_projects.Proxy.Http.Defs.{
  HttpInfo, Scratch, strchr, strncpy, header_lines, parse_request,
}
use ecen_602_projects.Proxy.Http.Strings.{Without-append, Plain, padded_string-append}
use ecen_602_projects.Proxy.Http.Message.{
  message_memory, strchr-message_memory, header_lines-message_memory,
}
use ecen_602_projects.Proxy.Http.Line.{field}
use ecen_602_projects.Proxy.Http.Lines.{lines_of, NoNul-lines_of, request_lines-ok}

abbrev pub get_word : List ℕ
get_word = b'G' ∷ b'E' ∷ b'T' ∷ b' ' ∷ []

abbrev pub version_word : List ℕ
version_word = b' ' ∷ b'H' ∷ b'T' ∷ b'T' ∷ b'P' ∷ b'/' ∷ b'1' ∷ b'.' ∷ b'0' ∷ []

slice_behind :
    (front rest : List ℕ) (off : ℕ)
    → length front ≡ off
    → slice (front ++ rest) off (length (front ++ rest) - off) ≡ ok rest
slice_behind front rest off h =
    let e : length (front ++ rest) - off ≡ length rest = omega (arith, length-append front rest) in
    ap (slice (front ++ rest) off) e
    ∙ (ap (λ l. slice (front ++ l) off (length rest)) (sym (append-nil rest))
        ∙ slice-append front rest [] off (length rest) h refl)

abbrev pub first_line_of : List ℕ → List ℕ
first_line_of path = get_word ++ (path ++ version_word)

-- A request, its terminator, and the memory behind.
abbrev pub request_memory : (path host agent pad behind : List ℕ) → List ℕ
request_memory path host agent pad behind =
    message_memory (first_line_of path) (lines_of host agent) pad behind

module _ (path host agent pad behind : List ℕ) (p : Plain path) (h : Plain host)
    (k : Plain agent) where
  strchr-ok :
      strchr 13 (request_memory path host agent pad behind)
      ≡ ok (some (length (first_line_of path)))
  strchr-ok =
      strchr-message_memory (first_line_of path) (lines_of host agent) pad behind
        (NoNul-append get_word (path ++ version_word) (omega arith)
          (NoNul-append path version_word p.0 (omega arith)))
        (Without-append 13 get_word (path ++ version_word) (omega arith)
          (Without-append 13 path version_word p.1 (omega arith)))
        (NoNul-lines_of host agent h k)

  length-first_line_of : length (first_line_of path) ≡ length path + 13
  length-first_line_of = omega (arith, length-append path version_word)

  header_lines-ok :
      length (lines_of host agent) + 1 + length pad ≡ 1500
      → header_lines (request_memory path host agent pad behind) (length (first_line_of path))
        ≡ ok (lines_of host agent)
  header_lines-ok size =
      header_lines-message_memory (first_line_of path) (lines_of host agent) pad behind
        (NoNul-lines_of host agent h k) size

  path_memory : List ℕ
  path_memory = path ++ (version_word ++ 13 ∷ 10 ∷ (lines_of host agent ++ 0 ∷ (pad ++ behind)))

  src-ok :
      slice
        (request_memory path host agent pad behind)
        4
        (length (request_memory path host agent pad behind) - 4)
      ≡ ok path_memory
  unfolding path_memory
  src-ok =
      ap (λ m. slice (get_word ++ m) 4 (length (get_word ++ m) - 4))
        (append_assoc path version_word (13 ∷ 10 ∷ (lines_of host agent ++ 0 ∷ (pad ++ behind))))
      ∙ slice_behind get_word path_memory 4 refl

  path-ok :
      (dst : List ℕ)
      → length path ≤ length dst
      → strncpy dst path_memory (length (first_line_of path) - 13)
        ≡ ok (path ++ drop (length path) dst)
  unfolding strncpy path_memory
  path-ok dst fit =
      let n : length (first_line_of path) - 13 ≡ length path =
        omega (arith, length-first_line_of) in
      rw
        (
          n,
          padded_string-append path
              (version_word ++ 13 ∷ 10 ∷ (lines_of host agent ++ 0 ∷ (pad ++ behind))) p.0,
        )
        (memcpy-front dst path fit)

  -- The path, the host and the agent of a request stand in their fields, whatever malloc returns and
  -- whatever stands behind the request. The path has the terminator that its array has.
  pub parse_request-request_memory :
      (junk : ℕ → Scratch) (req : HttpInfo)
      → ((n : ℕ) → (length (junk n).key ≡ n) × (length (junk n).value ≡ n))
      → length (lines_of host agent) + 1 + length pad ≡ 1500
      → 6 ≤ length host
      → length path ≤ length req.path
      → length host < length req.host
      → length agent < length req.user_agent
      → parse_request junk (request_memory path host agent pad behind) req
        ≡ ok (record req {
          path = path ++ drop (length path) req.path;
          host = field host req.host;
          user_agent = field agent req.user_agent;
        })
  unfolding parse_request
  parse_request-request_memory junk req sizes size long path_fit host_fit agent_fit = rw (
    strchr-ok,
    le→ltb-false (length (first_line_of path)) 13 (omega (arith, length-first_line_of)),
    src-ok,
    path-ok req.path path_fit,
    header_lines-ok size,
    request_lines-ok (junk (length (lines_of host agent)))
        (record req { path = path ++ drop (length path) req.path }) host agent h k
        (sizes (length (lines_of host agent))).0 (sizes (length (lines_of host agent))).1 long
        host_fit agent_fit,
  )
