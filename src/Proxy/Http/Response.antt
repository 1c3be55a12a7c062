-- ===== src/Proxy/Http/Response.antt =====
-- parse_response on an answer with any header lines.
use ecen_602_projects.Common.{
  ℕ, ◌+◌, ◌-◌, ◌≤◌, ◌≡◌, refl, ap, List, [], ◌∷◌, ◌++◌, arith, length, drop, length-append,
  append_assoc, le→ltb-false,
}
use ecen_602_projects.Memory.{ok, NoNul, NoNul-append, memcpy-front, slice-append}
use ecen_602_projects.Proxy.Http.Defs.{
  HttpInfo, Scratch, tokens, cleared, skip_delimiters, is_delimiter, parse_response,
}
use ecen_602_projects.Proxy.Http.Strings.{Without-append, Plain, Plain_delimiter, first_token_line}
use ecen_602_projects.Proxy.Http.Message.{
  message_memory, strchr-message_memory, header_lines-message_memory, lines_text, AllPlain,
  Plain-line, tokens-lines_text, NoNul-lines_text,
}
use ecen_602_projects.Proxy.Http.BodyLines.{line_length, BodyLines, response_lines-BodyLines}
use ecen_602_projects.Proxy.Http.Line.{line_of}
use ecen_602_projects.Proxy.Http.Fields.{store_lines, AllHeaders, Sized}

cleared-line_of :
    (name text rest : List ℕ)
    → Plain (line_of name text)
    → cleared (line_of name text ++ 13 ∷ rest) ≡ length (line_of name text)
unfolding cleared skip_delimiters
cleared-line_of [] text rest h =
    rw (Plain_delimiter b' ' h.1.0 h.2.0)
      (omega (arith, ap length (first_token_line (b' ' ∷ text) rest h)))
cleared-line_of (c ∷ name) text rest h =
    rw (Plain_delimiter c h.1.0 h.2.0)
      (omega (arith, ap length (first_token_line (line_of (c ∷ name) text) rest h)))

abbrev pub answer_text : List (List ℕ × List ℕ) → List ℕ → List ℕ
answer_text ls body = lines_text ls (13 ∷ 10 ∷ body)

tokens_body : (body : List ℕ) → tokens (13 ∷ 10 ∷ body) ≡ tokens body
unfolding tokens is_delimiter
tokens_body [] = refl
tokens_body (d ∷ s) = refl

-- An answer with a version of nine bytes, a status that fits, header lines, and a body without a NUL,
-- less than 1500 bytes in all. Where no name of a line is as long as the first header line and every
-- Content-Length and Date fits, the status and the values of Content-Length and Date stand in their
-- fields, a later line with the same name over an earlier one, and nothing else changes, whatever malloc
-- returns and whatever stands behind the answer. The lines are those of the header and, behind them,
-- those of the body up to its first line without a space, with the same conditions.
pub parse_response-store_lines :
    (version status : List ℕ) (name text : List ℕ) (ls extra : List (List ℕ × List ℕ))
    (body pad behind : List ℕ) (junk : ℕ → Scratch) (res : HttpInfo)
    → length version ≡ 9
    → Plain version
    → Plain status
    → length status ≤ length res.status
    → AllPlain ((name, text) ∷ ls)
    → AllHeaders (length (line_of name text)) ((name, text) ∷ ls)
    → NoNul body
    → BodyLines (length (line_of name text)) body extra
    → ((n : ℕ) → (length (junk n).key ≡ n) × (length (junk n).value ≡ n))
    → length (answer_text ((name, text) ∷ ls) body) + 1 + length pad ≡ 1500
    → Sized res
    → parse_response junk
        (message_memory (version ++ status) (answer_text ((name, text) ∷ ls) body) pad behind)
        res
      ≡ ok (
          store_lines
            (((name, text) ∷ ls) ++ extra)
            (record res { status = status ++ drop (length status) res.status }))
unfolding parse_response
parse_response-store_lines version status name text ls extra body pad behind junk res nine v st
      status_fits plain headers body_plain lines sizes size sized =
    let whole = answer_text ((name, text) ∷ ls) body in
    let whole_plain : NoNul whole =
      NoNul-lines_text ((name, text) ∷ ls) (13 ∷ 10 ∷ body) plain
        (omega arith, (omega arith, body_plain)) in
    let first : length (version ++ status) ≡ 9 + length status =
      omega (arith, length-append version status) in
    let left : length (version ++ status) - 9 ≡ length status = omega arith in
    let one = line_length name text ls (13 ∷ 10 ∷ body) (length whole) (omega arith) in
    rw
      (
        strchr-message_memory (version ++ status) whole pad behind
            (NoNul-append version status v.0 st.0) (Without-append 13 version status v.1 st.1)
            whole_plain,
        le→ltb-false (length (version ++ status)) 9 (omega arith),
        left,
        append_assoc version status (13 ∷ 10 ∷ (whole ++ 0 ∷ (pad ++ behind))),
        slice-append version status (13 ∷ 10 ∷ (whole ++ 0 ∷ (pad ++ behind))) 9 (length status)
            nine refl,
        memcpy-front res.status status status_fits,
        ← append_assoc version status (13 ∷ 10 ∷ (whole ++ 0 ∷ (pad ++ behind))),
        header_lines-message_memory (version ++ status) whole pad behind whole_plain size,
        cleared-line_of name text (10 ∷ lines_text ls (13 ∷ 10 ∷ body))
            (Plain-line name text plain.0.0 plain.0.1),
        tokens-lines_text ((name, text) ∷ ls) (13 ∷ 10 ∷ body) plain,
        tokens_body body,
      )
      (response_lines-BodyLines (length (line_of name text)) (length whole) ((name, text) ∷ ls)
        extra body (junk (length whole))
        (record res { status = status ++ drop (length status) res.status }) one.0
        (sizes (length whole)).0 (sizes (length whole)).1 (omega arith) plain headers
        (record { content_length = sized.content_length; date = sized.date }) lines)
