-- ===== src/HttpClient/Answer.antt =====
-- The answer that the client writes to its file, from its first bytes to the last call of recv.
use mathlib.Core.List.{flatten}
use ecen_602_projects.Common.{
  ℕ, ◌+◌, ◌-◌, ◌≤◌, ◌<◌, ◌≡◌, ap, ◌∙◌, true, List, ◌∷◌, ◌++◌, arith, length, take, drop, replicate,
  length-append, length-replicate, ne→==-false,
}
use ecen_602_projects.Memory.{ok, NoNul, NoNul-append}
use ecen_602_projects.Proxy.Http.{HttpInfo, Scratch, empty_info, parse_response}
use ecen_602_projects.Proxy.Http.Strings.{Without-append, Plain}
use ecen_602_projects.Proxy.Http.Line.{line_of}
use ecen_602_projects.Proxy.Http.Message.{AllPlain}
use ecen_602_projects.Proxy.Http.Fields.{AllHeaders, Sized, store_lines}
use ecen_602_projects.Proxy.Http.BodyLines.{BodyLines}
use ecen_602_projects.Proxy.Http.Response.{answer_text, parse_response-store_lines}
use ecen_602_projects.HttpClient.Defs.{copy_body}
use ecen_602_projects.HttpClient.Receive.{pos, atoi, received, receive_body, receive_answer}
use ecen_602_projects.HttpClient.Body.{Open, copy_body-take, take_behind}
use ecen_602_projects.HttpClient.Blank.{received-message_memory, blank_at-received, first_part-body}

-- The fields of the answer: the status of its first line, and the values of its header lines.
abbrev pub info_of : (status : List ℕ) (ls : List (List ℕ × List ℕ)) → HttpInfo
info_of status ls =
    store_lines ls (record empty_info { status = status ++ drop (length status) empty_info.status })

empty-Sized : Sized empty_info
unfolding empty_info
empty-Sized =
    let z : ℕ = 0 in record { content_length = length-replicate 10 z; date = length-replicate 30 z }

-- An answer whose first call of recv gives the whole header.
module _ (version status name text : List ℕ) (ls extra : List (List ℕ × List ℕ))
    (body : List ℕ) where
  abbrev pub first_bytes : List ℕ
  first_bytes = (version ++ status) ++ 13 ∷ 10 ∷ answer_text ((name, text) ∷ ls) body

  -- The header and the lines of the body as parse_response wants them, with less than 1500 bytes in all.
  pub record IsAnswer : Type 0 where
    pub version_length : length version ≡ 9
    pub version_plain : Plain version
    pub status_plain : Plain status
    pub status_fits : length status ≤ 20
    pub lines_plain : AllPlain ((name, text) ∷ ls)
    pub headers : AllHeaders (length (line_of name text)) ((name, text) ∷ ls)
    pub body_plain : NoNul body
    pub lines : BodyLines (length (line_of name text)) body extra
    pub small : length first_bytes < 1500

  line-Plain : Plain version → Plain status → Plain (version ++ status)
  line-Plain v t = (
    NoNul-append version status v.0 t.0,
    Without-append 13 version status v.1 t.1,
    Without-append 10 version status v.2 t.2,
  )

  parse-received :
      (junk : ℕ → Scratch) (near far : List ℕ)
      → IsAnswer
      → ((n : ℕ) → (length (junk n).key ≡ n) × (length (junk n).value ≡ n))
      → length near ≡ length (version ++ status) + 2
      → parse_response junk (received first_bytes (near ++ far)) empty_info
        ≡ ok (info_of status (((name, text) ∷ ls) ++ extra))
  unfolding empty_info
  parse-received junk near far is sizes size =
      let pad = replicate (1500 - length first_bytes - 1) 0 ++ near in
      let z : ℕ = 0 in
      let whole = answer_text ((name, text) ∷ ls) body in
      let small = is.small in
      ap (λ m. parse_response junk m empty_info)
        (received-message_memory (version ++ status) whole near far small)
      ∙ parse_response-store_lines version status name text ls extra body pad far junk empty_info
          is.version_length is.version_plain is.status_plain (omega (arith, length-replicate 20 z))
          is.lines_plain is.headers is.body_plain is.lines sizes
          (omega (
            arith,
            length-append (replicate (1500 - length first_bytes - 1) z) near,
            length-replicate (1500 - length first_bytes - 1) z,
            length-append (version ++ status) (13 ∷ 10 ∷ whole),
          ))
          empty-Sized

  -- The client writes as many bytes of the body as the Content-Length names, in order and none twice, from
  -- the bytes behind the header and from all later calls of recv, however recv cuts them; what follows them
  -- is left. The connection is open, and the bytes behind the header are not more than the body.
  pub receive_answer-take :
      (junk : ℕ → Scratch) (near far : List ℕ) (n : ℕ) (more : List (List ℕ))
      → IsAnswer
      → ((m : ℕ) → (length (junk m).key ≡ m) × (length (junk m).value ≡ m))
      → length near ≡ length (version ++ status) + 2
      → atoi (info_of status (((name, text) ∷ ls) ++ extra)).content_length ≡ ok (pos n)
      → length body ≤ n
      → Open more
      → receive_answer true junk (near ++ far) (first_bytes ∷ more)
        ≡ ok (take n (body ++ flatten more), (copy_body n (length body) more).1)
  unfolding receive_answer receive_body
  receive_answer-take junk near far n more is sizes size number le o =
      let line = version ++ status in
      let headers = (name, text) ∷ ls in
      rw (
        ne→==-false (length first_bytes) 0
            (omega (arith, length-append line (13 ∷ 10 ∷ answer_text headers body))),
        parse-received junk near far is sizes size,
        number,
        blank_at-received line headers body (near ++ far)
            (line-Plain is.version_plain is.status_plain) is.lines_plain is.body_plain is.small,
        first_part-body line headers body (near ++ far),
        copy_body-take n (length body) more o le,
        take_behind n (n - length body) body (flatten more) (omega arith),
      )
