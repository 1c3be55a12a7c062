-- ===== src/Proxy/Http/Lines.antt =====
-- The header lines of a request as the client of the repository writes it.
use ecen_602_projects.Common.{
  ℕ, ◌+◌, ◌≤◌, ◌<◌, ◌≡◌, ap, List, [], ◌∷◌, ◌++◌, arith, length, length-append,
}
use ecen_602_projects.Memory.{ok, NoNul}
use ecen_602_projects.Proxy.Http.Defs.{
  HttpInfo, Scratch, skip_delimiters, tokens, cleared, is_delimiter, host_key, agent_key,
  request_lines,
}
use ecen_602_projects.Proxy.Http.Strings.{Plain, first_token_line}
use ecen_602_projects.Proxy.Http.Message.{AllPlain, Plain-line, tokens-lines_text, NoNul-lines_text}
use ecen_602_projects.Proxy.Http.Line.{
  line_of, IsLine, Split, field, request_line-host, request_line-agent,
}

-- The header lines, each with its end, and the empty line.
abbrev pub lines_of : List ℕ → List ℕ → List ℕ
lines_of host agent =
    line_of host_key host ++ 13 ∷ 10 ∷ (line_of agent_key agent ++ 13 ∷ 10 ∷ 13 ∷ 10 ∷ [])

pairs_of : List ℕ → List ℕ → List (List ℕ × List ℕ)
pairs_of host agent = (host_key, host) ∷ (agent_key, agent) ∷ []

lines_Plain : (host agent : List ℕ) → Plain host → Plain agent → AllPlain (pairs_of host agent)
unfolding pairs_of
lines_Plain host agent h k = (
  ((omega arith, omega arith, omega arith), h),
  (((omega arith, omega arith, omega arith), k), tt),
)

tokens-lines_of :
    (host agent : List ℕ)
    → Plain host
    → Plain agent
    → tokens (lines_of host agent) ≡ line_of host_key host ∷ line_of agent_key agent ∷ []
unfolding pairs_of tokens is_delimiter
tokens-lines_of host agent h k =
    tokens-lines_text (pairs_of host agent) (13 ∷ 10 ∷ []) (lines_Plain host agent h k)

cleared-lines_of :
    (host agent : List ℕ)
    → Plain host
    → cleared (lines_of host agent) ≡ length (line_of host_key host)
unfolding cleared skip_delimiters is_delimiter
cleared-lines_of host agent h = omega (
  arith,
  ap length (
      first_token_line (line_of host_key host)
        (10 ∷ (line_of agent_key agent ++ 13 ∷ 10 ∷ 13 ∷ 10 ∷ []))
        (Plain-line host_key host (omega arith, omega arith, omega arith) h)),
)

pub NoNul-lines_of : (host agent : List ℕ) → Plain host → Plain agent → NoNul (lines_of host agent)
unfolding pairs_of
NoNul-lines_of host agent h k =
    NoNul-lines_text (pairs_of host agent) (13 ∷ 10 ∷ []) (lines_Plain host agent h k)
      (omega arith, (omega arith, tt))

pub length-lines_of :
    (host agent : List ℕ) → length (lines_of host agent) ≡ length host + length agent + 24
length-lines_of host agent = omega (
  arith,
  length-append host (13 ∷ 10 ∷ (line_of agent_key agent ++ 13 ∷ 10 ∷ 13 ∷ 10 ∷ [])),
  length-append agent (13 ∷ 10 ∷ 13 ∷ 10 ∷ []),
)

module _ (s : Scratch) (req : HttpInfo) (host agent : List ℕ) (h : Plain host) (k : Plain agent)
    (key_size : length s.key ≡ length (lines_of host agent))
    (value_size : length s.value ≡ length (lines_of host agent)) (long : 6 ≤ length host)
    (host_fit : length host < length req.host)
    (agent_fit : length agent < length req.user_agent) where
  first-IsLine : IsLine (length (line_of host_key host)) s host_key host
  first-IsLine = record {
    name_plain = omega arith;
    text_plain = h.0;
    one_word = omega arith;
    short = omega arith;
    key_size = omega (arith, length-lines_of host agent);
    value_size = omega (arith, length-lines_of host agent);
    line_size = omega (arith, length-lines_of host agent);
  }

  second-IsLine :
      (s' : Scratch)
      → Split s host_key host s'
      → IsLine (length (line_of host_key host)) s' agent_key agent
  second-IsLine s' split =
      let a = split.key_length in
      let b = split.value_length in
      record {
        name_plain = omega arith;
        text_plain = k.0;
        one_word = omega arith;
        short = omega arith;
        key_size = omega (arith, length-lines_of host agent);
        value_size = omega (arith, length-lines_of host agent);
        line_size = omega (arith, length-lines_of host agent);
      }

  pub request_lines-ok :
      request_lines (cleared (lines_of host agent)) (tokens (lines_of host agent)) s req
      ≡ ok (record req { host = field host req.host; user_agent = field agent req.user_agent })
  unfolding request_lines
  request_lines-ok =
      let n : ℕ = length (line_of host_key host) in
      let (s1, run1, split) = request_line-host n s req host first-IsLine host_fit in
      let (s2, run2, _) =
        request_line-agent n s1 (record req { host = field host req.host }) agent
          (second-IsLine s1 split) agent_fit in
      rw (cleared-lines_of host agent h, tokens-lines_of host agent h k, run1, run2)
