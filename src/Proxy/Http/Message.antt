-- ===== src/Proxy/Http/Message.antt =====
-- A message in memory: its first line, the text behind it, a terminator, and what stands behind.
use ecen_602_projects.Common.{
  ℕ, ◌+◌, ◌≡◌, refl, ap, ◌∙◌, some, List, [], ◌∷◌, ◌++◌, arith, length, length-append, append_assoc,
}
use ecen_602_projects.Memory.{ok, NoNul, NoNul-append, slice-append, c_string-append}
use ecen_602_projects.Proxy.Http.Defs.{strchr, header_lines, tokens}
use ecen_602_projects.Proxy.Http.Strings.{
  Without, Without-append, Plain, index_of-append, tokens_line,
}
use ecen_602_projects.Proxy.Http.Line.{line_of}

abbrev pub message_memory : (first text pad behind : List ℕ) → List ℕ
message_memory first text pad behind = first ++ 13 ∷ 10 ∷ (text ++ 0 ∷ (pad ++ behind))

pub strchr-message_memory :
    (first text pad behind : List ℕ)
    → NoNul first
    → Without 13 first
    → NoNul text
    → strchr 13 (message_memory first text pad behind) ≡ ok (some (length first))
unfolding strchr
strchr-message_memory first text pad behind h k t = rw (
  ← append_assoc first (13 ∷ 10 ∷ text) (0 ∷ (pad ++ behind)),
  c_string-append (first ++ 13 ∷ 10 ∷ text) (pad ++ behind)
      (NoNul-append first (13 ∷ 10 ∷ text) h (omega arith, (omega arith, t))),
  index_of-append 13 first (10 ∷ text) k,
)

pub header_lines-message_memory :
    (first text pad behind : List ℕ)
    → NoNul text
    → length text + 1 + length pad ≡ 1500
    → header_lines (message_memory first text pad behind) (length first) ≡ ok text
unfolding header_lines
header_lines-message_memory first text pad behind t size =
    rw
      (
        ← append_assoc first (13 ∷ 10 ∷ []) (text ++ 0 ∷ (pad ++ behind)),
        ← append_assoc text (0 ∷ pad) behind,
        slice-append (first ++ 13 ∷ 10 ∷ []) (text ++ 0 ∷ pad) behind (length first + 2) 1500
            (omega (arith, length-append first (13 ∷ 10 ∷ [])))
            (omega (arith, length-append text (0 ∷ pad))),
      )
      (c_string-append text pad t)

-- Header lines, each with its end.
abbrev pub lines_text : List (List ℕ × List ℕ) → List ℕ → List ℕ
lines_text [] rest = rest
lines_text ((name, text) ∷ ls) rest = line_of name text ++ 13 ∷ 10 ∷ lines_text ls rest

abbrev pub lines_list : List (List ℕ × List ℕ) → List (List ℕ) → List (List ℕ)
lines_list [] rest = rest
lines_list ((name, text) ∷ ls) rest = line_of name text ∷ lines_list ls rest

abbrev pub AllPlain : List (List ℕ × List ℕ) → Type 0
AllPlain [] = Unit
AllPlain ((name, text) ∷ ls) = (Plain name × Plain text) × AllPlain ls

pub Plain-line : (name text : List ℕ) → Plain name → Plain text → Plain (line_of name text)
Plain-line name text h k = (
  NoNul-append name (b' ' ∷ text) h.0 (omega arith, k.0),
  Without-append 13 name (b' ' ∷ text) h.1 (omega arith, k.1),
  Without-append 10 name (b' ' ∷ text) h.2 (omega arith, k.2),
)

tokens-line_of :
    (name text rest : List ℕ)
    → Plain (line_of name text)
    → tokens (line_of name text ++ 13 ∷ 10 ∷ rest) ≡ line_of name text ∷ tokens rest
tokens-line_of [] text rest h = tokens_line b' ' text rest h
tokens-line_of (c ∷ name) text rest h = tokens_line c (name ++ b' ' ∷ text) rest h

-- strtok_r gives the lines one by one, then what it finds behind them.
pub tokens-lines_text :
    (ls : List (List ℕ × List ℕ)) (rest : List ℕ)
    → AllPlain ls
    → tokens (lines_text ls rest) ≡ lines_list ls (tokens rest)
tokens-lines_text [] rest h = refl
tokens-lines_text ((name, text) ∷ ls) rest h =
    tokens-line_of name text (lines_text ls rest) (Plain-line name text h.0.0 h.0.1)
    ∙ ap (λ l. line_of name text ∷ l) (tokens-lines_text ls rest h.1)

pub NoNul-lines_text :
    (ls : List (List ℕ × List ℕ)) (rest : List ℕ)
    → AllPlain ls
    → NoNul rest
    → NoNul (lines_text ls rest)
NoNul-lines_text [] rest h k = k
NoNul-lines_text ((name, text) ∷ ls) rest h k =
    NoNul-append (line_of name text) (13 ∷ 10 ∷ lines_text ls rest)
      (Plain-line name text h.0.0 h.0.1).0
      (omega arith, (omega arith, NoNul-lines_text ls rest h.1 k))
