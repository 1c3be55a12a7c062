-- ===== src/HttpClient/Receive.antt =====
-- get_filename and the second half of main of Assignment_4/client.c: the first call of recv, and the whole run.
use ecen_602_projects.Common.{
  ℕ, zero, suc, ◌+◌, ◌-◌, ◌*◌, Bool, ◌||◌, ◌&&◌, List, [], ◌∷◌, ◌++◌, Option, none, some, leb, ◌==◌,
  if◌then◌else◌, length, replicate,
}
use ecen_602_projects.Memory.{Outcome, ok, fail, fault, ◌>>=◌, slice, c_string}
use ecen_602_projects.Proxy.Http.{Scratch, empty_info, add_front, parse_response}
use ecen_602_projects.Proxy.Transfer.{starts_with}
use ecen_602_projects.HttpClient.Defs.{
  Arrays, BodyEnd, closed, waiting, copy_body, split_url, make_request,
}

abbrev pub blank_line : List ℕ
blank_line = 13 ∷ 10 ∷ 13 ∷ 10 ∷ []

-- The place that strstr finds for "\r\n\r\n".
unfoldable pub blank_at : List ℕ → Option ℕ
blank_at [] = none
blank_at (c ∷ s) =
    let rest = blank_at s in
    if starts_with blank_line (c ∷ s)
    then some 0
    else elim rest [ none ↦ none | some n ↦ some (suc n) ]

-- The index of the body. A null pointer minus the array makes it an address outside every array.
unfoldable pub offset_of : Option ℕ → Outcome ℕ
offset_of none = fault
offset_of (some pos) = ok (pos + 4)

unfoldable pub body_offset : List ℕ → Outcome ℕ
body_offset mem = c_string mem >>= λ text. offset_of (blank_at text)

pub data ℤ : Type 0 where
  pos negsuc : ℕ → ℤ

abbrev pub negative : ℕ → ℤ
negative zero = pos zero
negative (suc n) = negsuc n

unfoldable pub digits : ℕ → List ℕ → Outcome ℕ
digits n [] = fault
digits n (c ∷ s) =
    let rest = digits (10 * n + (c - b'0')) s in if leb b'0' c && leb c b'9' then rest else ok n

unfoldable pub signed : ℕ → List ℕ → Outcome ℤ
signed c s =
    if c == b'-'
    then (digits 0 s >>= λ n. ok (negative n))
    else if c == b'+'
    then (digits 0 s >>= λ n. ok (pos n))
    else (digits 0 (c ∷ s) >>= λ n. ok (pos n))

-- atoi; a field of ten bytes with its terminator has at most nine digits, so an int holds the number.
unfoldable pub atoi : List ℕ → Outcome ℤ
atoi [] = fault
atoi (c ∷ s) =
    let rest = atoi s in if (c == b' ') || (leb 9 c && leb c 13) then rest else signed c s

-- The loop for a Content-Length that may be negative: then the first bytes that come make
-- `numbytes - offset` negative, and fwrite leaves the array.
unfoldable pub receive_body : ℤ → ℕ → List (List ℕ) → Outcome (List ℕ × BodyEnd)
receive_body (pos n) count rounds = ok (copy_body n count rounds)
receive_body (negsuc n) count [] = ok ([], waiting)
receive_body (negsuc n) count (bytes ∷ more) = if length bytes == 0 then ok ([], closed) else fault

-- buf_recv, which is cleared before the first call of recv, and what stands behind it.
abbrev pub received : List ℕ → List ℕ → List ℕ
received bytes behind = (bytes ++ replicate (1500 - length bytes) 0) ++ behind

-- fwrite from the first call of recv; a count that wraps is past the array.
unfoldable pub first_part : (opened : Bool) → (bytes behind : List ℕ) → ℕ → Outcome (List ℕ)
first_part opened bytes behind offset =
    if opened && leb offset (length bytes)
    then slice (received bytes behind) offset (length bytes - offset)
    else fault

-- What is written to the file of the answer, for the results of recv; `opened` is false when fopen has
-- given a null pointer, which main does not look at.
unfoldable pub receive_answer :
    (opened : Bool)
    → (junk : ℕ → Scratch) → (behind : List ℕ) → List (List ℕ)
    → Outcome (List ℕ × BodyEnd)
receive_answer opened junk behind [] = ok ([], waiting)
receive_answer opened junk behind (bytes ∷ more) = if length bytes == 0 then fail else (do
  http_info ← parse_response junk (received bytes behind) empty_info
  content_length ← atoi http_info.content_length
  offset ← body_offset (received bytes behind)
  first ← first_part opened bytes behind offset
  (rest, end) ← receive_body content_length (length first) more
  ok (first ++ rest, end))

-- The string cut at every slash.
unfoldable pub cut : List ℕ → List (List ℕ)
cut [] = [] ∷ []
cut (c ∷ s) = let rest = cut s in if c == b'/' then [] ∷ rest else add_front c rest

-- The last token of strtok(str, "/"): the last part that is not empty.
unfoldable pub last_token : List (List ℕ) → Option (List ℕ)
last_token [] = none
last_token ([] ∷ parts) = last_token parts
last_token ((c ∷ s) ∷ parts) =
    let rest = last_token parts in elim rest [ none ↦ some (c ∷ s) | some t ↦ some t ]

-- With no token, `tmp` is not set.
unfoldable pub token_of : Option (List ℕ) → Outcome (List ℕ)
token_of none = fault
token_of (some t) = ok t

unfoldable pub get_filename : List ℕ → Outcome (List ℕ)
get_filename str = c_string str >>= λ s. token_of (last_token (cut s))

-- What main sends to the proxy, the file that it opens, and what it writes there.
pub record Visit : Type 0 where
  pub request : List ℕ
  pub filename : List ℕ
  pub content : List ℕ
  pub end : BodyEnd

-- main: `connected` is what server_lookup_connect gives, `rounds` what recv gives.
unfoldable pub visit :
    Arrays
    → (junk : ℕ → Scratch) → (behind : List ℕ) → (connected opened : Bool) → List ℕ
    → List (List ℕ)
    → Outcome Visit
visit a junk behind connected opened url rounds = do
  (host, path) ← split_url a url
  request ← make_request a.behind host path
  path ← c_string (path ++ a.behind)
  (if connected
      then (do
        request ← c_string request
        filename ← get_filename (path ++ 0 ∷ [])
        (content, end) ← receive_answer opened junk behind rounds
        ok (record {
          request = request ++ 0 ∷ [];
          filename = filename;
          content = content;
          end = end;
        }))
      else fail)
