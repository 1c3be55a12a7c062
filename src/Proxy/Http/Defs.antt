-- ===== src/Proxy/Http/Defs.antt =====
-- http_info_t (Assignment_4/lib.h), parse_request and parse_response (Assignment_4/lib.c). Both read
-- behind their array: an argument `req_buf` or `res_buf` is the array with the memory behind it.
use ecen_602_projects.Common.{
  ℕ, zero, suc, ◌+◌, ◌-◌, Bool, false, ◌||◌, List, [], ◌∷◌, ◌++◌, Option, none, some, ltb, ◌==◌,
  if◌then◌else◌, length, replicate,
}
use ecen_602_projects.Memory.{Outcome, ok, fault, ◌>>=◌, memcpy, slice, c_string, strcpy, strcmp_eq}

pub record HttpInfo : Type 0 where
  pub host : List ℕ  -- char[253]
  pub path : List ℕ  -- char[100]
  pub user_agent : List ℕ  -- char[10]
  pub connection : List ℕ  -- char[10]
  pub status : List ℕ  -- char[20]
  pub content_length : List ℕ  -- char[10]
  pub date : List ℕ  -- char[30]
  pub info_complete : Bool

-- calloc(1, sizeof(http_info_t))
unfoldable pub empty_info : HttpInfo
empty_info = record {
  host = replicate 253 0;
  path = replicate 100 0;
  user_agent = replicate 10 0;
  connection = replicate 10 0;
  status = replicate 20 0;
  content_length = replicate 10 0;
  date = replicate 30 0;
  info_complete = false;
}

-- The number of bytes in front of the first `c` of a string, if it has one.
unfoldable pub index_of : ℕ → List ℕ → Option ℕ
index_of c [] = none
index_of c (d ∷ s) =
    let rest = index_of c s in
    if d == c then some 0 else elim rest [ none ↦ none | some n ↦ some (suc n) ]

-- strchr on memory, as a distance.
unfoldable pub strchr : ℕ → List ℕ → Outcome (Option ℕ)
strchr c mem = c_string mem >>= λ s. ok (index_of c s)

-- strncpy(dst, src, n): a string shorter than `n` is filled up with zeros.
unfoldable pub padded_string : ℕ → List ℕ → Outcome (List ℕ)
padded_string zero src = ok []
padded_string (suc n) [] = fault
padded_string (suc n) (c ∷ src) =
    let rest = padded_string n src in
    if c == 0 then ok (replicate (suc n) 0) else rest >>= λ s. ok (c ∷ s)

unfoldable pub strncpy : List ℕ → List ℕ → ℕ → Outcome (List ℕ)
strncpy dst src n = padded_string n src >>= λ bytes. memcpy dst 0 bytes

-- The bytes of "\r\n", at which strtok_r cuts.
unfoldable pub is_delimiter : ℕ → Bool
is_delimiter c = (c == 13) || (c == 10)

unfoldable pub skip_delimiters : List ℕ → List ℕ
skip_delimiters [] = []
skip_delimiters (c ∷ s) = if is_delimiter c then skip_delimiters s else c ∷ s

-- A string cut at its first delimiter.
unfoldable pub first_token : List ℕ → List ℕ
first_token [] = []
first_token (c ∷ s) = let rest = first_token s in if is_delimiter c then [] else c ∷ rest

unfoldable pub add_front : ℕ → List (List ℕ) → List (List ℕ)
add_front c [] = (c ∷ []) ∷ []
add_front c (t ∷ ts) = (c ∷ t) ∷ ts

-- The tokens of strtok_r: those behind a delimiter, or one that begins here.
unfoldable pub tokens : List ℕ → List (List ℕ)
tokens [] = []
tokens (c ∷ []) = if is_delimiter c then [] else (c ∷ []) ∷ []
tokens (c ∷ d ∷ s) =
    let rest = tokens (d ∷ s) in
    if is_delimiter c then rest else if is_delimiter d then (c ∷ []) ∷ rest else add_front c rest

-- memset(key, 0, strlen(buf)): strtok_r has put a terminator behind the first token.
unfoldable pub cleared : List ℕ → ℕ
cleared s = length s - length (skip_delimiters s) + length (first_token (skip_delimiters s))

-- The two arrays that the loop over the header lines uses again and again.
pub record Scratch : Type 0 where
  pub key : List ℕ
  pub value : List ℕ

-- memset on both, and the two calls of strncpy for a line with a space at `pos`.
unfoldable pub split_line : ℕ → Scratch → List ℕ → ℕ → Outcome Scratch
split_line n scratch token pos = do
  key ← memcpy scratch.key 0 (replicate n 0)
  value ← memcpy scratch.value 0 (replicate n 0)
  key ← strncpy key (token ++ 0 ∷ []) pos
  rest ← slice (token ++ 0 ∷ []) (pos + 1) (length token - pos)
  value ← strncpy value rest (length token)
  ok (record { key = key; value = value })

abbrev pub host_key : List ℕ
host_key = b'H' ∷ b'o' ∷ b's' ∷ b't' ∷ b':' ∷ []

abbrev pub agent_key : List ℕ
agent_key = b'U' ∷ b's' ∷ b'e' ∷ b'r' ∷ b'-' ∷ b'A' ∷ b'g' ∷ b'e' ∷ b'n' ∷ b't' ∷ b':' ∷ []

abbrev pub connection_key : List ℕ
connection_key = b'C' ∷ b'o' ∷ b'n' ∷ b'n' ∷ b'e' ∷ b'c' ∷ b't' ∷ b'i' ∷ b'o' ∷ b'n' ∷ b':' ∷ []

abbrev pub length_key : List ℕ
length_key =
    b'C' ∷ b'o' ∷ b'n' ∷ b't' ∷ b'e' ∷ b'n' ∷ b't' ∷ b'-' ∷ b'L' ∷ b'e' ∷ b'n' ∷ b'g' ∷ b't' ∷ b'h'
    ∷ b':' ∷ []

abbrev pub date_key : List ℕ
date_key = b'D' ∷ b'a' ∷ b't' ∷ b'e' ∷ b':' ∷ []

unfoldable pub store_request_field : Scratch → HttpInfo → Outcome HttpInfo
store_request_field s req = do
  is_host ← strcmp_eq s.key host_key
  is_agent ← (if is_host then ok false else strcmp_eq s.key agent_key)
  is_connection ← (if is_host || is_agent then ok false else strcmp_eq s.key connection_key)
  (if is_host
      then (strcpy req.host s.value >>= λ host. ok (record req { host = host }))
      else if is_agent
      then (strcpy req.user_agent s.value >>= λ agent. ok (record req { user_agent = agent }))
      else if is_connection
      then (strcpy req.connection s.value >>= λ connection.
          ok (record req { connection = connection }))
      else ok req)

-- A line with no space makes strncpy copy SIZE_MAX bytes.
unfoldable pub request_line :
    ℕ → Scratch → HttpInfo → List ℕ → Option ℕ → Outcome (Scratch × HttpInfo)
request_line n s req token none = fault
request_line n s req token (some pos) = do
  s ← split_line n s token pos
  req ← store_request_field s req
  ok (s, req)

unfoldable pub request_lines : ℕ → List (List ℕ) → Scratch → HttpInfo → Outcome HttpInfo
request_lines n [] s req = ok req
request_lines n (token ∷ more) s req = do
  (s, req) ← request_line n s req token (index_of b' ' token)
  request_lines n more s req

-- memcpy(buf, &req_buf[pos + 2], 1500) into an array of 1500 bytes, and the string in it.
unfoldable pub header_lines : List ℕ → ℕ → Outcome (List ℕ)
header_lines mem pos = slice mem (pos + 2) 1500 >>= λ buf. c_string buf

-- `junk` is what malloc(strlen(buf)) returns, for each of the two arrays. A line that ends before
-- byte 13, and a string with no carriage return, make the length of the path wrap.
unfoldable pub parse_request : (junk : ℕ → Scratch) → List ℕ → HttpInfo → Outcome HttpInfo
parse_request junk req_buf req = do
  loc ← strchr 13 req_buf
  (elim loc as (λ o. Outcome HttpInfo) [
    | none ↦ fault
    | some pos ↦ if ltb pos 13 then fault else (do
      src ← slice req_buf 4 (length req_buf - 4)
      path ← strncpy req.path src (pos - 13)
      buf ← header_lines req_buf pos
      request_lines (cleared buf) (tokens buf) (junk (length buf)) (record req { path = path }))
  ])

unfoldable pub store_response_field : Scratch → HttpInfo → Outcome HttpInfo
store_response_field s res = do
  is_length ← strcmp_eq s.key length_key
  is_date ← (if is_length then ok false else strcmp_eq s.key date_key)
  (if is_length
      then (strcpy res.content_length s.value >>= λ content_length.
          ok (record res { content_length = content_length }))
      else if is_date
      then (strcpy res.date s.value >>= λ date. ok (record res { date = date }))
      else ok res)

-- A line with no space ends the loop.
unfoldable pub response_lines : ℕ → List (List ℕ) → Scratch → HttpInfo → Outcome HttpInfo
response_lines n [] s res = ok res
response_lines n (token ∷ more) s res = elim (index_of b' ' token) as (λ o. Outcome HttpInfo) [
  | none ↦ ok res
  | some pos ↦ (do
    s ← split_line n s token pos
    res ← store_response_field s res
    response_lines n more s res)
]

-- A status line that ends before byte 9, and a string with no carriage return, make the length wrap.
unfoldable pub parse_response : (junk : ℕ → Scratch) → List ℕ → HttpInfo → Outcome HttpInfo
parse_response junk res_buf res = do
  loc ← strchr 13 res_buf
  (elim loc as (λ o. Outcome HttpInfo) [
    | none ↦ fault
    | some pos ↦ if ltb pos 9 then fault else (do
      bytes ← slice res_buf 9 (pos - 9)
      status ← memcpy res.status 0 bytes
      buf ← header_lines res_buf pos
      response_lines (cleared buf) (tokens buf) (junk (length buf))
          (record res { status = status }))
  ])
