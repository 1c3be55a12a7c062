-- ===== src/HttpClient/Defs.antt =====
-- main of Assignment_4/client.c: the URL cut into host and path, the request, and the body of the answer.
use ecen_602_projects.Common.{
  ℕ, zero, suc, ◌+◌, ◌-◌, Bool, false, ◌||◌, List, [], ◌∷◌, ◌++◌, Option, none, some, ltb, ◌==◌,
  if◌then◌else◌, length, take, replicate,
}
use ecen_602_projects.Memory.{Outcome, ok, ◌>>=◌, memcpy, slice, c_string, strcpy, strcmp_eq}
use ecen_602_projects.Proxy.Http.{strchr}

-- What malloc(_size) returns for path, host, _u and _p, and what stands behind these arrays and url.
pub record Arrays : Type 0 where
  pub path : List ℕ
  pub host : List ℕ
  pub u : List ℕ
  pub p : List ℕ
  pub behind : List ℕ

abbrev pub http_text : List ℕ
http_text = b'h' ∷ b't' ∷ b't' ∷ b'p' ∷ b':' ∷ []

abbrev pub https_text : List ℕ
https_text = b'h' ∷ b't' ∷ b't' ∷ b'p' ∷ b's' ∷ b':' ∷ []

-- memcpy(dst, &src[offset], n), with what stands behind `src`.
unfoldable pub copy_from : List ℕ → List ℕ → ℕ → ℕ → Outcome (List ℕ)
copy_from dst src offset n = slice src offset n >>= λ bytes. memcpy dst 0 bytes

unfoldable pub scheme : Arrays → List ℕ → Option ℕ → Outcome (List ℕ)
scheme a url none = ok a.p
scheme a url (some pos) = copy_from a.p (url ++ a.behind) 0 pos

-- The URL without its scheme; `pos + 2` is 1 for a URL with no slash.
abbrev pub behind_slashes : Option ℕ → ℕ
behind_slashes none = 1
behind_slashes (some pos) = pos + 2

unfoldable pub without_scheme : Arrays → List ℕ → List ℕ → Option ℕ → Outcome (List ℕ × Option ℕ)
without_scheme a url u loc = do
  u ← copy_from u (url ++ a.behind) (behind_slashes loc) (length url)
  loc ← strchr b'/' (u ++ a.behind)
  ok (u, loc)

-- The arrays of the host and of the path. The test is `pos > 0`.
unfoldable pub split_host : Arrays → List ℕ → ℕ → Option ℕ → Outcome (List ℕ × List ℕ)
split_host a u n (some (suc pos)) = do
  host ← copy_from a.host (u ++ a.behind) 0 (suc pos)
  path ← copy_from a.path (u ++ a.behind) (suc pos) n
  ok (host, path)
split_host a u n (some zero) = do
  host ← strcpy a.host (u ++ a.behind)
  path ← strcpy a.path (b'/' ∷ 0 ∷ [])
  ok (host, path)
split_host a u n none = do
  host ← strcpy a.host (u ++ a.behind)
  path ← strcpy a.path (b'/' ∷ 0 ∷ [])
  ok (host, path)

-- !strcmp(_p, "http:") || !strcmp(_p, "https:")
unfoldable pub is_web : List ℕ → Outcome Bool
is_web p = do
  is_http ← strcmp_eq p http_text
  is_https ← (if is_http then ok false else strcmp_eq p https_text)
  ok (is_http || is_https)

unfoldable pub split_url : Arrays → List ℕ → Outcome (List ℕ × List ℕ)
split_url a url = do
  loc ← strchr b'/' (url ++ a.behind)
  u ← memcpy a.u 0 url
  p ← scheme a url loc
  web ← is_web (p ++ a.behind)
  (u, loc) ← (if web then without_scheme a url u loc else ok (u, loc))
  split_host a u (length url) loc

abbrev pub host_text : List ℕ
host_text =
    b' ' ∷ b'H' ∷ b'T' ∷ b'T' ∷ b'P' ∷ b'/' ∷ b'1' ∷ b'.' ∷ b'0' ∷ 13 ∷ 10 ∷ b'H' ∷ b'o' ∷ b's'
    ∷ b't' ∷ b':' ∷ b' ' ∷ []

abbrev pub agent_text : List ℕ
agent_text =
    13 ∷ 10 ∷ b'U' ∷ b's' ∷ b'e' ∷ b'r' ∷ b'-' ∷ b'A' ∷ b'g' ∷ b'e' ∷ b'n' ∷ b't' ∷ b':' ∷ b' '
    ∷ b'T' ∷ b'e' ∷ b'a' ∷ b'm' ∷ b'4' ∷ 13 ∷ 10 ∷ 13 ∷ 10 ∷ []

-- sprintf into an array of 1500 bytes.
unfoldable pub make_request : List ℕ → List ℕ → List ℕ → Outcome (List ℕ)
make_request behind host path = do
  path ← c_string (path ++ behind)
  host ← c_string (host ++ behind)
  memcpy (replicate 1500 0) 0
      (b'G' ∷ b'E' ∷ b'T' ∷ b' ' ∷ (path ++ (host_text ++ (host ++ (agent_text ++ 0 ∷ [])))))

-- The end of the loop that reads the body: the server has closed the connection, all is there, or no
-- further call of recv has come back.
pub data BodyEnd : Type 0 where
  closed complete waiting : BodyEnd

-- What is written to the file, for each result of recv: `count` bytes of `content_length` are there.
unfoldable pub copy_body : ℕ → ℕ → List (List ℕ) → List ℕ × BodyEnd
copy_body content_length count [] = ([], waiting)
copy_body content_length count (bytes ∷ more) =
    let (written, end) = copy_body content_length (count + length bytes) more in
    if length bytes == 0
    then ([], closed)
    else if ltb content_length (count + length bytes)
    then (take (length bytes - (count + length bytes - content_length)) bytes, complete)
    else (bytes ++ written, end)
