-- ===== src/HttpClient/Visit.antt =====
-- One run of the client: the request as the proxy reads it, the name of the file and what is in it.
use ecen_602_projects.Common.{ℕ, ◌<◌, ◌≡◌, Bool, List, [], ◌∷◌, ◌++◌, length}
use ecen_602_projects.Memory.{NoNul}
use ecen_602_projects.Proxy.Http.Strings.{Without, Plain}
use ecen_602_projects.Proxy.Http.Request.{get_word}
use ecen_602_projects.HttpClient.Defs.{host_text, agent_text}

abbrev pub team : List ℕ
team = b'T' ∷ b'e' ∷ b'a' ∷ b'm' ∷ b'4' ∷ []

abbrev pub request_text : (path host : List ℕ) → List ℕ
request_text path host = get_word ++ (path ++ (host_text ++ (host ++ agent_text)))

-- A URL: plain parts, no slash in the host, and a last part of the path that is not empty.
pub record IsUrl (secure : Bool) (host tail dir : List ℕ) (d : ℕ) (file : List ℕ) : Type 0 where
  pub host_plain : Plain host
  pub host_word : Without b'/' host
  pub path_plain : Plain (b'/' ∷ tail)
  pub parts : b'/' ∷ tail ≡ dir ++ b'/' ∷ d ∷ file
  pub dir_plain : NoNul dir
  pub file_plain : NoNul (d ∷ file)
  pub file_word : Without b'/' (d ∷ file)
  pub small : length (request_text (b'/' ∷ tail) host) < 1500
