-- ===== src/HttpClient/Tests.antt =====
-- The theorems about the HTTP client at concrete inputs.
use ecen_602_projects.Common.{ℕ, List, [], ◌∷◌, replicate}
use ecen_602_projects.Proxy.Http.{Scratch}
use ecen_602_projects.HttpClient.Receive.{Visit}

-- A page on a host, and its answer, of which the last byte is not part of the page.
abbrev site : List ℕ
site = b'.' ∷ b't' ∷ b'e' ∷ b's' ∷ b't' ∷ []

abbrev page : List ℕ
page = b'f' ∷ []

abbrev version : List ℕ
version = b'H' ∷ b'T' ∷ b'T' ∷ b'P' ∷ b'/' ∷ b'1' ∷ b'.' ∷ b'1' ∷ b' ' ∷ []

abbrev status : List ℕ
status = b'2' ∷ b'0' ∷ b'0' ∷ []

abbrev three : List ℕ
three = b'3' ∷ []

abbrev first_part_of_page : List ℕ
first_part_of_page = b'y' ∷ b' ' ∷ []

-- The line of the body that is read as a header line.
abbrev body_lines : List (List ℕ × List ℕ)
body_lines = (b'y' ∷ [], []) ∷ []

abbrev rest_of_page : List (List ℕ)
rest_of_page = (b's' ∷ b'!' ∷ []) ∷ []

abbrev ones : ℕ → Scratch
ones n = record { key = replicate n 1; value = replicate n 1 }
