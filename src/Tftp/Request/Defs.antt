-- ===== src/Tftp/Request/Defs.antt =====
-- What both handlers do before the transfer: the calls of the system, and the error packet for a
-- file that is not there or is there already (Assignment_3/lib.c lines 403-414 and 508-520).
use ecen_602_projects.Common.{ℕ, Bool, Option, List, [], ◌∷◌, ◌++◌, replicate, take}
use ecen_602_projects.Memory.{Outcome, ◌>>=◌, c_string}
use ecen_602_projects.Tftp.Opcode.{ErrorCode}
use ecen_602_projects.Tftp.Packet.{make_error_packet}

-- What the handlers ask of the system: whether `init` succeeds, `access`, `fopen`, and the memory
-- that lies behind the array `mode`.
pub record Host : Type 0 where
  pub init_ok : Bool
  pub exists_file : List ℕ → Bool
  pub open_read : List ℕ → Option (List ℕ)
  pub open_append : List ℕ → Bool
  pub behind_mode : List ℕ

abbrev pub zeros : ℕ → List ℕ
zeros n = replicate n 0

-- strncpy(copy_fn, filename, 10); copy_fn[9] = 0
unfoldable pub short_name : List ℕ → Outcome (List ℕ)
short_name filename = c_string (take 9 filename ++ 0 ∷ [])

-- "file '<name>'... <rest>"
abbrev pub file_text : List ℕ → List ℕ → List ℕ
file_text name rest =
    b'f' ∷ b'i' ∷ b'l' ∷ b'e' ∷ 0x20 ∷ 0x27 ∷ (name ++ 0x27 ∷ b'.' ∷ b'.' ∷ b'.' ∷ 0x20 ∷ rest)

-- "not found."
abbrev pub not_found : List ℕ
not_found = b'n' ∷ b'o' ∷ b't' ∷ 0x20 ∷ b'f' ∷ b'o' ∷ b'u' ∷ b'n' ∷ b'd' ∷ b'.' ∷ []

-- "already exists."
abbrev pub already_exists : List ℕ
already_exists =
    b'a' ∷ b'l' ∷ b'r' ∷ b'e' ∷ b'a' ∷ b'd' ∷ b'y' ∷ 0x20 ∷ b'e' ∷ b'x' ∷ b'i' ∷ b's' ∷ b't' ∷ b's'
    ∷ b'.' ∷ []

-- The whole send buffer goes out with the error packet.
unfoldable pub error_reply : ErrorCode → List ℕ → List ℕ → Outcome (List ℕ)
error_reply code filename rest = do
  name ← short_name filename
  make_error_packet code (file_text name rest ++ 0 ∷ []) (zeros 516)
