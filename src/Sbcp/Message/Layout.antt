-- ===== src/Sbcp/Message/Layout.antt =====
-- What a message holds: its header fields and its payloads.
use ecen_602_projects.Common.{
  ℕ, ◌/◌, ◌%◌, ◌^◌, ◌≤◌, ◌≡◌, refl, List, [], ◌++◌, arith, length, drop, length-replicate,
}
use ecen_602_projects.Memory.{ok, memcpy-front, slice-append}
use ecen_602_projects.Sbcp.Message.Defs.{
  MsgType, type_code, AttributeType, attribute_code, zeros, header, fill_attribute,
}

-- The three bit fields of the header: version, type and length.
pub header_fields :
    (t : MsgType)
    → (header t / 2 ^ 23 ≡ 3)
      × (header t / 2 ^ 16 % 2 ^ 7 ≡ type_code t)
      × (header t % 2 ^ 16 ≡ 1036)
unfolding header
header_fields MsgType.join = (refl, refl, refl)
header_fields _ = (refl, refl, refl)

pub length-zeros : (n : ℕ) → length (zeros n) ≡ n
unfolding zeros
length-zeros n = length-replicate n 0

-- The payload: the bytes copied, then zeros.
abbrev pub padded : List ℕ → List ℕ
padded bytes = bytes ++ drop (length bytes) (zeros 512)

pub fill_attribute_lem :
    (t : AttributeType) (bytes rest : List ℕ)
    → length bytes ≤ 512
    → fill_attribute t (bytes ++ rest) (length bytes)
      ≡ ok
          (record { attribute_type = attribute_code t; len = length bytes; payload = padded bytes })
unfolding fill_attribute
fill_attribute_lem t bytes rest fit =
    let small : length bytes % 2 ^ 16 ≡ length bytes = omega arith in
    rw (
      slice-append [] bytes rest 0 (length bytes) refl refl,
      memcpy-front (zeros 512) bytes (omega (arith, length-zeros 512)),
      small,
    )
