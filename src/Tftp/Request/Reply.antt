-- ===== src/Tftp/Request/Reply.antt =====
-- The error packet that refuses a request.
use ecen_602_projects.Common.{
  ℕ, ◌+◌, ◌≤◌, ◌<◌, ◌≡◌, refl, ap, ◌∙◌, List, [], ◌∷◌, ◌++◌, arith, length, take, drop, replicate,
  length-take, length-append, length-drop, inl, inr, Bool-cases, ◌==◌, append_assoc, ◌^◌,
}
use ecen_602_projects.Memory.{
  NoNul-append, Outcome, ok, c_string, strcpy, memcpy-front, NoNul, c_string-append,
}
use ecen_602_projects.Tftp.Opcode
use ecen_602_projects.Tftp.Opcode.{ErrorCode, code_of}
use ecen_602_projects.Tftp.Packet.{make_error_packet}
use ecen_602_projects.Tftp.Packet.Layout.{packet, error_to_buffer_lem}
use ecen_602_projects.Tftp.Request.Defs.{zeros, short_name, file_text, error_reply}

-- Behind a terminator a string is always found, and is no longer than what stands in front.
pub record Found (cs : List ℕ) (o : Outcome (List ℕ)) : Type 0 where
  pub text : List ℕ
  pub is : o ≡ ok text
  pub plain : NoNul text
  pub short : length text ≤ length cs

c_string-Found : (cs : List ℕ) → Found cs (c_string (cs ++ 0 ∷ []))
unfolding c_string
c_string-Found [] = record { text = []; is = refl; plain = tt; short = omega arith }
c_string-Found (c ∷ cs) = elim (Bool-cases (c == 0)) [
  | inl e ↦ record { text = []; is = rw e; plain = tt; short = omega arith }
  | inr e ↦
      let rec = c_string-Found cs in
      record {
        text = c ∷ rec.text;
        is = rw (e, rec.is);
        plain = (ground arith, rec.plain);
        short = let h = rec.short in omega arith;
      }
]

-- An error packet with this code and this text, in the whole buffer.
pub record Refuses (code : ErrorCode) (text reply : List ℕ) : Type 0 where
  pub header : reply ≡ packet Opcode.error (code_of code) (drop 4 reply)
  pub message : c_string (drop 4 reply) ≡ ok text
  pub size : length reply ≡ 516

-- The refusal, with the name of the file cut to nine bytes.
pub record Refusal (code : ErrorCode) (filename rest : List ℕ) : Type 0 where
  pub name : List ℕ
  pub reply : List ℕ
  pub named : short_name filename ≡ ok name
  pub sent : error_reply code filename rest ≡ ok reply
  pub refuses : Refuses code (file_text name rest) reply

module _ (code : ErrorCode) (text : List ℕ) (plain : NoNul text) (fit : length text < 128) where
  abbrev message : List ℕ
  message = (text ++ 0 ∷ []) ++ drop (length (text ++ 0 ∷ [])) (replicate 128 0)

  length-message : length message ≡ 128
  length-message = omega (
    arith,
    length-append (text ++ 0 ∷ []) (drop (length (text ++ 0 ∷ [])) (replicate 128 0)),
    length-append text (0 ∷ []),
    length-drop (length (text ++ 0 ∷ [])) (replicate {A = ℕ} 128 0),
  )

  message_copy : strcpy (replicate 128 0) (text ++ 0 ∷ []) ≡ ok message
  unfolding strcpy
  message_copy = rw (
    c_string-append text [] plain,
    memcpy-front (replicate 128 0) (text ++ 0 ∷ []) (omega (arith, length-append text (0 ∷ []))),
  )

  abbrev tail : List ℕ
  tail = message ++ drop (4 + length message) (zeros 516)

  length-tail : length tail ≡ 512
  length-tail = omega (
    arith,
    length-message,
    length-append message (drop (4 + length message) (zeros 516)),
    length-drop (4 + length message) (zeros 516),
  )

  code-lt : code_of code < 2 ^ 16
  code-lt = ground arith

  make_error_packet_lem :
      make_error_packet code (text ++ 0 ∷ []) (zeros 516)
      ≡ ok (packet Opcode.error (code_of code) tail)
  unfolding make_error_packet
  make_error_packet_lem = rw message_copy (
      error_to_buffer_lem (zeros 516)
        (record {
          opcode = Opcode.error;
          error_code = code_of code;
          error_msg = message;
          trailing_zero = 0;
        })
        (omega arith) code-lt (omega (arith, length-message)))

  tail_text : c_string tail ≡ ok text
  tail_text =
      ap c_string (
        append_assoc (text ++ 0 ∷ []) (drop (length (text ++ 0 ∷ [])) (replicate 128 0)) _
        ∙ append_assoc text (0 ∷ []) _)
      ∙ c_string-append text _ plain

  packet-Refuses : Refuses code text (packet Opcode.error (code_of code) tail)
  packet-Refuses = record { header = refl; message = tail_text; size = omega (arith, length-tail) }

file_text-NoNul : (name rest : List ℕ) → NoNul name → NoNul rest → NoNul (file_text name rest)
file_text-NoNul name rest h g =
    NoNul-append (b'f' ∷ b'i' ∷ b'l' ∷ b'e' ∷ 0x20 ∷ 0x27 ∷ [])
      (name ++ 0x27 ∷ b'.' ∷ b'.' ∷ b'.' ∷ 0x20 ∷ rest) (omega arith)
      (NoNul-append name (0x27 ∷ b'.' ∷ b'.' ∷ b'.' ∷ 0x20 ∷ rest) h
        (NoNul-append (0x27 ∷ b'.' ∷ b'.' ∷ b'.' ∷ 0x20 ∷ []) rest (omega arith) g))

-- Every refused request is answered with an error packet that names the file.
pub error_reply-Refusal :
    (code : ErrorCode) (filename rest : List ℕ)
    → NoNul rest
    → length rest ≤ 64
    → Refusal code filename rest
unfolding error_reply short_name
error_reply-Refusal code filename rest plain short =
    let found = c_string-Found (take 9 filename) in
    let text = file_text found.text rest in
    let clean = file_text-NoNul found.text rest found.plain plain in
    let fit : length text < 128 =
      let h = found.short in
      omega (
        arith,
        length-append found.text (0x27 ∷ b'.' ∷ b'.' ∷ b'.' ∷ 0x20 ∷ rest),
        length-take 9 filename,
      ) in
    record {
      name = found.text;
      reply = packet Opcode.error (code_of code) (tail code text clean fit);
      named = found.is;
      sent = rw found.is (make_error_packet_lem code text clean fit);
      refuses = packet-Refuses code text clean fit;
    }
