-- ===== src/HttpClient/Blank.antt =====
-- The blank line behind the header, and what stands behind it in the array.
use ecen_602_projects.Common.{
  ℕ, suc, ◌+◌, ◌-◌, ◌<◌, ◌≡◌, ◌≢◌, refl, sym, ap, ◌∙◌, true, false, some, List, [], ◌∷◌, ◌++◌,
  arith, length, replicate, length-append, append_assoc, ne→==-false, le→leb,
}
use ecen_602_projects.Memory.{ok, NoNul, NoNul-append, c_string-append, slice-append}
use ecen_602_projects.Proxy.Transfer.{starts_with}
use ecen_602_projects.Proxy.Http.Strings.{Without, Plain}
use ecen_602_projects.Proxy.Http.Line.{line_of}
use ecen_602_projects.Proxy.Http.Message.{
  message_memory, lines_text, AllPlain, Plain-line, NoNul-lines_text,
}
use ecen_602_projects.Proxy.Http.Response.{answer_text}
use ecen_602_projects.HttpClient.Receive.{
  blank_line, blank_at, offset_of, received, body_offset, first_part,
}

blank_at_skip :
    (c : ℕ) (s : List ℕ) (k : ℕ)
    → starts_with blank_line (c ∷ s) ≡ false
    → blank_at s ≡ some k
    → blank_at (c ∷ s) ≡ some (suc k)
unfolding blank_at
blank_at_skip c s k h e = rw (h, e) refl

blank_at-line :
    (l rest : List ℕ) (k : ℕ)
    → Without 13 l
    → blank_at rest ≡ some k
    → blank_at (l ++ rest) ≡ some (length l + k)
unfolding starts_with
blank_at-line [] rest k h e = e ∙ ap some (omega arith)
blank_at-line (c ∷ l) rest k h e =
    blank_at_skip c (l ++ rest) (length l + k) (rw (ne→==-false 13 c (λ p. h.0 (sym p))) refl)
      (blank_at-line l rest k h.1 e)
    ∙ ap some (omega arith)

blank_at_end :
    (d : ℕ) (s : List ℕ) (k : ℕ)
    → d ≢ 13
    → blank_at (d ∷ s) ≡ some k
    → blank_at (13 ∷ 10 ∷ d ∷ s) ≡ some (2 + k)
unfolding starts_with
blank_at_end d s k h e =
    blank_at_skip 13 (10 ∷ d ∷ s) (suc k) (rw (ne→==-false 13 d (λ p. h (sym p))) refl)
      (blank_at_skip 10 (d ∷ s) k refl e)
    ∙ ap some (omega arith)

blank_at-line_of :
    (name text rest : List ℕ) (k : ℕ)
    → Plain (line_of name text)
    → blank_at rest ≡ some k
    → blank_at (13 ∷ 10 ∷ (line_of name text ++ rest)) ≡ some (2 + (length (line_of name text) + k))
blank_at-line_of [] text rest k h e =
    blank_at_end b' ' (text ++ rest) (suc (length text) + k) (omega arith)
      (blank_at-line (b' ' ∷ text) rest k h.1 e)
blank_at-line_of (c ∷ name) text rest k h e =
    blank_at_end c (line_of name text ++ rest) (suc (length (line_of name text)) + k) h.1.0
      (blank_at-line (line_of (c ∷ name) text) rest k h.1 e)

lines_text-append :
    (ls : List (List ℕ × List ℕ)) (rest : List ℕ) → lines_text ls rest ≡ lines_text ls [] ++ rest
lines_text-append [] rest = refl
lines_text-append ((name, text) ∷ ls) rest =
    ap (λ l. line_of name text ++ 13 ∷ 10 ∷ l) (lines_text-append ls rest)
    ∙ sym (append_assoc (line_of name text) (13 ∷ 10 ∷ lines_text ls []) rest)

-- The blank line behind the header lines.
blank_at-lines_text :
    (ls : List (List ℕ × List ℕ)) (body : List ℕ)
    → AllPlain ls
    → blank_at (13 ∷ 10 ∷ answer_text ls body) ≡ some (length (lines_text ls []))
unfolding blank_at starts_with
blank_at-lines_text [] body h = refl
blank_at-lines_text ((name, text) ∷ ls) body h =
    blank_at-line_of name text (13 ∷ 10 ∷ answer_text ls body) (length (lines_text ls []))
      (Plain-line name text h.0.0 h.0.1) (blank_at-lines_text ls body h.1)
    ∙ ap some (omega (arith, length-append (line_of name text) (13 ∷ 10 ∷ lines_text ls [])))

-- The answer is its front, up to the blank line, and its body.
abbrev front_of : (line : List ℕ) (ls : List (List ℕ × List ℕ)) → List ℕ
front_of line ls = (line ++ 13 ∷ 10 ∷ lines_text ls []) ++ 13 ∷ 10 ∷ []

answer_split :
    (line : List ℕ) (ls : List (List ℕ × List ℕ)) (body : List ℕ)
    → line ++ 13 ∷ 10 ∷ answer_text ls body ≡ front_of line ls ++ body
answer_split line ls body =
    ap (λ l. line ++ 13 ∷ 10 ∷ l) (lines_text-append ls (13 ∷ 10 ∷ body))
    ∙ sym (append_assoc line (13 ∷ 10 ∷ lines_text ls []) (13 ∷ 10 ∷ body))
    ∙ sym (append_assoc (line ++ 13 ∷ 10 ∷ lines_text ls []) (13 ∷ 10 ∷ []) body)

-- The array behind the first call of recv, cut as parse_response reads it: `near` is as long as the
-- first line with its end.
pub received-message_memory :
    (line text near far : List ℕ)
    → length (line ++ 13 ∷ 10 ∷ text) < 1500
    → received (line ++ 13 ∷ 10 ∷ text) (near ++ far)
      ≡ message_memory line text
          (replicate (1500 - length (line ++ 13 ∷ 10 ∷ text) - 1) 0 ++ near)
          far
received-message_memory line text near far h =
    let n = length (line ++ 13 ∷ 10 ∷ text) in
    let e : 1500 - n ≡ suc (1500 - n - 1) = omega arith in
    ap (λ m. ((line ++ 13 ∷ 10 ∷ text) ++ replicate m 0) ++ (near ++ far)) e
    ∙ append_assoc (line ++ 13 ∷ 10 ∷ text) (replicate (suc (1500 - n - 1)) 0) (near ++ far)
    ∙ append_assoc line (13 ∷ 10 ∷ text) (replicate (suc (1500 - n - 1)) 0 ++ (near ++ far))
    ∙ ap (λ m. line ++ 13 ∷ 10 ∷ (text ++ 0 ∷ m))
        (sym (append_assoc (replicate (1500 - n - 1) 0) near far))

-- The strstr of main on the array.
pub blank_at-received :
    (line : List ℕ) (ls : List (List ℕ × List ℕ)) (body behind : List ℕ)
    → Plain line
    → AllPlain ls
    → NoNul body
    → length (line ++ 13 ∷ 10 ∷ answer_text ls body) < 1500
    → body_offset (received (line ++ 13 ∷ 10 ∷ answer_text ls body) behind)
      ≡ ok (length (front_of line ls))
unfolding body_offset offset_of
blank_at-received line ls body behind p h b size =
    let whole = line ++ 13 ∷ 10 ∷ answer_text ls body in
    let e : 1500 - length whole ≡ suc (1500 - length whole - 1) = omega arith in
    rw
      (
        e,
        append_assoc whole (replicate (suc (1500 - length whole - 1)) 0) behind,
        c_string-append whole (replicate (1500 - length whole - 1) 0 ++ behind) (
            NoNul-append line (13 ∷ 10 ∷ answer_text ls body) p.0 (
              omega arith,
              (omega arith, NoNul-lines_text ls (13 ∷ 10 ∷ body) h (omega arith, (omega arith, b))),
            )),
        blank_at-line line (13 ∷ 10 ∷ answer_text ls body) (length (lines_text ls [])) p.1
            (blank_at-lines_text ls body h),
      )
      (ap ok (
        omega (
          arith,
          length-append line (13 ∷ 10 ∷ lines_text ls []),
          length-append (line ++ 13 ∷ 10 ∷ lines_text ls []) (13 ∷ 10 ∷ []),
        )))

pub first_part-body :
    (line : List ℕ) (ls : List (List ℕ × List ℕ)) (body behind : List ℕ)
    → first_part true (line ++ 13 ∷ 10 ∷ answer_text ls body) behind (length (front_of line ls))
      ≡ ok body
unfolding first_part
first_part-body line ls body behind =
    let front = front_of line ls in
    let z : ℕ = 0 in
    let zeros = replicate (1500 - length (front ++ body)) z in
    let part : length (front ++ body) - length front ≡ length body =
      omega (arith, length-append front body) in
    rw
      (
        answer_split line ls body,
        le→leb (length front) (length (front ++ body)) (omega (arith, length-append front body)),
        part,
        append_assoc (front ++ body) zeros behind,
        append_assoc front body (zeros ++ behind),
      )
      (slice-append front body (zeros ++ behind) (length front) (length body) refl refl)
