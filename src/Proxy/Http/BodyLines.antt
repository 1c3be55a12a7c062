-- ===== src/Proxy/Http/BodyLines.antt =====
-- The loop of parse_response over the header lines, which goes on into the body.
use ecen_602_projects.Common.{
  ℕ, suc, Bool-cases, inl, inr, ◌≤◌, ◌≡◌, refl, ap, ◌∙◌, List, [], ◌∷◌, ◌++◌, arith, length,
  length-append,
}
use ecen_602_projects.Memory.{ok}
use ecen_602_projects.Proxy.Http.Defs.{
  HttpInfo, Scratch, tokens, is_delimiter, add_front, response_lines,
}
use ecen_602_projects.Proxy.Http.Strings.{Without, index_of-append, index_of-none}
use ecen_602_projects.Proxy.Http.Message.{lines_text, lines_list, AllPlain}
use ecen_602_projects.Proxy.Http.Line.{line_of, IsLine, split_line-Split}
use ecen_602_projects.Proxy.Http.Fields.{
  store_line, store_lines, AllHeaders, Sized, store_line-Sized, store_response_field-ok,
}

-- What strtok_r finds behind the header ends the loop: nothing, or a line with no space.
abbrev pub Stops : List (List ℕ) → Type 0
Stops [] = Unit
Stops (t ∷ ts) = Without b' ' t

response_lines-stop :
    (n : ℕ) (rest : List (List ℕ)) (s : Scratch) (res : HttpInfo)
    → Stops rest
    → response_lines n rest s res ≡ ok res
unfolding response_lines
response_lines-stop n [] s res h = refl
response_lines-stop n (t ∷ ts) s res h = rw (response_lines, index_of-none b' ' t h)

-- Header lines of at most `m` bytes, and tokens of at most as many.
abbrev AllShort : ℕ → List (List ℕ × List ℕ) → Type 0
AllShort m [] = Unit
AllShort m ((name, text) ∷ ls) = (length (line_of name text) ≤ m) × AllShort m ls

abbrev Short : ℕ → List (List ℕ) → Type 0
Short m [] = Unit
Short m (t ∷ ts) = (length t ≤ m) × Short m ts

Short-mono : (m k : ℕ) (ts : List (List ℕ)) → m ≤ k → Short m ts → Short k ts
Short-mono m k [] le h = tt
Short-mono m k (t ∷ ts) le h = (let e = h.0 in omega arith, Short-mono m k ts le h.1)

add_front-Short : (c m : ℕ) (ts : List (List ℕ)) → Short m ts → Short (suc m) (add_front c ts)
unfolding add_front
add_front-Short c m [] h = (omega arith, tt)
add_front-Short c m (t ∷ ts) h =
    (let e = h.0 in omega arith, Short-mono m (suc m) ts (omega arith) h.1)

-- No token is longer than the string.
tokens-Short : (s : List ℕ) → Short (length s) (tokens s)
unfolding tokens
tokens-Short [] = tt
tokens-Short (c ∷ []) = elim (Bool-cases (is_delimiter c)) [
  | inl e ↦ rw e tt
  | inr e ↦ rw e (omega arith, tt)
]
tokens-Short (c ∷ d ∷ s) =
    let rest = tokens-Short (d ∷ s) in
    let wider =
      Short-mono (length (d ∷ s)) (suc (length (d ∷ s))) (tokens (d ∷ s)) (omega arith) rest in
    elim (Bool-cases (is_delimiter c)) [
      | inl e ↦ rw e wider
      | inr e ↦ elim (Bool-cases (is_delimiter d)) [
        | inl f ↦ rw (e, f) (omega arith, wider)
        | inr f ↦ rw (e, f) (add_front-Short c (length (d ∷ s)) (tokens (d ∷ s)) rest)
      ]
    ]

AllShort-lines_list :
    (m : ℕ) (ls : List (List ℕ × List ℕ)) (rest : List (List ℕ))
    → Short m (lines_list ls rest)
    → AllShort m ls
AllShort-lines_list m [] rest h = tt
AllShort-lines_list m ((name, text) ∷ ls) rest h = (h.0, AllShort-lines_list m ls rest h.1)

AllShort-append :
    (m : ℕ) (xs ys : List (List ℕ × List ℕ)) → AllShort m xs → AllShort m ys → AllShort m (xs ++ ys)
AllShort-append m [] ys h k = k
AllShort-append m ((name, text) ∷ xs) ys h k = (h.0, AllShort-append m xs ys h.1 k)

AllPlain-append : (xs ys : List (List ℕ × List ℕ)) → AllPlain xs → AllPlain ys → AllPlain (xs ++ ys)
AllPlain-append [] ys h k = k
AllPlain-append ((name, text) ∷ xs) ys h k = (h.0, AllPlain-append xs ys h.1 k)

AllHeaders-append :
    (n : ℕ) (xs ys : List (List ℕ × List ℕ))
    → AllHeaders n xs
    → AllHeaders n ys
    → AllHeaders n (xs ++ ys)
AllHeaders-append n [] ys h k = k
AllHeaders-append n ((name, text) ∷ xs) ys h k = (h.0, AllHeaders-append n xs ys h.1 k)

lines_list-append :
    (xs ys : List (List ℕ × List ℕ)) (rest : List (List ℕ))
    → lines_list xs (lines_list ys rest) ≡ lines_list (xs ++ ys) rest
lines_list-append [] ys rest = refl
lines_list-append ((name, text) ∷ xs) ys rest =
    ap (λ l. line_of name text ∷ l) (lines_list-append xs ys rest)

-- The lines at the start of the body that have a space: as many as the loop reads as header lines.
pub record BodyLines (n : ℕ) (body : List ℕ) (extra : List (List ℕ × List ℕ)) : Type 0 where
  pub stop : List (List ℕ)
  pub cut : tokens body ≡ lines_list extra stop
  pub plain : AllPlain extra
  pub headers : AllHeaders n extra
  pub stops : Stops stop

pub line_length :
    (name text : List ℕ) (ls : List (List ℕ × List ℕ)) (body : List ℕ) (m : ℕ)
    → length (lines_text ((name, text) ∷ ls) body) ≤ m
    → (length (line_of name text) ≤ m) × (length (lines_text ls body) ≤ m)
line_length name text ls body m h =
    omega (arith, length-append (line_of name text) (13 ∷ 10 ∷ lines_text ls body))

response_lines-store_lines :
    (n m : ℕ) (ls : List (List ℕ × List ℕ)) (rest : List (List ℕ)) (s : Scratch) (res : HttpInfo)
    → n ≤ m
    → length s.key ≡ m
    → length s.value ≡ m
    → AllShort m ls
    → AllPlain ls
    → AllHeaders n ls
    → Sized res
    → Stops rest
    → response_lines n (lines_list ls rest) s res ≡ ok (store_lines ls res)
unfolding response_lines
response_lines-store_lines n m [] rest s res le key value fits plain headers sized stops =
    response_lines-stop n rest s res stops
response_lines-store_lines n m ((name, text) ∷ ls) rest s res le key value fits plain headers sized
      stops =
    let is = headers.0 in
    let short = is.short in
    let line_fits = fits.0 in
    let line : IsLine n s name text = record {
      name_plain = plain.0.0.0;
      text_plain = plain.0.1.0;
      one_word = is.one_word;
      short = is.short;
      key_size = omega arith;
      value_size = omega arith;
      line_size = omega arith;
    } in
    let (s', run, split) = split_line-Split n s name text line in
    rw
      (
        response_lines,
        index_of-append b' ' name text is.one_word,
        run,
        store_response_field-ok n s' name text split.key_rest split.value_rest res split.key
            split.value plain.0.0.0 plain.0.1.0 is sized,
      )
      (response_lines-store_lines n m ls rest s' (store_line name text res) le
        (split.key_length ∙ key) (split.value_length ∙ value) fits.1 plain.1 headers.1
        (store_line-Sized n name text res is sized) stops)

AllShort-lines_text :
    (m : ℕ) (ls : List (List ℕ × List ℕ)) (rest : List ℕ)
    → length (lines_text ls rest) ≤ m
    → AllShort m ls × (length rest ≤ m)
AllShort-lines_text m [] rest h = (tt, h)
AllShort-lines_text m ((name, text) ∷ ls) rest h =
    let one = line_length name text ls rest m h in
    let more = AllShort-lines_text m ls rest one.1 in ((one.0, more.0), more.1)

-- The loop over the header lines and on into the body.
pub response_lines-BodyLines :
    (n m : ℕ) (ls extra : List (List ℕ × List ℕ)) (body : List ℕ) (s : Scratch) (res : HttpInfo)
    → n ≤ m
    → length s.key ≡ m
    → length s.value ≡ m
    → length (lines_text ls (13 ∷ 10 ∷ body)) ≤ m
    → AllPlain ls
    → AllHeaders n ls
    → Sized res
    → BodyLines n body extra
    → response_lines n (lines_list ls (tokens body)) s res ≡ ok (store_lines (ls ++ extra) res)
response_lines-BodyLines n m ls extra body s res le key value fits plain headers sized behind =
    let short = AllShort-lines_text m ls (13 ∷ 10 ∷ body) fits in
    let tokens_short =
      Short-mono (length body) m (tokens body) (let e = short.1 in omega arith)
        (tokens-Short body) in
    let extra_short = AllShort-lines_list m extra behind.stop (rw behind.cut at tokens_short) in
    ap (λ l. response_lines n (lines_list ls l) s res) behind.cut
    ∙ (ap (λ l. response_lines n l s res) (lines_list-append ls extra behind.stop)
        ∙ response_lines-store_lines n m (ls ++ extra) behind.stop s res le key value
            (AllShort-append m ls extra short.0 extra_short)
            (AllPlain-append ls extra plain behind.plain)
            (AllHeaders-append n ls extra headers behind.headers) sized behind.stops)
