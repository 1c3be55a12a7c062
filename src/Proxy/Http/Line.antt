-- ===== src/Proxy/Http/Line.antt =====
-- One header line: how it is cut at its first space, and where its value goes.
use ecen_602_projects.Common.{
  ℕ, suc, ◌+◌, ◌-◌, ◌≤◌, ◌<◌, ◌≡◌, sym, ap, ◌∙◌, List, [], ◌∷◌, ◌++◌, arith, length, drop,
  replicate, length-append, length-drop, length-replicate, append_assoc, append-nil,
}
use ecen_602_projects.Memory.{
  ok, NoNul, memcpy, memcpy-front, slice, slice-append, strcpy, strcmp_eq, strcmp_eq_self,
  c_string-append,
}
use ecen_602_projects.Proxy.Http.Defs.{
  HttpInfo, Scratch, index_of, strncpy, split_line, host_key, agent_key, store_request_field,
  request_line,
}
use ecen_602_projects.Proxy.Http.Strings.{
  Without, index_of-append, padded_string-append, padded_string_filled, drop_zeros,
}

abbrev pub line_of : List ℕ → List ℕ → List ℕ
line_of name text = name ++ b' ' ∷ text

-- A name of fewer than `n` bytes, and a line that fits into the arrays, of which memset clears `n`.
pub record IsLine (n : ℕ) (s : Scratch) (name text : List ℕ) : Type 0 where
  pub name_plain : NoNul name
  pub text_plain : NoNul text
  pub one_word : Without b' ' name
  pub short : length name < n
  pub key_size : n ≤ length s.key
  pub value_size : n ≤ length s.value
  pub line_size : length (line_of name text) ≤ length s.value

-- The two arrays behind the line.
pub record Split (s : Scratch) (name text : List ℕ) (s' : Scratch) : Type 0 where
  pub key_rest : List ℕ
  pub value_rest : List ℕ
  pub key : s'.key ≡ name ++ 0 ∷ key_rest
  pub value : s'.value ≡ text ++ 0 ∷ value_rest
  pub key_length : length s'.key ≡ length s.key
  pub value_length : length s'.value ≡ length s.value

memset_front :
    (n : ℕ) (dst : List ℕ)
    → n ≤ length dst
    → memcpy dst 0 (replicate n 0) ≡ ok (replicate n 0 ++ drop n dst)
memset_front n dst h =
    memcpy-front dst (replicate n 0) (omega (arith, length-replicate n (let z : ℕ = 0 in z)))
    ∙ ap (λ k. ok (replicate n 0 ++ drop k dst)) (length-replicate n 0)

length_cleared :
    (n : ℕ) (dst : List ℕ) → n ≤ length dst → length (replicate n 0 ++ drop n dst) ≡ length dst
length_cleared n dst h = omega (
  arith,
  length-append (replicate n 0) (drop n dst),
  length-replicate n (let z : ℕ = 0 in z),
  length-drop n dst,
)

length_over :
    (src dst : List ℕ)
    → length src ≤ length dst
    → length (src ++ drop (length src) dst) ≡ length dst
length_over src dst h =
    omega (arith, length-append src (drop (length src) dst), length-drop (length src) dst)

module _ (n : ℕ) (s : Scratch) (name text : List ℕ) (is : IsLine n s name text) where
  abbrev cleared_key : List ℕ
  cleared_key = replicate n 0 ++ drop n s.key

  abbrev cleared_value : List ℕ
  cleared_value = replicate n 0 ++ drop n s.value

  abbrev padded : List ℕ
  padded = text ++ replicate (suc (length name)) 0

  abbrev next_scratch : Scratch
  next_scratch = record {
    key = name ++ drop (length name) cleared_key;
    value = padded ++ drop (length padded) cleared_value;
  }

  length_line : length (line_of name text) ≡ length name + 1 + length text
  length_line = omega (arith, length-append name (b' ' ∷ text))

  length-padded : length padded ≡ length (line_of name text)
  length-padded = omega (
    arith,
    length_line,
    length-append text (replicate (suc (length name)) (let z : ℕ = 0 in z)),
    length-replicate (suc (length name)) (let z : ℕ = 0 in z),
  )

  key-ok : strncpy cleared_key (line_of name text ++ 0 ∷ []) (length name) ≡ ok next_scratch.key
  unfolding strncpy
  key-ok =
      rw
        (
          append_assoc name (b' ' ∷ text) (0 ∷ []),
          padded_string-append name (b' ' ∷ (text ++ 0 ∷ [])) is.name_plain,
        )
        (memcpy-front cleared_key name
          (let a = is.short in let b = is.key_size in omega (arith, length_cleared n s.key b)))

  rest-ok :
      slice
        (line_of name text ++ 0 ∷ [])
        (length name + 1)
        (length (line_of name text) - length name)
      ≡ ok (text ++ 0 ∷ [])
  rest-ok =
      rw
        (
          append_assoc name (b' ' ∷ text) (0 ∷ []),
          ← append_assoc name (b' ' ∷ []) (text ++ 0 ∷ []),
          ← append-nil (text ++ 0 ∷ []),
        )
        (slice-append (name ++ b' ' ∷ []) (text ++ 0 ∷ []) [] (length name + 1)
            (length (line_of name text) - length name)
            (omega (arith, length-append name (b' ' ∷ [])))
            (omega (arith, length-append text (0 ∷ []), length_line))
          ∙ ap ok (sym (append-nil (text ++ 0 ∷ []))))

  value-ok :
      strncpy cleared_value (text ++ 0 ∷ []) (length (line_of name text)) ≡ ok next_scratch.value
  unfolding strncpy
  value-ok =
      rw
        (padded_string_filled (length (line_of name text)) (length name) text []
          (omega (arith, length_line)) is.text_plain)
        (memcpy-front cleared_value padded (
          let a = is.line_size in
          let b = is.value_size in omega (arith, length-padded, length_cleared n s.value b)))

  split_line-ok : split_line n s (line_of name text) (length name) ≡ ok next_scratch
  unfolding split_line
  split_line-ok = rw (
    memset_front n s.key is.key_size,
    memset_front n s.value is.value_size,
    key-ok,
    rest-ok,
    value-ok,
  )

  next_scratch-Split : Split s name text next_scratch
  next_scratch-Split = record {
    key_rest = replicate (n - length name - 1) 0 ++ drop n s.key;
    value_rest = replicate (length name) 0 ++ drop (length padded) cleared_value;
    key = ap (λ l. name ++ l) (drop_zeros (length name) n (drop n s.key) is.short);
    value =
        append_assoc text (replicate (suc (length name)) 0) (drop (length padded) cleared_value);
    key_length =
        length_over name cleared_key
          (let a = is.short in let b = is.key_size in omega (arith, length_cleared n s.key b))
        ∙ length_cleared n s.key is.key_size;
    value_length =
        length_over padded cleared_value (
          let a = is.line_size in
          let b = is.value_size in omega (arith, length-padded, length_cleared n s.value b))
        ∙ length_cleared n s.value is.value_size;
  }

  -- The line is cut at its first space: the name stands in the one array and the value in the other, each
  -- with a terminator.
  pub split_line-Split :
      (s' : Scratch) × (split_line n s (line_of name text) (length name) ≡ ok s')
      × Split s name text s'
  split_line-Split = (next_scratch, split_line-ok, next_scratch-Split)

-- A string with its terminator, copied over the front of an array.
pub strcpy-ok :
    (dst s rest : List ℕ)
    → NoNul s
    → length s < length dst
    → strcpy dst (s ++ 0 ∷ rest) ≡ ok (s ++ 0 ∷ drop (length s + 1) dst)
unfolding strcpy
strcpy-ok dst s rest plain fit =
    let size : length (s ++ 0 ∷ []) ≡ length s + 1 = omega (arith, length-append s (0 ∷ [])) in
    rw (c_string-append s rest plain, memcpy-front dst (s ++ 0 ∷ []) (omega arith), size)
      (ap ok (append_assoc s (0 ∷ []) (drop (length s + 1) dst)))

-- The text of a field, with what its array holds behind.
abbrev pub field : List ℕ → List ℕ → List ℕ
field text array = text ++ 0 ∷ drop (length text + 1) array

module _ (n : ℕ) (s : Scratch) (req : HttpInfo) (text : List ℕ) where
  -- A Host line, and one of the User-Agent: the value stands in its field.
  pub request_line-host :
      IsLine n s host_key text
      → length text < length req.host
      → (s' : Scratch) × (request_line n s req
            (line_of host_key text)
            (index_of b' ' (line_of host_key text))
          ≡ ok (s', record req { host = field text req.host }))
        × Split s host_key text s'
  unfolding request_line store_request_field
  request_line-host is fit =
      let (s', run, split) = split_line-Split n s host_key text is in
      (
        s',
        rw (
          index_of-append b' ' host_key text is.one_word,
          run,
          split.key,
          strcmp_eq_self host_key split.key_rest,
          split.value,
          strcpy-ok req.host text split.value_rest is.text_plain fit,
        ),
        split,
      )

  pub request_line-agent :
      IsLine n s agent_key text
      → length text < length req.user_agent
      → (s' : Scratch) × (request_line n s req
            (line_of agent_key text)
            (index_of b' ' (line_of agent_key text))
          ≡ ok (s', record req { user_agent = field text req.user_agent }))
        × Split s agent_key text s'
  unfolding request_line store_request_field strcmp_eq
  request_line-agent is fit =
      let (s', run, split) = split_line-Split n s agent_key text is in
      (
        s',
        rw (
          index_of-append b' ' agent_key text is.one_word,
          run,
          split.key,
          split.value,
          strcpy-ok req.user_agent text split.value_rest is.text_plain fit,
        ),
        split,
      )
