-- ===== src/Proxy/Http/Fields.antt =====
-- The header lines of an answer, and the fields that parse_response stores.
use ecen_602_projects.Common.{
  ℕ, ◌+◌, ◌<◌, ◌≡◌, refl, ◌∙◌, true, List, [], ◌∷◌, ◌++◌, arith, if◌then◌else◌, length, drop,
  length-append, length-drop, Bool-cases, inl, inr,
}
use ecen_602_projects.Memory.{ok, NoNul, strcmp_eq}
use ecen_602_projects.Sbcp.Clients.Names.{same}
use ecen_602_projects.Proxy.Http.Defs.{
  HttpInfo, Scratch, length_key, date_key, store_response_field,
}
use ecen_602_projects.Proxy.Http.Strings.{Without}
use ecen_602_projects.Proxy.Http.Line.{field, strcpy-ok}

pub strcmp_eq-same :
    (a literal rest : List ℕ)
    → NoNul a
    → NoNul literal
    → strcmp_eq (a ++ 0 ∷ rest) literal ≡ ok (same a literal)
unfolding strcmp_eq same
strcmp_eq-same [] [] rest h k = refl
strcmp_eq-same [] (d ∷ t) rest h k = let e = k.0 in ground arith
strcmp_eq-same (c ∷ s) [] rest h k = let e = h.0 in ground arith
strcmp_eq-same (c ∷ s) (d ∷ t) rest h k = let ih = strcmp_eq-same s t rest h.1 k.1 in ground arith

-- A header line that the proxy looks at, and one that it does not.
abbrev pub store_line : List ℕ → List ℕ → HttpInfo → HttpInfo
store_line name text res =
    if same name length_key
    then record res { content_length = field text res.content_length }
    else if same name date_key
    then record res { date = field text res.date }
    else res

abbrev pub store_lines : List (List ℕ × List ℕ) → HttpInfo → HttpInfo
store_lines [] res = res
store_lines ((name, text) ∷ ls) res = store_lines ls (store_line name text res)

-- The values fit into their fields, and every name is shorter than the first line, which has `n` bytes.
pub record IsHeader (n : ℕ) (name text : List ℕ) : Type 0 where
  pub one_word : Without b' ' name
  pub short : length name < n
  pub length_fits : same name length_key ≡ true → length text < 10
  pub date_fits : same name date_key ≡ true → length text < 30

abbrev pub AllHeaders : ℕ → List (List ℕ × List ℕ) → Type 0
AllHeaders n [] = Unit
AllHeaders n ((name, text) ∷ ls) = IsHeader n name text × AllHeaders n ls

pub record Sized (res : HttpInfo) : Type 0 where
  pub content_length : length res.content_length ≡ 10
  pub date : length res.date ≡ 30

pub length-field :
    (text array : List ℕ) → length text < length array → length (field text array) ≡ length array
length-field text array h = omega (
  arith,
  length-append text (0 ∷ drop (length text + 1) array),
  length-drop (length text + 1) array,
)

pub store_line-Sized :
    (n : ℕ) (name text : List ℕ) (res : HttpInfo)
    → IsHeader n name text
    → Sized res
    → Sized (store_line name text res)
store_line-Sized n name text res is sized = elim (Bool-cases (same name length_key)) [
  | inl e ↦ rw e (record {
    content_length =
        length-field text res.content_length
          (let a = is.length_fits e in let b = sized.content_length in omega arith)
        ∙ sized.content_length;
    date = sized.date;
  })
  | inr e ↦ rw e (elim (Bool-cases (same name date_key)) [
    | inl d ↦ rw d (record {
      content_length = sized.content_length;
      date =
          length-field text res.date (let a = is.date_fits d in let b = sized.date in omega arith)
          ∙ sized.date;
    })
    | inr d ↦ rw d sized
  ])
]

pub store_response_field-ok :
    (n : ℕ) (s : Scratch) (name text key_rest value_rest : List ℕ) (res : HttpInfo)
    → s.key ≡ name ++ 0 ∷ key_rest
    → s.value ≡ text ++ 0 ∷ value_rest
    → NoNul name
    → NoNul text
    → IsHeader n name text
    → Sized res
    → store_response_field s res ≡ ok (store_line name text res)
unfolding store_response_field
store_response_field-ok n s name text key_rest value_rest res key value h k is sized =
    elim (Bool-cases (same name length_key)) [
      | inl e ↦ rw (
        key,
        strcmp_eq-same name length_key key_rest h (omega arith),
        e,
        value,
        strcpy-ok res.content_length text value_rest k
            (let a = is.length_fits e in let b = sized.content_length in omega arith),
      )
      | inr e ↦ elim (Bool-cases (same name date_key)) [
        | inl d ↦ rw (
          key,
          strcmp_eq-same name length_key key_rest h (omega arith),
          e,
          strcmp_eq-same name date_key key_rest h (omega arith),
          d,
          value,
          strcpy-ok res.date text value_rest k
              (let a = is.date_fits d in let b = sized.date in omega arith),
        )
        | inr d ↦ rw (
          key,
          strcmp_eq-same name length_key key_rest h (omega arith),
          e,
          strcmp_eq-same name date_key key_rest h (omega arith),
          d,
        )
      ]
    ]
