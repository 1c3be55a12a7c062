-- ===== src/HttpClient/Request.antt =====
-- A URL with a scheme, a host and a path: what main cuts out of it, in memory that was never used.
use ecen_602_projects.Common.{
  ℕ, zero, suc, ◌+◌, ◌-◌, ◌≤◌, ◌<◌, ◌≡◌, refl, sym, ap, ◌∙◌, Bool, true, false, some, List, [], ◌∷◌,
  ◌++◌, arith, if◌then◌else◌, length, drop, replicate, length-append, length-replicate,
  append_assoc,
}
use ecen_602_projects.Memory.{
  ok, NoNul, NoNul-append, c_string, c_string-append, slice, slice-append, memcpy-front, memcpy_all,
  strcmp_eq,
}
use ecen_602_projects.Proxy.Http.{strchr, index_of}
use ecen_602_projects.Proxy.Http.Strings.{Without, index_of-append}
use ecen_602_projects.HttpClient.Defs.{
  Arrays, http_text, https_text, copy_from, scheme, is_web, without_scheme, split_host, split_url,
}

abbrev pub zeros : ℕ → List ℕ
zeros n = replicate n 0

zeros_split :
    (a n : ℕ) (rest : List ℕ) → a ≤ n → zeros n ++ rest ≡ zeros a ++ (zeros (n - a) ++ rest)
zeros_split zero n rest h = ap (λ m. zeros m ++ rest) (omega arith)
zeros_split (suc a) zero rest h = absurd (omega arith)
zeros_split (suc a) (suc n) rest h =
    ap (λ l. 0 ∷ l) (zeros_split a n rest (omega arith))
    ∙ ap (λ m. zeros (suc a) ++ (zeros m ++ rest)) (omega arith)

drop-zeros : (a n : ℕ) → drop a (zeros n) ≡ zeros (n - a)
drop-zeros zero n = ap zeros (omega arith)
drop-zeros (suc a) zero = ap zeros (let e : 0 ≡ 0 - suc a = omega arith in e)
drop-zeros (suc a) (suc n) = drop-zeros a n ∙ ap zeros (omega arith)

pub c_string-zeros :
    (s : List ℕ) (n : ℕ) (rest : List ℕ)
    → NoNul s
    → 0 < n
    → c_string (s ++ (zeros n ++ rest)) ≡ ok s
c_string-zeros s zero rest h k = absurd (omega arith)
c_string-zeros s (suc n) rest h k = c_string-append s (zeros n ++ rest) h

-- A string with zeros behind it, in fresh memory.
slice-zeros :
    (front mid : List ℕ) (k n off : ℕ) (rest : List ℕ)
    → length front ≡ off
    → length mid ≤ n
    → n ≤ length mid + k
    → slice (front ++ (mid ++ (zeros k ++ rest))) off n ≡ ok (mid ++ zeros (n - length mid))
slice-zeros front mid k n off rest e le fits =
    let more = n - length mid in
    let z : ℕ = 0 in
    ap (λ l. slice (front ++ (mid ++ l)) off n) (zeros_split more k rest (omega arith))
    ∙ ap (λ l. slice (front ++ l) off n)
        (sym (append_assoc mid (zeros more) (zeros (k - more) ++ rest)))
    ∙ slice-append front (mid ++ zeros more) (zeros (k - more) ++ rest) off n e
        (omega (arith, length-append mid (zeros more), length-replicate more z))

-- memcpy of the front of an array into fresh memory.
copy_from-zeros :
    (s rest : List ℕ) (n : ℕ)
    → length s ≤ n
    → copy_from (zeros n) (s ++ rest) 0 (length s) ≡ ok (s ++ zeros (n - length s))
unfolding copy_from
copy_from-zeros s rest n le =
    let z : ℕ = 0 in
    rw (
      slice-append [] s rest 0 (length s) refl refl,
      memcpy-front (zeros n) s (omega (arith, length-replicate n z)),
      drop-zeros (length s) n,
    )

-- What malloc(n) gives where nothing was freed before.
abbrev pub fresh : ℕ → List ℕ → Arrays
fresh n rest = record {
  path = zeros n;
  host = zeros n;
  u = zeros n;
  p = zeros n;
  behind = zeros n ++ rest;
}

abbrev pub scheme_text : Bool → List ℕ
scheme_text secure = if secure then https_text else http_text

abbrev pub url_of : (secure : Bool) → (host tail : List ℕ) → List ℕ
url_of secure host tail = scheme_text secure ++ b'/' ∷ b'/' ∷ (host ++ b'/' ∷ tail)

copy_from_whole :
    (front mid : List ℕ) (k n off : ℕ) (dst rest : List ℕ)
    → length front ≡ off
    → length mid ≤ n
    → n ≤ length mid + k
    → length dst ≡ n
    → copy_from dst (front ++ (mid ++ (zeros k ++ rest))) off n ≡ ok (mid ++ zeros (n - length mid))
unfolding copy_from
copy_from_whole front mid k n off dst rest e le fits size =
    let z : ℕ = 0 in
    rw (
      slice-zeros front mid k n off rest e le fits,
      memcpy_all dst (mid ++ zeros (n - length mid)) (
          omega (
            arith,
            length-append mid (zeros (n - length mid)),
            length-replicate (n - length mid) z,
          )),
    )

found :
    (target more : List ℕ) (k pos : ℕ)
    → NoNul target
    → index_of b'/' target ≡ some pos
    → 0 < k
    → strchr b'/' (target ++ (zeros k ++ more)) ≡ ok (some pos)
unfolding strchr
found target more k pos h e lt = rw (c_string-zeros target k more h lt, e)

without_scheme-ok :
    (a : Arrays) (s target u rest : List ℕ) (n pos : ℕ)
    → a.behind ≡ zeros n ++ rest
    → length (s ++ b'/' ∷ b'/' ∷ target) ≡ n
    → length u ≡ n
    → NoNul target
    → index_of b'/' target ≡ some pos
    → without_scheme a (s ++ b'/' ∷ b'/' ∷ target) u (some (length s))
      ≡ ok (target ++ zeros (n - length target), some pos)
unfolding without_scheme
without_scheme-ok a s target u rest n pos behind size u_size plain at =
    let long : length s + 2 + length target ≡ n =
      omega (arith, length-append s (b'/' ∷ b'/' ∷ target)) in
    rw (
      size,
      behind,
      append_assoc s (b'/' ∷ b'/' ∷ target) (zeros n ++ rest),
      ← append_assoc s (b'/' ∷ b'/' ∷ []) (target ++ (zeros n ++ rest)),
      copy_from_whole (s ++ b'/' ∷ b'/' ∷ []) target n n (length s + 2) u rest
          (omega (arith, length-append s (b'/' ∷ b'/' ∷ []))) (omega arith) (omega arith) u_size,
      append_assoc target (zeros (n - length target)) (zeros n ++ rest),
      found target (zeros n ++ rest) (n - length target) pos plain at (omega arith),
    )

split_host-ok :
    (a : Arrays) (c : ℕ) (name path rest : List ℕ) (n w : ℕ)
    → a.behind ≡ zeros n ++ rest
    → a.host ≡ zeros n
    → length a.path ≡ n
    → length (c ∷ name) ≤ n
    → length path ≤ n
    → split_host a (((c ∷ name) ++ path) ++ zeros w) n (some (suc (length name)))
      ≡ ok ((c ∷ name) ++ zeros (n - length (c ∷ name)), path ++ zeros (n - length path))
unfolding split_host
split_host-ok a c name path rest n w behind host_fresh path_size host_fits path_fits =
    let z : ℕ = 0 in
    let zs : zeros w ++ (zeros n ++ rest) ≡ zeros (w + n) ++ rest =
      ap (λ m. zeros w ++ (zeros m ++ rest)) (let e : n ≡ w + n - w = omega arith in e)
      ∙ sym (zeros_split w (w + n) rest (omega arith)) in
    rw (
      behind,
      host_fresh,
      append_assoc ((c ∷ name) ++ path) (zeros w) (zeros n ++ rest),
      zs,
      append_assoc (c ∷ name) path (zeros (w + n) ++ rest),
      copy_from-zeros (c ∷ name) (path ++ (zeros (w + n) ++ rest)) n host_fits,
      copy_from_whole (c ∷ name) path (w + n) n (suc (length name)) a.path rest refl path_fits
          (omega arith) path_size,
    )

http_is_web :
    (secure : Bool) (k : ℕ) (more : List ℕ)
    → 0 < k
    → is_web ((scheme_text secure ++ zeros k) ++ more) ≡ ok true
unfolding is_web strcmp_eq
http_is_web secure zero more h = absurd (omega arith)
http_is_web true (suc k) more h = refl
http_is_web false (suc k) more h = refl

scheme_text-Without :
    (secure : Bool) → NoNul (scheme_text secure) × Without b'/' (scheme_text secure)
scheme_text-Without true = (omega arith, omega arith)
scheme_text-Without false = (omega arith, omega arith)

-- In memory that was never used, the host and the path of a URL are cut out of it, with terminators.
pub split_url-parts :
    (secure : Bool) (c : ℕ) (name tail rest : List ℕ) (n : ℕ)
    → NoNul (c ∷ name)
    → Without b'/' (c ∷ name)
    → NoNul tail
    → length (url_of secure (c ∷ name) tail) ≡ n
    → split_url (fresh n rest) (url_of secure (c ∷ name) tail)
      ≡ ok (
        (c ∷ name) ++ zeros (n - length (c ∷ name)),
        (b'/' ∷ tail) ++ zeros (n - length (b'/' ∷ tail)),
      )
unfolding split_url scheme
split_url-parts secure c name tail rest n h one t size =
    let z : ℕ = 0 in
    let s = scheme_text secure in
    let target = (c ∷ name) ++ b'/' ∷ tail in
    let plain : NoNul target = NoNul-append (c ∷ name) (b'/' ∷ tail) h (omega arith, t) in
    let word = scheme_text-Without secure in
    let long : length s + 2 + length target ≡ n =
      omega (arith, length-append s (b'/' ∷ b'/' ∷ target)) in
    let parts : length target ≡ length (c ∷ name) + suc (length tail) =
      omega (arith, length-append (c ∷ name) (b'/' ∷ tail)) in
    rw (
      found (url_of secure (c ∷ name) tail) rest n (length s)
          (NoNul-append s (b'/' ∷ b'/' ∷ target) word.0 (omega arith, (omega arith, plain)))
          (index_of-append b'/' s (b'/' ∷ target) word.1) (omega arith),
      memcpy_all (zeros n) (url_of secure (c ∷ name) tail) (omega (arith, length-replicate n z)),
      append_assoc s (b'/' ∷ b'/' ∷ target) (zeros n ++ rest),
      copy_from-zeros s (b'/' ∷ b'/' ∷ (target ++ (zeros n ++ rest))) n (omega arith),
      http_is_web secure (n - length s) (zeros n ++ rest) (omega arith),
      without_scheme-ok (fresh n rest) s target (url_of secure (c ∷ name) tail) rest n
          (suc (length name)) refl size size plain (index_of-append b'/' (c ∷ name) tail one),
      size,
      split_host-ok (fresh n rest) c name (b'/' ∷ tail) rest n (n - length target) refl refl
          (length-replicate n z) (omega arith) (omega arith),
    )
