-- ===== src/HttpClient/Url.antt =====
-- A URL that is only a host.
use ecen_602_projects.Common.{
  ℕ, ◌≡◌, false, none, List, [], ◌∷◌, ◌++◌, arith, length, length-append,
}
use ecen_602_projects.Memory.{
  ok, fault, NoNul, memcpy-fault, memcpy_all, strcpy, strcmp_eq, c_string-append,
}
use ecen_602_projects.Proxy.Http.{strchr}
use ecen_602_projects.Proxy.Http.Strings.{Without, index_of-none}
use ecen_602_projects.HttpClient.Defs.{
  Arrays, http_text, https_text, scheme, split_host, is_web, split_url,
}

strchr-none :
    (url behind rest : List ℕ)
    → NoNul url
    → Without b'/' url
    → behind ≡ 0 ∷ rest
    → strchr b'/' (url ++ behind) ≡ ok none
unfolding strchr
strchr-none url behind rest plain one_word e =
    rw (e, c_string-append url rest plain, index_of-none b'/' url one_word)

strcpy-fault :
    (dst url behind rest : List ℕ)
    → NoNul url
    → behind ≡ 0 ∷ rest
    → length dst ≡ length url
    → strcpy dst (url ++ behind) ≡ fault
unfolding strcpy
strcpy-fault dst url behind rest plain e size = rw (
  e,
  c_string-append url rest plain,
  memcpy-fault dst (url ++ 0 ∷ []) 0 (omega (arith, length-append url (0 ∷ []))),
)

-- For a URL with no slash, in arrays of its length, the terminator of the host is written past its array.
pub split_url-fault :
    (a : Arrays) (url rest : List ℕ)
    → NoNul url
    → Without b'/' url
    → a.behind ≡ 0 ∷ rest
    → length a.u ≡ length url
    → length a.host ≡ length url
    → strcmp_eq (a.p ++ a.behind) http_text ≡ ok false
    → strcmp_eq (a.p ++ a.behind) https_text ≡ ok false
    → split_url a url ≡ fault
unfolding split_url scheme split_host is_web
split_url-fault a url rest plain one_word behind u_size host_size http https = rw (
  strchr-none url a.behind rest plain one_word behind,
  memcpy_all a.u url (omega arith),
  http,
  https,
  strcpy-fault a.host url a.behind rest plain behind host_size,
)
