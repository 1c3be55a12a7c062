-- ===== src/Proxy/Cache/Lookup.antt =====
-- What is_cache_hit finds, by the strings of the URLs.
use ecen_602_projects.Common.{
  ℕ, ◌≤◌, ◌≡◌, refl, ap, ◌∙◌, Bool, true, false, List, [], ◌∷◌, ◌++◌, if◌then◌else◌, length,
}
use ecen_602_projects.Memory.{ok, NoNul}
use ecen_602_projects.Sbcp.Clients.Names.{same, strcmp_arrays-same}
use ecen_602_projects.Proxy.Links.{Ptr, null}
use ecen_602_projects.Proxy.Http.{HttpInfo}
use ecen_602_projects.Proxy.Heap.{World, lift}
use ecen_602_projects.Proxy.Cache.Defs.{CacheQueue, both, same_url, is_hit, is_cache_hit}
use ecen_602_projects.Proxy.Cache.Queue.{Cells, IsQueue}
use ecen_602_projects.Proxy.Cache.Search.{first_hit, hit_or, is_cache_hit-first_hit}

-- The two strings of a URL, and what stands behind their terminators in the arrays.
pub record Url : Type 0 where
  pub host : List ℕ
  pub path : List ℕ
  pub host_rest : List ℕ
  pub path_rest : List ℕ

pub record HasUrl (u : Url) (i : HttpInfo) : Type 0 where
  pub host : i.host ≡ u.host ++ 0 ∷ u.host_rest
  pub path : i.path ≡ u.path ++ 0 ∷ u.path_rest
  pub plain : NoNul u.host × NoNul u.path

-- Every node of the list has its URL.
abbrev pub HaveUrls : List Url → Cells → Type 0
HaveUrls [] [] = Unit
HaveUrls [] (x ∷ cells) = ⊥
HaveUrls (v ∷ urls) [] = ⊥
HaveUrls (v ∷ urls) ((a, c) ∷ cells) = HasUrl v c.http_info × HaveUrls urls cells

-- The three conditions of a match.
unfoldable pub matches : (complete same_host same_path : Bool) → Bool
matches true true true = true
matches false same_host same_path = false
matches true false same_path = false
matches true true false = false

-- The first node with complete information whose host and path are the same strings, or null.
unfoldable pub first_match : Url → List Url → Cells → Ptr
first_match u [] cells = null
first_match u (v ∷ urls) [] = null
first_match u (v ∷ urls) ((a, c) ∷ cells) =
    if matches c.http_info.info_complete (same v.host u.host) (same v.path u.path)
    then a
    else first_match u urls cells

both_lem : (a b : Bool) → both (ok a) (ok b) ≡ ok (matches true a b)
unfolding matches
both_lem true true = refl
both_lem true false = refl
both_lem false b = refl

same_url-matches :
    (u v : Url) (i j : HttpInfo)
    → HasUrl u i
    → HasUrl v j
    → same_url j i ≡ ok (matches true (same v.host u.host) (same v.path u.path))
unfolding same_url
same_url-matches u v i j hu hv = rw (
  hu.host,
  hu.path,
  hv.host,
  hv.path,
  strcmp_arrays-same v.host u.host v.host_rest u.host_rest hv.plain.0 hu.plain.0,
  strcmp_arrays-same v.path u.path v.path_rest u.path_rest hv.plain.1 hu.plain.1,
  both_lem (same v.host u.host) (same v.path u.path),
)

guarded_lem :
    (complete a b : Bool)
    → (if complete then ok (matches true a b) else ok false) ≡ ok (matches complete a b)
unfolding matches
guarded_lem true a b = refl
guarded_lem false a b = refl

is_hit-matches :
    (u v : Url) (i j : HttpInfo)
    → HasUrl u i
    → HasUrl v j
    → is_hit i j ≡ ok (matches j.info_complete (same v.host u.host) (same v.path u.path))
unfolding is_hit
is_hit-matches u v i j hu hv =
    rw (same_url-matches u v i j hu hv)
      (guarded_lem j.info_complete (same v.host u.host) (same v.path u.path))

hit_or-if : (hit : Bool) (a rest : Ptr) → hit_or (ok hit) a (ok rest) ≡ ok (if hit then a else rest)
unfolding hit_or
hit_or-if true a rest = refl
hit_or-if false a rest = refl

first_hit-first_match :
    (u : Url) (urls : List Url) (cells : Cells) (i : HttpInfo)
    → HasUrl u i
    → HaveUrls urls cells
    → first_hit i cells ≡ ok (first_match u urls cells)
unfolding first_hit first_match
first_hit-first_match u [] [] i hu h = refl
first_hit-first_match u [] (x ∷ cells) i hu h = absurd h
first_hit-first_match u (v ∷ urls) [] i hu h = absurd h
first_hit-first_match u (v ∷ urls) ((a, c) ∷ cells) i hu h = rw (
  is_hit-matches u v i c.http_info hu h.0,
  first_hit-first_match u urls cells i hu h.1,
  hit_or-if (matches c.http_info.info_complete (same v.host u.host) (same v.path u.path)) a
      (first_match u urls cells),
)

-- In a queue of at most as many nodes as slots, where the host and path arrays of every node and of
-- the request hold strings with their terminators, the search ends, changes nothing and gives the first
-- node with complete information whose host and path are the request's, whatever stands behind the
-- terminators, or null if there is none.
pub is_cache_hit-first_match :
    (w : World) (q : CacheQueue) (cells : Cells) (i : HttpInfo) (u : Url) (urls : List Url)
    → IsQueue w q cells
    → length cells ≤ q.max_slot
    → HasUrl u i
    → HaveUrls urls cells
    → is_cache_hit q i w ≡ ok (first_match u urls cells, w)
is_cache_hit-first_match w q cells i u urls is few hu h =
    is_cache_hit-first_hit w q cells i is few
    ∙ ap (λ o. lift o w) (first_hit-first_match u urls cells i hu h)
