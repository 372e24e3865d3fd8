-- ===== src/Dashboard/BaseUrl.antt =====
-- `getBaseUrl` of frontend/src/lib/api.ts.
use volq_auth.Base.{
  ◌≡◌, refl, true, not, ◌&&◌, ◌||◌, Option, none, some, if◌then◌else◌, String, ◌<>◌, is_empty,
  includes, trim, strip_slashes, starts_with, ◌⊎◌, inl, inr, Bool-cases,
}
use text.Mathlib.TextPositions.{starts_with-append}

-- The scheme is put in front of a URL that has none.
unfoldable pub with_scheme : String → String
with_scheme url =
    if not (starts_with url "http://") && not (starts_with url "https://")
    then "https://" <> url
    else url

-- The argument is `NEXT_PUBLIC_API_URL`.
unfoldable pub get_base_url : Option String → String
get_base_url none = "/api/v1"
get_base_url (some url) =
    if is_empty url || (includes url ".internal" || includes url ".local")
    then "/api/v1"
    else with_scheme (strip_slashes (trim url)) <> "/api/v1"

-- A URL with a scheme of the web.
abbrev pub IsWeb : String → Type 0
IsWeb url = (starts_with url "http://" ≡ true) ⊎ (starts_with url "https://" ≡ true)

with_scheme-IsWeb : (url : String) → IsWeb (with_scheme url)
unfolding with_scheme
with_scheme-IsWeb url = elim (Bool-cases (starts_with url "http://")) [
  | inl h ↦ rw (h, with_scheme) (inl h)
  | inr nh ↦ elim (Bool-cases (starts_with url "https://")) [
    | inl s ↦ rw (nh, s) (inr s)
    | inr ns ↦ rw (nh, ns) (inr (starts_with-append "https://" url))
  ]
]

-- Whatever the environment says, the base URL is the proxied path "/api/v1" or that path below a
-- URL with the scheme http or https.
pub get_base_url_forms :
    (url : Option String)
    → (get_base_url url ≡ "/api/v1")
      ⊎ ((root : String) × IsWeb root × (get_base_url url ≡ root <> "/api/v1"))
unfolding get_base_url
get_base_url_forms none = inl refl
get_base_url_forms (some url) =
    let root = with_scheme (strip_slashes (trim url)) in
    elim (Bool-cases (is_empty url || (includes url ".internal" || includes url ".local"))) [
      | inl e ↦ inl (rw e)
      | inr e ↦ inr (root, with_scheme-IsWeb (strip_slashes (trim url)), rw e)
    ]
