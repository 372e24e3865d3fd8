-- ===== src/Dashboard/Health.antt =====
-- frontend/src/app/api/health/route.ts: the URL of the backend and the answer of the probe.
use Prim.Native.Char.{code}
use Prim.Native.String.{[], ◌∷◌ as cons}
use text.Mathlib.TextPositions.{starts_with-append, starts_with_of_prefix}
use text.Mathlib.TextEquality.{starts_with_iff}
use text.Mathlib.TextLemmas.{nil-append, cons-append, append_assoc}
use volq_auth.Base.Digits.Decimal.{only_digits}
use volq_auth.Base.{
  ℕ, ◌≡◌, refl, ◌==◌, Bool, true, false, not, ◌&&◌, ◌||◌, Option, none, some, if◌then◌else◌, String,
  ◌<>◌, text_or, includes, trim, strip_slashes, starts_with, ◌⊎◌, inl, inr, Bool-cases,
}

-- `url.match(/:\d+$/)`
unfoldable pub has_port : String → Bool
unfolding only_digits
has_port [] = false
has_port (cons c s) = (code c == b':' && only_digits s) || has_port s

abbrev has_scheme : String → Bool
has_scheme url = starts_with url "http://" || (starts_with url "https://" || starts_with url "/")

unfoldable pub add_scheme : String → String
add_scheme url =
    if has_scheme url
    then url
    else if includes url ".railway.app"
        || (includes url ".vercel.app" || includes url ".render.com")
    then "https://" <> url
    else "http://" <> url

unfoldable pub add_port : String → String
add_port url =
    if includes url ".railway.internal" && not (has_port url) then url <> ":8080" else url

-- The arguments are `INTERNAL_API_URL` and `NEXT_PUBLIC_API_URL`.
unfoldable pub backend_url : Option String → Option String → String
backend_url internal public =
    add_port (
      add_scheme (strip_slashes (trim (text_or internal (text_or public "http://127.0.0.1:8080")))))

-- What the probe comes to: a response with its status, or an exception.
pub data Probe {ℓ} (A : Type ℓ) : Type ℓ where
  reached : ℕ → ℕ → Option A → Probe A
  unreachable : String → Option String → Option String → Probe A

pub record Health {ℓ} (A : Type ℓ) : Type ℓ where
  pub status : String
  pub http_status : ℕ
  pub target : String
  pub latency_ms : Option ℕ
  pub backend_status : Option ℕ
  pub response : Option A
  pub error : Option String
  pub error_code : Option String
  pub tip : Option String
  pub public_url : String
  pub internal_url : String

abbrev tip_text : String
tip_text =
    "For Railway, set NEXT_PUBLIC_API_URL to your backend public URL (e.g. https://volq-auth-backend-production.up.railway.app)."

-- `GET`; the probe runs on the target, from `started` by the clock to `ended`.
unfoldable pub health {ℓ} :
    {A : Type ℓ} → Option String → Option String → (String → Probe A) → Health A
health internal public probe =
    let target = backend_url internal public <> "/api/v1/client/ping" in
    elim (probe target) [
      | reached duration status body ↦ record {
        status = "online";
        http_status = 200;
        target = target;
        latency_ms = some duration;
        backend_status = some status;
        response = body;
        error = none;
        error_code = none;
        tip = none;
        public_url = text_or public "(not set)";
        internal_url = text_or internal "(not set)";
      }
      | unreachable message cause code ↦ record {
        status = "unreachable";
        http_status = 502;
        target = target;
        latency_ms = none;
        backend_status = none;
        response = none;
        error = some message;
        error_code = some (text_or cause (text_or code "UNKNOWN"));
        tip = some tip_text;
        public_url = text_or public "(not set)";
        internal_url = text_or internal "(not set)";
      }
    ]

-- A URL that a fetch from the server can resolve, or a path.
abbrev pub IsRooted : String → Type 0
IsRooted url =
    (starts_with url "http://" ≡ true)
    ⊎ (starts_with url "https://" ≡ true)
    ⊎ (starts_with url "/" ≡ true)

has_scheme-IsRooted : (url : String) → has_scheme url ≡ true → IsRooted url
has_scheme-IsRooted url h = elim (Bool-cases (starts_with url "http://")) [
  | inl e ↦ inl e
  | inr ne ↦ elim (Bool-cases (starts_with url "https://")) [
    | inl e ↦ inr (inl e)
    | inr nf ↦ inr (inr (rw (ne, nf) at h))
  ]
]

add_scheme-IsRooted : (url : String) → IsRooted (add_scheme url)
unfolding add_scheme
add_scheme-IsRooted url = elim (Bool-cases (has_scheme url)) [
  | inl h ↦ rw h (has_scheme-IsRooted url h)
  | inr nh ↦
      elim (Bool-cases (
        includes url ".railway.app"
        || (includes url ".vercel.app" || includes url ".render.com"))) [
          | inl e ↦ rw (nh, e) (inr (inl (starts_with-append "https://" url)))
          | inr e ↦ rw (nh, e) (inl (starts_with-append "http://" url))
        ]
]

or_true : (b : Bool) → (b || true) ≡ true
or_true true = refl
or_true false = refl

pub has_port-append : (s t : String) → has_port t ≡ true → has_port (s <> t) ≡ true
unfolding has_port
has_port-append [] t h = rw nil-append h
has_port-append (cons c s) t h =
    rw (cons-append, has_port-append s t h) (or_true (code c == b':' && only_digits (s <> t)))

-- The URL of a service inside Railway always ends in a port.
pub add_port-has_port :
    (url : String) → includes url ".railway.internal" ≡ true → has_port (add_port url) ≡ true
unfolding add_port has_port
add_port-has_port url h = elim (Bool-cases (has_port url)) [
  | inl e ↦ rw (h, e, if◌then◌else◌) e
  | inr e ↦ rw (h, e) (has_port-append url ":8080" refl)
]

-- What starts a text starts it when it grows longer at its end.
longer : (s t r : String) → starts_with s t ≡ true → starts_with (s <> r) t ≡ true
longer s t r h =
    let (u, e) = (starts_with_iff s t).0 h in
    starts_with_of_prefix t (s <> r) (u <> r, rw (← append_assoc t u r, e))

add_port-IsRooted : (url : String) → IsRooted url → IsRooted (add_port url)
unfolding add_port
add_port-IsRooted url h =
    elim (Bool-cases (includes url ".railway.internal" && not (has_port url))) [
      | inl e ↦ rw e (elim h [
        | inl p ↦ inl (longer url "http://" ":8080" p)
        | inr (inl p) ↦ inr (inl (longer url "https://" ":8080" p))
        | inr (inr p) ↦ inr (inr (longer url "/" ":8080" p))
      ])
      | inr e ↦ rw e h
    ]

-- Whatever the environment says, the probe's URL has a scheme of the web or is a path.
pub backend_url-IsRooted :
    (internal public : Option String) → IsRooted (backend_url internal public)
unfolding backend_url
backend_url-IsRooted internal public =
    let bare = strip_slashes (trim (text_or internal (text_or public "http://127.0.0.1:8080"))) in
    add_port-IsRooted (add_scheme bare) (add_scheme-IsRooted bare)
