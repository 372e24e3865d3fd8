-- ===== src/Dashboard/NextConfig.antt =====
-- frontend/next.config.js: the path of the API that the server of the pages passes on to the backend.
use volq_auth.Base.{
  ◌≡◌, not, ◌&&◌, ◌||◌, Option, List, [], ◌∷◌, if◌then◌else◌, String, ◌<>◌, text_or, includes, trim,
  strip_slashes, starts_with, ap, arith,
}
use volq_auth.Dashboard.Health.{has_port, add_scheme, add_port, backend_url}

with_protocol : String → String
with_protocol url =
    if not (starts_with url "http://")
      && (not (starts_with url "https://") && not (starts_with url "/"))
    then (if includes url ".railway.app"
          || (includes url ".vercel.app" || includes url ".render.com")
        then "https://" <> url
        else "http://" <> url)
    else url

with_port : String → String
with_port url =
    if includes url ".railway.internal" && not (has_port url) then url <> ":8080" else url

pub record Rewrite : Type 0 where
  pub source : String
  pub destination : String

-- `rewrites`; the arguments are `INTERNAL_API_URL` and `NEXT_PUBLIC_API_URL`.
unfoldable pub rewrites : Option String → Option String → List Rewrite
unfolding with_protocol with_port
rewrites internal public =
    let given : String = trim (text_or internal (text_or public "http://127.0.0.1:8080")) in
    let backend : String = with_port (with_protocol (strip_slashes given)) in
    record { source = "/api/v1/:path*"; destination = backend <> "/api/v1/:path*" } ∷ []

with_protocol-eq-add_scheme : (url : String) → with_protocol url ≡ add_scheme url
unfolding with_protocol add_scheme
with_protocol-eq-add_scheme url = ground arith

-- The pages' server passes the API on to the address that the probe of the backend's health asks.
pub rewrites-backend_url :
    (internal public : Option String)
    → rewrites internal public
      ≡ record {
        source = "/api/v1/:path*";
        destination = backend_url internal public <> "/api/v1/:path*";
      }
        ∷ []
unfolding rewrites backend_url add_port
rewrites-backend_url internal public =
    let given : String =
      strip_slashes (trim (text_or internal (text_or public "http://127.0.0.1:8080"))) in
    ap
      (λ url.
        record { source = "/api/v1/:path*"; destination = with_port url <> "/api/v1/:path*" } ∷ [])
      (with_protocol-eq-add_scheme given)
