-- ===== src/Runner/Launch/Proxy.antt =====
-- The frontend that index.js starts passes the API on to the backend that index.js starts.
use text.Mathlib.TextLemmas.{nil-append, cons-append}
use text.Mathlib.TextPositions.{starts_with-append}
use volq_auth.Base.{
  ℕ, ◌≡◌, refl, ap, ◌∙◌, Bool, true, false, Option, some, [], ◌∷◌, String, ◌<>◌, is_slash, is_space,
  trim, trim_of, strip_slashes, drop_end_of_EndsNot, EndsNot, EndsNot-append, append_text,
  is_empty_append, starts_with, arith,
}
use volq_auth.Base.Value.{ℤ, pos}
use volq_auth.Base.Digits.{to_string}
use volq_auth.Base.Digits.Decimal.{
  is_digit, only_digits, to_string-only_digits, only_digits_filled, only_digits-EndsNot,
}
use volq_auth.Base.Storage.{Storage, get_item, get_item-set_item}
use volq_auth.Dashboard.Health.{has_port, has_port-append, add_scheme, add_port, backend_url}
use volq_auth.Dashboard.NextConfig.{rewrites, rewrites-backend_url}
use volq_auth.Runner.Ports.{print_port}
use volq_auth.Runner.Prepare.{backend_address}
use volq_auth.Runner.Launch.{frontend_env, backend_env}

-- An address of this machine with a port.
abbrev local : String → String
local port = "http://127.0.0.1:" <> port

is_digit-is_space : (c : ℕ) → is_digit c ≡ true → is_space c ≡ false
unfolding is_space
is_digit-is_space c h = ground arith

is_digit-is_slash : (c : ℕ) → is_digit c ≡ true → is_slash c ≡ false
is_digit-is_slash c h = ground arith

add_port_of_has_port : (url : String) → has_port url ≡ true → add_port url ≡ url
unfolding add_port
add_port_of_has_port url h = ground arith

add_scheme_of_http : (url : String) → starts_with url "http://" ≡ true → add_scheme url ≡ url
unfolding add_scheme
add_scheme_of_http url h = rw h refl

module _ (port : String) (digits : only_digits port ≡ true) where
  local-has_port : has_port (local port) ≡ true
  unfolding has_port
  local-has_port =
      rw (append_text "http://127.0.0.1" ":" port) (
        has_port-append "http://127.0.0.1" (":" <> port)
          (rw (cons-append, nil-append, digits) refl))

  local-starts_with : starts_with (local port) "http://" ≡ true
  local-starts_with =
      rw (append_text "http://" "127.0.0.1:" port)
        (starts_with-append "http://" ("127.0.0.1:" <> port))

  local-EndsNot :
      (p : ℕ → Bool) → ((c : ℕ) → is_digit c ≡ true → p c ≡ false) → EndsNot p (local port)
  local-EndsNot p f =
      EndsNot-append p "http://127.0.0.1:" port (only_digits_filled port digits)
        (only_digits-EndsNot p port f digits)

  local-trim : trim (local port) ≡ local port
  unfolding is_space
  local-trim = trim_of (local port) (rw cons-append refl) (local-EndsNot is_space is_digit-is_space)

  local-strip_slashes : strip_slashes (local port) ≡ local port
  unfolding strip_slashes
  local-strip_slashes =
      drop_end_of_EndsNot is_slash (local port) (local-EndsNot is_slash is_digit-is_slash)

  local-backend_url : (public : Option String) → backend_url (some (local port)) public ≡ local port
  unfolding backend_url
  local-backend_url public =
      rw
        (
          is_empty_append "http://127.0.0.1:" port refl,
          local-trim,
          local-strip_slashes,
          add_scheme_of_http (local port) local-starts_with,
        )
        (add_port_of_has_port (local port) local-has_port)

frontend_env-address :
    (dev : Bool) (public backend : Option ℤ) (env : Storage)
    → get_item "INTERNAL_API_URL" (frontend_env dev public backend env)
      ≡ some (backend_address backend)
unfolding frontend_env
frontend_env-address dev public backend env =
    get_item-set_item "NODE_ENV" "INTERNAL_API_URL" _ _
    ∙ get_item-set_item "NEXT_PUBLIC_API_URL" "INTERNAL_API_URL" _ _
    ∙ get_item-set_item "INTERNAL_API_URL" "INTERNAL_API_URL" _ _

backend_env-port :
    (dev : Bool) (backend : Option ℤ) (env : Storage)
    → get_item "PORT" (backend_env dev backend env) ≡ some (print_port backend)
unfolding backend_env
backend_env-port dev backend env =
    get_item-set_item "ENV" "PORT" _ _ ∙ get_item-set_item "PORT" "PORT" _ _

rewrites-local :
    (port : String) (public : Option String)
    → only_digits port ≡ true
    → rewrites (some (local port)) public
      ≡ record { source = "/api/v1/:path*"; destination = local port <> "/api/v1/:path*" } ∷ []
rewrites-local port public digits =
    rewrites-backend_url (some (local port)) public
    ∙ ap (λ url. record { source = "/api/v1/:path*"; destination = url <> "/api/v1/:path*" } ∷ [])
        (local-backend_url port digits public)

-- Where the port of the backend is a number, the backend is started on that port, and the frontend with an environment
-- in which its server passes the API on to that port of this machine.
pub rewrites-frontend_env :
    (dev : Bool) (public : Option ℤ) (n : ℕ) (env : Storage)
    → (get_item "PORT" (backend_env dev (some (pos n)) env) ≡ some (to_string 10 n))
      × (rewrites
            (get_item "INTERNAL_API_URL" (frontend_env dev public (some (pos n)) env))
            (get_item "NEXT_PUBLIC_API_URL" (frontend_env dev public (some (pos n)) env))
          ≡ record {
            source = "/api/v1/:path*";
            destination = "http://127.0.0.1:" <> (to_string 10 n <> "/api/v1/:path*");
          }
            ∷ [])
unfolding print_port
rewrites-frontend_env dev public n env = (
  backend_env-port dev (some (pos n)) env,
  ap (λ o. rewrites o (get_item "NEXT_PUBLIC_API_URL" (frontend_env dev public (some (pos n)) env)))
        (frontend_env-address dev public (some (pos n)) env)
      ∙ rewrites-local (to_string 10 n) _ (to_string-only_digits n)
      ∙ ap (λ url. record { source = "/api/v1/:path*"; destination = url } ∷ [])
          (append_text "http://127.0.0.1:" (to_string 10 n) "/api/v1/:path*"),
)
