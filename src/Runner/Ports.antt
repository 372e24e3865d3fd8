-- ===== src/Runner/Ports.antt =====
-- The configuration that index.js reads from the environment: the two ports and the mode.
use volq_auth.Base.{
  ◌≡◌, ◌↔◌, ◌==◌, ◌+◌, Bool, true, false, ◌||◌, Option, none, some, if◌then◌else◌, String, ◌<>◌,
  text_or, ◌===◌, arith,
}
use volq_auth.Base.Value.{ℤ, pos, negsuc}
use volq_auth.Base.Digits.{to_string}
use volq_auth.Base.ParseInt.{parse_int}
use volq_auth.Base.Storage.{Storage, get_item}

unfoldable pub public_port : Storage → Option ℤ
public_port env =
    parse_int (text_or (get_item "SERVER_PORT" env) (text_or (get_item "PORT" env) "3000"))

unfoldable pub requested_port : Storage → Option ℤ
requested_port env = parse_int (text_or (get_item "BACKEND_PORT" env) "8080")

-- `a === b` on numbers, where `NaN` equals nothing.
abbrev pub same_port : Option ℤ → Option ℤ → Bool
same_port none q = false
same_port (some (pos m)) (some (pos n)) = m == n
same_port (some (pos m)) (some (negsuc n)) = false
same_port (some (negsuc m)) (some (negsuc n)) = m == n
same_port (some (negsuc m)) (some (pos n)) = false
same_port (some (pos m)) none = false
same_port (some (negsuc m)) none = false

abbrev shift_port : Option ℤ → Option ℤ → Option ℤ
shift_port public requested = if same_port public requested then some (pos 8081) else requested

unfoldable pub backend_port : Storage → Option ℤ
backend_port env = shift_port (public_port env) (requested_port env)

unfoldable pub is_dev : Storage → Bool
is_dev env =
    text_or (get_item "NODE_ENV" env) "" === "development"
    || text_or (get_item "DEV_MODE" env) "" === "true"

-- `String(port)`
unfoldable pub print_port : Option ℤ → String
print_port none = "NaN"
print_port (some (pos n)) = to_string 10 n
print_port (some (negsuc n)) = "-" <> to_string 10 (n + 1)

shift_port-collides :
    (p q : Option ℤ)
    → (same_port p (shift_port p q) ≡ true) ↔ ((p ≡ some (pos 8081)) × (q ≡ some (pos 8081)))
shift_port-collides none q = ground arith
shift_port-collides (some (pos m)) none = ground arith
shift_port-collides (some (pos m)) (some (pos n)) = ground arith
shift_port-collides (some (pos m)) (some (negsuc n)) = ground arith
shift_port-collides (some (negsuc m)) none = ground arith
shift_port-collides (some (negsuc m)) (some (pos n)) = ground arith
shift_port-collides (some (negsuc m)) (some (negsuc n)) = ground arith

-- The backend gets the port of the frontend exactly where both ports are asked to be 8081.
backend_port-collides :
    (env : Storage)
    → (same_port (public_port env) (backend_port env) ≡ true)
      ↔ ((public_port env ≡ some (pos 8081)) × (requested_port env ≡ some (pos 8081)))
unfolding backend_port
backend_port-collides env = shift_port-collides (public_port env) (requested_port env)
