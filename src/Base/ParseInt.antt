-- ===== src/Base/ParseInt.antt =====
-- `parseInt(s, 10)`; the digits are taken at their exact value.
use Prim.Native.Nat.{ℕ, zero, suc, ◌+◌, ◌-◌, ◌*◌}
use Prim.Native.Char.{code}
use Prim.Native.String.{String, [], ◌∷◌}
use mathlib.Core.Path.{◌≡◌, refl}
use mathlib.Core.Option.{Option, none, some}
use volq_auth.Base.Tests.{◌==◌, if◌then◌else◌}
use volq_auth.Base.Text.{trim_start, ◌<>◌}
use volq_auth.Base.Digits.{to_string}
use volq_auth.Base.Digits.Decimal.{is_digit}
use volq_auth.Base.Value.{ℤ, pos, negsuc}

-- The value of what was read and of the digits that follow; `none` where there are none.
unfoldable digits_from : Option ℕ → String → Option ℕ
digits_from read [] = read
digits_from read (c ∷ s) =
    let before : ℕ = elim read [ none ↦ 0 | some n ↦ n ] in
    let rest = digits_from (some (10 * before + (code c - b'0'))) s in
    if is_digit (code c) then rest else read

abbrev negate : ℕ → ℤ
negate zero = pos 0
negate (suc n) = negsuc n

parse_signed : String → Option ℤ
unfolding digits_from
parse_signed [] = none
parse_signed (c ∷ s) =
    if code c == b'-'
    then elim (digits_from none s) [ none ↦ none | some n ↦ some (negate n) ]
    else elim (digits_from none (if code c == b'+' then s else c ∷ s)) [
      | none ↦ none
      | some n ↦ some (pos n)
    ]

-- `none` is `NaN`.
unfoldable pub parse_int : String → Option ℤ
unfolding parse_signed trim_start
parse_int s = parse_signed (trim_start s)

-- `String(n)`
unfoldable pub print_int : ℤ → String
print_int (pos n) = to_string 10 n
print_int (negsuc n) = "-" <> to_string 10 (n + 1)

parse_int_tests :
    (parse_int " 8080" ≡ some (pos 8080))
    × (parse_int "-12px" ≡ some (negsuc 11))
    × (parse_int "+7" ≡ some (pos 7))
    × (parse_int "port" ≡ none)
    × (parse_int "" ≡ none)
unfolding parse_int
parse_int_tests = (refl, refl, refl, refl, refl)
