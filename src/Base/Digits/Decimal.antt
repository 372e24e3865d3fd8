-- ===== src/Base/Digits/Decimal.antt =====
-- The decimal digits of a number are digits.
use Prim.Native.Nat.{ℕ, zero, suc, ◌/◌, ◌%◌, ◌≤◌, ◌<◌}
use Prim.Native.Char.{code}
use Prim.Native.String.{String, [], ◌∷◌}
use mathlib.Core.Path.{◌≡◌, refl}
use mathlib.Core.Logic.{inl, inr}
use mathlib.Core.Bool.{Bool, true, false, ◌&&◌, ◌||◌}
use native.Mathlib.Omega.{arith}
use text.Mathlib.TextLemmas.{nil-append, cons-append}
use volq_auth.Base.Tests.{leb, ltb, Bool-cases}
use volq_auth.Base.Text.{◌<>◌, is_empty, EndsNot}
use volq_auth.Base.Digits.{digit, render, to_string}

abbrev pub is_digit : ℕ → Bool
is_digit c = leb b'0' c && leb c b'9'

-- One digit or more, and nothing else.
unfoldable pub only_digits : String → Bool
only_digits [] = false
only_digits (c ∷ s) = is_digit (code c) && (is_empty s || only_digits s)

only_digits-append :
    (s t : String) → only_digits s ≡ true → only_digits t ≡ true → only_digits (s <> t) ≡ true
unfolding only_digits
only_digits-append [] t h k = absurd (ground arith)
only_digits-append (c ∷ []) t h k = rw (cons-append, nil-append) (ground arith)
only_digits-append (c ∷ d ∷ s) t h k =
    rw (cons-append, only_digits-append (d ∷ s) t (ground arith) k) (ground arith)

digit-only_digits : (n : ℕ) → n < 10 → only_digits (digit n) ≡ true
unfolding only_digits digit
digit-only_digits zero h = refl
digit-only_digits (suc zero) h = refl
digit-only_digits (suc (suc zero)) h = refl
digit-only_digits (suc (suc (suc zero))) h = refl
digit-only_digits (suc (suc (suc (suc zero)))) h = refl
digit-only_digits (suc (suc (suc (suc (suc zero))))) h = refl
digit-only_digits (suc (suc (suc (suc (suc (suc zero)))))) h = refl
digit-only_digits (suc (suc (suc (suc (suc (suc (suc zero))))))) h = refl
digit-only_digits (suc (suc (suc (suc (suc (suc (suc (suc zero)))))))) h = refl
digit-only_digits (suc (suc (suc (suc (suc (suc (suc (suc (suc zero))))))))) h = refl
digit-only_digits (suc (suc (suc (suc (suc (suc (suc (suc (suc (suc n)))))))))) h =
    absurd (omega arith)

render-only_digits : (fuel n : ℕ) → n ≤ fuel → only_digits (render fuel 10 n) ≡ true
unfolding render
render-only_digits zero n h = digit-only_digits n (omega arith)
render-only_digits (suc fuel) n h = elim (Bool-cases (ltb n 10)) [
  | inl low ↦ rw low (digit-only_digits n (ground arith))
  | inr high ↦ rw high (
      only_digits-append (render fuel 10 (n / 10)) (digit (n % 10))
        (render-only_digits fuel (n / 10) (omega arith)) (digit-only_digits (n % 10) (omega arith)))
]

pub to_string-only_digits : (n : ℕ) → only_digits (to_string 10 n) ≡ true
unfolding to_string
to_string-only_digits n = render-only_digits n n (omega arith)

pub only_digits_filled : (s : String) → only_digits s ≡ true → is_empty s ≡ false
unfolding only_digits
only_digits_filled [] h = absurd (ground arith)
only_digits_filled (c ∷ s) h = refl

-- Digits end in no character of a kind that has no digits.
pub only_digits-EndsNot :
    (p : ℕ → Bool) (s : String)
    → ((c : ℕ) → is_digit c ≡ true → p c ≡ false)
    → only_digits s ≡ true
    → EndsNot p s
unfolding only_digits
only_digits-EndsNot p [] f h = tt
only_digits-EndsNot p (c ∷ []) f h = f (code c) (ground arith)
only_digits-EndsNot p (c ∷ d ∷ s) f h = only_digits-EndsNot p (d ∷ s) f (ground arith)
