-- ===== src/Base/Digits.antt =====
-- `n.toString(radix)` and `padStart`, for radix 10 and 16.
pub mod Decimal
use volq_auth.Base.Lists.{All, length}
use Prim.Native.String.{String}
use volq_auth.Base.Tests.{ltb, Bool-cases, if◌then◌else◌}
use volq_auth.Base.Text.{◌<>◌, text_length, text_length-append, utf16}
use mathlib.Core.Path.{◌≡◌, refl}
use mathlib.Core.Logic.{inl, inr}
use mathlib.Core.List.{List, [], ◌∷◌}
use mathlib.Core.Bool.{true}
use Prim.Native.Nat.{ℕ, zero, suc, ◌-◌, ◌*◌, ◌/◌, ◌%◌, ◌^◌, ◌≤◌, ◌<◌}
use native.Mathlib.Omega.{arith}
use native.Mathlib.Nat.{pow-suc}

abbrev digit_list : List String
digit_list =
    "0" ∷ "1" ∷ "2" ∷ "3" ∷ "4" ∷ "5" ∷ "6" ∷ "7" ∷ "8" ∷ "9" ∷ "a" ∷ "b" ∷ "c" ∷ "d" ∷ "e" ∷ "f"
    ∷ []

pick : List String → ℕ → String
pick [] n = "0"
pick (d ∷ ds) zero = d
pick (d ∷ ds) (suc n) = pick ds n

unfoldable pub digit : ℕ → String
unfolding pick
digit n = pick digit_list n

-- The digits of `n`, the last by the remainder; `n` is fuel enough, as each round divides it.
render : ℕ → ℕ → ℕ → String
render zero radix n = digit n
render (suc fuel) radix n =
    let rest = render fuel radix (n / radix) <> digit (n % radix) in
    if ltb n radix then digit n else rest

unfoldable pub to_string : ℕ → ℕ → String
unfolding render digit
to_string radix n = render n radix n

unfoldable pub repeat_text : ℕ → String → String
repeat_text zero s = ""
repeat_text (suc n) s = s <> repeat_text n s

-- `s.padStart(width, '0')`
unfoldable pub pad_start : ℕ → String → String
unfolding repeat_text
pad_start width s = repeat_text (width - text_length s) "0" <> s

to_string_tests :
    (to_string 16 0xdeadbeef ≡ "deadbeef") × (to_string 10 502 ≡ "502") × (pad_start 2 "a" ≡ "0a")
unfolding to_string pad_start text_length
to_string_tests = (refl, refl, refl)

pick-length :
    (ds : List String) (n : ℕ) → All (λ d. text_length d ≡ 1) ds → text_length (pick ds n) ≡ 1
unfolding pick text_length utf16
pick-length [] n h = refl
pick-length (d ∷ ds) zero h = h.0
pick-length (d ∷ ds) (suc n) h = pick-length ds n h.1

digit-length : (n : ℕ) → text_length (digit n) ≡ 1
unfolding digit text_length utf16
digit-length n = pick-length digit_list n (omega arith)

render-length-le : (fuel k n : ℕ) → n < 16 ^ suc k → text_length (render fuel 16 n) ≤ suc k
unfolding render
render-length-le zero k n h = omega (arith, digit-length n)
render-length-le (suc fuel) zero n h =
    let low : ltb n 16 ≡ true = ground (arith, pow-suc 16 0) in
    rw low (omega (arith, digit-length n))
render-length-le (suc fuel) (suc k) n h = elim (Bool-cases (ltb n 16)) [
  | inl low ↦ rw low (omega (arith, digit-length n))
  | inr high ↦ rw high (
      omega (
        arith,
        text_length-append (render fuel 16 (n / 16)) (digit (n % 16)),
        digit-length (n % 16),
        render-length-le fuel k (n / 16) (omega (arith, pow-suc 16 (suc k))),
      ))
]

text_length-nil : text_length "" ≡ 0
unfolding text_length
text_length-nil = refl

text_length-zero : text_length "0" ≡ 1
unfolding text_length
text_length-zero = refl

pub repeat_text-length : (n : ℕ) (s : String) → text_length (repeat_text n s) ≡ n * text_length s
unfolding repeat_text
repeat_text-length zero s = omega (arith, text_length-nil)
repeat_text-length (suc n) s =
    omega (arith, text_length-append s (repeat_text n s), repeat_text-length n s)

-- A number below 16 ^ k, padded to k hexadecimal digits, has exactly k.
pub pad_start-length :
    (k n : ℕ) → n < 16 ^ suc k → text_length (pad_start (suc k) (to_string 16 n)) ≡ suc k
unfolding pad_start to_string text_length
pad_start-length k n h =
    let gap : ℕ = suc k - text_length (render n 16 n) in
    omega (
      arith,
      text_length-append (repeat_text gap "0") (render n 16 n),
      repeat_text-length gap "0",
      text_length-zero,
      render-length-le n k n h,
    )

-- `bytes.map((b) => b.toString(16).padStart(2, '0')).join('')`
unfoldable pub hex_bytes : List ℕ → String
hex_bytes [] = ""
hex_bytes (b ∷ bs) = pad_start 2 (to_string 16 b) <> hex_bytes bs

pub hex_bytes-length :
    (bs : List ℕ) → All (λ b. b < 256) bs → text_length (hex_bytes bs) ≡ 2 * length bs
unfolding hex_bytes
hex_bytes-length [] h = omega (arith, text_length-nil)
hex_bytes-length (b ∷ bs) h = omega (
  arith,
  text_length-append (pad_start 2 (to_string 16 b)) (hex_bytes bs),
  pad_start-length 1 b h.0,
  hex_bytes-length bs h.1,
)
