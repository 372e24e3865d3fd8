-- ===== src/Base/Text.antt =====
-- JavaScript's operations on text, over the native strings.
use Prim.Native.Nat.{ℕ, suc, ◌+◌, ◌-◌, ◌/◌, ◌%◌}
use Prim.Native.Char.{code}
use Prim.Native.String
use Prim.Native.String.{String, [], ◌∷◌}
use mathlib.Core.Path.{◌≡◌, refl}
use mathlib.Core.Logic.{inl, inr}
use mathlib.Core.Option.{Option, none, some}
use mathlib.Core.Bool.{Bool, true, false, ◌&&◌, ◌||◌}
use mathlib.Core.List.{List}
use mathlib.Core.List
use native.Mathlib.Omega.{arith}
use text.Mathlib.Text.{starts_with, ◌==◌ as text_eq}
use text.Mathlib.TextLemmas.{nil-append, cons-append, append_assoc}
use volq_auth.Base.Tests.{leb, ltb, ◌==◌, if◌then◌else◌, Bool-cases}
use volq_auth.Base.Lists.{length, length-append}

infix 50 ◌===◌
-- `s === t` on texts
abbrev pub ◌===◌ : String → String → Bool
s === t = text_eq s t

infixr 65 ◌<>◌
-- `s + t`
abbrev pub ◌<>◌ : String → String → String
s <> t = String.◌++◌ s t

abbrev pub is_empty : String → Bool
is_empty [] = true
is_empty (c ∷ s) = false

-- `o || d` on a text that may be missing or empty, as a variable of the environment
abbrev pub text_or : Option String → String → String
text_or none d = d
text_or (some s) d = if is_empty s then d else s

-- A code point as one UTF-16 unit, or as two.
abbrev pub units_of : ℕ → List ℕ
units_of c =
    if ltb c 0x10000
    then List.◌∷◌ c List.[]
    else List.◌∷◌ (0xd800 + (c - 0x10000) / 0x400)
        (List.◌∷◌ (0xdc00 + (c - 0x10000) % 0x400) List.[])

-- the UTF-16 units that `charCodeAt` walks
unfoldable pub utf16 : String → List ℕ
utf16 [] = List.[]
utf16 (c ∷ s) = List.◌++◌ (units_of (code c)) (utf16 s)

-- `s.length`
unfoldable pub text_length : String → ℕ
unfolding utf16
text_length s = length (utf16 s)

pub is_empty_append : (s t : String) → is_empty s ≡ false → is_empty (s <> t) ≡ false
is_empty_append [] t h = absurd (ground arith)
is_empty_append (c ∷ s) t h = rw cons-append refl

pub append_text : (s t r : String) → (s <> t) <> r ≡ s <> t <> r
append_text s t r = append_assoc s t r

utf16-append : (s t : String) → utf16 (s <> t) ≡ List.◌++◌ (utf16 s) (utf16 t)
unfolding utf16
utf16-append [] t = rw nil-append refl
utf16-append (c ∷ s) t = rw (cons-append, utf16-append s t) (simp List.append_assoc)

pub text_length-append : (s t : String) → text_length (s <> t) ≡ text_length s + text_length t
unfolding text_length
text_length-append s t = rw (utf16-append s t) (length-append (utf16 s) (utf16 t))

pub is_empty_of_length : (n : ℕ) (s : String) → text_length s ≡ suc n → is_empty s ≡ false
unfolding text_length
is_empty_of_length n [] h = absurd (omega arith)
is_empty_of_length n (c ∷ s) h = refl

-- The white space and line ends that `trim` removes.
unfoldable pub is_space : ℕ → Bool
is_space c =
    (leb 9 c && leb c 13)
    || c == 32
    || c == 0xa0
    || c == 0x1680
    || (leb 0x2000 c && leb c 0x200a)
    || c == 0x2028
    || c == 0x2029
    || c == 0x202f
    || c == 0x205f
    || c == 0x3000
    || c == 0xfeff

unfoldable pub trim_start : String → String
unfolding is_space
trim_start [] = []
trim_start (c ∷ s) = let rest = trim_start s in if is_space (code c) then rest else c ∷ s

-- Drops the longest run at the end whose characters all pass the test.
unfoldable pub drop_end : (ℕ → Bool) → String → String
drop_end p [] = []
drop_end p (c ∷ s) = let rest = drop_end p s in if p (code c) && is_empty rest then [] else c ∷ rest

-- `s.trim()`
unfoldable pub trim : String → String
unfolding trim_start drop_end is_space
trim s = drop_end is_space (trim_start s)

abbrev pub is_slash : ℕ → Bool
is_slash c = c == b'/'

-- `s.replace(/\/+$/, '')`
unfoldable pub strip_slashes : String → String
unfolding drop_end
strip_slashes s = drop_end is_slash s

-- `texts.join('\n')`
unfoldable pub lines : List String → String
lines List.[] = ""
lines (List.◌∷◌ k List.[]) = k
lines (List.◌∷◌ k (List.◌∷◌ l ks)) = k <> "\n" <> lines (List.◌∷◌ l ks)

-- `s.includes(t)`
unfoldable pub includes : String → String → Bool
includes [] t = is_empty t
includes (c ∷ s) t = starts_with (c ∷ s) t || includes s t

-- The last character of a text fails the test, or there is none.
abbrev pub EndsNot : (ℕ → Bool) → String → Type 0
EndsNot p [] = Unit
EndsNot p (c ∷ []) = p (code c) ≡ false
EndsNot p (c ∷ d ∷ s) = EndsNot p (d ∷ s)

EndsNot-cons :
    (p : ℕ → Bool) (c : Prim.Native.Char.Char) (s : String)
    → (is_empty s ≡ true → p (code c) ≡ false)
    → EndsNot p s
    → EndsNot p (c ∷ s)
EndsNot-cons p c [] h k = h refl
EndsNot-cons p c (d ∷ s) h k = k

-- What is left ends in a character that fails the test.
pub drop_end-EndsNot : (p : ℕ → Bool) (s : String) → EndsNot p (drop_end p s)
unfolding drop_end
drop_end-EndsNot p [] = tt
drop_end-EndsNot p (c ∷ s) = elim (Bool-cases (p (code c) && is_empty (drop_end p s))) [
  | inl e ↦ rw e tt
  | inr e ↦ rw e (EndsNot-cons p c (drop_end p s) (λ h. ground arith) (drop_end-EndsNot p s))
]

-- A text that ends so is left as it is.
pub drop_end_of_EndsNot : (p : ℕ → Bool) (s : String) → EndsNot p s → drop_end p s ≡ s
unfolding drop_end
drop_end_of_EndsNot p [] h = refl
drop_end_of_EndsNot p (c ∷ []) h = rw h
drop_end_of_EndsNot p (c ∷ d ∷ s) h = rw (drop_end_of_EndsNot p (d ∷ s) h, drop_end) (ground arith)

abbrev pub AllText : (ℕ → Bool) → String → Type 0
AllText p [] = Unit
AllText p (c ∷ s) = (p (code c) ≡ true) × AllText p s

is_empty-append : (x r s : String) → is_empty x ≡ true → x <> r ≡ s → r ≡ s
is_empty-append [] r s h e = rw nil-append at e
is_empty-append (c ∷ x) r s h e = cc

-- What is dropped passes the test.
drop_end-append : (p : ℕ → Bool) (s : String) → (r : String) × AllText p r × (drop_end p s <> r ≡ s)
unfolding drop_end
drop_end-append p [] = ([], tt, nil-append [])
drop_end-append p (c ∷ s) =
    let (r, all, e) = drop_end-append p s in
    elim (Bool-cases (p (code c) && is_empty (drop_end p s))) [
      | inl t ↦ (
        c ∷ s,
        (ground arith, rw (← is_empty-append (drop_end p s) r s (ground arith) e) all),
        rw (t, nil-append) refl,
      )
      | inr t ↦ (r, all, rw (t, cons-append, e) refl)
    ]
