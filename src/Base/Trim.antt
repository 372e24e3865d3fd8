-- ===== src/Base/Trim.antt =====
-- `trim` leaves nothing to trim.
use Prim.Native.Nat.{ℕ}
use Prim.Native.Char.{code}
use Prim.Native.String.{String, [], ◌∷◌}
use mathlib.Core.Path.{◌≡◌, refl}
use mathlib.Core.Logic.{inl, inr}
use mathlib.Core.Bool.{Bool, false, ◌&&◌}
use native.Mathlib.Omega.{arith}
use text.Mathlib.TextLemmas.{nil-append, cons-append}
use volq_auth.Base.Tests.{Bool-cases, if◌then◌else◌}
use volq_auth.Base.Text.{
  ◌<>◌, is_empty, is_space, trim_start, drop_end, trim, EndsNot, drop_end-EndsNot,
  drop_end_of_EndsNot,
}

-- The first character is no space, or there is none.
abbrev pub StartsNot : String → Type 0
StartsNot [] = Unit
StartsNot (c ∷ s) = is_space (code c) ≡ false

trim_start-StartsNot : (s : String) → StartsNot (trim_start s)
unfolding trim_start
trim_start-StartsNot [] = tt
trim_start-StartsNot (c ∷ s) = elim (Bool-cases (is_space (code c))) [
  | inl e ↦ rw e (trim_start-StartsNot s)
  | inr e ↦ rw (e, if◌then◌else◌) e
]

trim_start_of_StartsNot : (s : String) → StartsNot s → trim_start s ≡ s
unfolding trim_start
trim_start_of_StartsNot [] h = refl
trim_start_of_StartsNot (c ∷ s) h = rw h

drop_end-StartsNot : (p : ℕ → Bool) (s : String) → StartsNot s → StartsNot (drop_end p s)
unfolding drop_end
drop_end-StartsNot p [] h = tt
drop_end-StartsNot p (c ∷ s) h = elim (Bool-cases (p (code c) && is_empty (drop_end p s))) [
  | inl e ↦ rw e tt
  | inr e ↦ rw e h
]

-- Trimming a second time changes nothing.
pub trim_idempotent : (s : String) → trim (trim s) ≡ trim s
unfolding trim
trim_idempotent s =
    rw
      (trim_start_of_StartsNot (drop_end is_space (trim_start s))
        (drop_end-StartsNot is_space (trim_start s) (trim_start-StartsNot s)))
      (drop_end_of_EndsNot is_space _ (drop_end-EndsNot is_space (trim_start s)))

-- A text that is not empty ends a longer one.
pub EndsNot-append :
    (p : ℕ → Bool) (s t : String) → is_empty t ≡ false → EndsNot p t → EndsNot p (s <> t)
EndsNot-append p [] t e h = rw nil-append h
EndsNot-append p (c ∷ []) [] e h = absurd (ground arith)
EndsNot-append p (c ∷ []) (d ∷ t) e h = rw (cons-append, nil-append) h
EndsNot-append p (c ∷ d ∷ s) t e h =
    rw (cons-append, cons-append) (rw cons-append at (EndsNot-append p (d ∷ s) t e h))

-- Trimming leaves a text alone that neither starts nor ends in white space.
pub trim_of : (s : String) → StartsNot s → EndsNot is_space s → trim s ≡ s
unfolding trim
trim_of s starts ends = rw (trim_start_of_StartsNot s starts) (drop_end_of_EndsNot is_space s ends)
