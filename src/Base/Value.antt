-- ===== src/Base/Value.antt =====
-- JavaScript values as `resp.json()` and `JSON.parse` give them.
use Prim.Native.Nat.{ℕ}
use Prim.Native.String.{String}
use mathlib.Core.Bool.{Bool, true, false, not}
use volq_auth.Base.Tests.{◌==◌, if◌then◌else◌}
use volq_auth.Base.Text.{◌===◌, is_empty}
use volq_auth.Base.Effects.{Result, ok, throw}

-- Whole numbers; `negsuc n` is -(n + 1).
pub data ℤ : Type 0 where
  pos : ℕ → ℤ
  negsuc : ℕ → ℤ

mutual
  -- The members of an object, by name.
  pub data Fields : Type 0 where
    end : Fields
    field : String → Value → Fields → Fields

  -- The members of an array, in their order.
  pub data Items : Type 0 where
    nil : Items
    item : Value → Items → Items

  pub data Value : Type 0 where
    undefined null : Value
    bool : Bool → Value
    num : ℤ → Value
    str : String → Value
    obj : Fields → Value
    arr : Items → Value

-- `!!v`
abbrev pub truthy : Value → Bool
truthy undefined = false
truthy null = false
truthy (bool b) = b
truthy (num (pos n)) = not (n == 0)
truthy (num (negsuc n)) = true
truthy (str s) = not (is_empty s)
truthy (arr xs) = true
truthy (obj fs) = true

-- `v || w`
abbrev pub or_else : Value → Value → Value
or_else v w = if truthy v then v else w

-- `v === s` for a text `s`
abbrev pub is_text : Value → String → Bool
is_text (str t) s = t === s
is_text _ s = false

-- The names in an object are distinct.
unfoldable pub lookup_field : String → Fields → Value
lookup_field k end = undefined
lookup_field k (field j v fs) = if j === k then v else lookup_field k fs

-- `v.k`; `undefined` and `null` have no members, and the read throws `e`.
abbrev pub member {ℓ} : {E : Type ℓ} → E → String → Value → Result E Value
member e k undefined = throw e
member e k null = throw e
member e k (obj fs) = ok (lookup_field k fs)
member e k _ = ok undefined
