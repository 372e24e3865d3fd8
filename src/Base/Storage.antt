-- ===== src/Base/Storage.antt =====
-- `localStorage`: texts under keys.
use text.Mathlib.TextEquality.{eq_iff}
use volq_auth.Base.Tests.{if◌then◌else◌}
use Prim.Native.String.{String}
use mathlib.Core.Option.{Option, none, some}
use volq_auth.Base.Text.{◌===◌}
use mathlib.Core.Path.{◌≡◌, refl}
use mathlib.Core.List.{List, [], ◌∷◌}
use native.Mathlib.Omega.{arith}

abbrev pub Storage : Type 0
Storage = List (String × String)

unfoldable pub get_item : String → Storage → Option String
get_item k [] = none
get_item k ((j, v) ∷ m) = if j === k then some v else get_item k m

unfoldable pub set_item : String → String → Storage → Storage
set_item k v [] = (k, v) ∷ []
set_item k v ((j, w) ∷ m) = if j === k then (k, v) ∷ m else (j, w) ∷ set_item k v m

unfoldable pub remove_item : String → Storage → Storage
remove_item k [] = []
remove_item k ((j, w) ∷ m) = let rest = remove_item k m in if j === k then rest else (j, w) ∷ rest

-- Reading after a write.
pub get_item-set_item :
    (k j : String) (v : String) (m : Storage)
    → get_item j (set_item k v m) ≡ (if k === j then some v else get_item j m)
unfolding get_item set_item
get_item-set_item k j v [] = refl
get_item-set_item k j v ((i, w) ∷ m) =
    ground (arith, get_item-set_item k j v m, eq_iff i j, eq_iff i k, eq_iff k j)

-- Reading after a removal.
pub get_item-remove_item :
    (k j : String) (m : Storage)
    → get_item j (remove_item k m) ≡ (if k === j then none else get_item j m)
unfolding get_item remove_item
get_item-remove_item k j [] = ground arith
get_item-remove_item k j ((i, w) ∷ m) =
    ground (arith, eq_iff k j, eq_iff i k, eq_iff i j, get_item-remove_item k j m)
