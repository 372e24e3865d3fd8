-- ===== src/Dashboard/Loads/Calls.antt =====
-- What is under way on a page: the newest of its loads, and the reloads that follow its changes.
use volq_auth.Base.{
  ℕ, zero, suc, ◌+◌, ◌≡◌, refl, Bool, true, false, Option, none, some, List, [], ◌∷◌, ◌++◌, String,
  All, arith,
}
use volq_auth.Dashboard.Loads.{Call, loads, revises, Event, answered}

abbrev pub has_revision : List Call → Bool
has_revision [] = false
has_revision (loads path ∷ ks) = has_revision ks
has_revision (revises path ∷ ks) = true

abbrev pub is_revision : Option Call → Bool
is_revision (some (revises path)) = true
is_revision _ = false

-- The newest of the loads under way.
abbrev pub newest : List Call → Option String
newest [] = none
newest (loads path ∷ ks) = elim (newest ks) [ none ↦ some path | some q ↦ some q ]
newest (revises path ∷ ks) = newest ks

pub newest-loads : (ks : List Call) (path : String) → newest (ks ++ loads path ∷ []) ≡ some path
newest-loads [] path = refl
newest-loads (loads q ∷ ks) path = ground (arith, newest-loads ks path)
newest-loads (revises q ∷ ks) path = newest-loads ks path

pub newest-revises : (ks : List Call) (path : String) → newest (ks ++ revises path ∷ []) ≡ newest ks
newest-revises [] path = refl
newest-revises (loads q ∷ ks) path = ground (arith, newest-revises ks path)
newest-revises (revises q ∷ ks) path = newest-revises ks path

-- The reloads that will follow are for this path.
abbrev pub IsFor : String → Call → Type 0
IsFor path (loads q) = Unit
IsFor path (revises q) = q ≡ path

pub All-snoc :
    (path : String) (ks : List Call) (k : Call)
    → All (IsFor path) ks
    → IsFor path k
    → All (IsFor path) (ks ++ k ∷ [])
All-snoc path [] k h j = (j, tt)
All-snoc path (x ∷ ks) k h j = (h.0, All-snoc path ks k h.1 j)

pub no_revision : (path : String) (ks : List Call) → has_revision ks ≡ false → All (IsFor path) ks
no_revision path [] h = tt
no_revision path (loads q ∷ ks) h = (tt, no_revision path ks h)
no_revision path (revises q ∷ ks) h = absurd (ground arith)

-- The answers that are left to come: two for a handler that reloads the list.
abbrev pub answers_left : List Call → ℕ
answers_left [] = 0
answers_left (loads path ∷ ks) = 1 + answers_left ks
answers_left (revises path ∷ ks) = 2 + answers_left ks

-- The oldest request is answered, and again.
abbrev pub answers : {C : Type 0} → ℕ → List (Event C)
answers zero = []
answers (suc n) = answered 0 ∷ answers n

pub answers_left-snoc :
    (ks : List Call) (path : String) → answers_left (ks ++ loads path ∷ []) ≡ 1 + answers_left ks
answers_left-snoc [] path = omega arith
answers_left-snoc (loads q ∷ ks) path = omega (arith, answers_left-snoc ks path)
answers_left-snoc (revises q ∷ ks) path = omega (arith, answers_left-snoc ks path)
