-- ===== src/Dashboard/Licenses/Row.antt =====
-- frontend/src/app/licenses/page.tsx: a row of the table of licenses, and the statuses that the buttons of
-- a row can bring a license to.
use volq_auth.Base.{
  ℕ, ◌≤◌, ◌/◌, ◌%◌, ◌==◌, ◌≡◌, ◌≢◌, refl, ◌⊎◌, inl, inr, Bool, true, false, not, Option, none, some,
  List, [], ◌∷◌, length, if◌then◌else◌, String, ◌<>◌, is_empty, arith,
}
use volq_auth.Base.Digits.{to_string}
use volq_auth.Dashboard.Types.{License, Status, unactivated, active, paused, banned, expired}

-- The colours of a badge.
pub data Badge : Type 0 where
  success brand warning danger muted : Badge

-- `getStatusBadge`; the default of the switch is for no status of the type.
unfoldable get_status_badge : Status → Badge
get_status_badge active = success
get_status_badge unactivated = brand
get_status_badge paused = warning
get_status_badge banned = danger
get_status_badge expired = danger

-- The buttons that call `updateStatus`.
pub data Button : Type 0 where
  pause resume ban unban : Button

-- The status that a button asks for.
unfoldable pub requested : Button → Status
requested pause = paused
requested resume = active
requested ban = banned
requested unban = active

-- `lic.status === status`
abbrev pub same : Status → Status → Bool
same unactivated unactivated = true
same active active = true
same paused paused = true
same banned banned = true
same expired expired = true
same _ _ = false

-- Whether the row of a license of this status has the button.
unfoldable pub has_button : Status → Button → Bool
has_button s pause = same s active
has_button s resume = same s paused
has_button s ban = not (same s banned)
has_button s unban = same s banned

-- What the row says of the length of the license: `Lifetime`, or the days; `print_days` is the text of a
-- quotient that is not whole.
unfoldable pub duration_text : (ℕ → String) → License → String
duration_text print_days l =
    let days =
      if l.duration_seconds % 86400 == 0
      then to_string 10 (l.duration_seconds / 86400)
      else print_days l.duration_seconds in
    if l.is_lifetime then "Lifetime" else days <> " Days"

-- `v ? … : …` on a text that may be missing
abbrev given : Option String → Bool
given none = false
given (some s) = if is_empty s then false else true

-- Whether the row has the button that resets the hardware lock.
unfoldable pub has_reset : License → Bool
has_reset l = given l.hwid_hash

-- The expiry that the row shows; `date_text` is `toLocaleDateString` of the parsed date.
unfoldable pub expiry_text : (String → String) → License → String
expiry_text date_text l = if l.is_lifetime then "Never" else elim l.expires_at [
  | none ↦ "On First Launch"
  | some at ↦ if is_empty at then "On First Launch" else date_text at
]

-- Presses of buttons of one row, each on the status that the last one asked for; `none` where the row does
-- not have the button.
unfoldable pub press_all : List Button → Status → Option Status
press_all [] s = some s
press_all (b ∷ bs) s =
    let rest = press_all bs (requested b) in if has_button s b then rest else none

-- A button is only there for a status that it changes.
pub has_button-changes : (s : Status) (b : Button) → has_button s b ≡ true → requested b ≢ s
unfolding has_button requested
has_button-changes unactivated b h = elim b [
  | pause ↦ ground arith
  | resume ↦ ground arith
  | ban ↦ ground arith
  | unban ↦ ground arith
]
has_button-changes active b h = elim b [
  | pause ↦ ground arith
  | resume ↦ ground arith
  | ban ↦ ground arith
  | unban ↦ ground arith
]
has_button-changes paused b h = elim b [
  | pause ↦ ground arith
  | resume ↦ ground arith
  | ban ↦ ground arith
  | unban ↦ ground arith
]
has_button-changes banned b h = elim b [
  | pause ↦ ground arith
  | resume ↦ ground arith
  | ban ↦ ground arith
  | unban ↦ ground arith
]
has_button-changes expired b h = elim b [
  | pause ↦ ground arith
  | resume ↦ ground arith
  | ban ↦ ground arith
  | unban ↦ ground arith
]

-- From every status the buttons lead to `active` in at most two presses, also from `expired` and before
-- the first activation.
pub press_all_active :
    (s : Status) → (bs : List Button) × (length bs ≤ 2) × (press_all bs s ≡ some active)
unfolding press_all has_button requested
press_all_active unactivated = (ban ∷ unban ∷ [], omega arith, refl)
press_all_active active = ([], omega arith, refl)
press_all_active paused = (resume ∷ [], omega arith, refl)
press_all_active banned = (unban ∷ [], omega arith, refl)
press_all_active expired = (ban ∷ unban ∷ [], omega arith, refl)

-- The statuses that a button asks for.
abbrev pub IsManual : Status → Type 0
IsManual s = (s ≡ active) ⊎ (s ≡ paused) ⊎ (s ≡ banned)

requested-IsManual : (b : Button) → IsManual (requested b)
unfolding requested
requested-IsManual pause = inr (inl refl)
requested-IsManual resume = inl refl
requested-IsManual ban = inr (inr refl)
requested-IsManual unban = inl refl

press_all-IsManual :
    (bs : List Button) (s t : Status) → IsManual s → press_all bs s ≡ some t → IsManual t
unfolding press_all
press_all-IsManual [] s t m h = ground arith
press_all-IsManual (b ∷ bs) s t m h =
    press_all-IsManual bs (requested b) t (requested-IsManual b) (ground arith)

-- Once a button is pressed, no row of buttons brings back `unactivated` or `expired`.
press_all_left :
    (b : Button) (bs : List Button) (s t : Status) → press_all (b ∷ bs) s ≡ some t → IsManual t
unfolding press_all
press_all_left b bs s t h =
    press_all-IsManual bs (requested b) t (requested-IsManual b) (ground arith)
