-- ===== src/Dashboard/Visit.antt =====
-- A page below the top bar, components/TopNav.tsx, in which another application can be chosen at any time: the
-- effect of the page then loads the list of that one.
pub mod Laws
use volq_auth.Base.{Bool, true, false, some, List, [], ◌∷◌}
use volq_auth.Dashboard.Types.{Application}
use volq_auth.Dashboard.Auth.{set_selected_app}
use volq_auth.Dashboard.Page.{Page}

-- An event of the page, or a press on an application of the menu, where the flag is whether it is another object than
-- the selected one, so that the effect of the page runs.
pub data Move (E : Type 0) : Type 0 where
  acted : E → Move E
  chose : Bool → Application → Move E

abbrev pub choose : {P : Type 0} → Application → Page P → Page P
choose a (p, s) = (p, set_selected_app (some a) s)

module _ {P E : Type 0} (handle : E → Page P → Page P) (load : Page P → Page P) where
  unfoldable pub move : Move E → Page P → Page P
  move (acted e) s = handle e s
  move (chose true a) s = load (choose a s)
  move (chose false a) s = choose a s

-- The application that is selected after a move.
abbrev pub chosen_by : {E : Type 0} → Move E → Application → Application
chosen_by (acted e) a = a
chosen_by (chose again b) a = b
