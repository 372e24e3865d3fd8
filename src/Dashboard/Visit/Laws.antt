-- ===== src/Dashboard/Visit/Laws.antt =====
-- A page keeps to the selected application, whichever is chosen.
use volq_auth.Base.{◌≡◌, refl, true, false, some, List, [], ◌∷◌}
use volq_auth.Dashboard.Types.{Application}
use volq_auth.Dashboard.Api.{ApiRequest}
use volq_auth.Dashboard.Auth.{set_selected_app}
use volq_auth.Dashboard.Page.{Page}
use volq_auth.Dashboard.Page.Laws.{InApp, same}
use volq_auth.Dashboard.Visit.{Move, acted, chose, choose, move, chosen_by}

module _ {P E : Type 0} (handle : E → Page P → Page P) (load : Page P → Page P) where
  -- After each move the application that was chosen last is the selected one, and the requests that the move sent are
  -- all under its path; `a` is the one that is selected at first.
  abbrev pub KeepsTo : Application → List (Move E) → Page P → Type 0
  KeepsTo a [] s = InApp a s.1.1.sent s
  KeepsTo a (m ∷ ms) s =
      InApp (chosen_by m a) s.1.1.sent (move handle load m s)
      × KeepsTo (chosen_by m a) ms (move handle load m s)

  module _
      (handle_keeps : (a : Application) (old : List ApiRequest) (e : E) (s : Page P)
        → InApp a old s
        → InApp a old (handle e s))
      (load_keeps : (a : Application) (old : List ApiRequest) (s : Page P)
        → InApp a old s
        → InApp a old (load s)) where
    move-InApp :
        (m : Move E) (a : Application) (s : Page P)
        → s.1.0.selected_app ≡ some a
        → InApp (chosen_by m a) s.1.1.sent (move handle load m s)
    unfolding move set_selected_app
    move-InApp (acted e) a s h = handle_keeps a s.1.1.sent e s (h, same)
    move-InApp (chose true b) a s h = load_keeps b s.1.1.sent (choose b s) (refl, same)
    move-InApp (chose false b) a s h = (refl, same)

    pub keeps_to :
        (ms : List (Move E)) (a : Application) (s : Page P)
        → s.1.0.selected_app ≡ some a
        → KeepsTo a ms s
    keeps_to [] a s h = (h, same)
    keeps_to (m ∷ ms) a s h =
        let k = move-InApp m a s h in (k, keeps_to ms (chosen_by m a) (move handle load m s) k.0)
