-- ===== src/Dashboard/Navigation/Laws.antt =====
-- The side bar and the top bar.
use volq_auth.Base.{
  ◌≤◌, ◌≡◌, refl, Bool, true, false, some, List, [], ◌∷◌, length, select, All, String, ◌===◌, arith,
  eq_iff, Bool-cases, inl, inr,
}
use volq_auth.Dashboard.Types.{Application}
use volq_auth.Dashboard.Auth.{set_selected_app}
use volq_auth.Dashboard.Auth.Selection.{IsStored, set_selected_app-IsStored}
use volq_auth.Dashboard.Page.{Page}
use volq_auth.Dashboard.Navigation.{
  Link, navigation_groups, links_of, is_active, active_links, choose_app,
}

-- No two links go to the same page.
abbrev IsUnique : List Link → Type 0
IsUnique [] = Unit
IsUnique (l ∷ ls) = All (λ k. (l.href === k.href) ≡ false) ls × IsUnique ls

select_others :
    (path : String) (l : Link) (ls : List Link)
    → is_active path l ≡ true
    → All (λ k. (l.href === k.href) ≡ false) ls
    → length (select (is_active path) ls) ≡ 0
select_others path l [] h others = refl
select_others path l (k ∷ ls) h others = ground (
  arith,
  eq_iff path l.href,
  eq_iff path k.href,
  eq_iff l.href k.href,
  select_others path l ls h others.1,
)

select_unique :
    (path : String) (ls : List Link) → IsUnique ls → length (select (is_active path) ls) ≤ 1
select_unique path [] u = omega arith
select_unique path (l ∷ ls) u = elim (Bool-cases (is_active path l)) [
  | inl h ↦ ground (arith, select_others path l ls h u.0)
  | inr h ↦ ground (arith, select_unique path ls u.1)
]

-- The side bar marks at most one link as active, whatever the path of the page.
pub active_links-le : (path : String) → length (active_links path) ≤ 1
unfolding active_links
active_links-le path = select_unique path (links_of navigation_groups) (ground arith)

-- An application chosen in the menu of the top bar is the selected one, its id is the stored one, and the
-- menu is closed.
choose_app_lem :
    (a : Application) (s : Page Bool)
    → IsStored (choose_app a s).1
      × ((choose_app a s).1.0.selected_app ≡ some a)
      × ((choose_app a s).0 ≡ false)
unfolding choose_app set_selected_app
choose_app_lem a (shows, s) = (set_selected_app-IsStored (some a) s, refl, refl)
