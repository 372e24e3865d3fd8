-- ===== src/Dashboard/Tests/Pages/Loads.antt =====
-- The theorems on overlapping loads: a server that lists one license under `active` and none otherwise, and one
-- that lists one user of the first of two applications.
use volq_auth.Base.{ℕ, ◌≡◌, refl, false, some, List, [], ◌∷◌, if◌then◌else◌, String, ◌===◌}
use volq_auth.Dashboard.Types.{Application, License, AppUser}
use volq_auth.Dashboard.Api.{Body, license_page, user_page}
use volq_auth.Dashboard.Licenses
use volq_auth.Dashboard.Users
use volq_auth.Dashboard.Loads.{
  Load, loads, revises, changed, switched, revised, answered, step, run, begun, current,
}
use volq_auth.Dashboard.Loads.Calls.{answers, answers_left}
use volq_auth.Dashboard.Loads.Laws.{run-current}
use volq_auth.Dashboard.Loads.Stale.{revised_stale}
use volq_auth.Dashboard.Loads.Pages.{
  license_loader, listed_licenses, read_licenses, license_loader-IsLoader, filtered, user_loader,
  read_users, user_loader-IsLoader,
}
use volq_auth.Dashboard.Tests.{app, license, end_user}
use volq_auth.Dashboard.Tests.Pages.{table, people}

abbrev active_table : Licenses.Licenses
active_table = record (table) { status_filter = "active" }

abbrev licenses_at : String → List License × ℕ
licenses_at path =
    if path === Licenses.list_path app active_table then (license ∷ [], 1) else ([], 0)

abbrev licenses_reply : String → Body
licenses_reply path = license_page (some (licenses_at path).0) (some (licenses_at path).1)

-- The filter has changed, the first load is answered, and then an item is changed.
abbrev under_way : Load Licenses.Licenses
under_way = record {
  selected = app;
  page = record (active_table) { licenses = []; total = 0; loading = false };
  pending =
      loads (Licenses.list_path app active_table)
      ∷ revises (Licenses.list_path app active_table)
      ∷ [];
}

run-current_example :
    (t : Load Licenses.Licenses) × (run license_loader licenses_reply
        (answers (answers_left under_way.pending))
        under_way
      ≡ some t)
    × (t.pending ≡ [])
    × (listed_licenses t.page ≡ licenses_at (current license_loader licenses_reply under_way))
unfolding run step
run-current_example =
    run-current license_loader listed_licenses read_licenses license_loader-IsLoader licenses_reply
      licenses_at (λ path. refl) (changed (filtered "active") ∷ answered 0 ∷ revised ∷ []) app table
      under_way refl refl

abbrev second : Application
second = record (app) { id = "app-2" }

abbrev users_at : String → List AppUser
users_at path = if path === Users.list_path app people then end_user ∷ [] else []

abbrev users_reply : String → Body
users_reply path = user_page (some (users_at path)) (some 1)

-- The user of the first application is shown where the second one is selected.
revised_stale_example :
    (r : Load Users.Users) × (run user_loader users_reply
        (answered 0 ∷ revised ∷ switched second ∷ answered 0 ∷ answered 0 ∷ answered 0 ∷ [])
        (begun user_loader users_reply app people)
      ≡ some r)
    × ((r.pending ≡ [])
        × (r.selected ≡ second)
        × (r.page.users ≡ users_at (Users.list_path app people)))
revised_stale_example =
    revised_stale user_loader (λ p. p.users) read_users user_loader-IsLoader users_reply users_at
      (λ path. refl) app second people
