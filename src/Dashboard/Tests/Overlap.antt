-- ===== src/Dashboard/Tests/Overlap.antt =====
-- The theorems on overlapping refreshes of the applications.
use volq_auth.Base.{◌≡◌, refl, false, true, some, none, List, [], ◌∷◌, ok}
use volq_auth.Base.Storage.{get_item, set_item}
use volq_auth.Dashboard.Api.{app_list}
use volq_auth.Dashboard.Auth.{
  mounted, selected_key, set_selected_app, refresh_apps, login, restore_session,
}
use volq_auth.Dashboard.Auth.Selection.{IsStored}
use volq_auth.Dashboard.Auth.Overlap.{
  Overlap, Event, receive_apps, load_apps, select_first, begin_refresh, begin_login, begin_restore,
  leaving, refreshing, choosing, replied, step, run,
}
use volq_auth.Dashboard.Auth.Overlap.Laws.{run-IsStored, logout_refreshed}
use volq_auth.Dashboard.Auth.Overlap.Sequential.{alone, serve, serve-alone}
use volq_auth.Dashboard.Tests.{app, ada, browser, at_login, auth, codec, gone}

-- An application is chosen while two refreshes are under way, and one of them brings an empty list.
abbrev events : List Event
events = refreshing ∷ refreshing ∷ choosing (some app) ∷ replied 1 (ok (app_list [])) ∷ []

abbrev twice : Overlap
twice = begin_refresh false (begin_refresh false (alone (mounted, at_login)))

abbrev chosen : Overlap
chosen = record {
  session = set_selected_app (some app) twice.session;
  pending = record { captured = none; is_first = false } ∷ [];
}

run-IsStored_example : IsStored chosen.session
unfolding run step set_selected_app receive_apps load_apps select_first get_item set_item
run-IsStored_example = run-IsStored codec events (alone (mounted, at_login)) chosen refl refl

logout_refreshed_example :
    (t : Overlap) × (run codec
        (leaving ∷ replied 0 (ok (app_list (app ∷ []))) ∷ [])
        (begin_refresh true (alone (mounted, browser)))
      ≡ some t)
    × (t.session.0.user ≡ none)
    × (t.session.0.apps ≡ app ∷ [])
    × (t.session.0.selected_app ≡ some app)
    × (get_item selected_key t.session.1.storage ≡ some app.id)
logout_refreshed_example = logout_refreshed codec true app [] mounted browser refl

serve-alone_example :
    (serve gone (begin_refresh false (alone (auth, browser)))
      ≡ alone (refresh_apps gone (auth, browser)))
    × (serve gone (begin_login codec "t2" ada (alone (auth, browser)))
        ≡ alone (login gone codec "t2" ada (auth, browser)))
    × (serve gone (begin_restore codec (alone (auth, browser)))
        ≡ alone (restore_session gone codec (auth, browser)))
serve-alone_example = serve-alone gone codec "t2" ada (auth, browser)
