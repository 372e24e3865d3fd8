-- ===== src/Dashboard/Auth/Overlap/Sequential.antt =====
-- Refreshes that do not overlap: the session by whole operations is a case of the session by replies.
use volq_auth.Base.{
  ◌≡◌, refl, false, some, List, [], ◌∷◌, String, Option-cases, Result-cases, inl, inr, arith,
}
use volq_auth.Base.Storage.{get_item}
use volq_auth.Base.Value.{undefined}
use volq_auth.Dashboard.Types.{Application, UserProfile}
use volq_auth.Dashboard.Api.{Server, Browser, get, call, dispatched, outcome, token_key, user_key}
use volq_auth.Dashboard.Api.Laws.{answered}
use volq_auth.Dashboard.Auth
use volq_auth.Dashboard.Auth.{
  Session, ProfileCodec, restored, app_list_of, refresh_apps, restore_session, login,
}
use volq_auth.Dashboard.Auth.Overlap.{
  Overlap, begin_refresh, begin_restore, begin_login, select_first, load_apps, receive_apps,
  end_refresh,
}

-- The oldest refresh gets its reply from the server.
unfoldable pub serve : Server → Overlap → Overlap
serve server o = elim o.pending [
  | [] ↦ o
  | r ∷ rs ↦ record {
    session =
        end_refresh r
          (receive_apps r.captured (outcome server (server.respond o.session.1.sent)) o.session);
    pending = rs;
  }
]

abbrev pub alone : Session → Overlap
alone s = record { session = s; pending = [] }

select_first-select_first :
    (apps : List Application) (s : Session)
    → select_first s.0.selected_app apps s ≡ Auth.select_first apps s
unfolding select_first Auth.select_first
select_first-select_first [] s = refl
select_first-select_first (a ∷ apps) s = ground arith

load_apps-load_apps :
    (apps : List Application) (s : Session)
    → load_apps s.0.selected_app apps s ≡ Auth.load_apps apps s
unfolding load_apps Auth.load_apps
load_apps-load_apps apps (auth, b) =
    ground (arith, select_first-select_first apps (record auth { apps = apps }, b))

receive_apps-refresh_apps :
    (server : Server) (auth : Auth.Auth) (b : Browser)
    → receive_apps auth.selected_app
        (answered server get "/dashboard/apps" undefined b)
        (auth, dispatched get "/dashboard/apps" undefined b)
      ≡ refresh_apps server (auth, b)
unfolding receive_apps refresh_apps call
receive_apps-refresh_apps server auth b =
    elim (Result-cases (answered server get "/dashboard/apps" undefined b)) [
      | inl (body, e) ↦ elim (Option-cases (app_list_of body)) [
        | inl shape ↦ ground arith
        | inr (apps, shape) ↦
            ground
              (arith, load_apps-load_apps apps (auth, dispatched get "/dashboard/apps" undefined b))
      ]
      | inr (x, e) ↦ ground arith
    ]

serve-begin_refresh :
    (server : Server) (s : Session)
    → serve server (begin_refresh false (alone s)) ≡ alone (refresh_apps server s)
unfolding serve
serve-begin_refresh server (auth, b) = ground (arith, receive_apps-refresh_apps server auth b)

serve-begin_login :
    (server : Server) (codec : ProfileCodec) (token : String) (user : UserProfile) (s : Session)
    → serve server (begin_login codec token user (alone s))
      ≡ alone (login server codec token user s)
unfolding begin_login login
serve-begin_login server codec token user (auth, b) = serve-begin_refresh server _

serve-begin_restore :
    (server : Server) (codec : ProfileCodec) (s : Session)
    → serve server (begin_restore codec (alone s)) ≡ alone (restore_session server codec s)
unfolding serve begin_restore restore_session
serve-begin_restore server codec (auth, b) = elim (Option-cases (get_item token_key b.storage)) [
  | inl e ↦ ground arith
  | inr (token, e) ↦ elim (Option-cases (get_item user_key b.storage)) [
    | inl e' ↦ ground arith
    | inr (stored, e') ↦ elim (Option-cases (codec.parse stored)) [
      | inl bad ↦ ground arith
      | inr (user, good) ↦ ground (
        arith,
        receive_apps-refresh_apps server (record auth { token = some token; user = some user }) b,
      )
    ]
  ]
]

-- A refresh, a login and the restore of the first render that get their reply before anything else happens leave
-- what they leave as whole operations.
pub serve-alone :
    (server : Server) (codec : ProfileCodec) (token : String) (user : UserProfile) (s : Session)
    → (serve server (begin_refresh false (alone s)) ≡ alone (refresh_apps server s))
      × (serve server (begin_login codec token user (alone s))
          ≡ alone (login server codec token user s))
      × (serve server (begin_restore codec (alone s)) ≡ alone (restore_session server codec s))
serve-alone server codec token user s = (
  serve-begin_refresh server s,
  serve-begin_login server codec token user s,
  serve-begin_restore server codec s,
)
