-- ===== src/Dashboard/Auth/Overlap.antt =====
-- frontend/src/lib/authContext.tsx where `refreshApps` overlaps with what else happens to the session. A refresh
-- goes on, after its `await`, with the selected application of the render that it began in.
pub mod Laws
pub mod Sequential
use volq_auth.Base.{
  ℕ, Bool, true, false, Option, none, some, List, [], ◌∷◌, ◌++◌, get_elem?, remove, if◌then◌else◌,
  String, is_empty, Result, ok, throw,
}
use volq_auth.Base.Storage.{get_item}
use volq_auth.Base.Value.{undefined}
use volq_auth.Dashboard.Types.{Application, UserProfile}
use volq_auth.Dashboard.Api.{
  Browser, Body, ApiError, get, dispatched, on_error, token_key, user_key,
}
use volq_auth.Dashboard.Auth.{
  Auth, Session, ProfileCodec, mounted, selected_key, store, restored, app_list_of,
  set_selected_app, logout,
}

-- A refresh that waits for its reply; the one of the first render also ends the loading.
pub record Refresh : Type 0 where
  pub captured : Option Application
  pub is_first : Bool

pub record Overlap : Type 0 where
  pub session : Session
  pub pending : List Refresh

-- `refreshApps` up to its `await`.
abbrev pub begin_refresh : Bool → Overlap → Overlap
begin_refresh is_first o =
    let (auth, b) = o.session in
    record {
      session = (auth, dispatched get "/dashboard/apps" undefined b);
      pending = o.pending ++ record { captured = auth.selected_app; is_first = is_first } ∷ [];
    }

abbrev set_session : Session → Overlap → Overlap
set_session s o = record o { session = s }

-- The effect after the first render up to there; an exception of `JSON.parse` ends it with the token set.
unfoldable pub begin_restore : ProfileCodec → Overlap → Overlap
begin_restore codec o =
    let (auth, b) = o.session in
    let idle = set_session (record auth { is_loading = false }, b) o in
    elim (get_item token_key b.storage) [
      | none ↦ idle
      | some token ↦ elim (get_item user_key b.storage) [
        | none ↦ idle
        | some stored ↦
            if is_empty token
            then idle
            else if is_empty stored
            then idle
            else elim (codec.parse stored) [
              | none ↦ set_session (record auth { token = some token }, b) o
              | some user ↦
                  begin_refresh true
                    (set_session (record auth { token = some token; user = some user }, b) o)
            ]
      ]
    ]

-- `login` up to there.
unfoldable pub begin_login : ProfileCodec → String → UserProfile → Overlap → Overlap
begin_login codec token user o =
    let (auth, b) = o.session in
    begin_refresh false (
      set_session
        (
          record auth { token = some token; user = some user },
          store user_key (codec.print user) (store token_key token b),
        )
        o)

-- The last part of `refreshApps`: the first application where none was selected when it began.
unfoldable pub select_first : Option Application → List Application → Session → Session
select_first captured [] s = s
select_first none (a ∷ apps) (auth, b) =
    (record auth { selected_app = some a }, store selected_key a.id b)
select_first (some old) (a ∷ apps) s = s

unfoldable pub load_apps : Option Application → List Application → Session → Session
load_apps captured apps (auth, b) = elim (restored b apps) [
  | some a ↦ (record auth { apps = apps; selected_app = some a }, b)
  | none ↦ select_first captured apps (record auth { apps = apps }, b)
]

-- `refreshApps` from its `await`, with the interceptor of the reply.
unfoldable pub receive_apps : Option Application → Result ApiError Body → Session → Session
receive_apps captured (throw e) (auth, b) = (auth, on_error e b)
receive_apps captured (ok body) s = elim (app_list_of body) [
  | none ↦ s
  | some apps ↦ load_apps captured apps s
]

-- The `finally` of the first refresh.
abbrev pub end_refresh : Refresh → Session → Session
end_refresh r (auth, b) = ((if r.is_first then record auth { is_loading = false } else auth), b)

pub data Event : Type 0 where
  restoring leaving refreshing : Event
  logging_in : String → UserProfile → Event
  choosing : Option Application → Event
  replied : ℕ → Result ApiError Body → Event

-- `none` where no such refresh is under way.
unfoldable pub step : ProfileCodec → Event → Overlap → Option Overlap
step codec restoring o = some (begin_restore codec o)
step codec leaving o = some (set_session (logout o.session) o)
step codec refreshing o = some (begin_refresh false o)
step codec (logging_in token user) o = some (begin_login codec token user o)
step codec (choosing a) o = some (set_session (set_selected_app a o.session) o)
step codec (replied i result) o = elim (get_elem? o.pending i) [
  | none ↦ none
  | some r ↦ some (record {
    session = end_refresh r (receive_apps r.captured result o.session);
    pending = remove o.pending i;
  })
]

unfoldable pub run : ProfileCodec → List Event → Overlap → Option Overlap
run codec [] o = some o
run codec (e ∷ es) o = elim (step codec e o) [ none ↦ none | some t ↦ run codec es t ]
