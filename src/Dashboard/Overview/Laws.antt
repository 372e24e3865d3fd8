-- ===== src/Dashboard/Overview/Laws.antt =====
-- The overview: its counts, its alerts and its guard.
use volq_auth.Base.{
  ℕ, ◌≤◌, ◌≡◌, refl, true, false, if◌then◌else◌, some, List, length, select, length-select_mono,
  length-select-le, String, includes, Result, ok, throw, inl, inr, Option-cases, arith,
}
use volq_auth.Base.Value.{undefined}
use volq_auth.Dashboard.Types.{License, SecurityLog}
use volq_auth.Dashboard.Api.{Server, Body, ApiError, get}
use volq_auth.Dashboard.Auth.{Session, logout}
use volq_auth.Dashboard.Page.{Page, edit, on_ok, request}
use volq_auth.Dashboard.Logs.{get_event_badge, danger, logs_of}
use volq_auth.Dashboard.Overview.{
  Overview, licenses_of, total_of, is_alert, is_tamper, set_stats, path_of, load_logs, load_users,
  fetch_app_stats, guard, is_waiting,
}

-- The count of the alerts is that of the shown rows which are alerts.
abbrev pub IsCounted : Page Overview → Type 0
IsCounted (p, s) = p.stats.recent_alerts ≡ length (select is_alert p.recent_logs)

on_ok-IsCounted :
    (next : Body → Page Overview → Page Overview) (o : Result ApiError Body × Page Overview)
    → ((body : Body) (t : Page Overview) → IsCounted t → IsCounted (next body t))
    → IsCounted o.1
    → IsCounted (on_ok next o)
on_ok-IsCounted next (ok body, s) step h = step body s h
on_ok-IsCounted next (throw e, s) step h = h

request-IsCounted :
    (server : Server) (path : String) (s : Page Overview)
    → IsCounted s
    → IsCounted (request server get path undefined s).1
unfolding request
request-IsCounted server path (p, (auth, b)) h = h

module _ (server : Server) (id : String) where
  load_logs-IsCounted :
      (licenses : List License) (total users : ℕ) (s : Page Overview)
      → IsCounted s
      → IsCounted (load_logs server id licenses total users s)
  unfolding load_logs set_stats
  load_logs-IsCounted licenses total users s h =
      let path = path_of server id "/logs?limit=5" in
      on_ok-IsCounted (λ body. edit (set_stats licenses total users (logs_of body)))
        (request server get path undefined s) (λ body t k. refl) (request-IsCounted server path s h)

  load_users-IsCounted :
      (licenses : List License) (total : ℕ) (s : Page Overview)
      → IsCounted s
      → IsCounted (load_users server id licenses total s)
  unfolding load_users
  load_users-IsCounted licenses total s h =
      let path = path_of server id "/users?limit=1" in
      on_ok-IsCounted _ (request server get path undefined s)
        (λ body t k. elim (Option-cases (total_of body)) [
          | inl e ↦ rw e k
          | inr (users, e) ↦ rw e (load_logs-IsCounted licenses total users t k)
        ])
        (request-IsCounted server path s h)

  -- Loading the overview keeps the count of the alerts at the number of the shown rows that are alerts,
  -- also when one of its three requests fails.
  pub fetch_app_stats-IsCounted :
      (s : Page Overview) → IsCounted s → IsCounted (fetch_app_stats server id s)
  unfolding fetch_app_stats
  fetch_app_stats-IsCounted s h =
      let path = path_of server id "/licenses?limit=1000" in
      on_ok-IsCounted _ (request server get path undefined s)
        (λ body t k. elim (Option-cases (licenses_of body)) [
          | inl e ↦ rw e k
          | inr ((licenses, total), e) ↦ rw e (load_users-IsCounted licenses total t k)
        ])
        (request-IsCounted server path s h)

is_alert-is_tamper : (l : SecurityLog) → is_alert l ≡ true → is_tamper l ≡ true
unfolding is_alert is_tamper
is_alert-is_tamper l h = ground arith

-- The counted alerts are at most the marked rows of the overview, and these at most the rows, where the
-- count is that of the rows which are alerts.
pub recent_alerts_le :
    (p : Overview) (s : Session)
    → IsCounted (p, s)
    → (p.stats.recent_alerts ≤ length (select is_tamper p.recent_logs))
      × (length (select is_tamper p.recent_logs) ≤ length p.recent_logs)
recent_alerts_le p s h = (
  omega (arith, length-select_mono is_alert is_tamper is_alert-is_tamper p.recent_logs),
  length-select-le is_tamper p.recent_logs,
)

-- A row that the overview marks has the badge of a danger on the page of the log.
get_event_badge-is_tamper :
    (l : SecurityLog) → is_tamper l ≡ true → get_event_badge l.event_type ≡ danger
unfolding is_tamper get_event_badge
get_event_badge-is_tamper l h = ground arith

-- A replay that is neither a tampering nor a mismatch is marked, and not counted among the alerts.
pub is_alert_misses :
    (l : SecurityLog)
    → includes l.event_type "tamper" ≡ false
    → includes l.event_type "mismatch" ≡ false
    → includes l.event_type "replay" ≡ true
    → (is_tamper l ≡ true) × (is_alert l ≡ false)
unfolding is_tamper is_alert
is_alert_misses l nt nm re = (ground arith, ground arith)

-- After a logout the overview shows nothing, and goes to the login page unless the session is loading.
pub guard-logout :
    (p : Overview) (s : Session)
    → (is_waiting (logout s).0 ≡ true)
      × ((guard (p, logout s)).0.pushed ≡ (if s.0.is_loading then p.pushed else some "/login"))
unfolding logout guard is_waiting
guard-logout p (auth, b) = (ground arith, ground arith)
