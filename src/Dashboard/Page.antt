-- ===== src/Dashboard/Page.antt =====
-- What the pages of the dashboard share: a page's own state beside the session, its requests, and the two
-- shapes of its handlers. A handler runs to its end, with the reload that it starts, before the next one.
pub mod Laws
use volq_auth.Base.{Option, none, some, Bool, if◌then◌else◌, String, ◌<>◌, Result, ok, throw}
use volq_auth.Base.Value.{Value, undefined}
use volq_auth.Dashboard.Types.{Application}
use volq_auth.Dashboard.Api.{Method, get, Server, Body, ApiError, call}
use volq_auth.Dashboard.Auth.{Auth, Session}

abbrev pub Page : Type 0 → Type 0
Page P = P × Session

-- `/dashboard/apps/${selectedApp?.id}`, where no application gives the text `undefined`
abbrev pub app_path : Option Application → String
app_path none = "/dashboard/apps/undefined"
app_path (some a) = "/dashboard/apps/" <> a.id

module _ {P : Type 0} where
  abbrev pub edit : (P → P) → Page P → Page P
  edit f (p, s) = (f p, s)

  -- A call of the API client from a handler.
  unfoldable pub request : Server → Method → String → Value → Page P → Result ApiError Body × Page P
  request server method path body (p, (auth, b)) =
      let (r, b') = call server method path body b in (r, (p, (auth, b')))

  abbrev pub for_app : Option Application → (Application → Page P → Page P) → Page P → Page P
  for_app none handler s = s
  for_app (some a) handler s = handler a s

  -- `if (!selectedApp) return;`
  abbrev pub with_app : (Application → Page P → Page P) → Page P → Page P
  with_app handler s = for_app s.1.0.selected_app handler s

  -- `try { const res = await …; then(res.data); } catch { }`
  abbrev pub on_ok : (Body → Page P → Page P) → Result ApiError Body × Page P → Page P
  on_ok next (ok body, s) = next body s
  on_ok next (throw e, s) = s

  -- `try { const res = await api.get(path); receive(res.data); } catch { }`
  unfoldable pub fetch : Server → (Body → P → P) → String → Page P → Page P
  fetch server receive path s =
      on_ok (λ body. edit (receive body)) (request server get path undefined s)

  -- `try { await api.method(path, body); next(); } catch { }`
  unfoldable pub revise : Server → Method → String → Value → (Page P → Page P) → Page P → Page P
  revise server method path body next s = on_ok (λ answer. next) (request server method path body s)
