-- ===== src/Dashboard/Page/Laws.antt =====
-- The requests of a page keep to the selected application.
use mathlib.Core.Path.{subst}
use text.Mathlib.TextPositions.{starts_with-append}
use volq_auth.Base.{
  ◌≡◌, sym, ap, true, some, List, [], ◌∷◌, ◌++◌, String, ◌<>◌, starts_with, append_text, Result, ok,
  throw,
}
use volq_auth.Base.Value.{Value, undefined}
use volq_auth.Dashboard.Types.{Application}
use volq_auth.Dashboard.Api.{Method, get, Server, Body, ApiError, ApiRequest, outgoing}
use volq_auth.Dashboard.Api.Laws.{call_outcome}
use volq_auth.Dashboard.Page.{
  Page, app_path, edit, for_app, with_app, on_ok, request, fetch, revise,
}

-- The path of an application, as a whole segment.
abbrev pub Under : Application → ApiRequest → Type 0
Under a r = starts_with r.path (app_path (some a) <> "/") ≡ true

-- A list that grew at its end, by elements of which `Q` holds.
pub data Grows {A : Type 0} (Q : A → Type 0) (xs : List A) : List A → Type 0 where
  same : Grows Q xs xs
  more : {ys : List A} (x : A) → Grows Q xs ys → Q x → Grows Q xs (ys ++ x ∷ [])

-- The application is the selected one, and the requests that were sent after those of `old` are all under its path.
abbrev pub InApp : {P : Type 0} → Application → List ApiRequest → Page P → Type 0
InApp a old (p, (auth, b)) = (auth.selected_app ≡ some a) × Grows (Under a) old b.sent

pub under_leaf :
    (a : Application) (leaf : String)
    → starts_with (app_path (some a) <> "/" <> leaf) (app_path (some a) <> "/") ≡ true
under_leaf a leaf =
    subst (λ path. starts_with path (app_path (some a) <> "/") ≡ true)
      (append_text (app_path (some a)) "/" leaf)
      (starts_with-append (app_path (some a) <> "/") leaf)

pub under_path :
    (a : Application) (segment rest : String)
    → starts_with (app_path (some a) <> ("/" <> segment) <> rest) (app_path (some a) <> "/") ≡ true
under_path a segment rest =
    subst (λ path. starts_with (app_path (some a) <> path) (app_path (some a) <> "/") ≡ true)
      (sym (append_text "/" segment rest)) (under_leaf a (segment <> rest))

pub under_deep :
    (a : Application) (segment inner rest : String)
    → starts_with
        (app_path (some a) <> (("/" <> segment) <> inner) <> rest)
        (app_path (some a) <> "/")
      ≡ true
under_deep a segment inner rest =
    subst (λ path. starts_with (app_path (some a) <> path) (app_path (some a) <> "/") ≡ true)
      (sym (append_text ("/" <> segment) inner rest)) (under_path a segment (inner <> rest))

on_ok-InApp :
    {P : Type 0} (a : Application) (old : List ApiRequest) (next : Body → Page P → Page P)
    (o : Result ApiError Body × Page P)
    → ((body : Body) (t : Page P) → InApp a old t → InApp a old (next body t))
    → InApp a old o.1
    → InApp a old (on_ok next o)
on_ok-InApp a old next (ok body, s) step h = step body s h
on_ok-InApp a old next (throw e, s) step h = h

module _ {P : Type 0} (server : Server) (a : Application) (old : List ApiRequest) where
  pub request-InApp :
      (method : Method) (path : String) (body : Value) (s : Page P)
      → starts_with path (app_path (some a) <> "/") ≡ true
      → InApp a old s
      → InApp a old (request server method path body s).1
  unfolding request
  request-InApp method path body (p, (auth, b)) under h = (
    h.0,
    rw (call_outcome server method path body b).1 (more (outgoing method path body b) h.1 under),
  )

  pub fetch-InApp :
      (receive : Body → P → P) (path : String) (s : Page P)
      → starts_with path (app_path (some a) <> "/") ≡ true
      → InApp a old s
      → InApp a old (fetch server receive path s)
  unfolding fetch
  fetch-InApp receive path s under h =
      on_ok-InApp a old (λ body. edit (receive body)) (request server get path undefined s)
        (λ body t k. k) (request-InApp get path undefined s under h)

  pub revise-InApp :
      (method : Method) (path : String) (body : Value) (next : Page P → Page P) (s : Page P)
      → ((t : Page P) → InApp a old t → InApp a old (next t))
      → starts_with path (app_path (some a) <> "/") ≡ true
      → InApp a old s
      → InApp a old (revise server method path body next s)
  unfolding revise
  revise-InApp method path body next s step under h =
      on_ok-InApp a old (λ answer. next) (request server method path body s) (λ answer. step)
        (request-InApp method path body s under h)

  pub with_app-InApp :
      (handler : Application → Page P → Page P) (s : Page P)
      → InApp a old (handler a s)
      → InApp a old s
      → InApp a old (with_app handler s)
  with_app-InApp handler s done h = subst (λ o. InApp a old (for_app o handler s)) (sym h.0) done

module _ {P : Type 0} where
  pub with_app_of :
      (handler : Application → Page P → Page P) (s : Page P) (a : Application)
      → s.1.0.selected_app ≡ some a
      → with_app handler s ≡ handler a s
  with_app_of handler s a h = ap (λ o. for_app o handler s) h
