-- ===== src/Dashboard/LicenseModal/Laws.antt =====
-- The form that generates licenses, on every outcome.
use volq_auth.Base.{
  ◌≡◌, refl, ap, true, false, none, some, List, [], ◌++◌, ◌∷◌, String, ok, throw, arith,
}
use volq_auth.Base.Value.{truthy}
use volq_auth.Dashboard.Types.{Application}
use volq_auth.Dashboard.Api.{Server, Browser, ApiError, post, outgoing}
use volq_auth.Dashboard.Api.Laws.{answered, call_outcome}
use volq_auth.Dashboard.Auth.{Auth}
use volq_auth.Dashboard.Page.{Page, request}
use volq_auth.Dashboard.LicenseModal.{
  Modal, generate_body, keys_in, failure, generate_path, generate_in, submit_for, handle_submit,
}

failure-truthy : (e : ApiError) → truthy (failure e) ≡ true
failure-truthy e = ground arith

-- Without a selected application the form sends nothing and shows why.
generate_unselected :
    (server : Server) (on_success : Page Modal → Page Modal) (m : Modal) (auth : Auth) (b : Browser)
    → auth.selected_app ≡ none
    → let t = handle_submit server on_success (m, (auth, b)) in
      (truthy t.0.error ≡ true) × (t.0.generated_keys ≡ m.generated_keys) × (t.1 ≡ (auth, b))
unfolding handle_submit
generate_unselected server on_success m auth b h = (ground arith, ground arith, ground arith)

submit_of :
    (server : Server) (on_success : Page Modal → Page Modal) (a : Application) (s : Page Modal)
    → s.1.0.selected_app ≡ some a
    → handle_submit server on_success s ≡ generate_in server on_success a s
unfolding handle_submit
submit_of server on_success a s h = ap (λ o. submit_for server on_success o s) h

-- With an application selected, one request asks for the keys of the form. When it fails, or is answered
-- with an empty body, the form ends with an error on show, no longer loading, and keeps its old keys.
generate_refused :
    (server : Server) (on_success : Page Modal → Page Modal) (a : Application) (m : Modal)
    (auth : Auth) (b : Browser) (e : ApiError)
    → auth.selected_app ≡ some a
    → keys_in (answered server post (generate_path a) (generate_body m) b) ≡ throw e
    → let t = handle_submit server on_success (m, (auth, b)) in
      (truthy t.0.error ≡ true)
      × (t.0.loading ≡ false)
      × (t.0.generated_keys ≡ m.generated_keys)
      × (t.1.1.sent ≡ b.sent ++ outgoing post (generate_path a) (generate_body m) b ∷ [])
unfolding generate_in request
generate_refused server on_success a m auth b e sel h =
    let (out, sent) = call_outcome server post (generate_path a) (generate_body m) b in
    rw (submit_of server on_success a (m, (auth, b)) sel)
      (rw (out, h) (failure-truthy e, refl, refl, sent))

-- When it is answered with keys, the form shows them, with no error and no longer loading, where the
-- page's own reload leaves the form alone.
pub generate_accepted :
    (server : Server) (on_success : Page Modal → Page Modal) (a : Application) (m : Modal)
    (auth : Auth) (b : Browser) (keys : List String)
    → ((t : Page Modal) → (on_success t).0 ≡ t.0)
    → auth.selected_app ≡ some a
    → keys_in (answered server post (generate_path a) (generate_body m) b) ≡ ok keys
    → let t = handle_submit server on_success (m, (auth, b)) in
      (t.0.generated_keys ≡ keys) × (t.0.loading ≡ false) × (truthy t.0.error ≡ false)
unfolding generate_in request
generate_accepted server on_success a m auth b keys leaves sel h =
    let (out, sent) = call_outcome server post (generate_path a) (generate_body m) b in
    rw (submit_of server on_success a (m, (auth, b)) sel) (rw (out, h, leaves) (refl, refl, refl))
