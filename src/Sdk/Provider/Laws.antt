-- ===== src/Sdk/Provider/Laws.antt =====
-- What the provider's state says stays true of its client.
use volq_auth.Base.{
  ◌≡◌, refl, Bool, true, false, List, [], ◌∷◌, String, if◌then◌else◌, arith, Bool-cases, inl, inr,
}
use volq_auth.Base.Value.{Value, null, or_else}
use volq_auth.Sdk.Client.{Client, Config, new_client, set_session_token, get_hwid}
use volq_auth.Sdk.Client.Interface.{Platform, World}
use volq_auth.Sdk.Client.Methods
use volq_auth.Sdk.Client.Methods.{authenticate_license, authenticate_user}
use volq_auth.Sdk.Client.Laws.Token.{succeeded, field_of, Follows, authenticate_token, init_token}
use volq_auth.Sdk.Client.Laws.Requests.{get_variable_lem}
use volq_auth.Sdk.Provider.{
  View, App, begin, Op, initialize, leave, by_license, read_variable, by_credentials, mount, start,
  init, settle_login, login, login_with_license, login_with_credentials, get_variable, logout, step,
  run,
}

-- The token shown is the client's, and nobody is shown as subscribed who is not authenticated; no
-- operation is running.
pub record IsConsistent (a : App) : Type 0 where
  pub synced : a.0.session_token ≡ or_else a.1.0.session_token null
  pub unlocked : a.0.subscription ≡ (if a.0.is_authenticated then a.0.subscription else null)
  pub token_kept : a.0.session_token ≡ (if a.0.is_authenticated then a.0.session_token else null)
  pub idle : a.0.is_loading ≡ false

module _ (p : Platform) where
  pub settle_login_success :
      (result : Value) (v : View)
      → succeeded result ≡ true
      → (settle_login p result v).1 ≡ record v {
        is_authenticated = true;
        subscription = or_else (field_of "subscription" result) null;
        session_token = or_else (field_of "session_token" result) null;
      }
  unfolding settle_login
  settle_login_success result v h = ground arith

  pub settle_login_failure :
      (result : Value) (v : View)
      → succeeded result ≡ false
      → (settle_login p result v).1 ≡ record v { error = (settle_login p result v).1.error }
  unfolding settle_login
  settle_login_failure result v h = ground arith

  login-IsConsistent :
      (call : Client × World → Value × (Client × World)) (a : App)
      → Follows a.1 (call a.1)
      → IsConsistent a
      → IsConsistent (login p call a).1
  unfolding login
  login-IsConsistent call (v, s) follows h = elim (Bool-cases (succeeded (call s).0)) [
    | inl won ↦
        let e = settle_login_success (call s).0 (begin v) won in
        record {
          synced = ground (arith, e);
          unlocked = ground (arith, e);
          token_kept = ground (arith, e);
          idle = refl;
        }
    | inr lost ↦
        let e = settle_login_failure (call s).0 (begin v) lost in
        record {
          synced = ground (arith, e);
          unlocked = ground (arith, e);
          token_kept = ground (arith, e);
          idle = refl;
        }
  ]

  pub get_hwid_token : (s : Client × World) → (get_hwid p s).1.0.session_token ≡ s.0.session_token
  unfolding get_hwid
  get_hwid_token (c, w) = ground arith

  init-IsConsistent : (a : App) → IsConsistent a → IsConsistent (init p a).1
  unfolding init
  init-IsConsistent (v, s) h =
      let e = init_token p (get_hwid p s).1 in
      record {
        synced = ground (arith, e, get_hwid_token s);
        unlocked = ground arith;
        token_kept = ground arith;
        idle = refl;
      }

  get_variable-IsConsistent :
      (var_key : String) (a : App) → IsConsistent a → IsConsistent (get_variable p var_key a).1
  unfolding get_variable
  get_variable-IsConsistent var_key (v, (c, w)) h =
      let e = get_variable_lem p var_key c w in
      record {
        synced = ground (arith, e);
        unlocked = h.unlocked;
        token_kept = h.token_kept;
        idle = h.idle;
      }

  logout-IsConsistent : (a : App) → IsConsistent a → IsConsistent (logout a)
  unfolding logout set_session_token
  logout-IsConsistent (v, (c, w)) h = record {
    synced = refl;
    unlocked = refl;
    token_kept = refl;
    idle = h.idle;
  }

  -- Every operation keeps the state consistent: the token shown is the client's, nobody who is not
  -- authenticated is shown with a token or a subscription, and nothing is left loading.
  pub step-IsConsistent : (op : Op) (a : App) → IsConsistent a → IsConsistent (step p op a)
  unfolding step login_with_license login_with_credentials
  step-IsConsistent initialize a h = init-IsConsistent a h
  step-IsConsistent leave a h = logout-IsConsistent a h
  step-IsConsistent (by_license license_key) a h =
      login-IsConsistent (authenticate_license p license_key) a
        (authenticate_token p license_key "" "" a.1).0 h
  step-IsConsistent (read_variable var_key) a h = get_variable-IsConsistent var_key a h
  step-IsConsistent (by_credentials username password) a h =
      login-IsConsistent (authenticate_user p username password) a
        (authenticate_token p "" username password a.1).1 h

  run_keeps : (ops : List Op) (a : App) → IsConsistent a → IsConsistent (run p ops a)
  unfolding run
  run_keeps [] a h = h
  run_keeps (op ∷ ops) a h = run_keeps ops (step p op a) (step-IsConsistent op a h)

  mount-IsConsistent : (config : Config) (w : World) → IsConsistent (mount config false w)
  unfolding mount new_client
  mount-IsConsistent config w = record {
    synced = refl;
    unlocked = refl;
    token_kept = refl;
    idle = refl;
  }

  start-IsConsistent :
      (config : Config) (auto_init : Bool) (w : World) → IsConsistent (start p config auto_init w)
  unfolding init mount start
  start-IsConsistent config false w = mount-IsConsistent config w
  start-IsConsistent config true w =
      init-IsConsistent (mount config false w) (mount-IsConsistent config w)

  -- However the provider is configured and whatever is called in which order, the state shown is
  -- consistent: the token shown is the client's, nobody who is not authenticated is shown with a token or
  -- a subscription, and nothing is left loading.
  pub run-IsConsistent :
      (config : Config) (auto_init : Bool) (w : World) (ops : List Op)
      → IsConsistent (run p ops (start p config auto_init w))
  run-IsConsistent config auto_init w ops =
      run_keeps ops (start p config auto_init w) (start-IsConsistent config auto_init w)

-- After a logout no variable can be read, whatever the state was: the read gives `null`, sends nothing
-- and changes nothing.
get_variable-logout :
    (p : Platform) (var_key : String) (a : App)
    → get_variable p var_key (logout a) ≡ (null, logout a)
unfolding get_variable logout set_session_token Methods.get_variable
get_variable-logout p var_key (v, (c, w)) = refl

-- A login that fails does not end an earlier one: the view keeps what it says of the user and takes on
-- the error alone.
login_failure :
    (p : Platform) (call : Client × World → Value × (Client × World)) (a : App)
    → succeeded (call a.1).0 ≡ false
    → (login p call a).1.0 ≡ record (a.0) { is_loading = false; error = (login p call a).1.0.error }
unfolding login
login_failure p call (v, s) lost = ground (arith, settle_login_failure p (call s).0 (begin v) lost)

-- A logout while a login is under way does not stop it: when the answer of the login comes in as a
-- success, the user is authenticated again.
logout_overtaken :
    (p : Platform) (result : Value) (v : View) (s : Client × World)
    → succeeded result ≡ true
    → (settle_login p result (logout (begin v, s)).0).1.is_authenticated ≡ true
unfolding logout
logout_overtaken p result v (c, w) won = ground (
  arith,
  settle_login_success p result
      (record v {
        is_loading = true;
        is_authenticated = false;
        subscription = null;
        session_token = null;
        error = null;
      })
      won,
)
