-- ===== src/Sdk/Overlap.antt =====
-- sdks/react/src/volqAuth.tsx with client.ts: the provider's operations where they overlap. Each runs up to the
-- `fetch` that it waits for, and goes on when the reply comes in, in any order; what it awaits beside its replies
-- (the device's id, the body of a reply) is taken with the part that it belongs to.
pub mod Honest
pub mod Laws
pub mod Settle
pub mod Sequential
pub mod Overtaken
use volq_auth.Base.{
  ℕ, Bool, true, false, Option, none, some, List, [], ◌∷◌, ◌++◌, get_elem?, remove, if◌then◌else◌,
  String, try_catch,
}
use volq_auth.Base.Value.{Value, str, Fields, truthy}
use volq_auth.Sdk.Client.{Client, Config, no_session, caught, get_hwid, settle}
use volq_auth.Sdk.Client.Interface.{Platform, World, Reply, failed, answered}
use volq_auth.Sdk.Client.Methods.{license_fields, user_fields, license_path, login_path}
use volq_auth.Sdk.Client.Laws.Init.{opens, after_init}
use volq_auth.Sdk.Client.Laws.Exchange.{sealed}
use volq_auth.Sdk.Client.Laws.Requests.{variable_requests}
use volq_auth.Sdk.Provider.{
  App, Op, initialize, leave, by_license, read_variable, by_credentials, mount, begin, finish,
  handshake_failed, settle_login, logout,
}

-- Who logs in.
pub data Login : Type 0 where
  license : String → Login
  user : String → String → Login

abbrev pub login_path_of : Login → String
login_path_of (license k) = license_path
login_path_of (user u p) = login_path

abbrev pub fields_of : Login → Fields → Fields
fields_of (license k) = license_fields k
fields_of (user u p) = user_fields u p

-- `err.message || fallback`
abbrev pub fallback_of : Login → String
fallback_of (license k) = "Authentication error"
fallback_of (user u p) = "Login error"

-- What an operation waits for: the handshake of `init`, that of a login without a session, the reply to a login,
-- the reply to a read of a variable.
pub data Wait : Type 0 where
  handshake variable : Wait
  opening login : Login → Wait

-- The state, and what the operations under way wait for, the oldest first.
pub record Overlap : Type 0 where
  pub app : App
  pub pending : List Wait

pub data Event : Type 0 where
  began : Op → Event
  replied : ℕ → Reply → Event

module _ (p : Platform) where
  -- `init` of the client up to its `fetch`.
  abbrev pub send_init : Client × World → Client × World
  send_init (c, w) = (c, after_init p c w)

  -- `init` of the client from there.
  abbrev pub receive_init : Reply → Client × World → Bool × (Client × World)
  receive_init reply (c, w) = elim (opens reply) [
    | none ↦ (false, (c, w))
    | some sid ↦ (true, (record c { session_id = sid }, w))
  ]

  -- Both ways to log in up to the `fetch` of their own request.
  abbrev pub send_login : Login → Client × World → Client × World
  send_login l = sealed p (login_path_of l) (fields_of l)

  -- Both ways to log in from there.
  abbrev pub receive_login : Login → Reply → Client × World → Value × (Client × World)
  receive_login l (failed message) s = (caught (fallback_of l) message, s)
  receive_login l (answered r) s =
      try_catch (settle p r) (λ message t. (caught (fallback_of l) message, t)) s

  -- The provider's login: the client's own request, or first its handshake.
  unfoldable pub begin_login : Login → Overlap → Overlap
  begin_login l o =
      let (v, s) = o.app in
      if truthy s.0.session_id
      then record { app = (begin v, send_login l s); pending = o.pending ++ login l ∷ [] }
      else record { app = (begin v, send_init s); pending = o.pending ++ opening l ∷ [] }

  unfoldable pub begin_init : Overlap → Overlap
  begin_init o =
      let (v, s) = o.app in
      let (hwid, t) = get_hwid p s in
      record {
        app = (record (begin v) { hwid = str hwid }, send_init t);
        pending = o.pending ++ handshake ∷ [];
      }

  -- A read without a token ends at once.
  unfoldable pub begin_read : String → Overlap → Overlap
  begin_read var_key o =
      let (v, (c, w)) = o.app in
      let t : World = record w { sent = w.sent ++ variable_requests p var_key c } in
      if truthy c.session_token
      then record { app = (v, (c, t)); pending = o.pending ++ variable ∷ [] }
      else o

  unfoldable pub begin_op : Op → Overlap → Overlap
  begin_op initialize o = begin_init o
  begin_op leave o = record o { app = logout o.app }
  begin_op (by_license k) o = begin_login (license k) o
  begin_op (read_variable k) o = begin_read k o
  begin_op (by_credentials u k) o = begin_login (user u k) o

  -- A login from the answer of the client.
  abbrev pub end_login : Value → App → App
  end_login answer (v, s) = (finish (settle_login p answer v).1, s)

  -- What an operation does when its reply comes in, and what it waits for then.
  unfoldable pub receive : Wait → Reply → App → App × List Wait
  receive handshake reply (v, s) =
      let (okay, t) = receive_init reply s in
      let shown =
        if okay
        then record v { is_initialized = true }
        else record v { is_initialized = false; error = str handshake_failed } in
      ((finish shown, t), [])
  receive variable reply a = (a, [])
  receive (opening l) reply (v, s) =
      let (okay, t) = receive_init reply s in
      if okay then ((v, send_login l t), login l ∷ []) else (end_login no_session (v, t), [])
  receive (login l) reply (v, s) =
      let (answer, t) = receive_login l reply s in (end_login answer (v, t), [])

  -- `none` where no such operation waits.
  unfoldable pub step : Event → Overlap → Option Overlap
  step (began op) o = some (begin_op op o)
  step (replied i reply) o = elim (get_elem? o.pending i) [
    | none ↦ none
    | some w ↦
        let (a, more) = receive w reply o.app in
        some (record { app = a; pending = remove o.pending i ++ more })
  ]

  unfoldable pub run : List Event → Overlap → Option Overlap
  run [] o = some o
  run (e ∷ es) o = elim (step e o) [ none ↦ none | some t ↦ run es t ]

  -- The first render and the effect after it.
  unfoldable pub start : Config → Bool → World → Overlap
  start config auto_init w =
      let shown : Overlap = record { app = mount config auto_init w; pending = [] } in
      if auto_init then begin_init shown else shown
