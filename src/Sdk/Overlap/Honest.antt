-- ===== src/Sdk/Overlap/Honest.antt =====
-- What stays true of the token and the subscription that the provider shows, however the operations overlap.
use volq_auth.Base.{◌≡◌, refl, if◌then◌else◌, Option-cases, Bool-cases, inl, inr, arith}
use volq_auth.Base.Value.{Value, null, or_else, lookup_field}
use volq_auth.Sdk.Client.{Client, set_session_token, no_session}
use volq_auth.Sdk.Client.Interface.{Platform, World, Reply, failed, answered}
use volq_auth.Sdk.Client.Laws.Init.{opens}
use volq_auth.Sdk.Client.Laws.Token.{succeeded, token_after, settle_token, seal_token}
use volq_auth.Sdk.Provider.{
  App, View, Op, initialize, leave, by_license, read_variable, by_credentials, logout,
}
use volq_auth.Sdk.Provider.Laws.{settle_login_success, settle_login_failure, get_hwid_token}
use volq_auth.Sdk.Overlap.{
  Overlap, Login, license, user, Wait, handshake, variable, opening, login, fields_of, send_login,
  receive_login, begin_login, begin_init, begin_read, begin_op, end_login, receive,
}

-- The token shown is the client's, nobody who is not authenticated is shown with a subscription or a token.
pub record IsHonest (a : App) : Type 0 where
  pub synced : a.0.session_token ≡ or_else a.1.0.session_token null
  pub unlocked : a.0.subscription ≡ (if a.0.is_authenticated then a.0.subscription else null)
  pub token_kept : a.0.session_token ≡ (if a.0.is_authenticated then a.0.session_token else null)

module _ (p : Platform) where
  receive_login_token :
      (l : Login) (reply : Reply) (c : Client) (w : World)
      → let (v, (c', w')) = receive_login p l reply (c, w) in
        c'.session_token ≡ token_after v c.session_token
  unfolding lookup_field
  receive_login_token l (failed message) c w = ground arith
  receive_login_token l (answered r) c w = ground (arith, settle_token p r c w)

  end_login-IsHonest :
      (answer : Value) (v : View) (c : Client) (w : World) (old : Value)
      → c.session_token ≡ token_after answer old
      → v.session_token ≡ or_else old null
      → v.subscription ≡ (if v.is_authenticated then v.subscription else null)
      → v.session_token ≡ (if v.is_authenticated then v.session_token else null)
      → IsHonest (end_login p answer (v, (c, w)))
  end_login-IsHonest answer v c w old follows h j k = elim (Bool-cases (succeeded answer)) [
    | inl won ↦
        let e = settle_login_success p answer v won in
        record {
          synced = ground (arith, e);
          unlocked = ground (arith, e);
          token_kept = ground (arith, e);
        }
    | inr lost ↦
        let e = settle_login_failure p answer v lost in
        record {
          synced = ground (arith, e);
          unlocked = ground (arith, e);
          token_kept = ground (arith, e);
        }
  ]

  -- What is sent leaves the token of the client.
  send_login_token :
      (l : Login) (s : Client × World) → (send_login p l s).0.session_token ≡ s.0.session_token
  send_login_token (license k) s = seal_token p (fields_of (license k)) s
  send_login_token (user u k) s = seal_token p (fields_of (user u k)) s

  -- Fields that are kept keep a state honest.
  kept-IsHonest :
      (a b : App)
      → b.0.session_token ≡ a.0.session_token
      → b.0.subscription ≡ a.0.subscription
      → b.0.is_authenticated ≡ a.0.is_authenticated
      → b.1.0.session_token ≡ a.1.0.session_token
      → IsHonest a
      → IsHonest b
  kept-IsHonest a b shown tier inside token h = record {
    synced = ground (arith, h.synced);
    unlocked = ground (arith, h.unlocked);
    token_kept = ground (arith, h.token_kept);
  }

  pub receive-IsHonest :
      (w : Wait) (reply : Reply) (a : App) → IsHonest a → IsHonest (receive p w reply a).0
  unfolding receive lookup_field
  receive-IsHonest handshake reply (v, (c, x)) h =
      kept-IsHonest (v, (c, x)) (receive p handshake reply (v, (c, x))).0 (ground arith)
        (ground arith) (ground arith) (ground arith) h
  receive-IsHonest variable reply a h = h
  receive-IsHonest (opening l) reply (v, (c, x)) h = elim (Option-cases (opens reply)) [
    | inl e ↦
        let failure = settle_login_failure p no_session v refl in
        kept-IsHonest (v, (c, x)) (receive p (opening l) reply (v, (c, x))).0
          (ground (arith, failure)) (ground (arith, failure)) (ground (arith, failure))
          (ground arith) h
    | inr (sid, e) ↦
        kept-IsHonest (v, (c, x)) (receive p (opening l) reply (v, (c, x))).0 (ground arith)
          (ground arith) (ground arith)
          (ground (arith, send_login_token l (record c { session_id = sid }, x))) h
  ]
  receive-IsHonest (login l) reply (v, (c, x)) h =
      end_login-IsHonest (receive_login p l reply (c, x)).0 v (receive_login p l reply (c, x)).1.0
        (receive_login p l reply (c, x)).1.1 c.session_token (receive_login_token l reply c x)
        h.synced h.unlocked h.token_kept

  pub begin_op-IsHonest : (op : Op) (o : Overlap) → IsHonest o.app → IsHonest (begin_op p op o).app
  unfolding begin_op begin_login begin_init begin_read logout set_session_token
  begin_op-IsHonest initialize o h =
      kept-IsHonest o.app (begin_op p initialize o).app refl refl refl
        (ground (arith, get_hwid_token p o.app.1)) h
  begin_op-IsHonest leave o h = record { synced = refl; unlocked = refl; token_kept = refl }
  begin_op-IsHonest (by_license k) o h =
      kept-IsHonest o.app (begin_op p (by_license k) o).app (ground arith) (ground arith)
        (ground arith) (ground (arith, send_login_token (license k) o.app.1)) h
  begin_op-IsHonest (by_credentials u k) o h =
      kept-IsHonest o.app (begin_op p (by_credentials u k) o).app (ground arith) (ground arith)
        (ground arith) (ground (arith, send_login_token (user u k) o.app.1)) h
  begin_op-IsHonest (read_variable k) o h =
      kept-IsHonest o.app (begin_op p (read_variable k) o).app (ground arith) (ground arith)
        (ground arith) (ground arith) h
