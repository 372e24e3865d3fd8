-- ===== src/Sdk/Overlap/Sequential.antt =====
-- Operations that do not overlap: the model of the provider by whole operations is a case of the one by replies.
use volq_auth.Base.{
  ◌≡◌, refl, ap, ◌∙◌, List, [], ◌∷◌, String, Option-cases, Bool-cases, append-nil, inl, inr, arith,
}
use volq_auth.Base.Value.{Value, truthy}
use volq_auth.Sdk.Client.{Client, init, get_hwid}
use volq_auth.Sdk.Client.Interface.{Platform, World}
use volq_auth.Sdk.Client.Methods.{attempt, with_session, authenticate_license, authenticate_user}
use volq_auth.Sdk.Client.Laws.Init.{opens, init_lem}
use volq_auth.Sdk.Client.Laws.Exchange.{Reply-cases, exchange_lem}
use volq_auth.Sdk.Client.Laws.Requests.{get_variable_lem}
use volq_auth.Sdk.Provider
use volq_auth.Sdk.Provider.{
  App, View, Op, initialize, leave, by_license, read_variable, by_credentials, begin,
  login_with_license, login_with_credentials,
}
use volq_auth.Sdk.Overlap.{
  Overlap, Login, license, user, login_path_of, fields_of, fallback_of, send_init, receive_init,
  send_login, receive_login, begin_login, begin_init, begin_read, begin_op, receive,
}
use volq_auth.Sdk.Overlap.Settle.{serve, serve_all}

-- Nothing else is under way.
abbrev pub alone : App → Overlap
alone a = record { app = a; pending = [] }

module _ (p : Platform) where
  init-receive :
      (s : Client × World)
      → init p s ≡ receive_init p (p.respond (send_init p s).1.sent) (send_init p s)
  init-receive (c, w) = init_lem p c w

  attempt-receive :
      (l : Login) (s : Client × World)
      → attempt p (fallback_of l) (login_path_of l) (fields_of l) s
        ≡ receive_login p l (p.respond (send_login p l s).1.sent) (send_login p l s)
  attempt-receive l s = elim (Reply-cases (p.respond (send_login p l s).1.sent)) [
    | inl (m, e) ↦ ground (arith, exchange_lem p (login_path_of l) (fields_of l) s)
    | inr (r, e) ↦ ground (arith, exchange_lem p (login_path_of l) (fields_of l) s)
  ]

  -- A login by the client, in both of its ways.
  abbrev log_in : Login → Client × World → Value × (Client × World)
  log_in l = with_session p (attempt p (fallback_of l) (login_path_of l) (fields_of l))

  serve_login :
      (l : Login) (a : App)
      → serve_all p p.respond 2 (begin_login p l (alone a))
        ≡ alone (Provider.login p (log_in l) a).1
  unfolding serve_all serve begin_login receive Provider.login with_session
  serve_login l (v, s) = elim (Bool-cases (truthy s.0.session_id)) [
    | inl inside ↦ ground (arith, attempt-receive l s)
    | inr outside ↦ elim (Option-cases (opens (p.respond (send_init p s).1.sent))) [
      | inl e ↦ ground (arith, init-receive s)
      | inr (sid, e) ↦ ground (arith, init-receive s, attempt-receive l (init p s).1)
    ]
  ]

  serve_init :
      (a : App) → serve_all p p.respond 2 (begin_init p (alone a)) ≡ alone (Provider.init p a).1
  unfolding serve_all serve begin_init receive Provider.init
  serve_init (v, s) =
      elim (Option-cases (opens (p.respond (send_init p (get_hwid p s).1).1.sent))) [
        | inl e ↦ ground (arith, init-receive (get_hwid p s).1)
        | inr (sid, e) ↦ ground (arith, init-receive (get_hwid p s).1)
      ]

  serve_read :
      (var_key : String) (a : App)
      → serve_all p p.respond 2 (begin_read p var_key (alone a))
        ≡ alone (Provider.get_variable p var_key a).1
  unfolding serve_all serve begin_read receive Provider.get_variable
  serve_read var_key (v, (c, w)) = ground (arith, get_variable_lem p var_key c w, append-nil w.sent)

  -- An operation that begins where nothing else is under way leaves, with its replies, what it leaves as a whole.
  serve_all-begin_op :
      (op : Op) (a : App)
      → serve_all p p.respond 2 (begin_op p op (alone a)) ≡ alone (Provider.step p op a)
  unfolding serve_all serve begin_op Provider.step login_with_license login_with_credentials
      authenticate_license authenticate_user
  serve_all-begin_op initialize a = serve_init a
  serve_all-begin_op leave a = refl
  serve_all-begin_op (by_license k) a = serve_login (license k) a
  serve_all-begin_op (read_variable k) a = serve_read k a
  serve_all-begin_op (by_credentials u k) a = serve_login (user u k) a

  -- Operations each of which gets its replies before the next one begins.
  unfoldable pub run_each : List Op → Overlap → Overlap
  run_each [] o = o
  run_each (op ∷ ops) o = run_each ops (serve_all p p.respond 2 (begin_op p op o))

  -- Operations each of which gets its replies, two at most, before the next one begins leave what they leave as a
  -- list of whole operations, with nothing under way.
  pub run_each-run :
      (ops : List Op) (a : App) → run_each ops (alone a) ≡ alone (Provider.run p ops a)
  unfolding run_each Provider.run
  run_each-run [] a = refl
  run_each-run (op ∷ ops) a =
      ap (run_each ops) (serve_all-begin_op op a) ∙ run_each-run ops (Provider.step p op a)
