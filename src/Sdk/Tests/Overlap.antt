-- ===== src/Sdk/Tests/Overlap.antt =====
-- The theorems on overlapping operations: a login begins while the first handshake is under way.
use volq_auth.Base.{◌*◌, ◌≡◌, refl, some, true, false, List, [], ◌∷◌, length}
use volq_auth.Sdk.Client.{get_hwid, new_client, settle, accept}
use volq_auth.Sdk.Client.Encoding.{from_base64}
use volq_auth.Sdk.Client.Interface.{HttpRequest, Reply, failed, answered}
use volq_auth.Sdk.Provider
use volq_auth.Sdk.Provider.{App, Op, initialize, leave, by_license, read_variable}
use volq_auth.Sdk.Overlap.{
  Overlap, Event, began, replied, step, run, start, license, opening, handshake, begin_op,
  begin_login, begin_init, receive, receive_login, login,
}
use volq_auth.Sdk.Overlap.Honest.{IsHonest}
use volq_auth.Sdk.Overlap.Settle.{serve_all, run_settles}
use volq_auth.Sdk.Overlap.Sequential.{alone, run_each, run_each-run}
use volq_auth.Base.Value.{null, or_else, lookup_field}
use volq_auth.Sdk.Client.Laws.Token.{field_of}
use volq_auth.Sdk.Overlap.Overtaken.{overtaken_login}
use volq_auth.Sdk.Tests.{online, config, blank, reply, fresh_app}

-- The handshake of the first render is lost after the login has begun its own.
abbrev events : List Event
events = began (by_license "KEY") ∷ replied 0 (failed "lost") ∷ []

abbrev under_way : Overlap
under_way = record {
  app =
      (receive online handshake (failed "lost")
        (begin_op online (by_license "KEY") (start online config true blank)).app).0;
  pending = opening (license "KEY") ∷ [];
}

abbrev server : List HttpRequest → Reply
server sent = answered reply

run_settles_example :
    let t = serve_all online server (2 * length under_way.pending) under_way in
    (t.pending ≡ []) × (t.app.0.is_loading ≡ false) × IsHonest t.app
unfolding run step start begin_op begin_login begin_init get_hwid Provider.mount new_client receive
run_settles_example = run_settles online server config true blank events under_way refl

abbrev ops : List Op
ops = initialize ∷ by_license "KEY" ∷ read_variable "api_key" ∷ leave ∷ []

run_each-run_example :
    run_each online ops (alone fresh_app) ≡ alone (Provider.run online ops fresh_app)
run_each-run_example = run_each-run online ops fresh_app

-- The newer login is lost.
overtaken_login_example :
    (s t : Overlap) × (step online
        (replied 1 (failed "lost"))
        (record { app = fresh_app; pending = login (license "A") ∷ login (license "B") ∷ [] })
      ≡ some s)
    × (s.pending ≡ login (license "A") ∷ [])
    × (s.app.0.is_loading ≡ false)
    × (step online (replied 0 (answered reply)) s ≡ some t)
    × (t.pending ≡ [])
    × (t.app.0.is_authenticated ≡ true)
    × (t.app.0.session_token
        ≡ or_else
            (field_of "session_token"
              (receive_login online (license "A") (answered reply) s.app.1).0)
            null)
unfolding receive settle accept from_base64 lookup_field
overtaken_login_example =
    overtaken_login online (license "A") (license "B") (failed "lost") (answered reply) fresh_app
      refl
