-- ===== src/Runner/Host.antt =====
-- The machine that index.js runs on, as a parameter, and the commands that it runs there before any server.
use volq_auth.Base.{Bool, Option, List, String, ℕ, Action, ok, throw, if◌then◌else◌, [], ◌∷◌, ◌++◌}
use volq_auth.Base.Storage.{Storage}

-- The segments of a path below the folder of index.js.
abbrev pub FilePath : Type 0
FilePath = List String

pub data Program : Type 0 where
  file : FilePath → Program
  named : String → Program

-- `chmodSync`, and what `execSync` runs; the build has Node's program, Next's and an environment.
pub data Command : Type 0 where
  chmod : FilePath → Command
  go_version npm_install : Command
  next_build : Program → Program → Storage → Command

-- The answers may depend on the commands that ran before.
pub record Host : Type 0 where
  pub platform : String
  pub arch : String
  pub exec_path : Program
  pub exists : List Command → FilePath → Bool
  pub succeeds : List Command → Command → Bool
  pub next_resolved : List Command → Option String

-- `ok true` where the command succeeds, `ok false` where it throws and is caught.
abbrev pub try_run : Host → Command → Action (List Command) ℕ Bool
try_run host c ran = (ok (host.succeeds ran c), ran ++ c ∷ [])

-- `process.exit(1)` where the command throws.
abbrev pub run_or_exit : Host → Command → Action (List Command) ℕ (Unit {0})
run_or_exit host c ran = (if host.succeeds ran c then ok tt else throw 1, ran ++ c ∷ [])
