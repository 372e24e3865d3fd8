-- ===== src/Runner/Launch.antt =====
-- The environments and the arguments that index.js starts its two servers with.
pub mod Laws
pub mod Proxy
use volq_auth.Base.{
  ℕ, Bool, Option, List, [], ◌∷◌, map, String, if◌then◌else◌, Action, pure, gets, ◌>>=◌, ◌>>◌,
}
use volq_auth.Base.Value.{ℤ}
use volq_auth.Base.Storage.{Storage, set_item}
use volq_auth.Runner.Host.{FilePath, Program, named, Command, Host}
use volq_auth.Runner.Ports.{print_port, is_dev, public_port, backend_port}
use volq_auth.Runner.Prepare.{
  Target, resolve_backend_command, get_next_bin_path, ensure_frontend_ready, backend_address,
}

abbrev mode : Bool → String
mode dev = if dev then "development" else "production"

-- `{ ...process.env, … }`
unfoldable pub backend_env : Bool → Option ℤ → Storage → Storage
backend_env dev port env = set_item "ENV" (mode dev) (set_item "PORT" (print_port port) env)

unfoldable pub frontend_env : Bool → Option ℤ → Option ℤ → Storage → Storage
frontend_env dev public backend env = set_item "NODE_ENV" (mode dev) (
    set_item "NEXT_PUBLIC_API_URL" "" (
      set_item "INTERNAL_API_URL" (backend_address backend)
        (set_item "PORT" (print_port public) env)))

unfoldable pub frontend_args : Bool → Program → Option ℤ → List Program
frontend_args dev next_bin public =
    next_bin ∷ named (if dev then "dev" else "start") ∷ named "-p" ∷ named (print_port public) ∷ []

-- What `spawn` is called with; the folder is below that of index.js.
pub record Spawn : Type 0 where
  pub program : Program
  pub args : List Program
  pub cwd : FilePath
  pub env : Storage

-- `start` up to the backend's process, over the loaded environment.
unfoldable pub launch_backend : Host → Storage → Action (List Command) ℕ Spawn
launch_backend host env = resolve_backend_command host >>= λ target. pure (record {
  program = target.cmd;
  args = map named target.args;
  cwd = "backend" ∷ [];
  env = backend_env (is_dev env) (backend_port env) env;
})

abbrev frontend_spawn : Host → Storage → List Command → Spawn
frontend_spawn host env ran = record {
  program = host.exec_path;
  args = frontend_args (is_dev env) (get_next_bin_path host ran) (public_port env);
  cwd = "frontend" ∷ [];
  env = frontend_env (is_dev env) (public_port env) (backend_port env) env;
}

-- `start` from the end of the wait to the frontend's process.
unfoldable pub launch_frontend : Host → Storage → Action (List Command) ℕ Spawn
launch_frontend host env =
    ensure_frontend_ready host (is_dev env) (backend_port env) env >> gets (frontend_spawn host env)
