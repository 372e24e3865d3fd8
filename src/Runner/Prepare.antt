-- ===== src/Runner/Prepare.antt =====
-- `resolveBackendCommand`, `getNextBinPath` and `ensureFrontendReady` of index.js, as actions that run
-- commands and may end the process with a code.
pub mod Laws
use volq_auth.Base.{
  ℕ, Bool, true, false, not, ◌&&◌, Option, none, some, List, [], ◌∷◌, String, ◌===◌, ◌<>◌, Action,
  ok, throw, pure, raise, ◌>>=◌, ◌>>◌, if◌then◌else◌,
}
use volq_auth.Base.Value.{ℤ}
use volq_auth.Base.Storage.{Storage, set_item}
use volq_auth.Runner.Host.{
  FilePath, Program, file, named, Command, chmod, go_version, npm_install, next_build, Host,
  try_run, run_or_exit,
}
use volq_auth.Runner.Ports.{print_port}

pub record Target : Type 0 where
  pub cmd : Program
  pub args : List String

unfoldable pub binary_name : String → String → String
binary_name platform arch =
    if platform === "win32"
    then "server-windows.exe"
    else if platform === "darwin"
    then (if arch === "arm64" then "server-darwin-arm64" else "server-darwin-amd64")
    else "server-linux"

abbrev pub binary_path : Host → FilePath
binary_path host = "backend" ∷ "bin" ∷ binary_name host.platform host.arch ∷ []

abbrev pub go_run : Target
go_run = record { cmd = named "go"; args = "run" ∷ "./cmd/server" ∷ [] }

unfoldable pub resolve_backend_command : Host → Action (List Command) ℕ Target
resolve_backend_command host ran =
    let target : Target = record { cmd = file (binary_path host); args = [] } in
    if host.exists ran (binary_path host)
    then (if host.platform === "win32"
        then pure target ran
        else (try_run host (chmod (binary_path host)) >> pure target) ran)
    else (do found ← try_run host go_version; if found then pure go_run else raise 1) ran

-- `getNextBinPath`
unfoldable pub get_next_bin_path : Host → List Command → Program
get_next_bin_path host ran = elim (host.next_resolved ran) [
  | none ↦ file ("frontend" ∷ "node_modules" ∷ "next" ∷ "dist" ∷ "bin" ∷ "next" ∷ [])
  | some path ↦ named path
]

abbrev pub node_modules : FilePath
node_modules = "frontend" ∷ "node_modules" ∷ []

abbrev pub next_build_dir : FilePath
next_build_dir = "frontend" ∷ ".next" ∷ []

-- `http://127.0.0.1:${backendPort}`
abbrev pub backend_address : Option ℤ → String
backend_address port = "http://127.0.0.1:" <> print_port port

unfoldable pub install : Host → Action (List Command) ℕ (Unit {0})
install host ran =
    if host.exists ran node_modules then (ok tt, ran) else run_or_exit host npm_install ran

-- `"${process.execPath}" "${nextBin}" build`
abbrev pub build_command : Host → Option ℤ → Storage → List Command → Command
build_command host port env ran =
    next_build host.exec_path (get_next_bin_path host ran)
      (set_item "INTERNAL_API_URL" (backend_address port) env)

unfoldable pub build : Host → Bool → Option ℤ → Storage → Action (List Command) ℕ (Unit {0})
build host dev port env ran =
    if not dev && not (host.exists ran next_build_dir)
    then run_or_exit host (build_command host port env ran) ran
    else (ok tt, ran)

unfoldable pub ensure_frontend_ready :
    Host → Bool → Option ℤ → Storage → Action (List Command) ℕ (Unit {0})
ensure_frontend_ready host dev port env = install host >> build host dev port env
