-- ===== src/Runner/Tests/Machine.antt =====
-- The theorems on what the runner starts, on a machine where nothing is installed.
use volq_auth.Base.{
  ◌≡◌, refl, Bool, true, false, ◌||◌, none, some, List, [], ◌∷◌, ◌++◌, ◌<>◌, ◌===◌, ok, throw,
  arith,
}
use volq_auth.Base.Value.{pos}
use volq_auth.Base.Digits.{to_string}
use volq_auth.Base.Storage.{get_item}
use volq_auth.Dashboard.NextConfig.{rewrites}
use volq_auth.Runner.Host.{
  FilePath, named, Command, chmod, go_version, npm_install, next_build, Host,
}
use volq_auth.Runner.Prepare.{ensure_frontend_ready, node_modules, next_build_dir, install, build}
use volq_auth.Runner.Prepare.Laws.{IsReliable}
use volq_auth.Runner.Launch.{launch_frontend, frontend_env, backend_env}
use volq_auth.Runner.Launch.Proxy.{rewrites-frontend_env}

-- The folder that a command leaves.
abbrev makes : Command → FilePath → Bool
makes (chmod path) p = false
makes go_version p = false
makes npm_install [] = false
makes npm_install (folder ∷ []) = false
makes npm_install (folder ∷ name ∷ path) = name === "node_modules"
makes (next_build node next env) [] = false
makes (next_build node next env) (folder ∷ []) = false
makes (next_build node next env) (folder ∷ name ∷ path) = name === ".next"

abbrev made : List Command → FilePath → Bool
made [] p = false
made (c ∷ cs) p = makes c p || made cs p

abbrev machine : (List Command → Command → Bool) → Host
machine succeeds = record {
  platform = "linux";
  arch = "x64";
  exec_path = named "/usr/bin/node";
  exists = made;
  succeeds = succeeds;
  next_resolved = λ ran. none;
}

abbrev working : Host
working = machine (λ ran c. true)

-- npm fails.
abbrev offline : Host
offline = machine (λ ran c. false)

made-last :
    (cs : List Command) (c : Command) (p : FilePath)
    → makes c p ≡ true
    → made (cs ++ c ∷ []) p ≡ true
made-last [] c p h = rw h refl
made-last (d ∷ cs) c p h = ground (arith, made-last cs c p h)

made-keeps :
    (cs : List Command) (c : Command) (p : FilePath)
    → made cs p ≡ true
    → made (cs ++ c ∷ []) p ≡ true
made-keeps [] c p h = absurd (ground arith)
made-keeps (d ∷ cs) c p h = ground (arith, made-keeps cs c p)

working-IsReliable : IsReliable working
working-IsReliable = record {
  installs = λ ran h. made-last ran npm_install node_modules refl;
  builds = λ ran node next env h. made-last ran (next_build node next env) next_build_dir refl;
  keeps = λ ran c p h. made-keeps ran c p h;
}

working_ready : (ensure_frontend_ready working false (some (pos 8080)) [] []).0 ≡ ok tt
unfolding ensure_frontend_ready install build
working_ready = refl

offline_exit : (launch_frontend offline [] []).0 ≡ throw 1
unfolding launch_frontend ensure_frontend_ready install
offline_exit = refl

rewrites-frontend_env_example :
    (get_item "PORT" (backend_env false (some (pos 8080)) []) ≡ some (to_string 10 8080))
    × (rewrites
          (get_item "INTERNAL_API_URL" (frontend_env false (some (pos 3000)) (some (pos 8080)) []))
          (get_item "NEXT_PUBLIC_API_URL"
            (frontend_env false (some (pos 3000)) (some (pos 8080)) []))
        ≡ record {
          source = "/api/v1/:path*";
          destination = "http://127.0.0.1:" <> (to_string 10 8080 <> "/api/v1/:path*");
        }
          ∷ [])
rewrites-frontend_env_example = rewrites-frontend_env false (some (pos 3000)) 8080 []
