-- ===== src/Runner/Prepare/Laws.antt =====
-- What the preparation runs and leaves.
use volq_auth.Base.{
  ◌≡◌, refl, Bool, true, false, not, ◌&&◌, ◌⊎◌, inl, inr, Option, List, [], ◌∷◌, ◌++◌, ok,
  Bool-cases, Result-cases, >>-ok, >>-throw, arith,
}
use volq_auth.Base.Value.{ℤ}
use volq_auth.Base.Storage.{Storage, set_item}
use volq_auth.Runner.Host.{FilePath, Program, Command, npm_install, next_build, Host}
use volq_auth.Runner.Prepare.{
  get_next_bin_path, backend_address, node_modules, next_build_dir, install, build,
  ensure_frontend_ready,
}

-- What npm and Next promise: each leaves its folder when it succeeds, and no command removes a folder.
pub record IsReliable (host : Host) : Type 0 where
  pub installs :
      (ran : List Command)
      → host.succeeds ran npm_install ≡ true
      → host.exists (ran ++ npm_install ∷ []) node_modules ≡ true
  pub builds :
      (ran : List Command) (node next : Program) (env : Storage)
      → host.succeeds ran (next_build node next env) ≡ true
      → host.exists (ran ++ next_build node next env ∷ []) next_build_dir ≡ true
  pub keeps :
      (ran : List Command) (c : Command) (path : FilePath)
      → host.exists ran path ≡ true
      → host.exists (ran ++ c ∷ []) path ≡ true

module _ (host : Host) (reliable : IsReliable host) where
  install-exists :
      (ran : List Command)
      → (install host ran).0 ≡ ok tt
      → host.exists (install host ran).1 node_modules ≡ true
  unfolding install
  install-exists ran h = elim (Bool-cases (host.exists ran node_modules)) [
    | inl e ↦ rw e e
    | inr e ↦ ground (arith, reliable.installs ran)
  ]

  build-exists :
      (dev : Bool) (port : Option ℤ) (env : Storage) (ran : List Command)
      → (build host dev port env ran).0 ≡ ok tt
      → (dev ≡ true) ⊎ (host.exists (build host dev port env ran).1 next_build_dir ≡ true)
  unfolding build
  build-exists true port env ran h = inl refl
  build-exists false port env ran h = elim (Bool-cases (host.exists ran next_build_dir)) [
    | inl e ↦ inr (rw e e)
    | inr e ↦ inr (
        ground (
          arith,
          reliable.builds ran host.exec_path (get_next_bin_path host ran)
              (set_item "INTERNAL_API_URL" (backend_address port) env),
        ))
  ]

  build-keeps :
      (dev : Bool) (port : Option ℤ) (env : Storage) (ran : List Command) (path : FilePath)
      → host.exists ran path ≡ true
      → host.exists (build host dev port env ran).1 path ≡ true
  unfolding build
  build-keeps dev port env ran path h =
      elim (Bool-cases (not dev && not (host.exists ran next_build_dir))) [
        | inl e ↦ rw e (reliable.keeps ran _ path h)
        | inr e ↦ rw e h
      ]

  -- Where npm and Next leave their folders, a preparation of the frontend that does not end the process has the
  -- folder of the packages there, and outside the development mode the one of the build.
  ensure_frontend_ready-exists :
      (dev : Bool) (port : Option ℤ) (env : Storage) (ran : List Command)
      → (ensure_frontend_ready host dev port env ran).0 ≡ ok tt
      → (host.exists (ensure_frontend_ready host dev port env ran).1 node_modules ≡ true)
        × ((dev ≡ true)
            ⊎ (host.exists (ensure_frontend_ready host dev port env ran).1 next_build_dir ≡ true))
  unfolding ensure_frontend_ready
  ensure_frontend_ready-exists dev port env ran h = elim (Result-cases (install host ran).0) [
    | inl (u, e) ↦
        let after : List Command = (install host ran).1 in
        let first = >>-ok (install host) (build host dev port env) ran u e in
        let built : (build host dev port env after).0 ≡ ok tt = rw first at h in
        rw first (
          build-keeps dev port env after node_modules (install-exists ran e),
          build-exists dev port env after built,
        )
    | inr (code, e) ↦
        absurd (ground (arith, >>-throw (install host) (build host dev port env) ran code e))
  ]
