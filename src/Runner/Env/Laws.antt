-- ===== src/Runner/Env/Laws.antt =====
-- What `loadEnv` keeps and what it completes.
use volq_auth.Base.{
  ◌≡◌, refl, true, false, Option, none, some, List, [], ◌∷◌, String, is_empty, arith, eq_iff,
}
use volq_auth.Base.Storage.{Storage, get_item, get_item-set_item}
use volq_auth.Runner.Env.{
  EnvFile, absent, unreadable, content, env_paths, split, read_line, is_set, set_missing,
  apply_entry, apply_line, apply_lines, apply_file, apply_files, defaults, load_env,
}

-- A variable that is set, and what it is set to.
abbrev pub Holds : String → String → Storage → Type 0
Holds k v env = (get_item k env ≡ some v) × (is_empty v ≡ false)

set_missing-Holds :
    (k v j w : String) (env : Storage) → Holds k v env → Holds k v (set_missing j w env)
unfolding set_missing
set_missing-Holds k v j w env h = ground (arith, get_item-set_item j k w env, eq_iff j k)

apply_entry-Holds :
    (k v : String) (entry : Option (String × String)) (env : Storage)
    → Holds k v env
    → Holds k v (apply_entry entry env)
unfolding apply_entry
apply_entry-Holds k v none env h = h
apply_entry-Holds k v (some (j, w)) env h = set_missing-Holds k v j w env h

apply_lines-Holds :
    (k v : String) (lines : List String) (env : Storage)
    → Holds k v env
    → Holds k v (apply_lines lines env)
unfolding apply_lines
apply_lines-Holds k v [] env h = h
apply_lines-Holds k v (line ∷ lines) env h =
    apply_lines-Holds k v lines (apply_line line env) (apply_entry-Holds k v (read_line line) env h)

apply_file-Holds :
    (k v : String) (file : EnvFile) (env : Storage)
    → Holds k v env
    → Holds k v (apply_file file env)
unfolding apply_file
apply_file-Holds k v absent env h = h
apply_file-Holds k v unreadable env h = h
apply_file-Holds k v (content text) env h = apply_lines-Holds k v (split b'\n' text) env h

apply_files-Holds :
    (k v : String) (read : List String → EnvFile) (paths : List (List String)) (env : Storage)
    → Holds k v env
    → Holds k v (apply_files read paths env)
unfolding apply_files
apply_files-Holds k v read [] env h = h
apply_files-Holds k v read (path ∷ paths) env h =
    apply_files-Holds k v read paths (apply_file (read path) env)
      (apply_file-Holds k v (read path) env h)

-- A variable of the environment that is set and not empty keeps its value, whatever the files say.
pub load_env-Holds :
    (k v : String) (read : List String → EnvFile) (env : Storage)
    → Holds k v env
    → Holds k v (load_env read env)
unfolding load_env defaults
load_env-Holds k v read env h = set_missing-Holds k v _ _ _ (
    set_missing-Holds k v _ _ _
      (set_missing-Holds k v _ _ _ (apply_files-Holds k v read env_paths env h)))

set_missing-is_set :
    (k v : String) (env : Storage) → is_empty v ≡ false → is_set k (set_missing k v env) ≡ true
unfolding set_missing
set_missing-is_set k v env h = ground (arith, get_item-set_item k k v env, eq_iff k k)

set_missing-is_set_before :
    (k j w : String) (env : Storage)
    → is_set k env ≡ true
    → is_empty w ≡ false
    → is_set k (set_missing j w env) ≡ true
unfolding set_missing
set_missing-is_set_before k j w env h e = ground (arith, get_item-set_item j k w env, eq_iff j k)

-- After the load the URL of the database and both keys are set and not empty, whatever the files and the environment
-- say.
load_env-is_set :
    (read : List String → EnvFile) (env : Storage)
    → (is_set "DATABASE_URL" (load_env read env) ≡ true)
      × (is_set "JWT_SECRET" (load_env read env) ≡ true)
      × (is_set "SERVER_MASTER_KEY" (load_env read env) ≡ true)
unfolding load_env defaults
load_env-is_set read env = (
  set_missing-is_set_before "DATABASE_URL" _ _ _
      (set_missing-is_set_before "DATABASE_URL" _ _ _ (set_missing-is_set "DATABASE_URL" _ _ refl)
        refl)
      refl,
  set_missing-is_set_before "JWT_SECRET" _ _ _ (set_missing-is_set "JWT_SECRET" _ _ refl) refl,
  set_missing-is_set "SERVER_MASTER_KEY" _ _ refl,
)
