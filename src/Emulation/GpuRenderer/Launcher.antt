-- ===== src/Emulation/GpuRenderer/Launcher.antt =====
-- How the worker is started: `RendererProcessConfig`, `_find_renderer_executable` and
-- `_build_sandbox_command` of internal/renderer_process.py. The interpreter, the directory of the
-- source, the home directory, the files that exist and `json.dumps` are arguments.
use Prim.Native.String.{◌++◌ as ◌<>◌}
use linblock.Prelude.{
  ℕ, String, Bool, true, false, ◌≡◌, refl, ◌⊎◌, inr, List, [], ◌∷◌, ◌++◌, arith, All, if◌then◌else◌,
}

pub record Config : Type 0 where
  pub width : ℕ
  pub height : ℕ
  pub library_path : String
  pub socket_path : String
  pub shm_name : String
  pub use_sandbox : Bool
  pub log_path : String

pub record Machine : Type 0 where
  pub executable : String
  pub source_dir : String
  pub home : String
  pub exists : String → Bool
  pub dumps : Config → String

-- The first path that exists, or another.
unfoldable pub first_existing : (String → Bool) → List String → String → String
first_existing exists [] other = other
first_existing exists (path ∷ paths) other =
    let rest = first_existing exists paths other in if exists path then path else rest

abbrev pub worker_beside : Machine → String
worker_beside m = m.source_dir <> "/renderer_worker.py"

abbrev pub search_paths : Machine → List String
search_paths m =
    worker_beside m
    ∷ (m.home
        <> "/projects/linblock/src/modules/emulation/gpu_renderer/internal/renderer_worker.py")
    ∷ "/usr/local/lib/linblock/renderer_worker.py"
    ∷ []

-- `_find_renderer_executable`
unfoldable pub find_renderer_executable : Machine → String
unfolding first_existing
find_renderer_executable m = first_existing m.exists (search_paths m) (worker_beside m)

abbrev pub unshare : List String
unshare = "/usr/bin/unshare" ∷ "--map-root-user" ∷ "--net" ∷ "--" ∷ []

abbrev pub firejail : List String
firejail = "/usr/bin/firejail" ∷ "--quiet" ∷ "--private-dev" ∷ "--net=none" ∷ "--" ∷ []

abbrev pub plain_command : Machine → Config → String → List String
plain_command m config worker_path = m.executable ∷ worker_path ∷ "--config" ∷ m.dumps config ∷ []

-- `_build_sandbox_command`
unfoldable pub build_sandbox_command : Machine → Config → String → List String
build_sandbox_command m config worker_path =
    let cmd = plain_command m config worker_path in
    if config.use_sandbox
    then if m.exists "/usr/bin/unshare"
      then unshare ++ cmd
      else if m.exists "/usr/bin/firejail"
      then firejail ++ cmd
      else cmd
    else cmd

first_existing_lem :
    (exists : String → Bool) (paths : List String) (other : String)
    → (exists (first_existing exists paths other) ≡ true)
      ⊎ (All (λ p. exists p ≡ false) paths × (first_existing exists paths other ≡ other))
unfolding first_existing
first_existing_lem exists [] other = inr (tt, refl)
first_existing_lem exists (path ∷ paths) other =
    ground (arith, first_existing_lem exists paths other)

-- The worker that is run exists, or none of the three does and it is the one beside the source.
pub find_renderer_executable_lem :
    (m : Machine)
    → (m.exists (find_renderer_executable m) ≡ true)
      ⊎ (All (λ p. m.exists p ≡ false) (search_paths m)
          × (find_renderer_executable m ≡ worker_beside m))
unfolding find_renderer_executable
find_renderer_executable_lem m = first_existing_lem m.exists (search_paths m) (worker_beside m)
