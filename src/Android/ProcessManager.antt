-- ===== src/Android/ProcessManager.antt =====
-- src/modules/android/process_manager/interface.py: `DefaultProcessManager`. The usage figures of a
-- process, floats that the code never sets, are counted in hundredths.
pub mod Processes
use linblock.Prelude.{
  ℕ, ◌+◌, String, string_eq, nat_eq, ◌==◌, Bool, true, false, Option, none, some, List, [], ◌∷◌,
  Result, ok, err, Method, require, ◌>>=◌, ◌>>◌, keep,
}
use linblock.Dict
use linblock.Dict.{Dict}

pub data Error : Type 0 where
  process_manager_error : Error
  process_not_found : ℕ → Error

pub record ProcessInfo : Type 0 where
  pub pid : ℕ
  pub pkg : String
  pub name : String
  pub cpu_percent : ℕ
  pub memory_mb : ℕ
  pub state : String
  pub threads : ℕ

pub record ProcessManager : Type 0 where
  pub processes : Dict ℕ ProcessInfo
  pub initialized : Bool

abbrev pub Call : Type 0 → Type 0
Call A = Method Error ProcessManager A

unfoldable pub init : ProcessManager
init = record { processes = Dict.empty; initialized = true }

unfoldable pub require_initialized : Call Unit
require_initialized m = require m.initialized process_manager_error m

list_processes : Call (List ProcessInfo)
unfolding require_initialized
list_processes = require_initialized >> (λ m. (ok (Dict.values m.processes), m))

found : ℕ → Option ProcessInfo → Call ProcessInfo
found pid none m = (err (process_not_found pid), m)
found pid (some p) m = (ok p, m)

unfoldable pub get_process : ℕ → Call ProcessInfo
unfolding require_initialized found
get_process pid = do require_initialized; λ m. found pid (Dict.get m.processes pid) m

pub kill_process : ℕ → Call Unit
unfolding require_initialized found
kill_process pid = do
  require_initialized
  p ← λ m. found pid (Dict.get m.processes pid) m
  λ m. (ok tt, record m { processes = Dict.remove m.processes pid })

get_processes_by_package : String → Call (List ProcessInfo)
unfolding require_initialized
get_processes_by_package pkg = do
  require_initialized
  λ m. (ok (keep (λ p. p.pkg == pkg) (Dict.values m.processes)), m)

abbrev pub new_process : ℕ → String → String → ProcessInfo
new_process pid pkg name = record {
  pid = pid;
  pkg = pkg;
  name = name;
  cpu_percent = 0;
  memory_mb = 0;
  state = "running";
  threads = 1;
}

-- A process that is there under `pid` is replaced.
pub add_process : ℕ → String → String → Call ProcessInfo
unfolding require_initialized
add_process pid pkg name = do
  require_initialized
  λ m.
      let info = new_process pid pkg name in
      (ok info, record m { processes = Dict.put m.processes pid info })

pub record Usage : Type 0 where
  pub total_cpu_percent : ℕ
  pub total_memory_mb : ℕ
  pub process_count : ℕ

abbrev total : (ProcessInfo → ℕ) → List ProcessInfo → ℕ
total f [] = 0
total f (p ∷ ps) = f p + total f ps

pub get_resource_usage : Call Usage
unfolding require_initialized
get_resource_usage = do
  require_initialized
  λ m.
      let usage : Usage = record {
        total_cpu_percent = total (λ p. p.cpu_percent) (Dict.values m.processes);
        total_memory_mb = total (λ p. p.memory_mb) (Dict.values m.processes);
        process_count = Dict.size m.processes;
      } in
      (ok usage, m)

unfoldable pub cleanup : ProcessManager → ProcessManager
cleanup m = record { processes = Dict.empty; initialized = false }
