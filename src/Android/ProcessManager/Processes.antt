-- ===== src/Android/ProcessManager/Processes.antt =====
-- What the calls that read the processes return after those that change them.
use linblock.Prelude.{
  ℕ, ◌+◌, String, string_eq, nat_eq, ◌==◌, ◌≡◌, refl, true, ok, err, Result, if◌then◌else◌, arith,
  Option-cases, inl, inr,
}
use linblock.Dict
use linblock.Dict.{get-put, get-remove, size-put, size-remove, IsDict}
use linblock.Android.ProcessManager.{
  Error, process_not_found, ProcessInfo, ProcessManager, get_process, kill_process, add_process,
  new_process, get_resource_usage, Usage,
}

-- The count that `get_resource_usage` returned; 0 where it raised.
abbrev pub count : Result Error Usage → ℕ
count (ok usage) = usage.process_count
count (err e) = 0

module _ (m : ProcessManager) (pid : ℕ) where
  -- After `kill_process` of a process that is there, on a live manager, there is none under its
  -- identifier, the others are as before, and there is one process less.
  pub get_process-kill_process :
      (p : ProcessInfo) (other : ℕ)
      → m.initialized ≡ true
      → IsDict m.processes
      → (get_process pid m).0 ≡ ok p
      → ((kill_process pid m).0 ≡ ok tt)
        × ((get_process other (kill_process pid m).1).0
            ≡ (if pid == other then err (process_not_found other) else (get_process other m).0))
        × (count (get_resource_usage (kill_process pid m).1).0 + 1 ≡ count (get_resource_usage m).0)
  unfolding get_process kill_process get_resource_usage
  get_process-kill_process p other up unique h = elim (Option-cases (Dict.get m.processes pid)) [
    | inl gone ↦ absurd (ground arith)
    | inr (q, held) ↦
        let smaller = size-remove m.processes pid unique in
        (
          rw (up, held) refl,
          rw (up, held) (ground (arith, get-remove m.processes pid other)),
          rw (up, held) (rw held at smaller),
        )
  ]

  -- `add_process` on a live manager puts the new process under its identifier, in the place of one
  -- that was there, leaves the others, and adds to the count only if there was none.
  pub get_process-add_process :
      (pkg name : String) (other : ℕ)
      → m.initialized ≡ true
      → ((get_process other (add_process pid pkg name m).1).0
          ≡ (if pid == other then ok (new_process pid pkg name) else (get_process other m).0))
        × (count (get_resource_usage (add_process pid pkg name m).1).0 ≡ (
            if Dict.contains m.processes pid
            then count (get_resource_usage m).0
            else count (get_resource_usage m).0 + 1))
  unfolding get_process add_process get_resource_usage
  get_process-add_process pkg name other up =
      let info = new_process pid pkg name in
      (
        rw up (ground (arith, get-put m.processes pid other info)),
        rw up (size-put m.processes pid info),
      )
