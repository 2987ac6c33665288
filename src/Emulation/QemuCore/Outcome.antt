-- ===== src/Emulation/QemuCore/Outcome.antt =====
-- What `start` and `stop` of the core leave behind.
use linblock.Prelude.{ℤ, ◌≡◌, refl, true, false, Option, some, List, Result, ok, err, arith}
use linblock.Emulation.EmulatorCore.{
  Error, vm_start_error, VmState, starting, running, error, is_running,
}
use linblock.Emulation.Qemu.Process
use linblock.Emulation.Qemu.Process.{QemuProcess, Host}
use linblock.Emulation.QemuCore.{
  QemuCore, notify_state, adopt, text_of, monitor_rounds, finish_start, try_start, start,
}

notify_state-state : (s : VmState) (c : QemuCore) → (notify_state s c).state ≡ s
unfolding notify_state
notify_state-state s c = ground arith

notify_state-message :
    (s : VmState) (c : QemuCore) → (notify_state s c).error_message ≡ c.error_message
unfolding notify_state
notify_state-message s c = ground arith

-- What `start` answers, by what the start of the process answered, and the state and the message
-- that it leaves.
abbrev pub IsOutcome : Result Process.Error (Unit {0}) → Result Error (Unit {0}) × QemuCore → Type 0
IsOutcome (ok u) (r, c) = (r ≡ ok tt) × (c.state ≡ running)
IsOutcome (err e) (r, c) =
    (r ≡ err vm_start_error) × (c.state ≡ error) × (c.error_message ≡ text_of e)

finish_start-IsOutcome :
    (polls : List (Option ℤ)) (r : Result Process.Error (Unit {0})) (c : QemuCore)
    → IsOutcome r (finish_start polls r c)
unfolding finish_start
finish_start-IsOutcome polls (ok u) c = (refl, notify_state-state running (monitor_rounds polls c))
finish_start-IsOutcome polls (err e) c =
    (refl, notify_state-state error _, notify_state-message error _)

-- `start` of a core that is initialized, has a process and is not running returns and leaves it
-- RUNNING exactly where the process starts; otherwise it raises, and leaves the state ERROR and the
-- message of the process.
pub start-IsOutcome :
    (host : Host) (polls : List (Option ℤ)) (c : QemuCore) (p : QemuProcess)
    → c.initialized ≡ true
    → is_running c.state ≡ false
    → c.qemu_process ≡ some p
    → IsOutcome (Process.start host p).0 (start host polls c)
unfolding start try_start
start-IsOutcome host polls c p up idle held =
    let outcome =
      finish_start-IsOutcome polls (Process.start host p).0
        (adopt p (Process.start host p).1 (notify_state starting c)) in
    simp (up, idle, held) outcome
