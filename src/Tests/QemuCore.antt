-- ===== src/Tests/QemuCore.antt =====
-- `QEMUEmulatorCore` at concrete inputs.
use linblock.Prelude.{string_eq, refl, true, none, some, [], ◌∷◌}
use linblock.Emulation.EmulatorCore.{is_running, default_config, paused}
use linblock.Emulation.Qemu.Config
use linblock.Emulation.Qemu.Process
use linblock.Emulation.Qemu.Process.{QemuProcess, Host, lives, spawned}
use linblock.Emulation.QemuCore.{QemuCore, new_core, start}
use linblock.Emulation.QemuCore.Outcome.{IsOutcome, start-IsOutcome}

abbrev host : Host
host = record {
  qemu_available = true;
  kvm_available = true;
  exists = λ path. true;
  port_free = λ port. true;
  spawn = spawned 7 lives;
}

abbrev process : QemuProcess
process = record (Process.new_process Config.default_config) { listening = true }

abbrev idle : QemuCore
idle = record (new_core default_config) { initialized = true; qemu_process = some process }

start-IsOutcome_example :
    IsOutcome (Process.start host process).0 (start host (none ∷ none ∷ []) idle)
start-IsOutcome_example =
    start-IsOutcome host (none ∷ none ∷ []) idle process refl (unfold new_core is_running in refl)
      refl

abbrev active : QemuProcess
active = record process { state = Process.running; process = some ("qemu" ∷ []) }

abbrev paused_core : QemuCore
paused_core = record idle { state = paused; qemu_process = some active }
