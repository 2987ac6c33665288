-- ===== src/Emulation/QemuCore.antt =====
-- src/modules/emulation/emulator_core/interface.py: `QEMUEmulatorCore`, over the model of the QEMU
-- process. Its callback on that process runs inside the calls of the process, which read nothing of
-- the core, so what the process told is delivered after each call. The VNC client has no effect on
-- the state, and is left out with the frames and the clock.
pub mod Outcome
use linblock.Prelude.{
  ℕ, ℤ, String, string_eq, Bool, true, false, ◌&&◌, not, Option, none, some, List, [], ◌∷◌, ◌++◌,
  length, drop, Result, ok, err, Method, if◌then◌else◌,
}
use Prim.Native.String.{◌++◌ as ◌<>◌}
use linblock.Emulation.EmulatorCore.{
  Error, emulator_core_error, vm_start_error, vm_not_running, VmState, stopped, starting, running,
  paused, stopping, error, VmConfig, is_running, is_paused, is_live,
}
use linblock.Emulation.Qemu.Config
use linblock.Emulation.Qemu.Config.{QemuConfig, decimal}
use linblock.Emulation.Qemu.Process
use linblock.Emulation.Qemu.Process.{QemuState, QemuProcess, Host}

pub record QemuCore : Type 0 where
  pub config : VmConfig
  pub state : VmState
  pub initialized : Bool
  pub qemu_process : Option QemuProcess
  pub listening : Bool
  pub notified : List VmState
  pub error_message : String
  pub serial_log_path : Option String

abbrev pub Call : Type 0 → Type 0
Call A = Method Error QemuCore A

unfoldable pub new_core : VmConfig → QemuCore
new_core config = record {
  config = config;
  state = stopped;
  initialized = false;
  qemu_process = none;
  listening = false;
  notified = [];
  error_message = "";
  serial_log_path = none;
}

pub add_state_callback : QemuCore → QemuCore
add_state_callback c = record c { listening = true }

abbrev pub same_state : VmState → VmState → Bool
same_state stopped stopped = true
same_state starting starting = true
same_state running running = true
same_state paused paused = true
same_state stopping stopping = true
same_state error error = true
same_state _ _ = false

-- `_notify_state`
pub notify_state : VmState → QemuCore → QemuCore
notify_state s c =
    if c.listening && not (same_state c.state s)
    then record c { state = s; notified = c.notified ++ s ∷ [] }
    else record c { state = s }

-- The table of `_on_qemu_state`.
abbrev pub vm_state : QemuState → VmState
vm_state Process.stopped = stopped
vm_state Process.starting = starting
vm_state Process.running = running
vm_state Process.stopping = stopping
vm_state Process.error = error

pub on_qemu_states : List QemuState → QemuCore → QemuCore
on_qemu_states [] c = c
on_qemu_states (s ∷ states) c = on_qemu_states states (notify_state (vm_state s) c)

-- A call has made `after` of the process, and told its callback what is new in `notified`.
pub adopt : QemuProcess → QemuProcess → QemuCore → QemuCore
adopt before after c =
    on_qemu_states (drop (length before.notified) after.notified)
      (record c { qemu_process = some after })

abbrev or_empty : Option String → String
or_empty none = ""
or_empty (some s) = s

abbrev qemu_config : QemuCore → QemuConfig
qemu_config c = record Config.default_config {
  system_image = or_empty c.config.system_image;
  memory_mb = c.config.memory_mb;
  cpu_cores = c.config.cpu_cores;
  use_kvm = c.config.use_kvm;
  screen_width = c.config.screen_width;
  screen_height = c.config.screen_height;
  vnc_port = c.config.vnc_port;
  adb_port = c.config.adb_port;
  gpu_mode = c.config.gpu_mode;
  serial_log = c.serial_log_path;
  kernel = c.config.kernel_path;
  initrd = c.config.initrd_path;
  kernel_cmdline = c.config.kernel_cmdline;
  cdrom_image = c.config.cdrom_image;
}

unfoldable pub initialize : QemuCore → QemuCore
initialize c = record c {
  qemu_process = some (Process.add_state_callback (Process.new_process (qemu_config c)));
  initialized = true;
}

set_serial_log : Option String → QemuCore → QemuCore
set_serial_log path c = record c {
  serial_log_path = path;
  qemu_process = elim c.qemu_process [
    | none ↦ none
    | some p ↦ some (record p { config = record p.config { serial_log = path } })
  ];
}

-- str(e)
abbrev pub text_of : Process.Error → String
text_of (Process.process_error text) = text
text_of (Process.no_port port) = "Could not find available port starting from " <> decimal port

-- A round of the process's monitor.
unfoldable pub monitor_round : Option ℤ → QemuCore → QemuCore
monitor_round poll c = elim c.qemu_process [
  | none ↦ c
  | some p ↦ adopt p (Process.monitor_round poll p) c
]

pub monitor_rounds : List (Option ℤ) → QemuCore → QemuCore
monitor_rounds [] c = c
monitor_rounds (poll ∷ polls) c = monitor_rounds polls (monitor_round poll c)

-- What follows the start of the process: the attempts to connect, while the monitor goes on, or the
-- `except` clause.
pub finish_start : List (Option ℤ) → Result Process.Error (Unit {0}) → Call Unit
finish_start polls (ok u) c = (ok tt, notify_state running (monitor_rounds polls c))
finish_start polls (err e) c =
    (err vm_start_error, notify_state error (record c { error_message = text_of e }))

-- The body of the `try` in `start`.
pub try_start : Host → List (Option ℤ) → Option QemuProcess → Call Unit
try_start host polls none c = (
  err vm_start_error,
  notify_state error (record c { error_message = "'NoneType' object has no attribute 'start'" }),
)
try_start host polls (some p) c =
    finish_start polls (Process.start host p).0 (adopt p (Process.start host p).1 c)

-- `polls` are what the monitor finds in the rounds that it makes while the core tries to connect.
unfoldable pub start : Host → List (Option ℤ) → Call Unit
start host polls c =
    if not c.initialized
    then (err vm_start_error, c)
    else if is_running c.state
    then (err emulator_core_error, c)
    else try_start host polls c.qemu_process (notify_state starting c)

unfoldable pub is_stoppable : VmState → Bool
is_stoppable running = true
is_stoppable paused = true
is_stoppable starting = true
is_stoppable _ = false

pub stop_process : Option QemuProcess → QemuCore → QemuCore
stop_process none c = c
stop_process (some p) c = adopt p (Process.stop p) c

unfoldable pub stop : Call Unit
stop c =
    if is_stoppable c.state
    then (ok tt, notify_state stopped (stop_process c.qemu_process (notify_state stopping c)))
    else (err vm_not_running, c)

unfoldable pub pause : Call Unit
pause c = if is_running c.state then (ok tt, notify_state paused c) else (err vm_not_running, c)

unfoldable pub resume : Call Unit
resume c =
    if is_paused c.state then (ok tt, notify_state running c) else (err emulator_core_error, c)

-- The `stop` of a core that is running or paused does not raise.
unfoldable pub reset : Host → List (Option ℤ) → Call Unit
reset host polls c =
    let c' = if is_live c.state then (stop c).1 else c in
    if c'.initialized then start host polls c' else (ok tt, c')

pub save_snapshot : String → Call String
save_snapshot name c =
    if is_live c.state then (ok ("/snapshots/" <> name), c) else (err vm_not_running, c)

pub load_snapshot : String → Call Unit
load_snapshot name c = if c.initialized then (ok tt, c) else (err emulator_core_error, c)

clean_process : Option QemuProcess → QemuCore → QemuCore
clean_process none c = c
clean_process (some p) c = record (adopt p (Process.cleanup p) c) { qemu_process = none }

pub cleanup : QemuCore → QemuCore
unfolding clean_process
cleanup c =
    let c' = if is_stoppable c.state then (stop c).1 else c in
    record (clean_process c'.qemu_process c') {
      listening = false;
      initialized = false;
      state = stopped;
    }
