-- ===== src/Emulation/Qemu/Process.antt =====
-- `QEMUProcess`. What the host answers (which programs, files and ports there are, how the child
-- process fares) is a record of arguments. Callbacks of a state change run at once, and raise nothing
-- that is seen: `notified` is what every registered callback has been told.
use Prim.Native.String.{◌++◌ as ◌<>◌}
use linblock.Prelude.{
  ℕ, ℤ, pos, negsuc, String, string_eq, ◌==◌, Bool, true, false, ◌&&◌, not, Option, none, some,
  List, [], ◌∷◌, ◌++◌, nat_beq, is_some, if◌then◌else◌, Result, ok, err, Method, ◌>>◌,
}
use linblock.Emulation.Qemu.Config.{QemuConfig, decimal, decimal_int}
use linblock.Emulation.Qemu.Command.{build_command}
use linblock.Emulation.Qemu.Ports.{find_available_port}

pub data QemuState : Type 0 where
  stopped starting running stopping error : QemuState

abbrev pub same_state : QemuState → QemuState → Bool
same_state stopped stopped = true
same_state starting starting = true
same_state running running = true
same_state stopping stopping = true
same_state error error = true
same_state _ _ = false

-- A QEMUProcessError, or the RuntimeError of the search for a port.
pub data Error : Type 0 where
  process_error : String → Error
  no_port : ℕ → Error

-- `process` holds the command of the child process, if there is one.
pub record QemuProcess : Type 0 where
  pub config : QemuConfig
  pub process : Option (List String)
  pub state : QemuState
  pub pid : Option ℕ
  pub monitor_thread : Bool
  pub stop_event : Bool
  pub listening : Bool
  pub notified : List QemuState
  pub error_message : String

abbrev pub Call : Type 0 → Type 0
Call A = Method Error QemuProcess A

unfoldable pub new_process : QemuConfig → QemuProcess
new_process config = record {
  config = config;
  process = none;
  state = stopped;
  pid = none;
  monitor_thread = false;
  stop_event = false;
  listening = false;
  notified = [];
  error_message = "";
}

unfoldable pub add_state_callback : QemuProcess → QemuProcess
add_state_callback p = record p { listening = true }

-- `_set_state`
unfoldable pub set_state : QemuState → QemuProcess → QemuProcess
set_state s p =
    if p.listening && not (same_state p.state s)
    then record p { state = s; notified = p.notified ++ s ∷ [] }
    else record p { state = s }

-- How the child fares in the second that `start` waits: it lives, or it has exited with that code and
-- that text; `seen` says whether the monitor thread finds the exit before `start` does.
pub data Fate : Type 0 where
  lives : Fate
  exits : (code : ℤ) → (stderr : String) → (seen : Bool) → Fate

-- What `Popen` does: it finds no binary, raises otherwise, or gives a process id.
pub data Spawn : Type 0 where
  no_binary : Spawn
  raises : String → Spawn
  spawned : ℕ → Fate → Spawn

pub record Host : Type 0 where
  pub qemu_available : Bool
  pub kvm_available : Bool
  pub exists : String → Bool
  pub port_free : ℕ → Bool
  pub spawn : Spawn

-- `self._error_message = text`, the state ERROR, and the exception.
unfoldable pub fail : String → Call Unit
fail text p = (err (process_error text), set_state error (record p { error_message = text }))

abbrev pub is_zero : ℤ → Bool
is_zero (pos n) = nat_beq n 0
is_zero (negsuc n) = false

-- What the monitor thread does when it finds that the child has exited.
unfoldable pub monitor_exit : ℤ → QemuProcess → QemuProcess
monitor_exit code p =
    let stopped_p = set_state stopped p in
    let failed_p =
      set_state error (record p { error_message = "QEMU exited with code " <> decimal_int code }) in
    if is_zero code then record stopped_p { pid = none } else record failed_p { pid = none }

-- A round of `_monitor_process`, which ends the thread unless the child is alive; `poll` is its exit
-- code, if it has one, and a negative one is the signal that has ended it.
unfoldable pub monitor_round : Option ℤ → QemuProcess → QemuProcess
monitor_round poll p = elim poll [
  | none ↦ p
  | some code ↦
      if p.stop_event then p else elim p.process [ none ↦ p | some command ↦ monitor_exit code p ]
]

-- The ports that `start` takes when a configured one is in use.
unfoldable pub free_port : Host → ℕ → Result Error ℕ
free_port host port =
    if host.port_free port then ok port else elim (find_available_port host.port_free port) [
      | none ↦ err (no_port port)
      | some found ↦ ok found
    ]

unfoldable pub choose_adb : Result Error ℕ → Call Unit
choose_adb (err e) p = (err e, p)
choose_adb (ok port) p = (ok tt, record p { config = record p.config { adb_port = port } })

unfoldable pub choose_vnc : Result Error ℕ → Call Unit
choose_vnc (err e) p = (err e, p)
choose_vnc (ok port) p = (ok tt, record p { config = record p.config { vnc_port = port } })

unfoldable pub choose_ports : Host → Call Unit
choose_ports host = do
  λ p. choose_adb (free_port host p.config.adb_port) p
  λ p. choose_vnc (free_port host p.config.vnc_port) p

-- The check after the second of waiting.
unfoldable pub confirm : Fate → Call Unit
confirm lives p = (ok tt, set_state running p)
confirm (exits code stderr true) p = fail ("QEMU failed to start: " <> stderr) (monitor_exit code p)
confirm (exits code stderr false) p = fail ("QEMU failed to start: " <> stderr) p

-- The body of the `try` in `start`. What `confirm` raises is caught by the last `except`, which
-- raises it again with its own text.
unfoldable pub launch : Host → Spawn → Call Unit
launch host no_binary p = fail "QEMU binary 'qemu-system-x86_64' not found" p
launch host (raises text) p = fail text p
launch host (spawned pid fate) p = confirm fate (record p {
  process = some (build_command host.kvm_available p.config);
  pid = some pid;
  monitor_thread = true;
})

abbrev has_process : QemuProcess → Bool
has_process p = is_some p.process

unfoldable pub is_active : QemuState → Bool
is_active running = true
is_active starting = true
is_active _ = false

-- The checks of `start` before it takes ports.
unfoldable pub check : Host → Call Unit
check host p =
    if is_active p.state
    then (err (process_error "QEMU is already running"), p)
    else if not host.qemu_available
    then fail "QEMU binary 'qemu-system-x86_64' not found" p
    else if p.config.system_image == ""
    then fail "No system image specified" p
    else if not (host.exists p.config.system_image)
    then fail ("System image not found: " <> p.config.system_image) p
    else (ok tt, p)

-- The state STARTING, for which the monitor's stop event is cleared.
unfoldable pub enter_starting : Call Unit
enter_starting p = (ok tt, record (set_state starting p) { stop_event = false })

unfoldable pub start : Host → Call Unit
start host = do check host; choose_ports host; enter_starting; launch host host.spawn

-- `stop`: terminating, or killing after the timeout, ends in the same state, and an exception on
-- the way is dropped.
unfoldable pub stop : QemuProcess → QemuProcess
stop p =
    let closing = record (set_state stopping p) {
      stop_event = true;
      process = none;
      pid = (if has_process p then none else p.pid);
      monitor_thread = false;
    } in
    if is_active p.state then set_state stopped closing else p

unfoldable pub force_stop : QemuProcess → QemuProcess
force_stop p = set_state stopped (record p { stop_event = true; process = none; pid = none })

-- `cleanup`; the socket file of the pipe is left out.
unfoldable pub cleanup : QemuProcess → QemuProcess
cleanup p = record (force_stop p) { listening = false }

get_vnc_address : QemuProcess → String
get_vnc_address p = "localhost:" <> decimal p.config.vnc_port
