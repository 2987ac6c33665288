-- ===== src/Emulation/EmulatorCore.antt =====
-- src/modules/emulation/emulator_core/interface.py: the data types and `DefaultEmulatorCore`.
pub mod Lifecycle
use Prim.Native.String.{◌++◌}
use linblock.Prelude.{
  ℕ, String, Bool, true, false, Option, none, some, Result, ok, err, Method, if◌then◌else◌, not,
}

pub data Error : Type 0 where
  emulator_core_error vm_start_error vm_not_running : Error

pub data VmState : Type 0 where
  stopped starting running paused stopping error : VmState

pub record VmConfig : Type 0 where
  pub memory_mb : ℕ
  pub cpu_cores : ℕ
  pub use_kvm : Bool
  pub kernel_path : Option String
  pub initrd_path : Option String
  pub kernel_cmdline : String
  pub system_image : Option String
  pub cdrom_image : Option String
  pub screen_width : ℕ
  pub screen_height : ℕ
  pub vnc_port : ℕ
  pub adb_port : ℕ
  pub gpu_mode : String

-- The defaults of the class.
abbrev pub default_config : VmConfig
default_config = record {
  memory_mb = 4096;
  cpu_cores = 4;
  use_kvm = true;
  kernel_path = none;
  initrd_path = none;
  kernel_cmdline = "";
  system_image = none;
  cdrom_image = none;
  screen_width = 1080;
  screen_height = 1920;
  vnc_port = 5900;
  adb_port = 5555;
  gpu_mode = "host";
}

pub record EmulatorCore : Type 0 where
  pub config : VmConfig
  pub state : VmState
  pub initialized : Bool

abbrev pub Call : Type 0 → Type 0
Call A = Method Error EmulatorCore A

unfoldable pub new_core : VmConfig → EmulatorCore
new_core config = record { config = config; state = stopped; initialized = false }

pub initialize : EmulatorCore → EmulatorCore
initialize c = record c { initialized = true }

unfoldable pub is_running : VmState → Bool
is_running running = true
is_running _ = false

pub is_paused : VmState → Bool
is_paused paused = true
is_paused _ = false

-- `self._state in (VMState.RUNNING, VMState.PAUSED)`
pub is_live : VmState → Bool
is_live running = true
is_live paused = true
is_live _ = false

unfoldable pub start : Call Unit
unfolding is_running
start c =
    if not c.initialized
    then (err vm_start_error, c)
    else if is_running c.state
    then (err emulator_core_error, c)
    else (ok tt, record c { state = running })

unfoldable pub stop : Call Unit
unfolding is_live
stop c = if is_live c.state then (ok tt, record c { state = stopped }) else (err vm_not_running, c)

pub pause : Call Unit
unfolding is_running
pause c =
    if is_running c.state then (ok tt, record c { state = paused }) else (err vm_not_running, c)

pub resume : Call Unit
unfolding is_paused
resume c =
    if is_paused c.state
    then (ok tt, record c { state = running })
    else (err emulator_core_error, c)

pub reset : EmulatorCore → EmulatorCore
unfolding is_live
reset c = if is_live c.state then record c { state = running } else record c { state = stopped }

pub save_snapshot : String → Call String
unfolding is_live
save_snapshot name c =
    if is_live c.state then (ok ("/snapshots/" ++ name), c) else (err vm_not_running, c)

pub load_snapshot : String → Call Unit
load_snapshot name c = if c.initialized then (ok tt, c) else (err emulator_core_error, c)

unfoldable pub cleanup : EmulatorCore → EmulatorCore
unfolding is_live
cleanup c =
    if is_live c.state
    then record c { state = stopped; initialized = false }
    else record c { initialized = false }
