-- ===== src/Tests/Qemu.antt =====
-- src/modules/emulation/emulator_core/internal/qemu_process.py at concrete inputs.
use linblock.Prelude.{
  ℕ, negsuc, string_eq, ◌==◌, ◌≡◌, refl, true, false, none, some, List, [], ◌∷◌, nat_beq, not,
}
use linblock.Emulation.Qemu.Config.{QemuConfig, default_config}
use linblock.Emulation.Qemu.Command.{build_command}
use linblock.Emulation.Qemu.Ports.{
  find_available_port, IsFirstFree, find_available_port-IsFirstFree,
}
use linblock.Emulation.Qemu.Process.{
  stopped, running, new_process, add_state_callback, lives, spawned, Host, start, check, launch,
  confirm, enter_starting, choose_ports, choose_adb, choose_vnc, set_state, free_port, is_active,
}
use linblock.Emulation.Qemu.Start.{start-ok}
use linblock.Emulation.Qemu.Changes.{
  heard, last, all_entered, Event, call_start, call_stop, monitor, run,
}
use linblock.Emulation.Qemu.Callbacks.{notified_lem}

abbrev config : QemuConfig
config = record default_config { system_image = "/system.img"; kernel = some "/kernel" }

-- Port 5555 is in use.
abbrev host : Host
host = record {
  qemu_available = true;
  kvm_available = false;
  exists = λ path. path == "/system.img";
  port_free = λ port. not (nat_beq port 5555);
  spawn = spawned 42 lives;
}

start-ok_example :
    ((start host (new_process config)).1.state ≡ running)
    × ((start host (new_process config)).1.process
        ≡ some (build_command host.kvm_available (start host (new_process config)).1.config))
    × ((pid : ℕ) × (host.spawn ≡ spawned pid lives)
        × ((start host (new_process config)).1.pid ≡ some pid))
    × (host.qemu_available ≡ true)
    × (host.exists (new_process config).config.system_image ≡ true)
    × (is_active (new_process config).state ≡ false)
start-ok_example = start-ok host (new_process config) (
    unfold start check choose_ports choose_adb choose_vnc enter_starting launch confirm set_state
      new_process is_active free_port find_available_port in
    refl)

abbrev events : List Event
events =
    call_start host ∷ monitor none ∷ call_stop ∷ call_start host ∷ monitor (some (negsuc 8)) ∷ []

notified_lem_example :
    ((run (add_state_callback (new_process config)) events).notified
      ≡ heard stopped (all_entered (add_state_callback (new_process config)) events))
    × ((run (add_state_callback (new_process config)) events).state
        ≡ last stopped (all_entered (add_state_callback (new_process config)) events))
notified_lem_example = notified_lem config events

find_available_port-IsFirstFree_example :
    IsFirstFree host.port_free 5555 100 (find_available_port host.port_free 5555)
find_available_port-IsFirstFree_example = find_available_port-IsFirstFree host.port_free 5555
