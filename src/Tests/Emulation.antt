-- ===== src/Tests/Emulation.antt =====
-- The managers of src/modules/emulation and the two cores at concrete inputs.
use linblock.Prelude.{
  ℕ, ◌*◌, String, string_eq, nat_eq, ◌==◌, ◌≡◌, refl, true, false, none, List, [], ◌∷◌, ◌++◌, ok,
  err, if◌then◌else◌, ◌⊎◌, pos,
}
use linblock.Dict
use linblock.Emulation.DeviceManager
use linblock.Emulation.DeviceManager.{network, get_device}
use linblock.Emulation.DeviceManager.Registry
use linblock.Emulation.DeviceManager.Registry.{answer, steps, get_device_lem}
use linblock.Emulation.StorageManager.{DiskImage, StorageManager, get_image_info, create_overlay}
use linblock.Emulation.StorageManager.Images
use linblock.Emulation.StorageManager.Images.{get_image_info-path, get_image_info-create_overlay}
use linblock.Emulation.InputManager
use linblock.Emulation.InputManager.{InputEvent, touch_down, key_up}
use linblock.Emulation.InputManager.Pending
use linblock.Emulation.InputManager.Pending.{sent, get_pending_events_lem}
use linblock.Emulation.NetworkManager
use linblock.Emulation.NetworkManager.{
  NetworkManager, add_port_forward, remove_port_forward, port_forward_error, network_not_enabled,
}
use linblock.Emulation.NetworkManager.Forwards.{remove_port_forward-add_port_forward}
use linblock.Emulation.DisplayManager
use linblock.Emulation.DisplayManager.{DisplayConfig, get_fps}
use linblock.Emulation.DisplayManager.Frames
use linblock.Emulation.DisplayManager.Frames.{rate, tally, get_fps_lem}
use linblock.Emulation.EmulatorCore
use linblock.Emulation.EmulatorCore.Lifecycle
use linblock.Emulation.EmulatorCore.Lifecycle.{
  Event, call_initialize, call_start, call_pause, run-steps,
}

abbrev plugging : List Registry.Event
plugging =
    Registry.register "eth0" network
    ∷ Registry.initialize
    ∷ Registry.register "eth0" DeviceManager.block
    ∷ Registry.reset "eth0"
    ∷ []

get_device_lem_example :
    (get_device "eth0" (Registry.run DeviceManager.init plugging)).0
    ≡ answer "eth0" (steps (λ other. none) plugging "eth0")
get_device_lem_example = get_device_lem plugging "eth0"

abbrev system : DiskImage
system = record { path = "/system.img"; format = "raw"; size_mb = 2048; readonly = true }

abbrev attaching : List Images.Event
attaching = Images.attach system ∷ Images.overlay "/system.img" "/overlay.qcow2" ∷ []

abbrev storage : StorageManager
storage = record { images = record { entries = ("/system.img", system) ∷ [] } }

abbrev overlay_path : String
overlay_path = "/overlay.qcow2"

get_image_info-create_overlay_example :
    (get_image_info overlay_path (create_overlay "/system.img" overlay_path storage).1).0 ≡ (
      if overlay_path == overlay_path
      then ok (record { path = overlay_path; format = "qcow2"; size_mb = 2048; readonly = false })
      else (get_image_info overlay_path storage).0)
get_image_info-create_overlay_example =
    get_image_info-create_overlay storage "/system.img" overlay_path system overlay_path
      (unfold get_image_info Dict.get in refl)

abbrev typing : List Pending.Event
typing =
    Pending.touch (pos 3) (pos 4) touch_down
    ∷ Pending.drain
    ∷ Pending.touch (pos 5) (pos 5) touch_down
    ∷ Pending.clean
    ∷ Pending.wheel (pos 1) (pos 2) (pos 0) (pos 9)
    ∷ Pending.key (pos 30) key_up
    ∷ []

get_pending_events_lem_example :
    (Pending.run (InputManager.init, []) typing).1
      ++ (Pending.run (InputManager.init, []) typing).0.events
    ≡ sent typing
get_pending_events_lem_example = get_pending_events_lem typing

abbrev connected : NetworkManager
connected = record {
  net_config = record {
    mode = NetworkManager.user;
    host_forward_ports = [];
    dns_server = "8.8.8.8";
  };
  enabled = true;
  forwards = Dict.empty;
}

remove_port_forward-add_port_forward_example :
    ((connected.enabled ≡ false)
      × (add_port_forward 8080 80 connected ≡ (err network_not_enabled, connected)))
    ⊎ (((connected.enabled ≡ true)
          × (Dict.contains connected.forwards 8080 ≡ true)
          × (add_port_forward 8080 80 connected ≡ (err (port_forward_error 8080), connected)))
        ⊎ ((connected.enabled ≡ true)
            × (Dict.contains connected.forwards 8080 ≡ false)
            × ((add_port_forward 8080 80 connected).0 ≡ ok tt)
            × ((add_port_forward 8080 81 (add_port_forward 8080 80 connected).1).0
                ≡ err (port_forward_error 8080))
            × (remove_port_forward 8080 (add_port_forward 8080 80 connected).1
                ≡ (ok tt, connected))))
remove_port_forward-add_port_forward_example =
    remove_port_forward-add_port_forward connected 8080 80 81

abbrev using : List Event
using = call_initialize ∷ call_start ∷ []

run-steps_example :
    (Lifecycle.run (EmulatorCore.new_core EmulatorCore.default_config) using
      ≡ Lifecycle.core EmulatorCore.default_config Lifecycle.live)
    × (Lifecycle.returns
          (Lifecycle.run (EmulatorCore.new_core EmulatorCore.default_config) using)
          call_pause
        ≡ true)
run-steps_example = run-steps EmulatorCore.default_config using call_pause

-- Scales that are factors.
abbrev config : DisplayConfig ℕ
config = record { width = 2; height = 1; scale = 1; fps_target = 30 }

abbrev showing : List (Frames.Event ℕ)
showing =
    Frames.frame 3
    ∷ Frames.configuring config 5
    ∷ Frames.frame 6
    ∷ Frames.scaling 2
    ∷ Frames.frame 7
    ∷ []

get_fps_lem_example :
    get_fps 15 (Frames.run (λ n s. n * s) DisplayManager.init showing)
    ≡ rate 15 (tally none 0 showing)
get_fps_lem_example = get_fps_lem (λ n s. n * s) showing 15
