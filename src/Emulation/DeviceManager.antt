-- ===== src/Emulation/DeviceManager.antt =====
-- src/modules/emulation/device_manager/interface.py: `DefaultDeviceManager`.
-- A `DeviceInfo` is mutated only through the dict that holds it, so the dict holds it by value.
pub mod Registry
use linblock.Prelude.{
  String, string_eq, Bool, true, false, Option, none, some, List, Result, ok, err, Method,
}
use linblock.Dict
use linblock.Dict.{Dict}

pub data Error : Type 0 where
  device_not_found : String → Error
  duplicate_device : String → Error

pub data DeviceType : Type 0 where
  block display input network serial : DeviceType

pub record DeviceInfo : Type 0 where
  pub name : String
  pub device_type : DeviceType
  pub initialized : Bool

pub record DeviceManager : Type 0 where
  pub devices : Dict String DeviceInfo

abbrev pub Call : Type 0 → Type 0
Call A = Method Error DeviceManager A

unfoldable pub init : DeviceManager
init = record { devices = Dict.empty }

pub register_device : String → DeviceType → Call DeviceInfo
register_device name device_type m =
    let info : DeviceInfo = record {
      name = name;
      device_type = device_type;
      initialized = false;
    } in
    elim (Dict.get m.devices name) [
      | some old ↦ (err (duplicate_device name), m)
      | none ↦ (ok info, record { devices = Dict.put m.devices name info })
    ]

pub unregister_device : String → Call Unit
unregister_device name m = elim (Dict.get m.devices name) [
  | none ↦ (err (device_not_found name), m)
  | some info ↦ (ok tt, record { devices = Dict.remove m.devices name })
]

pub get_device : String → Call DeviceInfo
get_device name m = elim (Dict.get m.devices name) [
  | none ↦ (err (device_not_found name), m)
  | some info ↦ (ok info, m)
]

list_devices : DeviceManager → List DeviceInfo
list_devices m = Dict.values m.devices

abbrev pub with_initialized : Bool → DeviceInfo → DeviceInfo
with_initialized b info = record info { initialized = b }

pub initialize_all : DeviceManager → DeviceManager
initialize_all m = record { devices = Dict.map_values (with_initialized true) m.devices }

pub reset_device : String → Call Unit
reset_device name m = elim (Dict.get m.devices name) [
  | none ↦ (err (device_not_found name), m)
  | some info ↦ (ok tt, record { devices = Dict.put m.devices name (with_initialized false info) })
]

unfoldable pub cleanup : DeviceManager → DeviceManager
cleanup m = record { devices = Dict.empty }
