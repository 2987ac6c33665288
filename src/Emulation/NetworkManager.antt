-- ===== src/Emulation/NetworkManager.antt =====
-- src/modules/emulation/network_manager/interface.py: `DefaultNetworkManager`.
pub mod Forwards
use linblock.Prelude.{
  ℕ, String, nat_eq, Bool, true, false, ◌&&◌, Option, none, some, List, [], Result, ok, err, Method,
  if◌then◌else◌, not, is_some,
}
use linblock.Dict
use linblock.Dict.{Dict}

pub data Error : Type 0 where
  network_manager_error network_not_enabled : Error
  port_forward_error : ℕ → Error

pub data NetworkMode : Type 0 where
  user bridge none_mode : NetworkMode

pub record NetworkConfig : Type 0 where
  pub mode : NetworkMode
  pub host_forward_ports : List ℕ
  pub dns_server : String

pub record NetworkManager : Type 0 where
  pub net_config : NetworkConfig
  pub enabled : Bool
  pub forwards : Dict ℕ ℕ

abbrev pub Call : Type 0 → Type 0
Call A = Method Error NetworkManager A

unfoldable pub init : NetworkManager
init = record {
  net_config = record { mode = user; host_forward_ports = []; dns_server = "8.8.8.8" };
  enabled = false;
  forwards = Dict.empty;
}

pub configure : NetworkConfig → NetworkManager → NetworkManager
configure net_config n = record n { net_config = net_config }

pub enable : Call Unit
enable n = elim n.net_config.mode [
  | none_mode ↦ (err network_manager_error, n)
  | _ ↦ (ok tt, record n { enabled = true })
]

pub disable : NetworkManager → NetworkManager
disable n = record n { enabled = false }

is_connected : NetworkManager → Bool
is_connected n = n.enabled

pub add_port_forward : ℕ → ℕ → Call Unit
add_port_forward host_port guest_port n =
    if not n.enabled
    then (err network_not_enabled, n)
    else if Dict.contains n.forwards host_port
    then (err (port_forward_error host_port), n)
    else (ok tt, record n { forwards = Dict.put n.forwards host_port guest_port })

pub remove_port_forward : ℕ → Call Unit
remove_port_forward host_port n =
    if Dict.contains n.forwards host_port
    then (ok tt, record n { forwards = Dict.remove n.forwards host_port })
    else (err (port_forward_error host_port), n)

get_config : NetworkManager → NetworkConfig
get_config n = n.net_config

pub cleanup : NetworkManager → NetworkManager
cleanup n = record n { enabled = false; forwards = Dict.empty }
