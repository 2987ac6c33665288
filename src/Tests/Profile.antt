-- ===== src/Tests/Profile.antt =====
-- src/config/os_profile.py at concrete inputs.
use linblock.Prelude.{List, true, String, ok, err, ◌≡◌, refl, [], ◌∷◌}
use linblock.Profile.{
  Scalar, Instance, Tree, str, int, OsProfile, defaults, boot_config, graphics_config, adb_config,
  sensor_config, storage_config, network_config, input_config, camera_media_config,
  google_services_config,
}
use linblock.Infrastructure.ConfigManager.Tree.{leaf, node}
use linblock.Infrastructure.ConfigManager.Sorted.{sorted_value}
use linblock.Profile.RoundTrip.{IsProfile}
use linblock.Dict
use linblock.Profile.Manager.{
  load_profile, save_profile, delete_profile, profile_exists, file_not_found, load_profile_lem,
}

-- A tablet with more memory.
abbrev tablet : OsProfile
tablet = record {
  name = str "tablet";
  image_path = str "/images/14.img";
  created = str "2024-01-01";
  modified = str "2024-01-02";
  boot = defaults boot_config;
  graphics = defaults graphics_config;
  adb = defaults adb_config;
  device = str "tablet" ∷ int 1600 ∷ int 2560 ∷ str "generic_tablet" ∷ [];
  sensors = defaults sensor_config;
  storage = defaults storage_config;
  network = defaults network_config;
  input = defaults input_config;
  camera_media = defaults camera_media_config;
  performance = str "kvm" ∷ int 8192 ∷ int 8 ∷ [];
  google_services = defaults google_services_config;
}

-- The values that are no dicts, of which there are no others.
abbrev scalars_of : Instance → List Scalar
scalars_of [] = []
scalars_of (leaf a ∷ values) = a ∷ scalars_of values
scalars_of (node fs ∷ values) = scalars_of values

tablet-IsProfile : IsProfile tablet
tablet-IsProfile = record {
  name = (_, refl);
  image_path = (_, refl);
  created = (_, refl);
  modified = (_, refl);
  boot = record { scalars = scalars_of tablet.boot; are_leaves = refl; count = refl };
  graphics = record { scalars = scalars_of tablet.graphics; are_leaves = refl; count = refl };
  adb = record { scalars = scalars_of tablet.adb; are_leaves = refl; count = refl };
  device = record { scalars = scalars_of tablet.device; are_leaves = refl; count = refl };
  sensors = record { scalars = scalars_of tablet.sensors; are_leaves = refl; count = refl };
  storage = record { scalars = scalars_of tablet.storage; are_leaves = refl; count = refl };
  network = record { scalars = scalars_of tablet.network; are_leaves = refl; count = refl };
  input = record { scalars = scalars_of tablet.input; are_leaves = refl; count = refl };
  camera_media = record {
    scalars = scalars_of tablet.camera_media;
    are_leaves = refl;
    count = refl;
  };
  performance = record { scalars = scalars_of tablet.performance; are_leaves = refl; count = refl };
  google_services = record {
    scalars = scalars_of tablet.google_services;
    are_leaves = refl;
    count = refl;
  };
}

-- Writing a document sorts its keys.
abbrev dumped : Tree → Tree
dumped t = sorted_value t

abbrev kept : Tree → Tree
kept t = t

-- How the file of the tablet is named.
abbrev file_name : Tree → String
file_name t = "tablet"

load_profile_lem_example :
    (load_profile kept "tablet" (save_profile dumped file_name tablet Dict.empty) ≡ ok tablet)
    × (profile_exists "tablet" (save_profile dumped file_name tablet Dict.empty) ≡ true)
    × (load_profile kept "tablet" (delete_profile "tablet" (Dict.empty {V = Tree}))
        ≡ err file_not_found)
load_profile_lem_example =
    load_profile_lem Tree dumped kept file_name tablet "tablet" Dict.empty (λ t d. refl)
      tablet-IsProfile
