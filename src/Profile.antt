-- ===== src/Profile.antt =====
-- src/config/os_profile.py. A dataclass is its fields with their defaults, and an instance the values
-- of the fields, which Python does not check. The YAML library turns a file into a tree and back.
pub mod Sections
pub mod RoundTrip
pub mod Manager
use linblock.Prelude.{
  ℕ, String, string_eq, ◌==◌, Bool, true, false, ◌&&◌, ◌||◌, not, Option, none, some, List, [], ◌∷◌,
  nat_beq, if◌then◌else◌,
}
use linblock.Infrastructure.ConfigManager.Tree.{Value, leaf, node, Fields, nil, field, get_field}

pub data Scalar : Type 0 where
  null : Scalar
  text : String → Scalar
  number : ℕ → Scalar
  flag : Bool → Scalar
  texts : List String → Scalar

abbrev pub Tree : Type 0
Tree = Value Scalar

abbrev pub str : String → Tree
str s = leaf (text s)

abbrev pub int : ℕ → Tree
int n = leaf (number n)

abbrev pub bool : Bool → Tree
bool b = leaf (flag b)

-- The fields of a dataclass, with their defaults.
abbrev pub Schema : Type 0
Schema = List (String × Tree)

abbrev pub graphics_config : Schema
graphics_config = ("gpu_mode", str "host") ∷ ("api", str "opengl") ∷ ("renderer", str "auto") ∷ []

abbrev pub adb_config : Schema
adb_config = ("path", str "/usr/bin/adb") ∷ ("port", int 5555) ∷ ("auto_connect", bool true) ∷ []

abbrev pub sensor_config : Schema
sensor_config =
    ("accelerometer", bool true)
    ∷ ("gyroscope", bool true)
    ∷ ("proximity", bool true)
    ∷ ("gps", bool true)
    ∷ []

-- Without its sensors.
abbrev pub device_config : Schema
device_config =
    ("screen_preset", str "phone")
    ∷ ("screen_width", int 1080)
    ∷ ("screen_height", int 1920)
    ∷ ("device_profile", str "generic_phone")
    ∷ []

abbrev pub storage_config : Schema
storage_config =
    ("shared_folder", str "~/LinBlock/shared")
    ∷ ("screenshot_dir", str "~/LinBlock/screenshots")
    ∷ ("image_cache", str "~/LinBlock/cache")
    ∷ []

abbrev pub network_config : Schema
network_config =
    ("bridge_mode", bool false)
    ∷ ("proxy_address", str "")
    ∷ ("proxy_port", int 0)
    ∷ ("port_forwarding", leaf (texts []))
    ∷ []

abbrev pub input_config : Schema
input_config =
    ("keyboard_to_touch", bool true) ∷ ("gamepad", bool false) ∷ ("mouse_mode", str "direct") ∷ []

abbrev pub camera_media_config : Schema
camera_media_config =
    ("webcam_passthrough", bool false)
    ∷ ("mic_source", str "default")
    ∷ ("audio_output", str "default")
    ∷ []

abbrev pub performance_config : Schema
performance_config = ("hypervisor", str "kvm") ∷ ("ram_mb", int 4096) ∷ ("cpu_cores", int 4) ∷ []

abbrev pub google_services_config : Schema
google_services_config =
    ("play_store", bool false)
    ∷ ("play_services", bool false)
    ∷ ("play_protect", bool false)
    ∷ ("location_service", bool false)
    ∷ ("contacts_sync", bool false)
    ∷ ("calendar_sync", bool false)
    ∷ ("drive", bool false)
    ∷ ("chrome", bool false)
    ∷ ("maps", bool false)
    ∷ ("assistant", bool false)
    ∷ []

abbrev pub boot_config : Schema
boot_config =
    ("kernel", str "")
    ∷ ("initrd", str "")
    ∷ ("system_image", str "")
    ∷ ("kernel_cmdline", str "")
    ∷ ("cdrom_image", str "")
    ∷ []

-- The values of the fields.
abbrev pub Instance : Type 0
Instance = List Tree

abbrev pub defaults : Schema → Instance
defaults [] = []
defaults ((name, value) ∷ schema) = value ∷ defaults schema

-- asdict
unfoldable pub asdict : Schema → Instance → Fields Scalar
asdict [] values = nil
asdict (f ∷ schema) [] = nil
asdict ((name, value) ∷ schema) (v ∷ values) = field name v (asdict schema values)

abbrev pub or_default : Option Tree → Tree → Tree
or_default none value = value
or_default (some v) value = v

abbrev pub has_field : String → Schema → Bool
has_field k [] = false
has_field k ((name, value) ∷ schema) = name == k || has_field k schema

-- No argument has another name than a field.
unfoldable pub known : Schema → Fields Scalar → Bool
known schema nil = true
known schema (field k v fs) = has_field k schema && known schema fs

unfoldable pub values_of : Schema → Fields Scalar → Instance
values_of [] fs = []
values_of ((name, value) ∷ schema) fs = or_default (get_field name fs) value ∷ values_of schema fs

-- `Class(**data)`: none is `TypeError`.
unfoldable pub construct : Schema → Tree → Option Instance
unfolding known values_of
construct schema (leaf a) = none
construct schema (node fs) = if known schema fs then some (values_of schema fs) else none

pub record OsProfile : Type 0 where
  pub name : Tree
  pub image_path : Tree
  pub created : Tree
  pub modified : Tree
  pub boot : Instance
  pub graphics : Instance
  pub adb : Instance
  pub device : Instance
  pub sensors : Instance
  pub storage : Instance
  pub network : Instance
  pub input : Instance
  pub camera_media : Instance
  pub performance : Instance
  pub google_services : Instance

-- `OSProfile()`
unfoldable pub new_profile : OsProfile
new_profile = record {
  name = str "";
  image_path = str "";
  created = str "";
  modified = str "";
  boot = defaults boot_config;
  graphics = defaults graphics_config;
  adb = defaults adb_config;
  device = defaults device_config;
  sensors = defaults sensor_config;
  storage = defaults storage_config;
  network = defaults network_config;
  input = defaults input_config;
  camera_media = defaults camera_media_config;
  performance = defaults performance_config;
  google_services = defaults google_services_config;
}

-- The sensors come after the other fields of the device.
unfoldable pub device_dict : Schema → Instance → Instance → Fields Scalar
unfolding asdict
device_dict [] values sensors = field "sensors" (node (asdict sensor_config sensors)) nil
device_dict (f ∷ schema) [] sensors = field "sensors" (node (asdict sensor_config sensors)) nil
device_dict ((name, value) ∷ schema) (v ∷ values) sensors =
    field name v (device_dict schema values sensors)

unfoldable pub to_dict : OsProfile → Fields Scalar
unfolding asdict device_dict
to_dict p = field "name" p.name (
    field "image_path" p.image_path (
      field "created" p.created (
        field "modified" p.modified (
          field "boot" (node (asdict boot_config p.boot)) (
            field "graphics" (node (asdict graphics_config p.graphics)) (
              field "adb" (node (asdict adb_config p.adb)) (
                field "device" (node (device_dict device_config p.device p.sensors)) (
                  field "storage" (node (asdict storage_config p.storage)) (
                    field "network" (node (asdict network_config p.network)) (
                      field "input" (node (asdict input_config p.input)) (
                        field "camera_media" (node (asdict camera_media_config p.camera_media)) (
                          field "performance" (node (asdict performance_config p.performance)) (
                            field "google_services"
                              (node (asdict google_services_config p.google_services))
                              nil)))))))))))))

-- `if key in data: profile.key = Class(**data[key])`
unfoldable pub section : Schema → Option Tree → Instance → Option Instance
unfolding construct
section schema none before = some before
section schema (some tree) before = construct schema tree

-- pop, of the dict that is left.
unfoldable pub without : String → Fields Scalar → Fields Scalar
without k nil = nil
without k (field j v fs) = let rest = field j v (without k fs) in if j == k then fs else rest

-- Whether a value counts as true.
abbrev pub truthy : Tree → Bool
truthy (leaf null) = false
truthy (leaf (text s)) = not (s == "")
truthy (leaf (number n)) = not (nat_beq n 0)
truthy (leaf (flag b)) = b
truthy (leaf (texts [])) = false
truthy (leaf (texts (s ∷ ss))) = true
truthy (node nil) = false
truthy (node (field k v fs)) = true

-- `if sensors_data: ...`
unfoldable pub sensors_of : Option Tree → Instance → Option Instance
unfolding construct
sensors_of none before = some before
sensors_of (some tree) before = if truthy tree then construct sensor_config tree else some before

abbrev pub both : Option Instance → Option Instance → Option (Instance × Instance)
both none o = none
both (some a) none = none
both (some a) (some b) = some (a, b)

-- The device and its sensors. `dict` of a value that is no dict raises, but for an empty text or list
-- and the like, which are left out here.
unfoldable pub device_of : Option Tree → Instance → Option (Instance × Instance)
unfolding construct without sensors_of
device_of none before = some (before, defaults sensor_config)
device_of (some (leaf a)) before = none
device_of (some (node fs)) before =
    both (construct device_config (node (without "sensors" fs)))
      (sensors_of (get_field "sensors" fs) (defaults sensor_config))

-- The rest of `load`, section after section; none is an exception.
abbrev then_section : {A : Type 0} → Option Instance → (Instance → Option A) → Option A
then_section none k = none
then_section (some values) k = k values

abbrev then_device :
    {A : Type 0} → Option (Instance × Instance) → (Instance → Instance → Option A) → Option A
then_device none k = none
then_device (some (device, sensors)) k = k device sensors

-- `load`, from what `yaml.safe_load` has read.
unfoldable pub of_fields : Fields Scalar → Option OsProfile
unfolding section device_of
of_fields fs =
    then_section (section boot_config (get_field "boot" fs) (defaults boot_config)) λ boot.
      then_section (section graphics_config (get_field "graphics" fs) (defaults graphics_config))
        λ graphics.
          then_section (section adb_config (get_field "adb" fs) (defaults adb_config)) λ adb.
            then_device (device_of (get_field "device" fs) (defaults device_config))
              λ device sensors.
                then_section
                  (section storage_config (get_field "storage" fs) (defaults storage_config))
                  λ storage.
                    then_section
                      (section network_config (get_field "network" fs) (defaults network_config))
                      λ network.
                        then_section
                          (section input_config (get_field "input" fs) (defaults input_config))
                          λ input.
                            then_section
                              (section camera_media_config (get_field "camera_media" fs)
                                (defaults camera_media_config))
                              λ camera_media.
                                then_section
                                  (section performance_config (get_field "performance" fs)
                                    (defaults performance_config))
                                  λ performance.
                                    then_section
                                      (section google_services_config
                                        (get_field "google_services" fs)
                                        (defaults google_services_config))
                                      λ google_services. some (record {
                                        name = or_default (get_field "name" fs) (str "");
                                        image_path =
                                            or_default (get_field "image_path" fs) (str "");
                                        created = or_default (get_field "created" fs) (str "");
                                        modified = or_default (get_field "modified" fs) (str "");
                                        boot = boot;
                                        graphics = graphics;
                                        adb = adb;
                                        device = device;
                                        sensors = sensors;
                                        storage = storage;
                                        network = network;
                                        input = input;
                                        camera_media = camera_media;
                                        performance = performance;
                                        google_services = google_services;
                                      })

-- An empty document is an empty dict; any other that is no dict raises.
unfoldable pub of_document : Tree → Option OsProfile
unfolding of_fields
of_document (leaf a) = if truthy (leaf a) then none else of_fields nil
of_document (node fs) = of_fields fs

unfoldable pub save : {Document : Type 0} → (Tree → Document) → OsProfile → Document
unfolding to_dict
save dump p = dump (node (to_dict p))

unfoldable pub load : {Document : Type 0} → (Document → Tree) → Document → Option OsProfile
unfolding of_document
load safe_load file = of_document (safe_load file)
