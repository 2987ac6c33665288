-- ===== src/Emulation/StorageManager.antt =====
-- src/modules/emulation/storage_manager/interface.py: `DefaultStorageManager`.
pub mod Images
use linblock.Prelude.{
  ℕ, String, string_eq, Bool, true, false, Option, none, some, List, Result, ok, err, Method, ◌>>=◌,
}
use linblock.Dict
use linblock.Dict.{Dict}

pub data Error : Type 0 where
  image_not_found : String → Error
  duplicate_image : String → Error

pub record DiskImage : Type 0 where
  pub path : String
  pub format : String
  pub size_mb : ℕ
  pub readonly : Bool

pub record StorageManager : Type 0 where
  pub images : Dict String DiskImage

abbrev pub Call : Type 0 → Type 0
Call A = Method Error StorageManager A

unfoldable pub init : StorageManager
init = record { images = Dict.empty }

unfoldable pub attach_image : DiskImage → Call Unit
attach_image image m = elim (Dict.get m.images image.path) [
  | some old ↦ (err (duplicate_image image.path), m)
  | none ↦ (ok tt, record { images = Dict.put m.images image.path image })
]

pub detach_image : String → Call Unit
detach_image path m = elim (Dict.get m.images path) [
  | none ↦ (err (image_not_found path), m)
  | some image ↦ (ok tt, record { images = Dict.remove m.images path })
]

list_images : StorageManager → List DiskImage
list_images m = Dict.values m.images

unfoldable pub get_image_info : String → Call DiskImage
get_image_info path m = elim (Dict.get m.images path) [
  | none ↦ (err (image_not_found path), m)
  | some image ↦ (ok image, m)
]

abbrev pub overlay_of : DiskImage → String → DiskImage
overlay_of base overlay_path = record {
  path = overlay_path;
  format = "qcow2";
  size_mb = base.size_mb;
  readonly = false;
}

-- An image that is attached under `overlay_path` is replaced.
unfoldable pub create_overlay : String → String → Call String
create_overlay base_path overlay_path m = elim (Dict.get m.images base_path) [
  | none ↦ (err (image_not_found base_path), m)
  | some base ↦ (
    ok overlay_path,
    record { images = Dict.put m.images overlay_path (overlay_of base overlay_path) },
  )
]

unfoldable pub cleanup : StorageManager → StorageManager
cleanup m = record { images = Dict.empty }
