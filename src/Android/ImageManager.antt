-- ===== src/Android/ImageManager.antt =====
-- src/modules/android/android_image/interface.py: `DefaultAndroidImage`. What the file system answers is a
-- record of arguments.
use Prim.Native.String.{String as Text}
use Prim.Native.Char.{code}
use linblock.Prelude.{
  ℕ, ◌-◌, ◌*◌, ◌/◌, String, Bool, true, false, ◌&&◌, Option, none, some, List, [], ◌∷◌, map, keep,
  length, drop, ltb, leb, nat_beq, if◌then◌else◌, ok, err, Method,
}

-- AndroidImageError and ImageNotFoundError.
pub data Error : Type 0 where
  not_initialized : Error
  image_not_found : String → Error

pub record ImageInfo : Type 0 where
  pub path : String
  pub android_version : String
  pub api_level : ℕ
  pub architecture : String
  pub size_mb : ℕ
  pub build_type : String

-- The size of a file that exists, the names in a directory, and how a path and a name are joined.
pub record Disk : Type 0 where
  pub size : String → Option ℕ
  pub names : String → Option (List String)
  pub join : String → String → String

pub record AndroidImage : Type 0 where
  pub current_image : Option ImageInfo
  pub initialized : Bool

abbrev pub Call : Type 0 → Type 0
Call A = Method Error AndroidImage A

init : AndroidImage
init = record { current_image = none; initialized = true }

abbrev pub info_of : String → ℕ → ImageInfo
info_of path size = record {
  path = path;
  android_version = "14";
  api_level = 34;
  architecture = "x86_64";
  size_mb = size / (1024 * 1024);
  build_type = "userdebug";
}

found : String → Option ℕ → Call ImageInfo
found path none m = (err (image_not_found path), m)
found path (some size) m =
    let info = info_of path size in (ok info, record m { current_image = some info })

pub load_image : Disk → String → Call ImageInfo
unfolding found
load_image disk path m =
    if m.initialized then found path (disk.size path) m else (err not_initialized, m)

abbrev not_empty : Option ℕ → Bool
not_empty none = false
not_empty (some size) = ltb 0 size

pub validate_image : Disk → String → Call Bool
validate_image disk path m =
    if m.initialized then (ok (not_empty (disk.size path)), m) else (err not_initialized, m)

pub get_image_info : Call (Option ImageInfo)
get_image_info m = if m.initialized then (ok m.current_image, m) else (err not_initialized, m)

-- The characters of a name.
abbrev codes : Text → List ℕ
codes Text.[] = []
codes (Text.◌∷◌ c s) = code c ∷ codes s

abbrev same_codes : List ℕ → List ℕ → Bool
same_codes [] [] = true
same_codes (a ∷ as') (b ∷ bs) = nat_beq a b && same_codes as' bs
same_codes _ _ = false

-- f.endswith(".img")
abbrev ends_in_img : String → Bool
ends_in_img name =
    let suffix = codes ".img" in
    leb (length suffix) (length (codes name))
    && same_codes (drop (length (codes name) - length suffix) (codes name)) suffix

-- A file that has gone by the time of `getsize` raises; there is none such here.
abbrev size_or_zero : Option ℕ → ℕ
size_or_zero none = 0
size_or_zero (some size) = size

abbrev or_empty : Option (List String) → List String
or_empty none = []
or_empty (some names) = names

images_in : Disk → String → List String → List ImageInfo
images_in disk directory names =
    map
      (λ name. let path = disk.join directory name in info_of path (size_or_zero (disk.size path)))
      (keep ends_in_img names)

pub list_available_images : Disk → String → Call (List ImageInfo)
unfolding images_in
list_available_images disk directory m =
    if m.initialized
    then (ok (images_in disk directory (or_empty (disk.names directory))), m)
    else (err not_initialized, m)

pub cleanup : AndroidImage → AndroidImage
cleanup m = record { current_image = none; initialized = false }
