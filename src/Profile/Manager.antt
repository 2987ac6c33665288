-- ===== src/Profile/Manager.antt =====
-- src/utils/profile_manager.py: `ProfileManager`. The directory is the files of it that end in
-- ".yaml", each under the rest of its name, which holds no slash. How Python writes a name in the path of a
-- file is an argument.
use linblock.Prelude.{
  String, string_eq, ◌==◌, ◌≡◌, refl, ap, ◌∙◌, Bool, true, false, Option, none, some, List, is_some,
  if◌then◌else◌, Result, ok, err,
}
use linblock.Dict
use linblock.Dict.{Dict}
use linblock.Profile.{Tree, OsProfile, save, load}
use linblock.Infrastructure.ConfigManager.Sorted.{sorted_value, IsDict}
use linblock.Profile.Sections.{Any}
use linblock.Profile.RoundTrip.{IsProfile, load-save}

pub data Error : Type 0 where
  file_not_found malformed : Error

list_profiles : {Document : Type 0} → Dict String Document → List String
list_profiles d = Dict.keys d

abbrev loaded : Option OsProfile → Result Error OsProfile
loaded none = err malformed
loaded (some p) = ok p

load_file : {Document : Type 0} → (Document → Tree) → Option Document → Result Error OsProfile
load_file safe_load none = err file_not_found
load_file safe_load (some file) = loaded (load safe_load file)

pub load_profile :
    {Document : Type 0} → (Document → Tree) → String → Dict String Document → Result Error OsProfile
unfolding load_file
load_profile safe_load name d = load_file safe_load (Dict.get d name)

pub save_profile :
    {Document : Type 0}
    → (Tree → Document)
    → (Tree → String)
    → OsProfile
    → Dict String Document
    → Dict String Document
save_profile dump shown p d = Dict.put d (shown p.name) (save dump p)

-- A file that is not there is left alone.
pub delete_profile : {Document : Type 0} → String → Dict String Document → Dict String Document
delete_profile name d = Dict.remove d name

pub profile_exists : {Document : Type 0} → String → Dict String Document → Bool
profile_exists name d = Dict.contains d name

module _ (Document : Type 0) (dump : Tree → Document) (safe_load : Document → Tree) where
  load_file-if :
      (b : Bool) (p : OsProfile) (old : Option Document)
      → ((t : Tree) → IsDict Any t → safe_load (dump t) ≡ sorted_value t)
      → IsProfile p
      → load_file safe_load (if b then some (save dump p) else old)
        ≡ (if b then ok p else load_file safe_load old)
  unfolding load_file
  load_file-if true p old reads h = ap loaded (load-save Document dump safe_load p reads h)
  load_file-if false p old reads h = refl

  exists-if :
      (b : Bool) (new : Document) (old : Option Document)
      → is_some (if b then some new else old) ≡ (if b then true else is_some old)
  exists-if true new old = refl
  exists-if false new old = refl

  load_file-gone :
      (b : Bool) (old : Option Document)
      → load_file safe_load (if b then none else old)
        ≡ (if b then err file_not_found else load_file safe_load old)
  unfolding load_file
  load_file-gone true old = refl
  load_file-gone false old = refl

-- The directory as a table of profiles: after a profile is saved it is loaded and exists under its name,
-- and every other name loads and exists as before; after a name is deleted it is not found, and every other
-- loads as before. The YAML library sorts the keys of a dict that it dumps, in itself and in those below it, and reads it back
-- so; and every section of the profile has a value for each field of its class, none of them a dict.
pub load_profile_lem :
    (Document : Type 0) (dump : Tree → Document) (safe_load : Document → Tree)
    (shown : Tree → String) (p : OsProfile) (name : String) (d : Dict String Document)
    → ((t : Tree) → IsDict Any t → safe_load (dump t) ≡ sorted_value t)
    → IsProfile p
    → (load_profile safe_load name (save_profile dump shown p d)
        ≡ (if shown p.name == name then ok p else load_profile safe_load name d))
      × (profile_exists name (save_profile dump shown p d)
          ≡ (if shown p.name == name then true else profile_exists name d))
      × (load_profile safe_load name (delete_profile (shown p.name) d)
          ≡ (if shown p.name == name then err file_not_found else load_profile safe_load name d))
unfolding load_profile save_profile delete_profile profile_exists
load_profile_lem Document dump safe_load shown p name d reads h =
    let key = shown p.name in
    (
      ap (load_file safe_load) (Dict.get-put d key name (save dump p))
          ∙ load_file-if Document dump safe_load (key == name) p (Dict.get d name) reads h,
      ap is_some (Dict.get-put d key name (save dump p))
          ∙ exists-if Document dump safe_load (key == name) (save dump p) (Dict.get d name),
      ap (load_file safe_load) (Dict.get-remove d key name)
          ∙ load_file-gone Document dump safe_load (key == name) (Dict.get d name),
    )
