-- ===== src/Infrastructure/ConfigManager/Files.antt =====
-- Loading and saving.
use linblock.Prelude.{
  String, string_eq, ==_iff, ==_refl, ◌≡◌, ◌≢◌, refl, ap, ◌∙◌, true, is_some, Option, none, some,
  List, [], ◌∷◌, ok, arith, if◌then◌else◌,
}
use linblock.Dict
use linblock.Dict.{Dict, get-put}
use linblock.Infrastructure.ConfigManager.{
  Value, leaf, node, Fields, nil, field, ConfigManager, Yaml, get_field, get_path, put_field,
  update, split, init, get, load_config, save_config,
}
use linblock.Infrastructure.ConfigManager.Sorted.{
  sorted, sorted_value, AreDicts, IsDistinct, get_path-sorted, sorted-IsDistinct,
}
use mathlib.Core.Option
use linblock.Infrastructure.ConfigManager.Keys.{split-ne-nil}
use linblock.Infrastructure.ConfigManager.Paths.{get_field-put_field, get_path-cons}

-- The first part of a key, under which a top-level value stands.
abbrev pub top : List String → String
top [] = ""
top (part ∷ parts) = part

module _ {A : Type 0} where
  abbrev or_else : Option (Value A) → Option (Value A) → Option (Value A)
  or_else none o = o
  or_else (some v) o = some v

  get_field-update :
      (k : String) (fs other : Fields A)
      → IsDistinct other
      → get_field k (update fs other) ≡ or_else (get_field k other) (get_field k fs)
  unfolding update get_field
  get_field-update k fs nil h = refl
  get_field-update k fs (field j v other) h = ground (
    arith,
    get_field-update k (put_field j v fs) other h.1,
    get_field-put_field j k v fs,
    ==_iff j k,
  )

  get_path-update :
      (part : String) (parts : List String) (fs other : Fields A)
      → IsDistinct other
      → get_path (part ∷ parts) (node (update fs other)) ≡ (
          if is_some (get_field part other)
          then get_path (part ∷ parts) (node other)
          else get_path (part ∷ parts) (node fs))
  get_path-update part parts fs other h = ground (
    arith,
    get_path-cons part parts (update fs other),
    get_path-cons part parts other,
    get_path-cons part parts fs,
    get_field-update part fs other h,
  )

  get_path-update_parts :
      (parts : List String) (fs other : Fields A)
      → parts ≢ []
      → IsDistinct other
      → get_path parts (node (update fs other)) ≡ (
          if is_some (get_field (top parts) other)
          then get_path parts (node other)
          else get_path parts (node fs))
  get_path-update_parts [] fs other full h = absurd (full refl)
  get_path-update_parts (part ∷ parts) fs other full h = get_path-update part parts fs other h

  get_path-update_nil :
      (parts : List String) (fs : Fields A)
      → parts ≢ []
      → IsDistinct fs
      → get_path parts (node (update nil fs)) ≡ get_path parts (node fs)
  unfolding get_field
  get_path-update_nil [] fs full h = absurd (full refl)
  get_path-update_nil (part ∷ parts) fs full h = ground (
    arith,
    get_path-cons part parts (update nil fs),
    get_path-cons part parts fs,
    get_field-update part nil fs h,
  )

get_or-sorted :
    {A : Type 0} (o : Option (Value A)) (default : A)
    → Option.get_or (Option.map sorted_value o) (leaf default)
      ≡ sorted_value (Option.get_or o (leaf default))
unfolding sorted_value
get_or-sorted none default = refl
get_or-sorted (some v) default = refl

module _ {A : Type 0} (yaml : Yaml A) where
  open yaml use {Document, dump, safe_load}

  -- After `load_config` of a document without a double key on a live manager, a key whose first
  -- part the document holds is read in the document, and any other key as before.
  pub get-load_config :
      (files : Dict String Document) (path : String) (document : Document) (m : ConfigManager A)
      (key : String) (default : Value A)
      → m.initialized ≡ true
      → Dict.get files path ≡ some document
      → IsDistinct (safe_load document)
      → (get key default (load_config yaml files path m).1).0 ≡ (
          if is_some (get_field (top (split key)) (safe_load document))
          then (get key default (init (safe_load document))).0
          else (get key default m).0)
  unfolding get load_config init
  get-load_config files path document m key default up there distinct = ground (
    arith,
    get_path-update_parts (split key) m.values (safe_load document) (split-ne-nil key) distinct,
  )

  -- If the library sorts the keys of a dict that it dumps and reads the dict back so, where what is no dict
  -- satisfies P, then after saving such a configuration and loading the file into a new manager every key
  -- is read as the old one reads it, its keys sorted if it is a dict.
  pub load_config-save_config :
      (P : A → Type 0)
      → ((fs : Fields A) → AreDicts P fs → safe_load (dump fs) ≡ sorted fs)
      → (files files' : Dict String Document) (path : String) (m : ConfigManager A) (key : String)
        (default : A) (v : Value A)
      → m.initialized ≡ true
      → AreDicts P m.values
      → (save_config yaml files path m).0 ≡ ok files'
      → (get key (leaf default) m).0 ≡ ok v
      → (get key (leaf default) (load_config yaml files' path (init nil)).1).0 ≡ ok (sorted_value v)
  load_config-save_config P reads files files' path m key default v up dicts saved old =
      let held : Dict.get (Dict.put files path (dump m.values)) path ≡ some (dump m.values) =
        simp (get-put, ==_refl) refl in
      let same : get_path (split key) (node (update nil (sorted m.values)))
          ≡ Option.map sorted_value (get_path (split key) (node m.values)) =
        get_path-update_nil (split key) (sorted m.values) (split-ne-nil key)
          (sorted-IsDistinct P m.values dicts)
        ∙ unfold sorted_value in get_path-sorted P (split key) (node m.values) dicts in
      let written : Dict.put files path (dump m.values) ≡ files' =
        unfold save_config in ground (arith, saved) in
      let answer : (get key (leaf default) (load_config yaml files' path (init nil)).1).0
          ≡ ok (
              Option.get_or (Option.map sorted_value (get_path (split key) (node m.values)))
                (leaf default)) =
        unfold get load_config init in
        rw (← written) (ground (arith, held, same, reads m.values dicts)) in
      let before : Option.get_or (get_path (split key) (node m.values)) (leaf default) ≡ v =
        unfold get in ground (arith, old, up) in
      answer
      ∙ ap ok
          (get_or-sorted (get_path (split key) (node m.values)) default ∙ ap sorted_value before)
