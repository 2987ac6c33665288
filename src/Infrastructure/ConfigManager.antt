-- ===== src/Infrastructure/ConfigManager.antt =====
-- src/modules/infrastructure/config_manager/interface.py: `DefaultConfigManager`.
-- The configuration is a tree: a Python value is a dict with text keys (`node`) or anything else
-- (`leaf`, over a type of such values). The YAML library and the file system are parameters.
pub mod Tree
mod Keys
pub mod Sorted
pub mod Paths
pub mod Access
pub mod Files
pub use Tree.{Value, leaf, node, Fields, nil, field}
unfoldable pub use Tree.{get_field, put_field, child, get_path, set_path, update}
unfoldable pub use Keys.{split, join}
use linblock.Prelude.{
  String, string_eq, Bool, true, false, Option, none, some, List, Result, ok, err, Method, require,
  ◌>>=◌, ◌>>◌, ◌&&◌,
}
use mathlib.Core.Option
use linblock.Dict
use linblock.Dict.{Dict}

pub data Error : Type 0 where
  config_manager_error : Error
  config_not_found : String → Error

pub record ConfigManager (A : Type 0) : Type 0 where
  pub values : Fields A
  pub initialized : Bool

abbrev pub Call : Type 0 → Type 0 → Type 0
Call A B = Method Error (ConfigManager A) B

-- What is used of the `yaml` library: a document for each mapping, and a mapping for each document.
pub record Yaml (A : Type 0) : Type 1 where
  pub Document : Type 0
  pub dump : Fields A → Document
  pub safe_load : Document → Fields A

unfoldable pub init : {A : Type 0} → Fields A → ConfigManager A
init config = record { values = config; initialized = true }

require_initialized : {A : Type 0} → Call A Unit
require_initialized m = require m.initialized config_manager_error m

-- `get(key, default)`
unfoldable pub get : {A : Type 0} → String → Value A → Call A (Value A)
unfolding require_initialized get_path split
get key default = do
  require_initialized
  λ m. (ok (Option.get_or (get_path (split key) (node m.values)) default), m)

unfoldable pub set : {A : Type 0} → String → Value A → Call A Unit
unfolding require_initialized set_path split
set key value = do
  require_initialized
  λ m. (ok tt, record m { values = set_path (split key) value m.values })

-- `self._data.get(module_name, {})`
get_module_config : {A : Type 0} → String → Call A (Value A)
unfolding require_initialized get_field
get_module_config module_name = do
  require_initialized
  λ m. (ok (Option.get_or (get_field module_name m.values) (node nil)), m)

-- `self._data` is a dict whatever was done.
validate : {A : Type 0} → ConfigManager A → Bool
validate m = m.initialized

unfoldable pub cleanup : {A : Type 0} → ConfigManager A → ConfigManager A
cleanup m = record { values = nil; initialized = false }

module _ {A : Type 0} (yaml : Yaml A) where
  open yaml use {Document, dump, safe_load}

  -- `files` holds the documents that exist, by path.
  pub load_config : Dict String Document → String → Call A (Fields A)
  unfolding require_initialized update
  load_config files path = do
    require_initialized
    λ m. elim (Dict.get files path) [
      | none ↦ (err (config_not_found path), m)
      | some document ↦
          let values = update m.values (safe_load document) in
          (ok values, record m { values = values })
    ]

  -- The documents after `save_config`.
  unfoldable pub save_config : Dict String Document → String → Call A (Dict String Document)
  unfolding require_initialized
  save_config files path = do
    require_initialized
    λ m. (ok (Dict.put files path (dump m.values)), m)
