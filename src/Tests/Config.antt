-- ===== src/Tests/Config.antt =====
-- src/modules/infrastructure/config_manager/interface.py at concrete inputs.
use linblock.Prelude.{ℕ, string_eq, ◌≡◌, refl, true, [], ◌∷◌, ok}
use mathlib.Core.Option
use linblock.Dict
use linblock.Dict.{Dict}
use linblock.Infrastructure.ConfigManager.{
  Value, leaf, node, Fields, nil, field, ConfigManager, Yaml, get_field, get_path, split, init, get,
  load_config, save_config,
}
use linblock.Infrastructure.ConfigManager.Access.{get_after_set, get-set_below, get-set_apart}
use linblock.Infrastructure.ConfigManager.Sorted.{sorted, sorted_value, AreDicts}
use linblock.Infrastructure.ConfigManager.Files.{load_config-save_config}

-- Leaves that are numbers.
abbrev fields : Fields ℕ
fields = field "gpu" (node (field "mode" (leaf 1) nil)) (field "cores" (leaf 4) nil)

abbrev manager : ConfigManager ℕ
manager = record { values = fields; initialized = true }

abbrev screen : Value ℕ
screen = node (field "width" (leaf 1080) nil)

get-set_below_example :
    get_after_set manager "gpu.screen" "gpu.screen.width" screen (leaf 0)
    ≡ ok (Option.get_or (get_path ("width" ∷ []) screen) (leaf 0))
get-set_below_example =
    get-set_below manager "gpu.screen" "gpu.screen.width" screen (leaf 0) ("width" ∷ []) refl
      (unfold split in refl)

get-set_apart_example :
    get_after_set manager "gpu.screen" "gpu.mode" screen (leaf 0)
    ≡ (get "gpu.mode" (leaf 0) manager).0
get-set_apart_example =
    get-set_apart manager "gpu.screen" "gpu.mode" screen (leaf 0) refl (unfold split in refl)

-- Sorting documents, as the library does.
abbrev sorting : Yaml ℕ
sorting = record { Document = Fields ℕ; dump = sorted; safe_load = λ document. document }

fields-AreDicts : AreDicts (λ _. Unit) fields
unfolding get_field
fields-AreDicts = (refl, (refl, tt, tt), (refl, tt, tt))

load_config-save_config_example :
    (get "gpu.mode"
      (leaf 0)
      (load_config sorting (Dict.put Dict.empty "b.yaml" (sorted fields)) "b.yaml" (init nil)).1).0
    ≡ ok (leaf 1)
unfolding sorted_value
load_config-save_config_example =
    load_config-save_config sorting (λ _. Unit) (λ fs d. refl) Dict.empty
      (Dict.put Dict.empty "b.yaml" (sorted fields)) "b.yaml" manager "gpu.mode" 0 (leaf 1) refl
      fields-AreDicts (unfold save_config in refl) (unfold get split get_path get_field in refl)
