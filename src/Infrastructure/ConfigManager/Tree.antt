-- ===== src/Infrastructure/ConfigManager/Tree.antt =====
-- Configuration trees, and the loops of `get`, `set` and `dict.update` over them.
use linblock.Prelude.{String, string_eq, ◌==◌, Option, none, some, List, [], ◌∷◌, if◌then◌else◌}

mutual
  pub data Value (A : Type 0) : Type 0 where
    leaf : A → Value A
    node : Fields A → Value A

  pub data Fields (A : Type 0) : Type 0 where
    nil : Fields A
    field : String → Value A → Fields A → Fields A

module _ {A : Type 0} where
  -- current[part], if it is there
  unfoldable pub get_field : String → Fields A → Option (Value A)
  get_field k nil = none
  get_field k (field j v fs) = if j == k then some v else get_field k fs

  -- current[part] = value
  unfoldable pub put_field : String → Value A → Fields A → Fields A
  put_field k v nil = field k v nil
  put_field k v (field j w fs) =
      let rest = put_field k v fs in if j == k then field j v fs else field j w rest

  -- The dict under a key; an empty one where there is none, or where something else stands.
  unfoldable pub child : Option (Value A) → Fields A
  child none = nil
  child (some (leaf a)) = nil
  child (some (node fs)) = fs

  -- The loop of `get`: none where it would return the default.
  unfoldable pub get_path : List String → Value A → Option (Value A)
  get_path [] v = some v
  get_path (part ∷ parts) (leaf a) = none
  get_path (part ∷ parts) (node fs) = elim (get_field part fs) [
    | none ↦ none
    | some v ↦ get_path parts v
  ]

  -- The loop of `set` and the assignment after it. The list of parts is never empty.
  unfoldable pub set_path : List String → Value A → Fields A → Fields A
  set_path [] v fs = fs
  set_path (part ∷ []) v fs = put_field part v fs
  set_path (part ∷ next ∷ parts) v fs =
      put_field part (node (set_path (next ∷ parts) v (child (get_field part fs)))) fs

  -- d.update(other)
  unfoldable pub update : Fields A → Fields A → Fields A
  update fs nil = fs
  update fs (field k v other) = update (put_field k v fs) other
