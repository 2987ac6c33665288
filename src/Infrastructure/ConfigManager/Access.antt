-- ===== src/Infrastructure/ConfigManager/Access.antt =====
-- `get` after `set`, by the parts of the two keys.
use linblock.Prelude.{
  String, ◌≡◌, ◌≢◌, refl, true, Option, some, List, [], ◌∷◌, ◌++◌, ok, arith, ◌∙◌, Result,
}
use mathlib.Core.Option
use linblock.Infrastructure.ConfigManager.{
  Value, node, Fields, Error, ConfigManager, get_path, set_path, split, get, set,
}
use linblock.Infrastructure.ConfigManager.Keys.{split-ne-nil}
use linblock.Infrastructure.ConfigManager.Paths.{
  are_apart, get_path-set_below, get_path-set_apart, get_path-set_above,
}

module _ {A : Type 0} (m : ConfigManager A) (key key' : String) (value default : Value A) where
  -- What `get(key', default)` returns after `set(key, value)`.
  abbrev pub get_after_set : Result Error (Value A)
  get_after_set = (get key' default (set key value m).1).0

  get_after_set-eq :
      (o : Option (Value A))
      → m.initialized ≡ true
      → get_path (split key') (node (set_path (split key) value m.values)) ≡ o
      → get_after_set ≡ ok (Option.get_or o default)
  unfolding get set
  get_after_set-eq o up e = ground arith

  below_parts :
      (parts rest : List String)
      → parts ≢ []
      → get_path (parts ++ rest) (node (set_path parts value m.values)) ≡ get_path rest value
  below_parts [] rest h = absurd (h refl)
  below_parts (part ∷ parts) rest h = get_path-set_below part parts rest value m.values

  -- After `set(key, value)` on a live manager, a key whose parts are those of `key` and some more
  -- is read inside `value` by the parts that are left, `key` itself as `value`.
  pub get-set_below :
      (rest : List String)
      → m.initialized ≡ true
      → split key' ≡ split key ++ rest
      → get_after_set ≡ ok (Option.get_or (get_path rest value) default)
  get-set_below rest up longer =
      get_after_set-eq (get_path rest value) up
        (rw longer (below_parts (split key) rest (split-ne-nil key)))

  -- After `set(key, value)` on a live manager, a key that is neither above nor below `key` is read
  -- as before.
  pub get-set_apart :
      m.initialized ≡ true
      → are_apart (split key) (split key') ≡ true
      → get_after_set ≡ (get key' default m).0
  get-set_apart up apart =
      get_after_set-eq _ up (get_path-set_apart (split key) (split key') value m.values apart)
      ∙ (unfold get in ground arith)

  -- After `set(key, value)` on a live manager, a key whose parts begin those of `key`, and are
  -- fewer, is a dict, whatever stood there.
  pub get-set_above :
      (next : String) (rest : List String)
      → m.initialized ≡ true
      → split key ≡ split key' ++ next ∷ rest
      → (fields : Fields A) × (get_after_set ≡ ok (node fields))
  get-set_above next rest up longer =
      let (fields, e) = above (split key') (split-ne-nil key') in
      (fields, get_after_set-eq (some (node fields)) up (rw longer e))
    where
      above :
          (parts : List String)
          → parts ≢ []
          → (gs : Fields A) × (get_path parts
                (node (set_path (parts ++ next ∷ rest) value m.values))
              ≡ some (node gs))
      above [] h = absurd (h refl)
      above (part ∷ parts) h = get_path-set_above part parts next rest value m.values
