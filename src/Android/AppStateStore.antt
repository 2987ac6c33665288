-- ===== src/Android/AppStateStore.antt =====
-- src/modules/android/app_manager/internal/app_state_store.py: `AppStateRecord` and
-- `AppStateStore`. `now` is the timestamp that `__post_init__` fills in.
pub mod History
use linblock.Prelude.{String, string_eq, Option, none, some, List, [], ◌∷◌, ◌++◌}
use mathlib.Core.Option
use linblock.Dict
use linblock.Dict.{Dict}

pub record AppStateRecord : Type 0 where
  pub pkg : String
  pub state : String
  pub timestamp : String
  pub previous_state : Option String
  pub metadata : Dict String String

pub record AppStateStore : Type 0 where
  pub current : Dict String AppStateRecord
  pub history : Dict String (List AppStateRecord)

unfoldable pub init : AppStateStore
init = record { current = Dict.empty; history = Dict.empty }

-- `metadata or {}`
abbrev or_empty : Option (Dict String String) → Dict String String
or_empty none = Dict.empty
or_empty (some d) = d

-- `self._history.get(package, [])`
abbrev pub or_nil : Option (List AppStateRecord) → List AppStateRecord
or_nil none = []
or_nil (some l) = l

pub get_current : AppStateStore → String → Option AppStateRecord
get_current s pkg = Dict.get s.current pkg

pub get_history : AppStateStore → String → List AppStateRecord
get_history s pkg = or_nil (Dict.get s.history pkg)

pub new_record :
    AppStateStore → String → String → Option (Dict String String) → String → AppStateRecord
unfolding get_current
new_record s pkg state metadata now = record {
  pkg = pkg;
  state = state;
  timestamp = now;
  previous_state = Option.map (λ r. r.state) (Dict.get s.current pkg);
  metadata = or_empty metadata;
}

-- `record`: the new store and the record that it returns.
pub record_state :
    AppStateStore
    → String
    → String
    → Option (Dict String String)
    → String
    → AppStateStore × AppStateRecord
record_state s pkg state metadata now =
    let r = new_record s pkg state metadata now in
    let entries = or_nil (Dict.get s.history pkg) in
    (
      record {
        current = Dict.put s.current pkg r;
        history = Dict.put s.history pkg (entries ++ r ∷ []);
      },
      r,
    )

unfoldable pub remove : AppStateStore → String → AppStateStore
remove s pkg = record { current = Dict.remove s.current pkg; history = Dict.remove s.history pkg }

unfoldable pub clear : AppStateStore → AppStateStore
clear s = record { current = Dict.empty; history = Dict.empty }

-- The property `packages`.
packages : AppStateStore → List String
packages s = Dict.keys s.current
