-- ===== src/Android/AppManager.antt =====
-- src/modules/android/app_manager/interface.py: `DefaultAppManager`.
-- An `AppInfo` is mutated only through the dict that holds it, so the dict holds it by value.
-- `now` is what `_now_iso` returns, and `size_mb` (a float that the code never sets) is counted
-- in whole units.
pub mod Transitions
pub mod Running
use linblock.Prelude.{
  ℕ, String, ◌≡◌, Bool, true, false, Option, none, some, List, Result, ok, err, Method, require,
  ◌>>=◌, ◌>>◌, keep, string_eq,
}
use linblock.Dict
use linblock.Dict.{Dict}

pub data Error : Type 0 where
  app_manager_error : Error
  app_not_found : String → Error

pub data AppState : Type 0 where
  installed running stopped frozen disabled : AppState

pub record AppInfo : Type 0 where
  pub pkg : String
  pub name : String
  pub version : String
  pub state : AppState
  pub size_mb : ℕ
  pub install_time : Option String
  pub last_active : Option String

pub record AppManager : Type 0 where
  pub apps : Dict String AppInfo
  pub initialized : Bool

abbrev pub Call : Type 0 → Type 0
Call A = Method Error AppManager A

-- DefaultAppManager.__init__
unfoldable pub init : AppManager
init = record { apps = Dict.empty; initialized = true }

-- `if not self._initialized: raise AppManagerError("Not initialized")`
unfoldable pub require_initialized : Call Unit
require_initialized m = require m.initialized app_manager_error m

found : String → Option AppInfo → Call AppInfo
found pkg none m = (err (app_not_found pkg), m)
found pkg (some app) m = (ok app, m)

pub require_app : String → Call AppInfo
unfolding found
require_app pkg m = found pkg (Dict.get m.apps pkg) m

list_apps : Call (List AppInfo)
unfolding require_initialized
list_apps = require_initialized >> (λ m. (ok (Dict.values m.apps), m))

unfoldable pub get_app_info : String → Call AppInfo
unfolding require_initialized require_app
get_app_info pkg = require_initialized >> require_app pkg

unfoldable pub new_app : String → String → String → AppInfo
new_app pkg name now = record {
  pkg = pkg;
  name = name;
  version = "1.0";
  state = installed;
  size_mb = 0;
  install_time = some now;
  last_active = none;
}

unfoldable pub install_app : String → String → String → Call AppInfo
unfolding require_initialized
install_app pkg name now = do
  require_initialized
  λ m. let info = new_app pkg name now in (ok info, record m { apps = Dict.put m.apps pkg info })

-- `app.state = state`, where `app` is the object that the dict holds under `pkg`.
assign_state : String → AppInfo → AppState → Call Unit
assign_state pkg app state m =
    (ok tt, record m { apps = Dict.put m.apps pkg (record app { state = state }) })

unfoldable pub freeze_app : String → Call Unit
unfolding require_initialized require_app assign_state
freeze_app pkg = do require_initialized; app ← require_app pkg; assign_state pkg app frozen

pub unfreeze_app : String → Call Unit
unfolding require_initialized require_app assign_state
unfreeze_app pkg = do require_initialized; app ← require_app pkg; assign_state pkg app installed

pub enable_app : String → Call Unit
unfolding require_initialized require_app assign_state
enable_app pkg = do require_initialized; app ← require_app pkg; assign_state pkg app installed

pub disable_app : String → Call Unit
unfolding require_initialized require_app assign_state
disable_app pkg = do require_initialized; app ← require_app pkg; assign_state pkg app disabled

unfoldable pub force_stop : String → Call Unit
unfolding require_initialized require_app assign_state
force_stop pkg = do require_initialized; app ← require_app pkg; assign_state pkg app stopped

unfoldable pub is_running : AppInfo → Bool
is_running app = elim app.state [ running ↦ true | _ ↦ false ]

pub get_running_apps : Call (List AppInfo)
unfolding require_initialized
get_running_apps = require_initialized >> (λ m. (ok (keep is_running (Dict.values m.apps)), m))

unfoldable pub cleanup : AppManager → AppManager
cleanup m = record { apps = Dict.empty; initialized = false }
