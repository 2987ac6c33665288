-- ===== src/Tests/Android.antt =====
-- src/modules/android at concrete inputs.
use linblock.Prelude.{
  string_eq, pair_eq, ◌≡◌, refl, true, false, none, some, List, [], ◌∷◌, ok, err, if◌then◌else◌,
}
use linblock.Dict
use linblock.Dict.{Dict}
use linblock.Android.AppManager
use linblock.Android.AppManager.Transitions.{freeze, stop, perform, answer, view_after, perform_lem}
use linblock.Android.AppManager.Running
use linblock.Android.AppManager.Running.{get_app_info-pkg, get_running_apps-empty}
use linblock.Android.AppStateStore
use linblock.Android.AppStateStore.History
use linblock.Android.AppStateStore.History.{IsChain, latest, get_history_lem}
use linblock.Android.PermissionManager
use linblock.Android.PermissionManager.{granted, denied, PermissionRecord, state_value}
use linblock.Android.PermissionManager.Usage
use linblock.Android.PermissionManager.Usage.{logged_uses, use_count-eq-logged_uses}

abbrev installs : List Running.Event
installs =
    Running.install "org.mail" "Mail" "2024-01-01"
    ∷ Running.install "org.maps" "Maps" "2024-01-02"
    ∷ Running.transition freeze "org.mail"
    ∷ []

abbrev phone : AppManager.AppManager
phone = Running.run AppManager.init installs

perform_lem_example :
    ((perform stop "org.mail" phone).0 ≡ answer phone "org.mail")
    × (Dict.get (perform stop "org.mail" phone).1.apps "org.maps"
        ≡ view_after AppManager.stopped "org.mail" phone "org.maps")
perform_lem_example = perform_lem stop "org.mail" phone "org.maps"

abbrev frozen_mail : AppManager.AppInfo
frozen_mail = record {
  pkg = "org.mail";
  name = "Mail";
  version = "1.0";
  state = AppManager.frozen;
  size_mb = 0;
  install_time = some "2024-01-01";
  last_active = none;
}

get_running_apps-empty_example :
    (AppManager.get_running_apps phone).0
    ≡ (if phone.initialized then ok [] else err AppManager.app_manager_error)
get_running_apps-empty_example = get_running_apps-empty installs

abbrev changes : List History.Event
changes =
    History.enter "org.mail" "running" none "t1"
    ∷ History.enter "org.maps" "running" none "t2"
    ∷ History.enter "org.mail" "frozen" none "t3"
    ∷ []

get_history_lem_example :
    IsChain "org.mail" none
      (AppStateStore.get_history (History.run AppStateStore.init changes) "org.mail")
    × (latest none (AppStateStore.get_history (History.run AppStateStore.init changes) "org.mail")
        ≡ AppStateStore.get_current (History.run AppStateStore.init changes) "org.mail")
get_history_lem_example = get_history_lem changes "org.mail"

abbrev uses : List Usage.Event
uses =
    Usage.grant "org.mail" "CAMERA" granted "t1" "t2"
    ∷ Usage.use_permission "org.mail" "CAMERA" "t3" "t4"
    ∷ Usage.use_permission "org.maps" "CAMERA" "t5" "t6"
    ∷ []

abbrev guard : PermissionManager.PermissionManager
guard = Usage.run PermissionManager.init uses

abbrev camera : PermissionRecord
camera = record {
  pkg = "org.mail";
  permission = "CAMERA";
  state = granted;
  category = PermissionManager.normal;
  grant_time = some "t1";
  last_used = some "t3";
  use_count = 1;
  background_allowed = false;
}

camera-held : (PermissionManager.get_permission "org.mail" "CAMERA" guard).0 ≡ ok camera
unfolding PermissionManager.get_permission PermissionManager.init PermissionManager.set_permission
    PermissionManager.record_usage PermissionManager.set_record PermissionManager.add_audit
    Usage.run Usage.handle Dict.get Dict.put pair_eq
camera-held = refl

use_count-eq-logged_uses_example : 1 ≡ logged_uses ("org.mail", "CAMERA") guard.audit_log
use_count-eq-logged_uses_example =
    use_count-eq-logged_uses uses "org.mail" "CAMERA" camera camera-held

guard-initialized : guard.initialized ≡ true
unfolding PermissionManager.init PermissionManager.set_permission PermissionManager.record_usage
    PermissionManager.set_record PermissionManager.add_audit Usage.run Usage.handle Dict.get
    Dict.put pair_eq
guard-initialized = refl
