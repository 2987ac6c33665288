-- ===== src/Android/PermissionManager.antt =====
-- src/modules/android/permission_manager/interface.py: `DefaultPermissionManager`.
-- A record is mutated only through the dict that holds it, so the dict holds it by value. What
-- `_now_iso` returns is an argument of each call that reads the clock.
pub mod Usage
pub mod Records
pub mod AuditLog
use linblock.Prelude.{
  ℕ, ◌+◌, String, string_eq, pair_eq, Bool, true, false, Option, none, some, List, [], ◌∷◌, ◌++◌,
  ◌==◌, Result, ok, err, Method, require, ◌>>=◌, ◌>>◌, keep, reverse, ℤ, slice_to, if◌then◌else◌,
}
use linblock.Dict
use linblock.Dict.{Dict}

pub data Error : Type 0 where
  permission_manager_error : Error
  permission_not_found : (pkg permission : String) → Error

pub data PermissionState : Type 0 where
  granted denied ask unset : PermissionState

pub data PermissionCategory : Type 0 where
  normal dangerous signature privileged : PermissionCategory

-- PermissionState.value
pub state_value : PermissionState → String
state_value granted = "granted"
state_value denied = "denied"
state_value ask = "ask"
state_value unset = "unset"

pub record PermissionRecord : Type 0 where
  pub pkg : String
  pub permission : String
  pub state : PermissionState
  pub category : PermissionCategory
  pub grant_time : Option String
  pub last_used : Option String
  pub use_count : ℕ
  pub background_allowed : Bool

pub record AuditEntry : Type 0 where
  pub timestamp : String
  pub pkg : String
  pub permission : String
  pub action : String
  pub result : String
  pub source : String

pub record PermissionManager : Type 0 where
  pub permissions : Dict (String × String) PermissionRecord
  pub audit_log : List AuditEntry
  pub initialized : Bool

abbrev pub Call : Type 0 → Type 0
Call A = Method Error PermissionManager A

unfoldable pub init : PermissionManager
init = record { permissions = Dict.empty; audit_log = []; initialized = true }

require_initialized : Call Unit
require_initialized m = require m.initialized permission_manager_error m

-- `_add_audit`, at the clock value `now`.
unfoldable pub add_audit :
    String → String → String → String → String → PermissionManager → PermissionManager
add_audit pkg permission action result now m =
    let entry : AuditEntry = record {
      timestamp = now;
      pkg = pkg;
      permission = permission;
      action = action;
      result = result;
      source = "runtime";
    } in
    record m { audit_log = m.audit_log ++ entry ∷ [] }

found : String → String → Option PermissionRecord → Call PermissionRecord
found pkg permission none m = (err (permission_not_found pkg permission), m)
found pkg permission (some r) m = (ok r, m)

unfoldable pub get_permission : String → String → Call PermissionRecord
unfolding require_initialized found
get_permission pkg permission = do
  require_initialized
  λ m. found pkg permission (Dict.get m.permissions (pkg, permission)) m

abbrev granted_at : PermissionState → Option String → String → Option String
granted_at granted before now = some now
granted_at _ before now = before

-- The record after `set_permission`: changed in place, or created.
unfoldable pub set_record :
    String → String → PermissionState → String → Option PermissionRecord → PermissionRecord
set_record pkg permission state now (some r) = record r {
  state = state;
  grant_time = granted_at state r.grant_time now;
}
set_record pkg permission state now none = record {
  pkg = pkg;
  permission = permission;
  state = state;
  category = normal;
  grant_time = granted_at state none now;
  last_used = none;
  use_count = 0;
  background_allowed = false;
}

-- `grant_now` and `now` are the two readings of the clock, in the code's order.
unfoldable pub set_permission : String → String → PermissionState → String → String → Call Unit
unfolding require_initialized add_audit set_record state_value
set_permission pkg permission state grant_now now = do
  require_initialized
  λ m.
      let key : String × String = (pkg, permission) in
      let r = set_record pkg permission state grant_now (Dict.get m.permissions key) in
      let m' = record m { permissions = Dict.put m.permissions key r } in
      (ok tt, add_audit pkg permission "set_permission" (state_value state) now m')

get_app_permissions : String → Call (List PermissionRecord)
unfolding require_initialized
get_app_permissions pkg = do
  require_initialized
  λ m. (ok (keep (λ r. r.pkg == pkg) (Dict.values m.permissions)), m)

get_all_permissions : Call (List PermissionRecord)
unfolding require_initialized
get_all_permissions = do require_initialized; λ m. (ok (Dict.values m.permissions), m)

used : String → PermissionRecord → PermissionRecord
used now r = record r { use_count = r.use_count + 1; last_used = some now }

-- `used_now` and `now` are the two readings of the clock, in the code's order.
unfoldable pub record_usage : String → String → String → String → Call Unit
unfolding require_initialized found used add_audit
record_usage pkg permission used_now now = do
  require_initialized
  r ← λ m. found pkg permission (Dict.get m.permissions (pkg, permission)) m
  λ m.
      let m' = record m {
        permissions = Dict.put m.permissions (pkg, permission) (used used_now r);
      } in
      (ok tt, add_audit pkg permission "record_usage" "ok" now m')

abbrev pub of_package : Option String → List AuditEntry → List AuditEntry
of_package none entries = entries
of_package (some pkg) entries = keep (λ e. e.pkg == pkg) entries

pub get_audit_log : Option String → ℤ → Call (List AuditEntry)
unfolding require_initialized
get_audit_log pkg limit = do
  require_initialized
  λ m. (ok (slice_to (reverse (of_package pkg m.audit_log)) limit), m)

unfoldable pub cleanup : PermissionManager → PermissionManager
cleanup m = record { permissions = Dict.empty; audit_log = []; initialized = false }
