-- ===== src/Android/PermissionManager/Usage.antt =====
-- The usage counter of a permission is the number of its uses in the audit log.
use linblock.Prelude.{
  ℕ, ◌+◌, String, ◌≡◌, refl, string_eq, pair_eq, ◌==◌, ==_iff, ◌&&◌, Bool, true, false,
  if◌then◌else◌, Bool-cases, Option-cases, inl, inr, Option, none, some, List, [], ◌∷◌, ◌++◌, arith,
  ap, ◌∙◌, length, length-append, keep, keep-append, ok,
}
use linblock.Dict
use linblock.Dict.{Dict, get-put, get-empty}
use linblock.Android.PermissionManager.{
  PermissionState, PermissionRecord, AuditEntry, PermissionManager, init, get_permission,
  set_permission, record_usage, set_record, cleanup,
}

-- The calls that may change the manager.
pub data Event : Type 0 where
  grant : (pkg permission : String) → PermissionState → (grant_now now : String) → Event
  use_permission : (pkg permission used_now now : String) → Event
  clean : Event

unfoldable pub handle : PermissionManager → Event → PermissionManager
handle m (grant pkg permission state grant_now now) =
    (set_permission pkg permission state grant_now now m).1
handle m (use_permission pkg permission used_now now) =
    (record_usage pkg permission used_now now m).1
handle m clean = cleanup m

unfoldable pub run : PermissionManager → List Event → PermissionManager
run m [] = m
run m (event ∷ events) = run (handle m event) events

abbrev is_use : String × String → AuditEntry → Bool
is_use key entry = (entry.pkg, entry.permission) == key && entry.action == "record_usage"

-- How often the log says that the permission was used.
abbrev pub logged_uses : String × String → List AuditEntry → ℕ
logged_uses key log = length (keep (is_use key) log)

abbrev counted : Option PermissionRecord → ℕ
counted none = 0
counted (some r) = r.use_count

abbrev IsCounted : PermissionManager → String × String → Type 0
IsCounted m key = counted (Dict.get m.permissions key) ≡ logged_uses key m.audit_log

logged_uses-append :
    (key : String × String) (log : List AuditEntry) (entry : AuditEntry)
    → logged_uses key (log ++ entry ∷ [])
      ≡ logged_uses key log + (if is_use key entry then 1 else 0)
logged_uses-append key log entry =
    ap length (keep-append (is_use key) log (entry ∷ []))
    ∙ length-append (keep (is_use key) log) (keep (is_use key) (entry ∷ []))
    ∙ ground arith

-- A write to `at`, beside an entry that is a use exactly if the write counts one.
put-counted :
    (d : Dict (String × String) PermissionRecord) (log : List AuditEntry) (at key : String × String)
    (r : PermissionRecord) (entry : AuditEntry) (use_of : Bool)
    → counted (Dict.get d key) ≡ logged_uses key log
    → is_use key entry ≡ (at == key && use_of)
    → r.use_count ≡ counted (Dict.get d at) + (if use_of then 1 else 0)
    → counted (Dict.get (Dict.put d at r) key) ≡ logged_uses key (log ++ entry ∷ [])
put-counted d log at key r entry use_of before logs counts = elim (Bool-cases (at == key)) [
  | inl same ↦
      let e = ap (λ k. counted (Dict.get d k)) ((==_iff at key).0 same) in
      rw logged_uses-append (rw get-put (rw same (ground (arith, e))))
  | inr apart ↦ rw logged_uses-append (rw get-put (rw apart (ground arith)))
]

counted-set_record :
    (pkg permission : String) (state : PermissionState) (now : String)
    (old : Option PermissionRecord)
    → (set_record pkg permission state now old).use_count ≡ counted old
unfolding set_record
counted-set_record pkg permission state now none = refl
counted-set_record pkg permission state now (some r) = refl

module _ (m : PermissionManager) (pkg permission : String) (key : String × String) where
  set_permission-IsCounted :
      (state : PermissionState) (grant_now now : String)
      → IsCounted m key
      → IsCounted (set_permission pkg permission state grant_now now m).1 key
  unfolding set_permission
  set_permission-IsCounted state grant_now now v = elim (Bool-cases m.initialized) [
    | inl up ↦ rw up (
        put-counted m.permissions m.audit_log (pkg, permission) key _ _ false v (ground arith)
          (omega (
            arith,
            counted-set_record pkg permission state grant_now
                (Dict.get m.permissions (pkg, permission)),
          )))
    | inr down ↦ rw down v
  ]

  record_usage-IsCounted :
      (used_now now : String)
      → IsCounted m key
      → IsCounted (record_usage pkg permission used_now now m).1 key
  unfolding record_usage
  record_usage-IsCounted used_now now v = elim (Bool-cases m.initialized) [
    | inl up ↦ elim (Option-cases (Dict.get m.permissions (pkg, permission))) [
      | inl missing ↦ rw (up, missing) v
      | inr (r, held) ↦
          rw (up, held)
            (put-counted m.permissions m.audit_log (pkg, permission) key _ _ true v (ground arith)
              (ground (arith, held)))
    ]
    | inr down ↦ rw down v
  ]

handle-IsCounted :
    (m : PermissionManager) (event : Event) (key : String × String)
    → IsCounted m key
    → IsCounted (handle m event) key
unfolding handle cleanup
handle-IsCounted m (grant pkg permission state grant_now now) key v =
    set_permission-IsCounted m pkg permission key state grant_now now v
handle-IsCounted m (use_permission pkg permission used_now now) key v =
    record_usage-IsCounted m pkg permission key used_now now v
handle-IsCounted m clean key v = simp get-empty refl

run-IsCounted :
    (m : PermissionManager) (events : List Event) (key : String × String)
    → IsCounted m key
    → IsCounted (run m events) key
unfolding run
run-IsCounted m [] key v = v
run-IsCounted m (event ∷ events) key v =
    run-IsCounted (handle m event) events key (handle-IsCounted m event key v)

-- After any calls on a new manager, the use count of a record that `get_permission` returns is the
-- number of entries of the audit log that record a use of that permission by that package.
pub use_count-eq-logged_uses :
    (events : List Event) (pkg permission : String) (r : PermissionRecord)
    → (get_permission pkg permission (run init events)).0 ≡ ok r
    → r.use_count ≡ logged_uses (pkg, permission) (run init events).audit_log
unfolding get_permission
use_count-eq-logged_uses events pkg permission r h =
    let key : String × String = (pkg, permission) in
    let v = run-IsCounted init events key (unfold init in simp get-empty refl) in ground (arith, v)
