-- ===== src/Android/PermissionManager/Records.antt =====
-- What `get_permission` returns after `set_permission`, and what every record satisfies.
use linblock.Prelude.{
  String, ◌≡◌, refl, string_eq, pair_eq, ◌==◌, Bool, true, is_some, if◌then◌else◌, Bool-cases,
  Option-cases, inl, inr, Option, List, [], ◌∷◌, arith, ok,
}
use linblock.Dict
use linblock.Dict.{get-put, AllItems, put-AllItems, get-AllItems}
use linblock.Android.PermissionManager.{
  PermissionState, granted, PermissionRecord, PermissionManager, init, get_permission,
  set_permission, record_usage, set_record, cleanup,
}
use linblock.Android.PermissionManager.Usage.{Event, grant, use_permission, clean, handle, run}

abbrev pub same_key : String × String → String × String → Bool
same_key a b = a == b

-- `set_permission` on a live manager gives its own pair the new state, keeping what the record held
-- or creating it, and `get_permission` answers for every other pair as before.
pub get_permission-set_permission :
    (m : PermissionManager) (pkg permission : String) (state : PermissionState)
    (grant_now now : String) (pkg' permission' : String)
    → m.initialized ≡ true
    → (get_permission pkg' permission' (set_permission pkg permission state grant_now now m).1).0
      ≡ (if same_key (pkg, permission) (pkg', permission')
          then ok
              (set_record pkg permission state grant_now (Dict.get m.permissions (pkg, permission)))
          else (get_permission pkg' permission' m).0)
unfolding get_permission set_permission
get_permission-set_permission m pkg permission state grant_now now pkg' permission' up =
    let key : String × String = (pkg, permission) in
    let key' : String × String = (pkg', permission') in
    let r = set_record pkg permission state grant_now (Dict.get m.permissions key) in
    elim (Bool-cases (same_key key key')) [
      | inl same ↦ ground (arith, get-put m.permissions key key' r, same)
      | inr apart ↦ ground (arith, get-put m.permissions key key' r, apart)
    ]

-- A grant time is there, if the state is GRANTED.
abbrev is_timed : PermissionState → Option String → Bool
is_timed granted time = is_some time
is_timed _ time = true

-- The record names its key, and one in the state GRANTED has a grant time.
abbrev pub IsFiled : (String × String) × PermissionRecord → Type 0
IsFiled (key, r) = (r.pkg ≡ key.0) × (r.permission ≡ key.1) × (is_timed r.state r.grant_time ≡ true)

abbrev IsValid : PermissionManager → Type 0
IsValid m = AllItems IsFiled m.permissions

set_record-IsFiled :
    (m : PermissionManager) (pkg permission : String) (state : PermissionState) (now : String)
    → IsValid m
    → IsFiled (
      (pkg, permission),
      set_record pkg permission state now (Dict.get m.permissions (pkg, permission)),
    )
unfolding set_record
set_record-IsFiled m pkg permission state now v =
    elim (Option-cases (Dict.get m.permissions (pkg, permission))) [
      | inl missing ↦ rw missing (refl, refl, ground arith)
      | inr (r, held) ↦
          let f = get-AllItems IsFiled m.permissions (pkg, permission) r v held in
          rw held (f.0, f.1, ground (arith, f.2))
    ]

set_permission-IsValid :
    (m : PermissionManager) (pkg permission : String) (state : PermissionState)
    (grant_now now : String)
    → IsValid m
    → IsValid (set_permission pkg permission state grant_now now m).1
unfolding set_permission
set_permission-IsValid m pkg permission state grant_now now v = elim (Bool-cases m.initialized) [
  | inl up ↦ rw up (
      put-AllItems IsFiled m.permissions (pkg, permission) _ v
        (set_record-IsFiled m pkg permission state grant_now v))
  | inr down ↦ rw down v
]

record_usage-IsValid :
    (m : PermissionManager) (pkg permission used_now now : String)
    → IsValid m
    → IsValid (record_usage pkg permission used_now now m).1
unfolding record_usage
record_usage-IsValid m pkg permission used_now now v = elim (Bool-cases m.initialized) [
  | inl up ↦ elim (Option-cases (Dict.get m.permissions (pkg, permission))) [
    | inl missing ↦ rw (up, missing) v
    | inr (r, held) ↦
        let f = get-AllItems IsFiled m.permissions (pkg, permission) r v held in
        rw (up, held) (put-AllItems IsFiled m.permissions (pkg, permission) _ v f)
  ]
  | inr down ↦ rw down v
]

run-IsValid : (m : PermissionManager) (events : List Event) → IsValid m → IsValid (run m events)
unfolding run handle cleanup
run-IsValid m [] v = v
run-IsValid m (grant pkg permission state g now ∷ events) v =
    run-IsValid _ events (set_permission-IsValid m pkg permission state g now v)
run-IsValid m (use_permission pkg permission used_now now ∷ events) v =
    run-IsValid _ events (record_usage-IsValid m pkg permission used_now now v)
run-IsValid m (clean ∷ events) v = run-IsValid (cleanup m) events tt

-- After any calls on a new manager, a record that `get_permission` returns names the package and
-- the permission that were asked for, and has a grant time if its state is GRANTED.
pub get_permission-IsFiled :
    (events : List Event) (pkg permission : String) (r : PermissionRecord)
    → (get_permission pkg permission (run init events)).0 ≡ ok r
    → IsFiled ((pkg, permission), r)
unfolding get_permission
get_permission-IsFiled events pkg permission r h =
    get-AllItems IsFiled (run init events).permissions (pkg, permission) r
      (run-IsValid init events (unfold init in tt)) (ground arith)
