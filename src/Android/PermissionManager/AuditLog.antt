-- ===== src/Android/PermissionManager/AuditLog.antt =====
-- The audit log, most recent entry first.
use linblock.Prelude.{
  ℕ, suc, String, ◌≡◌, refl, ap, string_eq, pair_eq, ◌==◌, Bool, true, if◌then◌else◌, Bool-cases,
  Option-cases, inl, inr, Option, none, some, List, [], ◌∷◌, ◌++◌, ok, err, Result, keep, pos,
  keep-append, append-nil, ◌⊎◌, reverse,
}
use mathlib.Core.List.{reverse-append}
use linblock.Dict
use linblock.Android.PermissionManager.{
  Error, permission_not_found, PermissionState, AuditEntry, PermissionManager, of_package,
  get_audit_log, state_value, set_permission, record_usage,
}

abbrev pub entry_of : String → String → String → String → String → AuditEntry
entry_of pkg permission action result now = record {
  timestamp = now;
  pkg = pkg;
  permission = permission;
  action = action;
  result = result;
  source = "runtime";
}

-- The entries that a call returned; none where it raised.
abbrev pub returned : Result Error (List AuditEntry) → List AuditEntry
returned (ok entries) = entries
returned (err e) = []

abbrev matches : Option String → String → Bool
matches none pkg = true
matches (some p) pkg = pkg == p

of_package-append :
    (filter_by : Option String) (log : List AuditEntry) (entry : AuditEntry)
    → reverse (of_package filter_by (log ++ entry ∷ [])) ≡ (
        if matches filter_by entry.pkg
        then entry ∷ reverse (of_package filter_by log)
        else reverse (of_package filter_by log))
of_package-append none log entry = reverse-append log (entry ∷ [])
of_package-append (some p) log entry = rw keep-append (elim (Bool-cases (entry.pkg == p)) [
  | inl same ↦ rw same (reverse-append (keep (λ e. e.pkg == p) log) (entry ∷ []))
  | inr apart ↦ rw apart (ap reverse (append-nil (keep (λ e. e.pkg == p) log)))
])

-- What `get_audit_log` shows after one more entry.
abbrev pub one_more : Option String → ℕ → AuditEntry → PermissionManager → List AuditEntry
one_more filter_by n entry m =
    if matches filter_by entry.pkg
    then entry ∷ returned (get_audit_log filter_by (pos n) m).0
    else returned (get_audit_log filter_by (pos (suc n)) m).0

get_audit_log-append :
    (filter_by : Option String) (n : ℕ) (entry : AuditEntry) (m m' : PermissionManager)
    → m.initialized ≡ true
    → m'.initialized ≡ true
    → m'.audit_log ≡ m.audit_log ++ entry ∷ []
    → returned (get_audit_log filter_by (pos (suc n)) m').0 ≡ one_more filter_by n entry m
unfolding get_audit_log
get_audit_log-append filter_by n entry m m' up up' grown =
    rw (up, up', grown)
      (rw of_package-append (elim (Bool-cases (matches filter_by entry.pkg)) [
        | inl same ↦ rw same refl
        | inr apart ↦ rw apart refl
      ]))

-- After `set_permission` on a live manager, the log that `get_audit_log` returns begins with the
-- entry of that call, if it is of the package asked for, before the older ones; the limit counts it.
pub get_audit_log-set_permission :
    (m : PermissionManager) (pkg permission : String) (state : PermissionState)
    (grant_now now : String) (filter_by : Option String) (n : ℕ)
    → m.initialized ≡ true
    → returned
        (get_audit_log filter_by
          (pos (suc n))
          (set_permission pkg permission state grant_now now m).1).0
      ≡ one_more filter_by n (entry_of pkg permission "set_permission" (state_value state) now) m
unfolding set_permission
get_audit_log-set_permission m pkg permission state grant_now now filter_by n up =
    get_audit_log-append filter_by n _ m _ up (rw up refl) (rw up refl)

-- `record_usage` on a live manager raises and changes nothing where there is no record, and
-- otherwise puts its entry in front of what `get_audit_log` returns.
pub record_usage-audited :
    (m : PermissionManager) (pkg permission used_now now : String) (filter_by : Option String)
    (n : ℕ)
    → m.initialized ≡ true
    → (Dict.get m.permissions (pkg, permission) ≡ none)
        × (record_usage pkg permission used_now now m
            ≡ (err (permission_not_found pkg permission), m))
      ⊎ ((record_usage pkg permission used_now now m).0 ≡ ok tt)
        × (returned
              (get_audit_log filter_by
                (pos (suc n))
                (record_usage pkg permission used_now now m).1).0
            ≡ one_more filter_by n (entry_of pkg permission "record_usage" "ok" now) m)
unfolding record_usage
record_usage-audited m pkg permission used_now now filter_by n up =
    elim (Option-cases (Dict.get m.permissions (pkg, permission))) [
      | inl missing ↦ inl (missing, rw (up, missing) refl)
      | inr (r, held) ↦ inr (
        rw (up, held) refl,
        simp (up, held) (get_audit_log-append filter_by n _ m _ up refl refl),
      )
    ]
