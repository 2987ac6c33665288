-- ===== src/Android/AppManager/Transitions.antt =====
-- The calls that change an application's state, on every branch.
use linblock.Prelude.{
  ◌⊎◌, Bool-cases, String, ◌≡◌, refl, string_eq, ◌>>=◌, ◌>>◌, ◌&&◌, Option, some, Result, ok, err,
  ◌==◌, ==_iff, arith, if◌then◌else◌, Option-cases, inl, inr,
}
use mathlib.Core.Option
use linblock.Dict
use linblock.Dict.{get-put}
use linblock.Android.AppManager.{
  Error, app_manager_error, app_not_found, AppState, installed, stopped, frozen, disabled, AppInfo,
  AppManager, Call, require_initialized, require_app, assign_state, freeze_app, unfreeze_app,
  enable_app, disable_app, force_stop,
}

pub data Transition : Type 0 where
  freeze unfreeze enable disable stop : Transition

unfoldable pub perform : Transition → String → Call Unit
perform freeze = freeze_app
perform unfreeze = unfreeze_app
perform enable = enable_app
perform disable = disable_app
perform stop = force_stop

-- The state that the call leaves the application in.
abbrev pub target : Transition → AppState
target freeze = frozen
target unfreeze = installed
target enable = installed
target disable = disabled
target stop = stopped

-- What a transition returns: an error before anything else on a manager that was cleaned up,
-- then an error that names a package which is not installed.
abbrev pub answer : AppManager → String → Result Error (Unit {0})
answer m pkg =
    if m.initialized
    then (if Dict.contains m.apps pkg then ok tt else err (app_not_found pkg))
    else err app_manager_error

abbrev pub with_state : AppState → AppInfo → AppInfo
with_state s app = record app { state = s }

-- The record of `other` after a transition of `pkg`.
abbrev pub view_after : AppState → String → AppManager → String → Option AppInfo
view_after s pkg m other =
    if m.initialized && pkg == other
    then Option.map (with_state s) (Dict.get m.apps other)
    else Dict.get m.apps other

set_state : AppState → String → Call Unit
unfolding require_initialized require_app assign_state
set_state s pkg = do require_initialized; app ← require_app pkg; assign_state pkg app s

perform-eq-set_state : (t : Transition) (pkg : String) → perform t pkg ≡ set_state (target t) pkg
unfolding perform set_state freeze_app unfreeze_app enable_app disable_app force_stop
perform-eq-set_state freeze pkg = refl
perform-eq-set_state unfreeze pkg = refl
perform-eq-set_state enable pkg = refl
perform-eq-set_state disable pkg = refl
perform-eq-set_state stop pkg = refl

-- A transition leaves the manager alone, or puts the new state into a record that is there.
pub perform_cases :
    (t : Transition) (pkg : String) (m : AppManager)
    → ((perform t pkg m).1 ≡ m)
      ⊎ ((app : AppInfo) × (Dict.get m.apps pkg ≡ some app)
          × ((perform t pkg m).1
              ≡ record m { apps = Dict.put m.apps pkg (with_state (target t) app) }))
unfolding set_state
perform_cases t pkg m = rw (perform-eq-set_state t pkg) (elim (Bool-cases m.initialized) [
  | inl up ↦ elim (Option-cases (Dict.get m.apps pkg)) [
    | inl missing ↦ inl (ground arith)
    | inr (app, held) ↦ inr (app, held, ground arith)
  ]
  | inr down ↦ inl (ground arith)
])

set_state-answer :
    (s : AppState) (pkg : String) (m : AppManager) → (set_state s pkg m).0 ≡ answer m pkg
unfolding set_state
set_state-answer s pkg m = ground arith

set_state-view :
    (s : AppState) (pkg : String) (m : AppManager) (other : String)
    → Dict.get (set_state s pkg m).1.apps other ≡ view_after s pkg m other
unfolding set_state
set_state-view s pkg m other = elim (Option-cases (Dict.get m.apps pkg)) [
  | inl missing ↦ ground (arith, ==_iff pkg other)
  | inr (app, held) ↦ ground (arith, get-put m.apps pkg other (with_state s app), ==_iff pkg other)
]

-- Each of the five transitions returns what `answer` says, and changes no record but that of its
-- package, of which it changes the state alone. On a manager that was cleaned up, or for a package
-- that is not installed, it changes no record.
pub perform_lem :
    (t : Transition) (pkg : String) (m : AppManager) (other : String)
    → ((perform t pkg m).0 ≡ answer m pkg)
      × (Dict.get (perform t pkg m).1.apps other ≡ view_after (target t) pkg m other)
perform_lem t pkg m other =
    rw (perform-eq-set_state t pkg)
      (set_state-answer (target t) pkg m, set_state-view (target t) pkg m other)
