-- ===== src/Android/AppManager/Running.antt =====
-- What a client sees of a manager after any sequence of calls.
use linblock.Prelude.{
  String, ◌≡◌, refl, string_eq, false, List, [], ◌∷◌, ok, err, All, arith, keep, map, Bool-cases,
  if◌then◌else◌, inl, inr,
}
use linblock.Dict.{put-AllItems, get-AllItems, AllItems}
use linblock.Android.AppManager.{
  app_manager_error, AppInfo, AppManager, init, install_app, get_app_info, is_running,
  get_running_apps, cleanup, new_app,
}
use linblock.Android.AppManager.Transitions.{
  Transition, perform, target, with_state, perform_cases, freeze, unfreeze, enable, disable, stop,
}

-- The calls that may change the manager.
pub data Event : Type 0 where
  install : (pkg name now : String) → Event
  transition : Transition → (pkg : String) → Event
  clean : Event

unfoldable pub handle : AppManager → Event → AppManager
handle m (install pkg name now) = (install_app pkg name now m).1
handle m (transition t pkg) = (perform t pkg m).1
handle m clean = cleanup m

unfoldable pub run : AppManager → List Event → AppManager
run m [] = m
run m (event ∷ events) = run (handle m event) events

-- Each record names the package that it is held under, and none is in the state RUNNING.
abbrev IsFiled : String × AppInfo → Type 0
IsFiled (pkg, app) = (app.pkg ≡ pkg) × (is_running app ≡ false)

abbrev IsValid : AppManager → Type 0
IsValid m = AllItems IsFiled m.apps

target-not_running :
    (t : Transition) (app : AppInfo) → is_running (with_state (target t) app) ≡ false
unfolding is_running
target-not_running freeze app = refl
target-not_running unfreeze app = refl
target-not_running enable app = refl
target-not_running disable app = refl
target-not_running stop app = refl

install-IsValid :
    (pkg name now : String) (m : AppManager) → IsValid m → IsValid (install_app pkg name now m).1
unfolding install_app
install-IsValid pkg name now m v = elim (Bool-cases m.initialized) [
  | inl up ↦ rw up (put-AllItems IsFiled m.apps pkg _ v (unfold new_app is_running in (refl, refl)))
  | inr down ↦ rw down v
]

perform-IsValid :
    (t : Transition) (pkg : String) (m : AppManager) → IsValid m → IsValid (perform t pkg m).1
perform-IsValid t pkg m v = elim (perform_cases t pkg m) [
  | inl same ↦ rw same v
  | inr (app, held, moved) ↦ rw moved (
      put-AllItems IsFiled m.apps pkg _ v
        ((get-AllItems IsFiled m.apps pkg app v held).0, target-not_running t app))
]

handle-IsValid : (m : AppManager) (event : Event) → IsValid m → IsValid (handle m event)
unfolding handle cleanup
handle-IsValid m (install pkg name now) v = install-IsValid pkg name now m v
handle-IsValid m (transition t pkg) v = perform-IsValid t pkg m v
handle-IsValid m clean v = tt

run-IsValid : (m : AppManager) (events : List Event) → IsValid m → IsValid (run m events)
unfolding run
run-IsValid m [] v = v
run-IsValid m (event ∷ events) v = run-IsValid (handle m event) events (handle-IsValid m event v)

reached : (events : List Event) → IsValid (run init events)
reached events = run-IsValid init events (unfold init in tt)

-- After any calls on a new manager, a record that `get_app_info` returns names the package that
-- was asked for.
pub get_app_info-pkg :
    (events : List Event) (pkg : String) (app : AppInfo)
    → (get_app_info pkg (run init events)).0 ≡ ok app
    → app.pkg ≡ pkg
unfolding get_app_info
get_app_info-pkg events pkg app h =
    (get-AllItems IsFiled (run init events).apps pkg app (reached events) (ground arith)).0

not_running-values :
    (entries : List (String × AppInfo))
    → All IsFiled entries
    → keep is_running (map (λ kv. kv.1) entries) ≡ []
not_running-values [] h = refl
not_running-values ((pkg, app) ∷ entries) h = ground (arith, not_running-values entries h.1)

-- After any calls on a new manager `get_running_apps` finds no application: it returns the empty
-- list, or raises on a manager that was cleaned up. No call puts an application into the state
-- RUNNING.
pub get_running_apps-empty :
    (events : List Event)
    → (get_running_apps (run init events)).0
      ≡ (if (run init events).initialized then ok [] else err app_manager_error)
unfolding get_running_apps
get_running_apps-empty events =
    let none_runs = not_running-values (run init events).apps.entries (reached events) in
    ground (arith, none_runs)
