-- ===== src/Emulation/DeviceManager/Registry.antt =====
-- The registry of devices against a function from names to devices.
use linblock.Prelude.{
  String, string_eq, ◌==◌, ==_iff, ◌≡◌, refl, true, false, Option, none, some, List, [], ◌∷◌,
  Result, ok, err, if◌then◌else◌, arith, Option-cases, inl, inr, ap, sym, ◌∙◌,
}
use mathlib.Core.Option
use linblock.Dict
use linblock.Dict.{get-put, get-remove, get-empty, get-map_values}
use linblock.Emulation.DeviceManager.{
  Error, device_not_found, DeviceType, DeviceInfo, DeviceManager, init, register_device,
  unregister_device, get_device, initialize_all, with_initialized, reset_device, cleanup,
}

-- The calls that may change the manager.
pub data Event : Type 0 where
  register : String → DeviceType → Event
  unregister : String → Event
  initialize : Event
  reset : String → Event
  clean : Event

pub handle : DeviceManager → Event → DeviceManager
handle m (register name type) = (register_device name type m).1
handle m (unregister name) = (unregister_device name m).1
handle m initialize = initialize_all m
handle m (reset name) = (reset_device name m).1
handle m clean = cleanup m

pub run : DeviceManager → List Event → DeviceManager
run m [] = m
run m (event ∷ events) = run (handle m event) events

-- The registry as a function: what is registered under a name.
abbrev pub Registry : Type 0
Registry = String → Option DeviceInfo

abbrev new_device : String → DeviceType → DeviceInfo
new_device name type = record { name = name; device_type = type; initialized = false }

abbrev or_new : String → DeviceType → Option DeviceInfo → Option DeviceInfo
or_new name type none = some (new_device name type)
or_new name type (some old) = some old

-- What each call makes of the function.
abbrev pub step : Registry → Event → Registry
step r (register name type) other = if name == other then or_new name type (r other) else r other
step r (unregister name) other = if name == other then none else r other
step r initialize other = Option.map (with_initialized true) (r other)
step r (reset name) other =
    if name == other then Option.map (with_initialized false) (r other) else r other
step r clean other = none

abbrev pub steps : Registry → List Event → Registry
steps r [] = r
steps r (event ∷ events) = steps (step r event) events

handle-step :
    (m : DeviceManager) (r : Registry) (event : Event)
    → ((name : String) → Dict.get m.devices name ≡ r name)
    → (other : String) → Dict.get (handle m event).devices other ≡ step r event other
unfolding handle register_device unregister_device initialize_all reset_device cleanup
handle-step m r (register name type) h other = elim (Option-cases (Dict.get m.devices name)) [
  | inl gone ↦
      rw (gone, handle)
        (ground (
          arith,
          get-put m.devices name other (new_device name type),
          ==_iff name other,
          h other,
          h name,
        ))
  | inr (info, held) ↦ rw (held, handle) (ground (arith, ==_iff name other, h other, h name))
]
handle-step m r (unregister name) h other = elim (Option-cases (Dict.get m.devices name)) [
  | inl gone ↦ rw (gone, handle) (ground (arith, ==_iff name other, h other, h name))
  | inr (info, held) ↦ rw (held, handle) (ground (arith, get-remove m.devices name other, h other))
]
handle-step m r initialize h other =
    get-map_values (with_initialized true) m.devices other
    ∙ ap (Option.map (with_initialized true)) (h other)
handle-step m r (reset name) h other = elim (Option-cases (Dict.get m.devices name)) [
  | inl gone ↦ rw (gone, handle) (ground (arith, ==_iff name other, h other, h name))
  | inr (info, held) ↦
      rw (held, handle)
        (ground (
          arith,
          get-put m.devices name other (with_initialized false info),
          ==_iff name other,
          h other,
          h name,
        ))
]
handle-step m r clean h other = get-empty other

run-steps :
    (m : DeviceManager) (r : Registry) (events : List Event)
    → ((name : String) → Dict.get m.devices name ≡ r name)
    → (other : String) → Dict.get (run m events).devices other ≡ steps r events other
unfolding run
run-steps m r [] h other = h other
run-steps m r (event ∷ events) h other =
    run-steps (handle m event) (step r event) events (handle-step m r event h) other

abbrev pub answer : String → Option DeviceInfo → Result Error DeviceInfo
answer name none = err (device_not_found name)
answer name (some info) = ok info

-- After any calls on a new manager, `get_device` answers as the function from names to devices that
-- the calls make step by step of the empty one: a name is registered once until it is unregistered,
-- and the flag of each device follows `initialize_all` and its own resets.
pub get_device_lem :
    (events : List Event) (name : String)
    → (get_device name (run init events)).0 ≡ answer name (steps (λ other. none) events name)
unfolding get_device
get_device_lem events name =
    let e = run-steps init (λ other. none) events (λ other. unfold init in get-empty other) name in
    rw (sym e) (elim (Option-cases (Dict.get (run init events).devices name)) [
      | inl gone ↦ rw (gone, get_device) refl
      | inr (info, held) ↦ rw (held, get_device) refl
    ])
