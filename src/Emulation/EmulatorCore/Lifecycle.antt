-- ===== src/Emulation/EmulatorCore/Lifecycle.antt =====
-- The life cycle of the default core.
use linblock.Prelude.{
  String, ◌≡◌, refl, ap, ◌∙◌, Bool, true, false, not, List, [], ◌∷◌, Result, ok, err,
}
use linblock.Emulation.EmulatorCore.{
  Error, VmState, stopped, running, paused, VmConfig, EmulatorCore, new_core, initialize, start,
  stop, pause, resume, reset, save_snapshot, load_snapshot, cleanup,
}

-- The calls of a client.
pub data Event : Type 0 where
  call_initialize call_start call_stop call_pause call_resume call_reset call_cleanup : Event
  call_save call_load : String → Event

unfoldable pub handle : EmulatorCore → Event → EmulatorCore
handle c call_initialize = initialize c
handle c call_start = (start c).1
handle c call_stop = (stop c).1
handle c call_pause = (pause c).1
handle c call_resume = (resume c).1
handle c call_reset = reset c
handle c call_cleanup = cleanup c
handle c (call_save name) = (save_snapshot name c).1
handle c (call_load name) = (load_snapshot name c).1

unfoldable pub run : EmulatorCore → List Event → EmulatorCore
run c [] = c
run c (event ∷ events) = run (handle c event) events

-- What a core is to its clients.
pub data Phase : Type 0 where
  raw idle live held : Phase

-- The life cycle that is meant: what each call makes of each phase.
abbrev pub step : Phase → Event → Phase
step raw call_initialize = idle
step raw event = raw
step idle call_start = live
step idle call_cleanup = raw
step idle event = idle
step live call_stop = idle
step live call_pause = held
step live call_cleanup = raw
step live event = live
step held call_start = live
step held call_resume = live
step held call_reset = live
step held call_stop = idle
step held call_cleanup = raw
step held event = held

abbrev pub steps : Phase → List Event → Phase
steps p [] = p
steps p (event ∷ events) = steps (step p event) events

abbrev pub is_up : Phase → Bool
is_up live = true
is_up held = true
is_up p = false

abbrev pub is_live : Phase → Bool
is_live live = true
is_live p = false

abbrev pub is_held : Phase → Bool
is_held held = true
is_held p = false

-- The calls that go through, where the others raise.
abbrev pub accepts : Phase → Event → Bool
accepts raw call_start = false
accepts raw (call_load name) = false
accepts live call_start = false
accepts p call_stop = is_up p
accepts p call_pause = is_live p
accepts p call_resume = is_held p
accepts p (call_save name) = is_up p
accepts p event = true

abbrev pub state_of : Phase → VmState
state_of raw = stopped
state_of idle = stopped
state_of live = running
state_of held = paused

abbrev pub is_raw : Phase → Bool
is_raw raw = true
is_raw p = false

abbrev is_ok : {A : Type 0} → Result Error A → Bool
is_ok (ok a) = true
is_ok (err e) = false

-- Whether a call returns.
abbrev pub returns : EmulatorCore → Event → Bool
returns c call_start = is_ok (start c).0
returns c call_stop = is_ok (stop c).0
returns c call_pause = is_ok (pause c).0
returns c call_resume = is_ok (resume c).0
returns c (call_save name) = is_ok (save_snapshot name c).0
returns c (call_load name) = is_ok (load_snapshot name c).0
returns c event = true

-- A core in a phase.
abbrev pub core : VmConfig → Phase → EmulatorCore
core config p = record { config = config; state = state_of p; initialized = not (is_raw p) }

handle-core :
    (config : VmConfig) (p : Phase) (event : Event)
    → handle (core config p) event ≡ core config (step p event)
unfolding handle initialize start stop pause resume reset save_snapshot load_snapshot cleanup
handle-core config raw call_initialize = refl
handle-core config raw call_start = refl
handle-core config raw call_stop = refl
handle-core config raw call_pause = refl
handle-core config raw call_resume = refl
handle-core config raw call_reset = refl
handle-core config raw call_cleanup = refl
handle-core config raw (call_save name) = refl
handle-core config raw (call_load name) = refl
handle-core config idle call_initialize = refl
handle-core config idle call_start = refl
handle-core config idle call_stop = refl
handle-core config idle call_pause = refl
handle-core config idle call_resume = refl
handle-core config idle call_reset = refl
handle-core config idle call_cleanup = refl
handle-core config idle (call_save name) = refl
handle-core config idle (call_load name) = refl
handle-core config live call_initialize = refl
handle-core config live call_start = refl
handle-core config live call_stop = refl
handle-core config live call_pause = refl
handle-core config live call_resume = refl
handle-core config live call_reset = refl
handle-core config live call_cleanup = refl
handle-core config live (call_save name) = refl
handle-core config live (call_load name) = refl
handle-core config held call_initialize = refl
handle-core config held call_start = refl
handle-core config held call_stop = refl
handle-core config held call_pause = refl
handle-core config held call_resume = refl
handle-core config held call_reset = refl
handle-core config held call_cleanup = refl
handle-core config held (call_save name) = refl
handle-core config held (call_load name) = refl

returns-core :
    (config : VmConfig) (p : Phase) (event : Event)
    → returns (core config p) event ≡ accepts p event
unfolding start stop pause resume save_snapshot load_snapshot
returns-core config raw call_initialize = refl
returns-core config raw call_start = refl
returns-core config raw call_stop = refl
returns-core config raw call_pause = refl
returns-core config raw call_resume = refl
returns-core config raw call_reset = refl
returns-core config raw call_cleanup = refl
returns-core config raw (call_save name) = refl
returns-core config raw (call_load name) = refl
returns-core config idle call_initialize = refl
returns-core config idle call_start = refl
returns-core config idle call_stop = refl
returns-core config idle call_pause = refl
returns-core config idle call_resume = refl
returns-core config idle call_reset = refl
returns-core config idle call_cleanup = refl
returns-core config idle (call_save name) = refl
returns-core config idle (call_load name) = refl
returns-core config live call_initialize = refl
returns-core config live call_start = refl
returns-core config live call_stop = refl
returns-core config live call_pause = refl
returns-core config live call_resume = refl
returns-core config live call_reset = refl
returns-core config live call_cleanup = refl
returns-core config live (call_save name) = refl
returns-core config live (call_load name) = refl
returns-core config held call_initialize = refl
returns-core config held call_start = refl
returns-core config held call_stop = refl
returns-core config held call_pause = refl
returns-core config held call_resume = refl
returns-core config held call_reset = refl
returns-core config held call_cleanup = refl
returns-core config held (call_save name) = refl
returns-core config held (call_load name) = refl

run-core :
    (config : VmConfig) (p : Phase) (events : List Event)
    → run (core config p) events ≡ core config (steps p events)
unfolding run
run-core config p [] = refl
run-core config p (event ∷ events) =
    ap (λ c. run c events) (handle-core config p event) ∙ run-core config (step p event) events

-- After any calls on a new core it is a core of the phase that the life cycle says: not initialized
-- and stopped, or initialized and stopped, running or paused; and a further call raises exactly where
-- the life cycle does not accept it.
pub run-steps :
    (config : VmConfig) (events : List Event) (event : Event)
    → (run (new_core config) events ≡ core config (steps raw events))
      × (returns (run (new_core config) events) event ≡ accepts (steps raw events) event)
run-steps config events event =
    let new : new_core config ≡ core config raw = unfold new_core in refl in
    let e : run (new_core config) events ≡ core config (steps raw events) =
      ap (λ c. run c events) new ∙ run-core config raw events in
    (e, ap (λ c. returns c event) e ∙ returns-core config (steps raw events) event)
