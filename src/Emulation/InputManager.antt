-- ===== src/Emulation/InputManager.antt =====
-- src/modules/emulation/input_manager/interface.py: `DefaultInputManager`. The field `timestamp`,
-- which the code never sets, is left out.
pub mod Pending
use linblock.Prelude.{ℤ, pos, List, [], ◌∷◌, ◌++◌}

pub data InputEventType : Type 0 where
  touch_down touch_up touch_move key_down key_up scroll : InputEventType

pub record InputEvent : Type 0 where
  pub event_type : InputEventType
  pub x : ℤ
  pub y : ℤ
  pub keycode : ℤ

pub record InputManager : Type 0 where
  pub events : List InputEvent

unfoldable pub init : InputManager
init = record { events = [] }

abbrev append : InputEvent → InputManager → InputManager
append event m = record { events = m.events ++ event ∷ [] }

pub send_touch : ℤ → ℤ → InputEventType → InputManager → InputManager
send_touch x y event_type =
    append (record { event_type = event_type; x = x; y = y; keycode = pos 0 })

pub send_key : ℤ → InputEventType → InputManager → InputManager
send_key keycode event_type =
    append (record { event_type = event_type; x = pos 0; y = pos 0; keycode = keycode })

-- The distances `dx` and `dy` are not kept.
pub send_scroll : ℤ → ℤ → ℤ → ℤ → InputManager → InputManager
send_scroll x y dx dy = append (record { event_type = scroll; x = x; y = y; keycode = pos 0 })

pub get_pending_events : InputManager → List InputEvent × InputManager
get_pending_events m = (m.events, record { events = [] })

pub cleanup : InputManager → InputManager
cleanup m = record { events = [] }
