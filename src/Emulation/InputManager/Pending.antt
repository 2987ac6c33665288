-- ===== src/Emulation/InputManager/Pending.antt =====
-- Which input events are handed out, and in which order.
use linblock.Prelude.{
  ℤ, pos, Bool, true, false, ◌≡◌, refl, sym, ap, ◌∙◌, List, [], ◌∷◌, ◌++◌, append_assoc, append-nil,
}
use linblock.Emulation.InputManager.{
  InputEventType, scroll, InputEvent, InputManager, init, send_touch, send_key, send_scroll,
  get_pending_events, cleanup,
}

pub data Event : Type 0 where
  touch : (x y : ℤ) → InputEventType → Event
  key : (keycode : ℤ) → InputEventType → Event
  wheel : (x y dx dy : ℤ) → Event
  drain : Event
  clean : Event

-- The manager, and all that was returned by the calls of `get_pending_events`, one after another.
pub handle : InputManager × List InputEvent → Event → InputManager × List InputEvent
handle (m, got) (touch x y type) = (send_touch x y type m, got)
handle (m, got) (key keycode type) = (send_key keycode type m, got)
handle (m, got) (wheel x y dx dy) = (send_scroll x y dx dy m, got)
handle (m, got) clean = (cleanup m, got)
handle (m, got) drain = let (events, m') = get_pending_events m in (m', got ++ events)

pub run : InputManager × List InputEvent → List Event → InputManager × List InputEvent
run s [] = s
run s (event ∷ events) = run (handle s event) events

abbrev event_of : InputEventType → ℤ → ℤ → ℤ → InputEvent
event_of type x y keycode = record { event_type = type; x = x; y = y; keycode = keycode }

-- Whether what is pending before these calls is discarded: a `cleanup` comes before the first
-- `get_pending_events`.
abbrev pub discarded : List Event → Bool
discarded [] = false
discarded (drain ∷ events) = false
discarded (clean ∷ events) = true
discarded (touch x y type ∷ events) = discarded events
discarded (key keycode type ∷ events) = discarded events
discarded (wheel x y dx dy ∷ events) = discarded events

abbrev pub unless : Bool → List InputEvent → List InputEvent
unless true l = []
unless false l = l

-- The events that the calls inject and no `cleanup` discards. Of a scroll only the place is kept.
abbrev pub sent : List Event → List InputEvent
sent [] = []
sent (touch x y type ∷ events) =
    unless (discarded events) (event_of type x y (pos 0) ∷ []) ++ sent events
sent (key keycode type ∷ events) =
    unless (discarded events) (event_of type (pos 0) (pos 0) keycode ∷ []) ++ sent events
sent (wheel x y dx dy ∷ events) =
    unless (discarded events) (event_of scroll x y (pos 0) ∷ []) ++ sent events
sent (drain ∷ events) = sent events
sent (clean ∷ events) = sent events

abbrev all_of : InputManager × List InputEvent → List InputEvent
all_of (m, got) = got ++ m.events

unless-nil : (b : Bool) (got : List InputEvent) → got ++ unless b [] ≡ got
unless-nil true got = append-nil got
unless-nil false got = append-nil got

snoc :
    (b : Bool) (got held rest : List InputEvent) (e : InputEvent)
    → (got ++ unless b (held ++ e ∷ [])) ++ rest
      ≡ (got ++ unless b held) ++ (unless b (e ∷ []) ++ rest)
snoc true got held rest e = refl
snoc false got held rest e = simp append_assoc refl

run-sent :
    (m : InputManager) (got : List InputEvent) (events : List Event)
    → all_of (run (m, got) events) ≡ (got ++ unless (discarded events) m.events) ++ sent events
unfolding run handle send_touch send_key send_scroll get_pending_events cleanup
run-sent m got [] = sym (append-nil (got ++ m.events))
run-sent m got (touch x y type ∷ events) =
    run-sent _ got events
    ∙ snoc (discarded events) got m.events (sent events) (event_of type x y (pos 0))
run-sent m got (key keycode type ∷ events) =
    run-sent _ got events
    ∙ snoc (discarded events) got m.events (sent events) (event_of type (pos 0) (pos 0) keycode)
run-sent m got (wheel x y dx dy ∷ events) =
    run-sent _ got events
    ∙ snoc (discarded events) got m.events (sent events) (event_of scroll x y (pos 0))
run-sent m got (drain ∷ events) =
    run-sent _ (got ++ m.events) events
    ∙ ap (λ l. l ++ sent events) (unless-nil (discarded events) (got ++ m.events))
run-sent m got (clean ∷ events) =
    run-sent _ got events
    ∙ ap (λ l. l ++ sent events) (unless-nil (discarded events) got ∙ sym (append-nil got))

-- Whatever calls inject events into a new manager, take the pending ones out and clean up, what was
-- taken out, with the pending events behind it, is what was injected, in order, but for what a
-- cleanup has found pending; and of a scroll its place, without the distances that it was given.
pub get_pending_events_lem :
    (events : List Event)
    → (run (init, []) events).1 ++ (run (init, []) events).0.events ≡ sent events
get_pending_events_lem events =
    let e : ([] ++ unless (discarded events) init.events) ++ sent events ≡ sent events =
      unfold init in ap (λ l. l ++ sent events) (unless-nil (discarded events) []) in
    run-sent init [] events ∙ e
