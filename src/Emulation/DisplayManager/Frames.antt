-- ===== src/Emulation/DisplayManager/Frames.antt =====
-- The frames that are counted are those that were returned since the display was configured.
use linblock.Prelude.{
  ℕ, ◌+◌, ◌-◌, ◌≡◌, refl, ap, Option, none, some, List, [], ◌∷◌, if◌then◌else◌, nat_beq, leb, arith,
  is_some, Option-cases, inl, inr,
}
use linblock.Emulation.DisplayManager.{
  DisplayConfig, DisplayManager, init, configure, get_frame, set_scale, get_fps, cleanup,
}

pub data Event (S : Type 0) : Type 0 where
  configuring : DisplayConfig S → (now : ℕ) → Event S
  frame : (now : ℕ) → Event S
  scaling : S → Event S
  clean : Event S

module _ {S : Type 0} (scaled : ℕ → S → ℕ) where
  pub handle : DisplayManager S → Event S → DisplayManager S
  handle m (configuring c now) = configure c now m
  handle m (frame now) = (get_frame scaled now m).1
  handle m (scaling s) = (set_scale s m).1
  handle m clean = cleanup m

  pub run : DisplayManager S → List (Event S) → DisplayManager S
  run m [] = m
  run m (event ∷ events) = run (handle m event) events

-- When the display was last configured, if it is, and the frames asked for since then.
abbrev pub tally : {S : Type 0} → Option ℕ → ℕ → List (Event S) → Option ℕ × ℕ
tally since n [] = (since, n)
tally since n (configuring c now ∷ events) = tally (some now) 0 events
tally none n (frame now ∷ events) = tally none n events
tally (some start) n (frame now ∷ events) = tally (some start) (n + 1) events
tally since n (scaling s ∷ events) = tally since n events
tally since n (clean ∷ events) = tally none 0 events

-- Frames over the ticks that have gone by.
abbrev pub rate : ℕ → Option ℕ × ℕ → Option (ℕ × ℕ)
rate now (none, n) = none
rate now (some start, n) =
    if nat_beq n 0 then none else if leb now start then none else some (n, now - start)

module _ {S : Type 0} (scaled : ℕ → S → ℕ) where
  record IsTallied (m : DisplayManager S) (since : Option ℕ) (n : ℕ) : Type 0 where
    start : m.start_time ≡ since
    count : m.frame_count ≡ n
    configured : is_some m.display_config ≡ is_some since

  run-IsTallied :
      (m : DisplayManager S) (since : Option ℕ) (n : ℕ) (events : List (Event S))
      → IsTallied m since n
      → IsTallied (run scaled m events) (tally since n events).0 (tally since n events).1
  unfolding run handle configure get_frame set_scale cleanup
  run-IsTallied m since n [] v = v
  run-IsTallied m since n (configuring c now ∷ events) v =
      run-IsTallied (configure c now m) (some now) 0 events
        (record { start = refl; count = refl; configured = refl })
  run-IsTallied m none n (frame now ∷ events) v =
      run-IsTallied (get_frame scaled now m).1 none n events (elim (Option-cases m.display_config) [
        | inl gone ↦ simp (gone, get_frame) v
        | inr (c, held) ↦ absurd (ground (arith, v.configured, held))
      ])
  run-IsTallied m (some at) n (frame now ∷ events) v =
      run-IsTallied (get_frame scaled now m).1 (some at) (n + 1) events
        (elim (Option-cases m.display_config) [
          | inl gone ↦ absurd (ground (arith, v.configured, gone))
          | inr (c, held) ↦
              simp (held, get_frame)
                (record { start = v.start; count = ap (λ k. k + 1) v.count; configured = refl })
        ])
  run-IsTallied m since n (scaling s ∷ events) v =
      run-IsTallied (set_scale s m).1 since n events (elim (Option-cases m.display_config) [
        | inl gone ↦ simp (gone, set_scale) v
        | inr (c, held) ↦
            simp (held, set_scale)
              (record {
                start = v.start;
                count = v.count;
                configured = ground (arith, v.configured, held);
              })
      ])
  run-IsTallied m since n (clean ∷ events) v =
      run-IsTallied (cleanup m) none 0 events
        (record { start = refl; count = refl; configured = refl })

  get_fps-rate :
      (now : ℕ) (m : DisplayManager S) (since : Option ℕ) (n : ℕ)
      → IsTallied m since n
      → get_fps now m ≡ rate now (since, n)
  unfolding get_fps
  get_fps-rate now m none n v = rw v.start refl
  get_fps-rate now m (some at) n v = rw (v.start, v.count) refl

  -- After any calls on a new manager, `get_fps` is the number of frames that were returned since
  -- the display was last configured, over the time since then; zero where it is not configured,
  -- where there was no frame, and where no time has gone by.
  pub get_fps_lem :
      (events : List (Event S)) (now : ℕ)
      → get_fps now (run scaled init events) ≡ rate now (tally none 0 events)
  get_fps_lem events now =
      get_fps-rate now (run scaled init events) (tally none 0 events).0 (tally none 0 events).1 (
        run-IsTallied init none 0 events
          (unfold init in record { start = refl; count = refl; configured = refl }))
