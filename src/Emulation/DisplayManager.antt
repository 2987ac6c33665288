-- ===== src/Emulation/DisplayManager.antt =====
-- src/modules/emulation/display_manager/interface.py: `DefaultDisplayManager`. A scale is a value of
-- a parameter type, with `scaled n s` for `int(n * s)`; the clock counts in ticks, and a rate is
-- the number of frames and the ticks that they took.
pub mod Frames
use linblock.Bytes.{zeros}
use linblock.Prelude.{
  ℕ, zero, suc, ◌+◌, ◌-◌, ◌*◌, Option, none, some, List, [], ◌∷◌, Result, ok, err, Method, Bool,
  true, false, if◌then◌else◌, nat_beq, leb,
}

pub data Error : Type 0 where
  display_not_configured : Error

pub record DisplayConfig (S : Type 0) : Type 0 where
  pub width : ℕ
  pub height : ℕ
  pub scale : S
  pub fps_target : ℕ

pub record FrameData : Type 0 where
  pub width : ℕ
  pub height : ℕ
  pub pixels : List ℕ
  pub timestamp : ℕ

pub record DisplayManager (S : Type 0) : Type 0 where
  pub display_config : Option (DisplayConfig S)
  pub frame_count : ℕ
  pub start_time : Option ℕ

module _ {S : Type 0} where
  unfoldable pub init : DisplayManager S
  init = record { display_config = none; frame_count = 0; start_time = none }

  pub configure : DisplayConfig S → ℕ → DisplayManager S → DisplayManager S
  configure display_config now m = record {
    display_config = some display_config;
    frame_count = 0;
    start_time = some now;
  }

  pub get_frame : (ℕ → S → ℕ) → ℕ → DisplayManager S → Option FrameData × DisplayManager S
  get_frame scaled now m = elim m.display_config [
    | none ↦ (none, m)
    | some c ↦
        let w = scaled c.width c.scale in
        let h = scaled c.height c.scale in
        let frame : FrameData = record {
          width = w;
          height = h;
          pixels = zeros (w * h * 4);
          timestamp = now;
        } in
        (some frame, record m { frame_count = m.frame_count + 1 })
  ]

  get_resolution : Method Error (DisplayManager S) (ℕ × ℕ)
  get_resolution m = elim m.display_config [
    | none ↦ (err display_not_configured, m)
    | some c ↦ (ok (c.width, c.height), m)
  ]

  pub set_scale : S → Method Error (DisplayManager S) Unit
  set_scale scale m = elim m.display_config [
    | none ↦ (err display_not_configured, m)
    | some c ↦ (ok tt, record m { display_config = some (record c { scale = scale }) })
  ]

  -- None stands for 0.0.
  pub get_fps : ℕ → DisplayManager S → Option (ℕ × ℕ)
  get_fps now m = elim m.start_time [
    | none ↦ none
    | some start ↦
        if nat_beq m.frame_count 0
        then none
        else if leb now start
        then none
        else some (m.frame_count, now - start)
  ]

  pub cleanup : DisplayManager S → DisplayManager S
  cleanup m = record { display_config = none; frame_count = 0; start_time = none }
