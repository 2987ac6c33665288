-- ===== src/Emulation/GpuRenderer/FrameSource.antt =====
-- gpu_renderer/gtk_integration.py: `SharedMemoryFrameSource` and `GPURendererDisplayBridge`. The main
-- loop of GTK calls `poll_frame`; the widget is what it has been given. The clock counts in ticks,
-- `second` of them, and a rate is a pair of frames and ticks.
pub mod Stale
use linblock.Prelude.{
  ℕ, ◌+◌, ◌-◌, Bool, true, false, ◌&&◌, not, Option, none, some, List, [], ◌∷◌, ◌++◌, leb, is_some,
  if◌then◌else◌, Result, ok, err,
}
use linblock.Emulation.GpuRenderer.Region.{Shm}
use linblock.Emulation.GpuRenderer.ShmDisplay as Display
use linblock.Emulation.GpuRenderer.ShmDisplay.{
  ShmDisplay, Frame, new_display, Reading, open_region, read_frame,
}

-- `widget` says whether there is one, `frames` what it has been given, and `told` what the callback has.
pub record FrameSource : Type 0 where
  pub shm : Option ShmDisplay
  pub widget : Bool
  pub running : Bool
  pub timeout : Bool
  pub callback : Bool
  pub frames : List Frame
  pub told : List (ℕ × ℕ × ℕ)
  pub last_frame_time : ℕ
  pub frame_count : ℕ
  pub fps : ℕ × ℕ

unfoldable pub new_source : FrameSource
new_source = record {
  shm = none;
  widget = false;
  running = false;
  timeout = false;
  callback = false;
  frames = [];
  told = [];
  last_frame_time = 0;
  frame_count = 0;
  fps = (0, 1);
}

unfoldable pub attach : FrameSource → FrameSource
attach f = record f { widget = true }

set_frame_callback : FrameSource → FrameSource
set_frame_callback f = record f { callback = true }

-- A display that could not be opened is kept.
unfoldable pub opened :
    ℕ
    → FrameSource
    → Result Display.Error (Unit {0}) × (ShmDisplay × Shm)
    → Bool × (FrameSource × Shm)
opened now f (err e, (d, s)) = (false, (record f { shm = some d }, s))
opened now f (ok u, (d, s)) = (
  true,
  (
    record f {
      shm = some d;
      running = true;
      timeout = true;
      last_frame_time = now;
      frame_count = 0;
    },
    s,
  ),
)

unfoldable pub start : ℕ → FrameSource → Shm → Bool × (FrameSource × Shm)
unfolding opened open_region new_display
start now f s = if f.running then (true, (f, s)) else opened now f (open_region new_display s)

unfoldable pub clean : Option ShmDisplay → Shm → Shm
unfolding Display.cleanup
clean none s = s
clean (some d) s = (Display.cleanup d s).1

unfoldable pub stop : FrameSource → Shm → FrameSource × Shm
unfolding clean
stop f s = (record f { running = false; timeout = false; shm = none }, clean f.shm s)

-- The rate, over a second at least.
unfoldable pub count_frame : (second now : ℕ) → FrameSource → FrameSource
count_frame second now f =
    let count = f.frame_count + 1 in
    let elapsed = now - f.last_frame_time in
    if leb second elapsed
    then record f { fps = (count, elapsed); frame_count = 0; last_frame_time = now }
    else record f { frame_count = count }

unfoldable pub tell : Frame → FrameSource → FrameSource
tell frame f =
    if f.callback
    then record f { told = f.told ++ (frame.frame_number, frame.width, frame.height) ∷ [] }
    else f

-- A widget that raises ends the poll of this frame.
unfoldable pub deliver : Bool → (second now : ℕ) → Frame → FrameSource → FrameSource
unfolding count_frame tell
deliver accepts second now frame f =
    if accepts
    then tell frame (count_frame second now (record f { frames = f.frames ++ frame ∷ [] }))
    else f

-- A read that raises ends the poll, too.
unfoldable pub polled : Bool → (second now : ℕ) → FrameSource → Reading → FrameSource
unfolding deliver
polled accepts second now f (err e, d) = record f { shm = some d }
polled accepts second now f (ok none, d) = record f { shm = some d }
polled accepts second now f (ok (some frame), d) =
    deliver accepts second now frame (record f { shm = some d })

unfoldable pub poll : Option ShmDisplay → Bool → (second now : ℕ) → Shm → FrameSource → FrameSource
unfolding polled read_frame
poll none accepts second now s f = f
poll (some d) accepts second now s f = polled accepts second now f (read_frame d s)

-- `_poll_frame`: whether it is called again.
unfoldable pub poll_frame : Bool → (second now : ℕ) → Shm → FrameSource → Bool × FrameSource
unfolding poll
poll_frame accepts second now s f =
    if not f.running
    then (false, f)
    else if not f.widget
    then (true, f)
    else (true, poll f.shm accepts second now s f)

-- `named` says whether the renderer gave the name of a shared memory.
pub record Bridge : Type 0 where
  pub frame_source : Option FrameSource
  pub widget : Bool
  pub named : Bool

new_bridge : Bridge
new_bridge = record { frame_source = none; widget = false; named = false }

-- `connect`, with a renderer that has a process or not; only the native one has a name to give.
connect : Bool → Bridge → Bridge
connect has_process b = record b { widget = true; named = has_process }

start_bridge : ℕ → Bridge → Shm → Bool × (Bridge × Shm)
unfolding start attach new_source
start_bridge now b s =
    let (started, (f, s')) = start now (attach new_source) s in
    if b.named && b.widget
    then (started, (record b { frame_source = some f }, s'))
    else (false, (b, s))

stop_source : Option FrameSource → Bridge → Shm → Bridge × Shm
unfolding stop
stop_source none b s = (b, s)
stop_source (some f) b s = (record b { frame_source = none }, (stop f s).1)

stop_bridge : Bridge → Shm → Bridge × Shm
unfolding stop_source
stop_bridge b s = stop_source b.frame_source b s
