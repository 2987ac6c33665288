-- ===== src/Emulation/GpuRenderer/Worker/Failing.antt =====
-- A resize whose shared memory cannot be set up.
use linblock.Prelude.{ℕ, ◌≡◌, Result, err}
use linblock.Emulation.GpuRenderer.Worker.{
  Error, Error.os_error, Error.map_closed, Setup, Setup.open_fails, Setup.size_fails,
  Setup.map_fails, Setup.granted, Host, Mapping.mapped, Mapping.closed, Descriptor,
  Descriptor.opened, Worker,
}
use linblock.Emulation.GpuRenderer.Worker.Handlers.{handle_resize}
use linblock.Emulation.GpuRenderer.Worker.Resizing.{size_bytes}

-- What a set-up that fails leaves as it was.
record Fails (r : Result Error (Unit {0}) × Worker) (w : Worker) : Type 0 where
  raised : r.0 ≡ err os_error
  same_mapping : r.1.mapping ≡ w.mapping
  same_width : r.1.width ≡ w.width
  same_height : r.1.height ≡ w.height
  same_use_stub : r.1.use_stub ≡ w.use_stub
  same_sent : r.1.sent ≡ w.sent

abbrev pub resize_to : Host → ℕ → ℕ → Worker → Worker
resize_to host width height w = handle_resize host (size_bytes width height) w
