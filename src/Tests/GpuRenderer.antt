-- ===== src/Tests/GpuRenderer.antt =====
-- src/modules/emulation/gpu_renderer at concrete inputs.
use linblock.Prelude.{
  ◌+◌, ◌*◌, ◌<◌, ◌≡◌, refl, ◌⊎◌, String, true, false, none, some, [], ◌∷◌, ◌++◌, arith, pos, take,
  drop, Result, ok, err,
}
use linblock.Bytes.{zeros, le_bytes, of_le}
use linblock.Socket.{Socket, piece, stall}
use linblock.Socket.Ready.{ready}
use linblock.Socket.Weight.{weight}
use linblock.Emulation.GpuRenderer.Header.{Fits, frame_header, pack, unpack}
use linblock.Emulation.GpuRenderer.Region.{Shm, splice}
use linblock.Emulation.GpuRenderer.Message.{
  encode, msg_resize, rsp_ok, recv_message, recv_message-encode,
}
use linblock.Emulation.GpuRenderer.Picture.{gradient, pixel-gradient}
use linblock.Emulation.GpuRenderer.ShmDisplay as Display
use linblock.Emulation.GpuRenderer.ShmDisplay.{ShmDisplay, new_display, read_frame, write_frame}
use linblock.Emulation.GpuRenderer.ShmDisplay.Transfer.{frame, read_frame-write_frame}
use linblock.Emulation.GpuRenderer.Worker as Worker
use linblock.Emulation.GpuRenderer.Worker.{
  Mapping.mapped, Descriptor.opened, Setup.granted, Setup.size_fails, Error.os_error,
  Error.map_closed,
}
use linblock.Emulation.GpuRenderer.Worker.Handlers.{serve, handle_process_commands}
use linblock.Emulation.GpuRenderer.Worker.Resizing.{size_bytes, Opens}
use linblock.Emulation.GpuRenderer.Worker.Sizes.{IsSized}
use linblock.Emulation.GpuRenderer.Worker.Serving.{serve-IsSized}
use linblock.Emulation.GpuRenderer.Worker.Frames.{read_frame-process_commands}
use linblock.Emulation.GpuRenderer.Worker.Loop.{run, Left, run-Left}
use linblock.Emulation.GpuRenderer.Launcher.{Config, Machine}
use linblock.Emulation.GpuRenderer.Process as Process
use linblock.Emulation.GpuRenderer.Process.{new_process, start, command_line, process_error, resize}
use linblock.Emulation.GpuRenderer.Process.Start.{IsStopped, start_lem}
use linblock.Emulation.GpuRenderer.Link.{resize_lem}
use linblock.Emulation.GpuRenderer.Renderer.{RendererState, FrameData, bgra8888}
use linblock.Emulation.GpuRenderer.Native as Native
use linblock.Emulation.GpuRenderer.Native.{new_native, get_frame}
use linblock.Emulation.GpuRenderer.FrameSource.{FrameSource, poll_frame}
use linblock.Emulation.GpuRenderer.FrameSource.Stale.{poll_frame-handle_resize}
use linblock.Emulation.GpuRenderer.Worker.Handlers.{handle_resize}
use linblock.Emulation.GpuRenderer.Native.Frames.{get_frame-process_commands}

-- A worker with an open map for one pixel above another.
abbrev memory : Shm
memory = record { name = some 0; contents = λ _. zeros 48; next = 1 }

abbrev stub : Worker.Worker
stub = record {
  width = 1;
  height = 2;
  library_path = "";
  lib = false;
  context = false;
  descriptor = opened;
  mapping = mapped 0;
  frame_number = 0;
  running = true;
  use_stub = true;
  shm = memory;
  sent = [];
}

abbrev granting : Worker.Host
granting = record {
  exists = λ _. false;
  loading = Worker.Loading.refused;
  init = λ _ _. none;
  commands = λ _. pos 0;
  unlinks = true;
  setup = granted;
  now = 5;
  text = λ _. [];
}

abbrev refusing : Worker.Host
refusing = record granting { setup = size_fails; text = λ _. b'e' ∷ [] }

abbrev mapped_display : ShmDisplay
mapped_display = record {
  region = some 0;
  writable = true;
  size = 48;
  width = 1;
  height = 2;
  last_frame_number = 0;
}

first_frame-Fits : Fits (frame_header 1 2 1 5)
first_frame-Fits = record {
  magic = omega arith;
  version = omega arith;
  width = omega arith;
  height = omega arith;
  stride = omega arith;
  format = omega arith;
  frame_number = omega arith;
  timestamp_ns = omega arith;
}

wide-Fits : Fits (frame_header 2 1 0 0)
wide-Fits = record {
  magic = omega arith;
  version = omega arith;
  width = omega arith;
  height = omega arith;
  stride = omega arith;
  format = omega arith;
  frame_number = omega arith;
  timestamp_ns = omega arith;
}

pixel-gradient_example :
    take 4 (drop ((1 * 3 + 2) * 4) (gradient 3 2 7)) ≡ 177 ∷ 134 ∷ 128 ∷ 255 ∷ []
pixel-gradient_example = pixel-gradient 3 2 7 2 1 (omega arith) (omega arith)

read_frame-write_frame_example :
    ((write_frame (zeros 9) 1 5 mapped_display memory).0 ≡ ok tt)
    × (read_frame mapped_display (write_frame (zeros 9) 1 5 mapped_display memory).1.1
        ≡ (ok (some (frame 1 2 1 5 (zeros 8))), record mapped_display { last_frame_number = 1 }))
read_frame-write_frame_example =
    read_frame-write_frame mapped_display mapped_display memory 0 (zeros 9) 1 5 refl refl refl
      (omega arith) first_frame-Fits (omega arith)

read_frame-process_commands_example :
    ((read_frame mapped_display (handle_process_commands granting [] stub).shm).0
      ≡ ok (some (frame 1 2 1 5 (gradient 1 2 0))))
    × ((handle_process_commands granting [] stub).sent ≡ encode rsp_ok [])
read_frame-process_commands_example =
    read_frame-process_commands granting [] stub 0 mapped_display refl refl refl first_frame-Fits
      (omega arith) refl

serve-IsSized_example : IsSized (serve granting msg_resize (size_bytes 2 1) stub)
serve-IsSized_example = serve-IsSized granting msg_resize (size_bytes 2 1) stub (omega arith, refl)

-- A message that is cut after its header, and a stall.
abbrev request : Socket
request = piece 4 (8 ∷ 0 ∷ 0 ∷ 0 ∷ 2 ∷ 0 ∷ []) ∷ piece 0 (0 ∷ 1 ∷ 0 ∷ 0 ∷ 0 ∷ []) ∷ stall ∷ []

abbrev whole_request : Socket
whole_request = piece 4 (8 ∷ 0 ∷ 0 ∷ 0 ∷ 2 ∷ 0 ∷ []) ∷ piece 0 (0 ∷ 1 ∷ 0 ∷ 0 ∷ 0 ∷ []) ∷ []

request-ready : ready request ≡ encode msg_resize (size_bytes 2 1) ++ []
unfolding ready le_bytes
request-ready = refl

recv_message-encode_example :
    (s : Socket) × (recv_message request ≡ (ok (msg_resize, size_bytes 2 1), s)) × (ready s ≡ [])
unfolding le_bytes
recv_message-encode_example =
    recv_message-encode msg_resize (size_bytes 2 1) [] request (omega arith) (omega arith)
      request-ready

request-weight : weight request < 15
unfolding weight
request-weight = omega arith

run-Left_example :
    (r : Result Worker.Error (Unit {0}) × Worker.Worker) × (run true true 15
        (λ _. granting)
        request
        stub
      ≡ some r)
    × Left true r
run-Left_example = run-Left true true 15 (λ _. granting) request stub request-weight

abbrev config : Config
config = record {
  width = 1;
  height = 2;
  library_path = "";
  socket_path = "";
  shm_name = "";
  use_sandbox = true;
  log_path = "";
}

abbrev machine : Machine
machine = record {
  executable = "python3";
  source_dir = "/opt/linblock";
  home = "/home/user";
  exists = λ _. true;
  dumps = λ _. "{}";
}

abbrev answering : Process.Host
answering = record {
  machine = machine;
  launch = Process.Launch.connects;
  sends = true;
  reply = piece 0 (0 ∷ 0 ∷ 0 ∷ 0 ∷ []) ∷ [];
  decode = λ _. none;
  text = λ _. "";
}

start_lem_example :
    (((start answering (new_process "7" config)).0 ≡ ok tt)
      × ((start answering (new_process "7" config)).1.state ≡ Process.running)
      × ((start answering (new_process "7" config)).1.process
          ≡ some (command_line answering (new_process "7" config).config)))
    ⊎ ((text : String) × ((start answering (new_process "7" config)).0 ≡ err (process_error text))
        × IsStopped text (start answering (new_process "7" config)).1)
unfolding new_process
start_lem_example = start_lem answering (new_process "7" config) refl

abbrev running_process : Process.Process
running_process = record {
  config = config;
  process = some ("python3" ∷ []);
  socket = some [];
  state = Process.running;
  listening = false;
  notified = [];
  error_message = "";
  sent = [];
}

whole_request-ready : ready whole_request ≡ encode msg_resize (size_bytes 2 1)
unfolding ready le_bytes
whole_request-ready = refl

reply-ready : ready answering.reply ≡ encode rsp_ok []
unfolding ready le_bytes
reply-ready = refl

resize_lem_example :
    ((rest : Socket) × (recv_message whole_request ≡ (ok (msg_resize, size_bytes 2 1), rest)))
    × ((resize answering 2 1 running_process).0 ≡ ok tt)
    × ((resize answering 2 1 running_process).1.sent ≡ ready whole_request)
    × ((serve granting msg_resize (size_bytes 2 1) stub).sent ≡ ready answering.reply)
    × ((resize answering 2 1 running_process).1.config.width
        ≡ (serve granting msg_resize (size_bytes 2 1) stub).width)
    × ((resize answering 2 1 running_process).1.config.height
        ≡ (serve granting msg_resize (size_bytes 2 1) stub).height)
    × Opens new_display (serve granting msg_resize (size_bytes 2 1) stub).shm 2 1
resize_lem_example =
    resize_lem answering granting 2 1 0 running_process stub whole_request new_display refl refl
      refl wide-Fits refl refl refl refl (omega arith) whole_request-ready (omega arith) reply-ready

abbrev ready_renderer : Native.Native
ready_renderer = record {
  config = record { width = 1; height = 2; library_path = ""; use_software_renderer = false };
  state = RendererState.ready;
  process = some running_process;
  frame_count = 0;
  frame_callbacks = [];
  error_message = "";
  use_sandbox = true;
}

abbrev drawn : Worker.Worker
drawn = handle_process_commands granting [] stub

abbrev first_frame : FrameData
first_frame = record {
  width = 1;
  height = 2;
  stride = 4;
  format = bgra8888;
  frame_number = 1;
  timestamp_ns = 5;
  pixels = gradient 1 2 0;
}

drawn-frame : (get_frame ready_renderer drawn.shm).0 ≡ some first_frame
unfolding get_frame handle_process_commands Display.open_region read_frame pack unpack splice
    gradient le_bytes of_le Display.adopt
drawn-frame = refl

get_frame-process_commands_example :
    ((get_frame ready_renderer (get_frame ready_renderer drawn.shm).1).0 ≡ none)
    × ((get_frame ready_renderer
          (handle_process_commands granting []
            (record drawn { shm = (get_frame ready_renderer drawn.shm).1 })).shm).0
        ≡ none)
get_frame-process_commands_example =
    get_frame-process_commands ready_renderer granting [] drawn first_frame drawn-frame

abbrev polling : FrameSource
polling = record {
  shm = some mapped_display;
  widget = true;
  running = true;
  timeout = true;
  callback = false;
  frames = [];
  told = [];
  last_frame_time = 0;
  frame_count = 0;
  fps = (0, 1);
}

poll_frame-handle_resize_example :
    (poll_frame true 1000 33
      (handle_process_commands granting [] (handle_resize granting (size_bytes 2 1) stub)).shm
      (poll_frame true 1000 16 stub.shm polling).1).1.frames
    ≡ (poll_frame true 1000 16 stub.shm polling).1.frames
poll_frame-handle_resize_example =
    poll_frame-handle_resize granting granting 2 1 1000 0 polling mapped_display stub true true 16
      33 [] refl refl refl refl refl (omega arith) refl refl refl wide-Fits
