-- ===== src/Emulation/GpuRenderer/Process.antt =====
-- internal/renderer_process.py: `RendererProcess`. What arrives on its socket, how far a start gets
-- and the texts of other exceptions are arguments of a call. Callbacks of a state change raise nothing
-- that is seen: `notified` is what every registered callback has been told. Sizes are not negative.
pub mod Start
use Prim.Native.String.{◌++◌ as ◌<>◌}
use linblock.Prelude.{
  ℕ, ◌^◌, String, string_eq, ◌==◌, Bool, true, false, ◌&&◌, ◌||◌, not, Option, none, some, List, [],
  ◌∷◌, ◌++◌, ltb, nat_beq, is_some, if◌then◌else◌, Result, ok, err, Method, ◌>>=◌, ◌>>◌,
}
use linblock.Bytes.{le_bytes}
use linblock.Socket.{Socket, SocketError, os_error}
use linblock.Socket.Fill.{FillError, closed, failed}
use linblock.Emulation.GpuRenderer.Message.{
  msg_init, msg_process_commands, msg_resize, msg_rotate, msg_shutdown, rsp_ok, encode, pack,
  recv_message,
}
use linblock.Emulation.GpuRenderer.Launcher.{
  Config, Machine, find_renderer_executable, build_sandbox_command,
}

pub data ProcessState : Type 0 where
  stopped starting running stopping error : ProcessState

abbrev pub same_state : ProcessState → ProcessState → Bool
same_state stopped stopped = true
same_state starting starting = true
same_state running running = true
same_state stopping stopping = true
same_state error error = true
same_state _ _ = false

-- A RendererProcessError, `struct.error`, what the socket raises, `UnicodeDecodeError`, or another
-- exception of a start with its text.
pub data Error : Type 0 where
  process_error : String → Error
  struct_error : Error
  socket_error : SocketError → Error
  decode_error : Error
  other_error : String → Error

-- `process` holds the command of the child, and `socket` what is still to be read.
pub record Process : Type 0 where
  pub config : Config
  pub process : Option (List String)
  pub socket : Option Socket
  pub state : ProcessState
  pub listening : Bool
  pub notified : List ProcessState
  pub error_message : String
  pub sent : List ℕ

-- How far a start gets: something raises before the worker is waited for, the worker does not
-- connect, or it does.
pub data Launch : Type 0 where
  launch_fails : String → Launch
  never_connects : Launch
  connects : Launch

-- `sends` says whether `sendall` goes through, and `reply` is what arrives after it.
pub record Host : Type 0 where
  pub machine : Machine
  pub launch : Launch
  pub sends : Bool
  pub reply : Socket
  pub decode : List ℕ → Option String
  pub text : Error → String

abbrev pub Call : Type 0 → Type 0
Call A = Method Error Process A

-- `__init__`, with the paths that it makes where they are not given.
unfoldable pub new_process : (pid : String) → Config → Process
new_process pid config =
    let socket_path = config.socket_path in
    let shm_name = config.shm_name in
    record {
      config = record config {
        socket_path =
            if socket_path == "" then "/tmp/linblock_renderer_" <> pid <> ".sock" else socket_path;
        shm_name = if shm_name == "" then "/linblock_display_" <> pid else shm_name;
      };
      process = none;
      socket = none;
      state = stopped;
      listening = false;
      notified = [];
      error_message = "";
      sent = [];
    }

unfoldable pub add_state_callback : Process → Process
add_state_callback p = record p { listening = true }

-- `_set_state`
unfoldable pub set_state : ProcessState → Process → Process
set_state s p =
    if p.listening && not (same_state p.state s)
    then record p { state = s; notified = p.notified ++ s ∷ [] }
    else record p { state = s }

unfoldable pub send_packed : Host → Option (List ℕ) → Call Unit
send_packed host none p = (err struct_error, p)
send_packed host (some bytes) p =
    if host.sends
    then (ok tt, record p { sent = p.sent ++ bytes })
    else (err (socket_error os_error), p)

-- `_send_message`
unfoldable pub send_message : Host → ℕ → List ℕ → Call Unit
unfolding send_packed pack
send_message host msg_type d p =
    if is_some p.socket
    then send_packed host (pack msg_type d) p
    else (err (process_error "Not connected"), p)

unfoldable pub received :
    Process → Result FillError (ℕ × List ℕ) × Socket → Result Error (ℕ × List ℕ) × Process
received p (ok message, s) = (ok message, record p { socket = some s })
received p (err closed, s) = (err (process_error "Connection closed"), record p { socket = some s })
received p (err (failed e), s) = (err (socket_error e), record p { socket = some s })

unfoldable pub read_from : Option Socket → Host → Call (ℕ × List ℕ)
unfolding received recv_message
read_from none host p = (err (process_error "Not connected"), p)
read_from (some s) host p = received p (recv_message (s ++ host.reply))

-- `_recv_response`
unfoldable pub recv_response : Host → Call (ℕ × List ℕ)
unfolding read_from
recv_response host p = read_from p.socket host p

-- raise RendererProcessError(f"...{response[1].decode()}")
unfoldable pub refuse : String → Option String → Call Unit
refuse what none p = (err decode_error, p)
refuse what (some text) p = (err (process_error (what <> text)), p)

unfoldable pub accept : Host → String → ℕ × List ℕ → Call Unit
unfolding refuse
accept host what (status, d) p =
    if nat_beq status rsp_ok then (ok tt, p) else refuse what (host.decode d) p

-- A message, and its response.
unfoldable pub request : Host → ℕ → List ℕ → String → Call Unit
unfolding send_message recv_response accept
request host msg_type d what =
    (send_message host msg_type d >> recv_response host) >>= accept host what

unfoldable pub process_commands : Host → List ℕ → Call Unit
unfolding request
process_commands host command_buffer p =
    if same_state p.state running
    then request host msg_process_commands command_buffer "Process commands failed: " p
    else (err (process_error "Renderer not running"), p)

unfoldable pub set_size : ℕ → ℕ → Call Unit
set_size width height p =
    (ok tt, record p { config = record p.config { width = width; height = height } })

unfoldable pub resize : Host → ℕ → ℕ → Call Unit
unfolding request set_size
resize host width height p =
    if not (same_state p.state running)
    then (err (process_error "Renderer not running"), p)
    else if not (ltb width (256 ^ 4) && ltb height (256 ^ 4))
    then (err struct_error, p)
    else (request host msg_resize (le_bytes 4 width ++ le_bytes 4 height) "Resize failed: "
          >> set_size width height)
        p

unfoldable pub set_rotation : Host → ℕ → Call Unit
unfolding request
set_rotation host degrees p =
    if not (same_state p.state running)
    then (err (process_error "Renderer not running"), p)
    else if not (ltb degrees (256 ^ 4))
    then (err struct_error, p)
    else request host msg_rotate (le_bytes 4 degrees) "Set rotation failed: " p

-- The message that ends the worker; what it raises is dropped.
unfoldable pub send_shutdown : Host → Process → Process
unfolding send_message
send_shutdown host p =
    if is_some p.socket
    then record ((send_message host msg_shutdown [] p).1) { socket = none }
    else p

-- `stop`: the child is terminated, or killed.
unfoldable pub stop : Host → Process → Process
unfolding set_state send_shutdown
stop host p =
    if same_state p.state stopped
    then p
    else set_state stopped (record (send_shutdown host (set_state stopping p)) { process = none })

-- The `except` of `start`.
unfoldable pub give_up : Host → String → Call Unit
unfolding stop set_state
give_up host text p =
    (err (process_error text), stop host (set_state error (record p { error_message = text })))

abbrev pub text_of : Host → Error → String
text_of host (process_error text) = text
text_of host (other_error text) = text
text_of host e = host.text e

-- A worker that refuses: the message and the state are set before the exception is raised.
abbrev pub refusal : String
refusal = "Renderer init failed: "

unfoldable pub refuse_start : Option String → Call Unit
unfolding set_state
refuse_start none p = (err decode_error, p)
refuse_start (some text) p =
    let message = refusal <> text in
    (err (process_error message), set_state error (record p { error_message = message }))

unfoldable pub accept_start : Host → ℕ × List ℕ → Call Unit
unfolding refuse_start
accept_start host (status, d) p =
    if nat_beq status rsp_ok then (ok tt, p) else refuse_start (host.decode d) p

unfoldable pub command_line : Host → Config → List String
unfolding find_renderer_executable build_sandbox_command
command_line host config =
    build_sandbox_command host.machine config (find_renderer_executable host.machine)

abbrev pub no_connection : String
no_connection = "Renderer worker failed to connect"

-- The `try` of `start`. The socket that listens takes no messages, and is left out.
unfoldable pub launched : Launch → Host → Call Unit
unfolding command_line set_state stop send_message recv_response accept_start
launched (launch_fails text) host p = (err (other_error text), p)
launched never_connects host p = (
  err (process_error no_connection),
  stop host (
      set_state error
        (record p { process = some (command_line host p.config); error_message = no_connection })),
)
launched connects host p =
    ((send_message host msg_init [] >> recv_response host) >>= accept_start host)
      (record p { process = some (command_line host p.config); socket = some [] })

unfoldable pub conclude :
    Host → Result Error (Unit {0}) × Process → Result Error (Unit {0}) × Process
unfolding give_up set_state
conclude host (ok _, p) = (ok tt, set_state running p)
conclude host (err e, p) = give_up host (text_of host e) p

unfoldable pub start : Host → Call Unit
unfolding launched conclude set_state
start host p =
    if same_state p.state running || same_state p.state starting
    then (err (process_error "Renderer already running"), p)
    else conclude host (launched host.launch host (set_state starting p))

unfoldable pub cleanup : Host → Process → Process
unfolding stop
cleanup host p = record (stop host p) { listening = false }
