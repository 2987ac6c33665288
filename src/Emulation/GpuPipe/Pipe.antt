-- ===== src/Emulation/GpuPipe/Pipe.antt =====
-- `GPUCommandPipe` and `create_gpu_pipe`. The processing thread is the loop `process_commands` over
-- the number of rounds that it makes until another thread calls `stop`.
use Prim.Native.String.{◌++◌ as ◌<>◌}
use linblock.Prelude.{
  ℕ, zero, suc, String, string_eq, ◌==◌, Bool, true, false, ◌&&◌, Option, none, some, List, [], ◌∷◌,
  ◌++◌, if◌then◌else◌, Result, ok, err,
}
use linblock.Emulation.GpuPipe.Transport.{
  TransportType, virtio_serial, goldfish_pipe, unix_socket, GpuCommandPacket, Transport, Connection,
  new_transport, virtio_connect, unix_connect, virtio_read_command, unix_read_command,
  write_response,
}

-- What a handler returns: response bytes, or the text of an exception.
abbrev Handler : Type 0
Handler = GpuCommandPacket → Result String (List ℕ)

-- `thread` says whether a thread object is kept. The messages that were reported stand in `reports`.
pub record Pipe : Type 0 where
  pub transport_type : TransportType
  pub transport : Option Transport
  pub running : Bool
  pub thread : Bool
  pub command_handler : Option Handler
  pub error_callback : Bool
  pub reports : List String

new_pipe : TransportType → Pipe
new_pipe type = record {
  transport_type = type;
  transport = none;
  running = false;
  thread = false;
  command_handler = none;
  error_callback = false;
  reports = [];
}

-- create_gpu_pipe
create_gpu_pipe : String → Pipe
create_gpu_pipe type = new_pipe (
    if type == "virtio_serial"
    then virtio_serial
    else if type == "unix_socket"
    then unix_socket
    else if type == "goldfish_pipe"
    then goldfish_pipe
    else virtio_serial)

set_command_handler : Handler → Pipe → Pipe
set_command_handler handler p = record p { command_handler = some handler }

set_error_callback : Pipe → Pipe
set_error_callback p = record p { error_callback = true }

report_error : String → Pipe → Pipe
report_error message p =
    if p.error_callback then record p { reports = p.reports ++ message ∷ [] } else p

abbrev connect_as : TransportType → Connection → Option (Bool × Transport)
connect_as virtio_serial c = some (virtio_connect c new_transport)
connect_as unix_socket c = some (unix_connect c new_transport)
connect_as goldfish_pipe c = none

connected_or_not : Option (Bool × Transport) → Pipe → Bool × Pipe
unfolding report_error
connected_or_not none p = (false, report_error "Goldfish pipe transport not available" p)
connected_or_not (some (false, t)) p =
    (false, report_error "Failed to connect transport" (record p { transport = some t }))
connected_or_not (some (true, t)) p =
    (true, record p { transport = some t; running = true; thread = true })

-- `start`, where connecting goes as `connection` says.
unfoldable pub start : Connection → Pipe → Bool × Pipe
unfolding connected_or_not virtio_connect unix_connect
start connection p =
    if p.running then (true, p) else connected_or_not (connect_as p.transport_type connection) p

abbrev is_there : Option Transport → Bool
is_there none = false
is_there (some t) = true

-- `stop`: the transport is disconnected and dropped, and the thread is joined.
unfoldable pub stop : Pipe → Pipe
stop p = record p { transport = none; running = false; thread = false }

unfoldable pub read_command : TransportType → ℕ → Transport → Option GpuCommandPacket × Transport
unfolding virtio_read_command
read_command unix_socket now t = unix_read_command now t
read_command _ now t = virtio_read_command now t

-- A round of the loop ends it or goes on.
pub data Round : Type 0 where
  go_on finish : Pipe → Round

-- `if response: self._transport.write_response(response)`
unfoldable pub respond : Bool → List ℕ → Transport → Pipe → Round
respond sends [] t p = go_on (record p { transport = some t })
respond sends (b ∷ bytes) t p =
    go_on (record p { transport = some (write_response sends (b ∷ bytes) t).1 })

answered : Bool → Result String (List ℕ) → Transport → Pipe → Round
unfolding respond report_error
answered sends (ok response) t p = respond sends response t p
answered sends (err message) t p =
    finish
      (report_error ("Command processing error: " <> message) (record p { transport = some t }))

handled : Bool → Option Handler → Option GpuCommandPacket → Transport → Pipe → Round
unfolding answered
handled sends handler none t p = go_on (record p { transport = some t })
handled sends none (some packet) t p = go_on (record p { transport = some t })
handled sends (some handler) (some packet) t p = answered sends (handler packet) t p

-- One round, with the test of the loop.
unfoldable pub process_command : ℕ → Bool → Pipe → Round
unfolding handled
process_command now sends p = elim p.transport [
  | none ↦ finish p
  | some t ↦
      if p.running && t.connected
      then (let (packet, t') = read_command p.transport_type now t in
          handled sends p.command_handler packet t' p)
      else finish p
]

-- `_process_commands`: `times` and `sends` give the clock and whether a send goes through, by the
-- number of rounds that are left.
unfoldable pub process_commands : (ℕ → ℕ) → (ℕ → Bool) → ℕ → Pipe → Pipe
process_commands times sends zero p = p
process_commands times sends (suc rounds) p =
    elim (process_command (times rounds) (sends rounds) p) [
      | go_on p' ↦ process_commands times sends rounds p'
      | finish p' ↦ p'
    ]
