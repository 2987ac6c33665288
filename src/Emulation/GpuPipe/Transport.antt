-- ===== src/Emulation/GpuPipe/Transport.antt =====
-- `VirtioSerialTransport` and `UnixSocketTransport`. The operating system's part of a connect or
-- a send (whether it fails) is an argument, and so is the clock.
use linblock.Prelude.{
  ℕ, Bool, true, false, ◌&&◌, Option, none, some, List, [], ◌++◌, length, take, drop, ltb, nat_beq,
  if◌then◌else◌, Result, ok, err,
}
use linblock.Bytes.{of_le}
use linblock.Socket.{Socket, SocketError, recv}
use linblock.Socket.Fill.{FillError, fill, missing}

pub data TransportType : Type 0 where
  virtio_serial goldfish_pipe unix_socket : TransportType

pub record GpuCommandPacket : Type 0 where
  pub sequence : ℕ
  pub opcode : ℕ
  pub size : ℕ
  pub payload : List ℕ
  pub timestamp_ns : ℕ

-- A connected stream: what arrives, and what was sent.
pub record Peer : Type 0 where
  pub incoming : Socket
  pub sent : List ℕ

-- `client` is the stream of commands, `server` says whether the listening socket is open. A
-- `UnixSocketTransport` has the first alone.
pub record Transport : Type 0 where
  pub client : Option Peer
  pub server : Bool
  pub connected : Bool

pub new_transport : Transport
new_transport = record { client = none; server = false; connected = false }

-- How `connect` goes: the peer connects, or an exception comes before or after the socket of the
-- transport is made.
pub data Connection : Type 0 where
  accepted : Socket → Connection
  failed_early failed_late : Connection

-- VirtioSerialTransport.connect
unfoldable pub virtio_connect : Connection → Transport → Bool × Transport
virtio_connect (accepted s) t = (
  true,
  record { client = some (record { incoming = s; sent = [] }); server = true; connected = true },
)
virtio_connect failed_early t = (false, record t { connected = false })
virtio_connect failed_late t = (false, record t { server = true; connected = false })

-- UnixSocketTransport.connect: a failure leaves `_connected` as it was, and a socket that could not
-- connect stays in the transport.
unfoldable pub unix_connect : Connection → Transport → Bool × Transport
unix_connect (accepted s) t =
    (true, record t { client = some (record { incoming = s; sent = [] }); connected = true })
unix_connect failed_early t = (false, t)
unix_connect failed_late t =
    (false, record t { client = some (record { incoming = []; sent = [] }) })

-- `disconnect` of either class.
disconnect : Transport → Transport
disconnect t = record { client = none; server = false; connected = false }

-- `struct.unpack("<III", header)` and the packet that is built of it.
unfoldable pub packet_of : List ℕ → List ℕ → ℕ → GpuCommandPacket
packet_of header payload now = record {
  sequence = of_le (take 4 header);
  opcode = of_le (take 4 (drop 4 header));
  size = of_le (take 4 (drop 8 header));
  payload = payload;
  timestamp_ns = now;
}

abbrev pub header_size : List ℕ → ℕ
header_size header = of_le (take 4 (drop 8 header))

-- `_recv_exact`: `None` (`closed`) at the end of the stream and on a timeout, and any other
-- exception goes to the caller. A `recv` for each missing byte is enough.
unfoldable pub recv_exact : ℕ → Socket → Result FillError (List ℕ) × Socket
recv_exact size s = fill missing size size [] s

-- The packet of a header and the bytes that were read for it.
with_payload {ℓ} :
    {E : Type ℓ} → ℕ → List ℕ → Result E (List ℕ) × Socket → Option GpuCommandPacket × Socket
unfolding packet_of
with_payload now header (err e, s) = (none, s)
with_payload now header (ok payload, s) = (some (packet_of header payload now), s)

-- The packet whose header was read; `None` stands for every way to fail.
unfoldable pub read_payload :
    ℕ → Result FillError (List ℕ) × Socket → Option GpuCommandPacket × Socket
unfolding packet_of with_payload
read_payload now (err e, s) = (none, s)
read_payload now (ok header, s) =
    if nat_beq (header_size header) 0
    then (some (packet_of header [] now), s)
    else with_payload now header (recv_exact (header_size header) s)

-- The body of `VirtioSerialTransport.read_command` on its client.
unfoldable pub read_packet : ℕ → Socket → Option GpuCommandPacket × Socket
unfolding read_payload
read_packet now s = read_payload now (recv_exact 12 s)

-- With the stream of the client replaced.
abbrev with_incoming : Transport → Peer → Socket → Transport
with_incoming t peer s = record t { client = some (record peer { incoming = s }) }

on_client :
    (Socket → Option GpuCommandPacket × Socket)
    → Transport
    → Option Peer
    → Bool
    → Option GpuCommandPacket × Transport
on_client body t none up = (none, t)
on_client body t (some peer) false = (none, t)
on_client body t (some peer) true =
    let (packet, s) = body peer.incoming in (packet, with_incoming t peer s)

-- VirtioSerialTransport.read_command
unfoldable pub virtio_read_command : ℕ → Transport → Option GpuCommandPacket × Transport
unfolding read_packet on_client
virtio_read_command now t = on_client (read_packet now) t t.client t.connected

-- The body of `UnixSocketTransport.read_command`: one `recv` for the header and one for the data.
unix_payload : ℕ → Result SocketError (List ℕ) × Socket → Option GpuCommandPacket × Socket
unfolding packet_of with_payload
unix_payload now (err e, s) = (none, s)
unix_payload now (ok header, s) =
    if ltb (length header) 12
    then (none, s)
    else if nat_beq (header_size header) 0
    then (some (packet_of header [] now), s)
    else with_payload now header (recv (header_size header) s)

unix_read_packet : ℕ → Socket → Option GpuCommandPacket × Socket
unfolding unix_payload
unix_read_packet now s = unix_payload now (recv 12 s)

-- UnixSocketTransport.read_command
pub unix_read_command : ℕ → Transport → Option GpuCommandPacket × Transport
unfolding unix_read_packet on_client
unix_read_command now t = on_client (unix_read_packet now) t t.client t.connected

-- `write_response` of either class; `sends` says whether `sendall` goes through.
unfoldable pub write_response : Bool → List ℕ → Transport → Bool × Transport
write_response sends bytes t = elim t.client [
  | none ↦ (false, t)
  | some peer ↦
      if t.connected && sends
      then (true, record t { client = some (record peer { sent = peer.sent ++ bytes }) })
      else (false, t)
]
