-- ===== src/Tests/GpuPipe.antt =====
-- src/modules/emulation/emulator_core/internal/gpu_pipe.py at concrete inputs.
use linblock.Prelude.{ℕ, ◌+◌, ◌≡◌, refl, true, some, List, [], ◌∷◌, arith}
use linblock.Bytes.{le_bytes}
use linblock.Socket.{Socket, piece, stall}
use linblock.Socket.Ready.{ready}
use linblock.Emulation.GpuPipe.Transport.{GpuCommandPacket, Connection, accepted, read_packet}
use linblock.Emulation.GpuPipe.Framing.{Command, Fits, packet, read_packet-encode}
use linblock.Emulation.GpuPipe.Pipe.{process_command, go_on, process_commands, start}
use linblock.Emulation.GpuPipe.Loop.{
  serving, raised_after, process_commands_lem, handler_error_lem, closed_guest_lem,
}

abbrev draw : Command
draw = record { sequence = 1; opcode = 2; payload = 7 ∷ 8 ∷ [] }

abbrev flush : Command
flush = record { sequence = 2; opcode = 3; payload = [] }

-- Both commands, cut where no field ends.
abbrev arriving : Socket
arriving =
    piece 1 (0 ∷ 0 ∷ 0 ∷ 2 ∷ [])
    ∷ piece 0 (0 ∷ 0 ∷ 2 ∷ 0 ∷ 0 ∷ 0 ∷ 7 ∷ 8 ∷ 2 ∷ [])
    ∷ piece 0 (0 ∷ 0 ∷ 3 ∷ 0 ∷ 0 ∷ 0 ∷ 0 ∷ 0 ∷ 0 ∷ 0 ∷ [])
    ∷ stall
    ∷ []

abbrev flush_bytes : List ℕ
flush_bytes = 2 ∷ 0 ∷ 0 ∷ 0 ∷ 3 ∷ 0 ∷ 0 ∷ 0 ∷ 0 ∷ 0 ∷ 0 ∷ 0 ∷ []

draw-Fits : Fits draw
draw-Fits = record { sequence = omega arith; opcode = omega arith; size = omega arith }

flush-Fits : Fits flush
flush-Fits = record { sequence = omega arith; opcode = omega arith; size = omega arith }

abbrev answer : GpuCommandPacket → List ℕ
answer p = p.opcode ∷ p.timestamp_ns ∷ []

abbrev clock : ℕ → ℕ
clock n = 10 + n

read_packet-encode_example :
    (s' : Socket) × (read_packet 5 arriving ≡ (some (packet draw 5), s')) × (ready s' ≡ flush_bytes)
read_packet-encode_example =
    read_packet-encode draw flush_bytes arriving 5 draw-Fits (unfold ready le_bytes in refl)

abbrev behind : Socket
behind = piece 2 [] ∷ piece 0 (0 ∷ 0 ∷ 3 ∷ 0 ∷ 0 ∷ 0 ∷ 0 ∷ 0 ∷ 0 ∷ 0 ∷ []) ∷ stall ∷ []

process_commands_lem_example :
    (s' : Socket) × (process_commands clock (λ _. true) 2 (serving arriving [] answer [])
      ≡ serving s' (2 ∷ 11 ∷ 3 ∷ 10 ∷ []) answer [])
    × (ready s' ≡ [])
process_commands_lem_example =
    process_commands_lem answer clock (draw ∷ flush ∷ []) [] [] arriving []
      (draw-Fits, (flush-Fits, tt)) (unfold ready le_bytes in refl)

abbrev connection : Connection
connection = accepted []

handler_error_lem_example :
    ((raised_after clock (λ _. true) 4 arriving [] "no GPU").running ≡ true)
    × ((raised_after clock (λ _. true) 4 arriving [] "no GPU").reports
        ≡ "Command processing error: no GPU" ∷ [])
    × (start connection (raised_after clock (λ _. true) 4 arriving [] "no GPU")
        ≡ (true, raised_after clock (λ _. true) 4 arriving [] "no GPU"))
handler_error_lem_example =
    handler_error_lem draw flush_bytes [] arriving "no GPU" clock (λ _. true) 4 connection draw-Fits
      (unfold ready le_bytes in refl)

closed_guest_lem_example :
    (process_commands clock (λ _. true) 9 (serving [] (1 ∷ []) answer [])
      ≡ serving [] (1 ∷ []) answer [])
    × (process_command 7 true (process_commands clock (λ _. true) 9 (serving [] (1 ∷ []) answer []))
        ≡ go_on (serving [] (1 ∷ []) answer []))
closed_guest_lem_example = closed_guest_lem clock (λ _. true) 9 7 true (1 ∷ []) answer []
