-- ===== src/Emulation/GpuPipe/Loop.antt =====
-- The loop that serves the guest's commands.
use Prim.Native.String.{◌++◌ as ◌<>◌}
use linblock.Prelude.{
  ℕ, zero, suc, String, ◌≡◌, refl, ap, ◌∙◌, Bool, true, some, List, [], ◌∷◌, ◌++◌, length, All,
  append_assoc, append-nil, ok, err,
}
use linblock.Socket.{Socket}
use linblock.Socket.Ready.{ready}
use linblock.Emulation.GpuPipe.Transport.{
  virtio_serial, Connection, GpuCommandPacket, virtio_read_command, write_response,
}
use linblock.Emulation.GpuPipe.Framing.{
  Command, Fits, encode, packet, read_packet-encode, read_packet-closed,
}
use linblock.Emulation.GpuPipe.Pipe.{
  Pipe, go_on, process_command, process_commands, read_command, respond, start,
}

-- The bytes of the commands, one after another.
abbrev encode_all : List Command → List ℕ
encode_all [] = []
encode_all (c ∷ cs) = encode c ++ encode_all cs

-- A pipe whose handler raises.
abbrev raising : Socket → List ℕ → String → Pipe
raising incoming sent message = record {
  transport_type = virtio_serial;
  transport = some (record {
    client = some (record { incoming = incoming; sent = sent });
    server = true;
    connected = true;
  });
  running = true;
  thread = true;
  command_handler = some (λ p. err message);
  error_callback = true;
  reports = [];
}

-- A pipe that serves a connected guest: what arrives, what was sent, and the handler.
abbrev pub serving : Socket → List ℕ → (GpuCommandPacket → List ℕ) → List String → Pipe
serving incoming sent answer reports = record {
  transport_type = virtio_serial;
  transport = some (record {
    client = some (record { incoming = incoming; sent = sent });
    server = true;
    connected = true;
  });
  running = true;
  thread = true;
  command_handler = some (λ p. ok (answer p));
  error_callback = true;
  reports = reports;
}

respond-serving :
    (bytes sent : List ℕ) (old s : Socket) (answer : GpuCommandPacket → List ℕ)
    (reports : List String)
    → respond true bytes
        (record {
          client = some (record { incoming = s; sent = sent });
          server = true;
          connected = true;
        })
        (serving old sent answer reports)
      ≡ go_on (serving s (sent ++ bytes) answer reports)
unfolding respond write_response
respond-serving [] sent old s answer reports = rw append-nil refl
respond-serving (b ∷ bytes) sent old s answer reports = refl

module _ (answer : GpuCommandPacket → List ℕ) (times : ℕ → ℕ) where
  -- The responses, in the order of the commands.
  abbrev responses : List Command → List ℕ
  responses [] = []
  responses (c ∷ cs) = answer (packet c (times (length cs))) ++ responses cs

  serve_one :
      (c : Command) (rest sent : List ℕ) (s : Socket) (reports : List String) (now : ℕ)
      → Fits c
      → ready s ≡ encode c ++ rest
      → (s' : Socket) × (process_command now true (serving s sent answer reports)
          ≡ go_on (serving s' (sent ++ answer (packet c now)) answer reports))
        × (ready s' ≡ rest)
  unfolding process_command read_command virtio_read_command write_response
  serve_one c rest sent s reports now fits e =
      let (s', read, left) = read_packet-encode c rest s now fits e in
      (s', rw read (respond-serving (answer (packet c now)) sent s s' answer reports), left)

  -- A guest that has sent commands whose fields fit, in whatever pieces they arrive, gets its
  -- responses: as many rounds as there are commands, with a handler that does not raise and sends
  -- that go through, handle them in their order, send the responses one after another, and leave
  -- what follows the commands.
  pub process_commands_lem :
      (cs : List Command) (rest sent : List ℕ) (s : Socket) (reports : List String)
      → All Fits cs
      → ready s ≡ encode_all cs ++ rest
      → (s' : Socket) × (process_commands times
            (λ _. true)
            (length cs)
            (serving s sent answer reports)
          ≡ serving s' (sent ++ responses cs) answer reports)
        × (ready s' ≡ rest)
  unfolding process_commands
  process_commands_lem [] rest sent s reports fits e = (s, rw append-nil refl, e)
  process_commands_lem (c ∷ cs) rest sent s reports fits e =
      let now = times (length cs) in
      let (t, step, left) =
        serve_one c (encode_all cs ++ rest) sent s reports now fits.0
          (e ∙ append_assoc (encode c) (encode_all cs) rest) in
      let (s', done, after) =
        process_commands_lem cs rest (sent ++ answer (packet c now)) t reports fits.1 left in
      (
        s',
        rw (step, process_commands)
            (done
              ∙ ap (λ l. serving s' l answer reports)
                  (append_assoc sent (answer (packet c now)) (responses cs))),
        after,
      )

-- The pipe with a raising handler after some rounds, at least one.
abbrev pub raised_after : (ℕ → ℕ) → (ℕ → Bool) → ℕ → Socket → List ℕ → String → Pipe
raised_after times sends rounds s sent message =
    process_commands times sends (suc rounds) (raising s sent message)

-- Where the handler raises on the next command, whose fields fit, the loop ends after that round,
-- however many rounds were left, the error is reported once, and the pipe still says that it is
-- running: `start` then returns true and starts nothing.
pub handler_error_lem :
    (c : Command) (rest sent : List ℕ) (s : Socket) (message : String) (times : ℕ → ℕ)
    (sends : ℕ → Bool) (rounds : ℕ) (connection : Connection)
    → Fits c
    → ready s ≡ encode c ++ rest
    → ((raised_after times sends rounds s sent message).running ≡ true)
      × ((raised_after times sends rounds s sent message).reports
          ≡ ("Command processing error: " <> message) ∷ [])
      × (start connection (raised_after times sends rounds s sent message)
          ≡ (true, raised_after times sends rounds s sent message))
unfolding process_commands process_command read_command virtio_read_command start
handler_error_lem c rest sent s message times sends rounds connection fits e =
    let (s', read, left) = read_packet-encode c rest s (times rounds) fits e in
    rw (read, process_commands) (refl, refl, refl)

closed_rounds :
    (times : ℕ → ℕ) (sends : ℕ → Bool) (rounds : ℕ) (sent : List ℕ)
    (answer : GpuCommandPacket → List ℕ) (reports : List String)
    → process_commands times sends rounds (serving [] sent answer reports)
      ≡ serving [] sent answer reports
unfolding process_commands process_command read_command virtio_read_command
closed_rounds times sends zero sent answer reports = refl
closed_rounds times sends (suc rounds) sent answer reports =
    rw (read_packet-closed (times rounds), process_commands)
      (closed_rounds times sends rounds sent answer reports)

-- When the guest has closed the connection, the loop goes on for ever: after any number of rounds the
-- pipe is as it was, connected and running, and the round that follows finds no packet and asks for
-- another one.
pub closed_guest_lem :
    (times : ℕ → ℕ) (sends : ℕ → Bool) (rounds now : ℕ) (sends_now : Bool) (sent : List ℕ)
    (answer : GpuCommandPacket → List ℕ) (reports : List String)
    → (process_commands times sends rounds (serving [] sent answer reports)
        ≡ serving [] sent answer reports)
      × (process_command now sends_now
            (process_commands times sends rounds (serving [] sent answer reports))
          ≡ go_on (serving [] sent answer reports))
unfolding process_command read_command virtio_read_command
closed_guest_lem times sends rounds now sends_now sent answer reports =
    let same = closed_rounds times sends rounds sent answer reports in
    (same, ap (process_command now sends_now) same ∙ rw (read_packet-closed now) refl)
