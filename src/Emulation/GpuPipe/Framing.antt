-- ===== src/Emulation/GpuPipe/Framing.antt =====
-- Packets on the wire, and what `read_command` makes of them.
use linblock.Prelude.{
  ℕ, ◌<◌, ◌^◌, ◌≡◌, refl, ap, sym, ◌∙◌, none, some, List, [], ◌∷◌, ◌++◌, arith, length,
  length-append, take, drop, take-append, drop-append, append_assoc, take_all, drop-drop, nat_beq,
  nat_beq_iff, Bool-cases, inl, inr, Result, ok, err,
}
use linblock.Bytes.{le_bytes, of_le, length-le_bytes, of_le-le_bytes}
use linblock.Socket.{Socket}
use linblock.Socket.Ready.{ready}
use linblock.Socket.Fill.{FillError, fill, fill_lem, length-fill, missing, missing-IsRequest}
use linblock.Emulation.GpuPipe.Transport.{
  GpuCommandPacket, packet_of, header_size, recv_exact, read_payload, read_packet,
}

pub record Command : Type 0 where
  pub sequence : ℕ
  pub opcode : ℕ
  pub payload : List ℕ

-- Each header field fits its four bytes.
pub record Fits (c : Command) : Type 0 where
  pub sequence : c.sequence < 256 ^ 4
  pub opcode : c.opcode < 256 ^ 4
  pub size : length c.payload < 256 ^ 4

-- The header of a packet: three little-endian words.
abbrev pub header : Command → List ℕ
header c = le_bytes 4 c.sequence ++ (le_bytes 4 c.opcode ++ le_bytes 4 (length c.payload))

-- What the guest writes for a command.
abbrev pub encode : Command → List ℕ
encode c = header c ++ c.payload

abbrev pub packet : Command → ℕ → GpuCommandPacket
packet c now = record {
  sequence = c.sequence;
  opcode = c.opcode;
  size = length c.payload;
  payload = c.payload;
  timestamp_ns = now;
}

length-header : (c : Command) → length (header c) ≡ 12
length-header c =
    let a = le_bytes 4 c.sequence in
    let b = le_bytes 4 c.opcode in
    let d = le_bytes 4 (length c.payload) in
    omega (
      arith,
      length-append a (b ++ d),
      length-append b d,
      length-le_bytes 4 c.sequence,
      length-le_bytes 4 c.opcode,
      length-le_bytes 4 (length c.payload),
    )

take_four : (n : ℕ) (rest : List ℕ) → take 4 (le_bytes 4 n ++ rest) ≡ le_bytes 4 n
take_four n rest =
    ap (λ k. take k (le_bytes 4 n ++ rest)) (sym (length-le_bytes 4 n))
    ∙ take-append (le_bytes 4 n) rest

drop_four : (n : ℕ) (rest : List ℕ) → drop 4 (le_bytes 4 n ++ rest) ≡ rest
drop_four n rest =
    ap (λ k. drop k (le_bytes 4 n ++ rest)) (sym (length-le_bytes 4 n))
    ∙ drop-append (le_bytes 4 n) rest

header_fields :
    (c : Command)
    → (take 4 (header c) ≡ le_bytes 4 c.sequence)
      × (take 4 (drop 4 (header c)) ≡ le_bytes 4 c.opcode)
      × (take 4 (drop 8 (header c)) ≡ le_bytes 4 (length c.payload))
header_fields c =
    let b = le_bytes 4 c.opcode in
    let d = le_bytes 4 (length c.payload) in
    let second : drop 4 (header c) ≡ b ++ d = drop_four c.sequence (b ++ d) in
    let third : drop 8 (header c) ≡ d =
      sym (drop-drop 4 4 (header c)) ∙ ap (drop 4) second ∙ drop_four c.opcode d in
    (
      take_four c.sequence (b ++ d),
      ap (take 4) second ∙ take_four c.opcode d,
      ap (take 4) third ∙ take_all d 4 (omega (arith, length-le_bytes 4 (length c.payload))),
    )

header_size-header : (c : Command) → Fits c → header_size (header c) ≡ length c.payload
header_size-header c fits =
    ap of_le (header_fields c).2 ∙ of_le-le_bytes 4 (length c.payload) fits.size

packet_of-header :
    (c : Command) (now : ℕ) → Fits c → packet_of (header c) c.payload now ≡ packet c now
unfolding packet_of
packet_of-header c now fits =
    let (a, b, d) = header_fields c in
    rw (a, b, d)
      (rw
        (
          of_le-le_bytes 4 c.sequence fits.sequence,
          of_le-le_bytes 4 c.opcode fits.opcode,
          of_le-le_bytes 4 (length c.payload) fits.size,
        )
        refl)

-- `_recv_exact(size)` gathers bytes that are ready, however they arrive.
recv_exact_lem :
    (size : ℕ) (xs rest : List ℕ) (s : Socket)
    → ready s ≡ xs ++ rest
    → length xs ≡ size
    → (s' : Socket) × (recv_exact size s ≡ (ok xs, s')) × (ready s' ≡ rest)
unfolding recv_exact
recv_exact_lem size xs rest s e l =
    let (s', filled, left, _) =
      fill_lem missing size size [] xs rest s missing-IsRequest e (omega arith) (omega arith) in
    (s', filled, left)

nil_of_length : (xs : List ℕ) → length xs ≡ 0 → xs ≡ []
nil_of_length [] h = refl
nil_of_length (x ∷ xs) h = absurd (omega arith)

read_payload-header :
    (c : Command) (rest : List ℕ) (s : Socket) (now : ℕ)
    → Fits c
    → ready s ≡ c.payload ++ rest
    → (s' : Socket) × (read_payload now (ok (header c), s) ≡ (some (packet c now), s'))
      × (ready s' ≡ rest)
unfolding read_payload
read_payload-header c rest s now fits e =
    let size = header_size-header c fits in
    let built = packet_of-header c now fits in
    elim (Bool-cases (nat_beq (header_size (header c)) 0)) [
      | inl zero_size ↦
          let empty : c.payload ≡ [] =
            nil_of_length c.payload (omega (arith, size, (nat_beq_iff _ 0).0 zero_size)) in
          (
            s,
            rw zero_size
                (ap (λ p. (some p, s)) (ap (λ l. packet_of (header c) l now) (sym empty) ∙ built)),
            e ∙ ap (λ l. l ++ rest) empty,
          )
      | inr full ↦
          let (s', got, left) =
            recv_exact_lem (header_size (header c)) c.payload rest s e (sym size) in
          (s', rw full (rw got (ap (λ p. (some p, s')) built)), left)
    ]

-- Where the bytes of a command whose fields fit are ready, in whatever pieces they arrive,
-- `VirtioSerialTransport.read_command` returns its packet and leaves what follows.
pub read_packet-encode :
    (c : Command) (rest : List ℕ) (s : Socket) (now : ℕ)
    → Fits c
    → ready s ≡ encode c ++ rest
    → (s' : Socket) × (read_packet now s ≡ (some (packet c now), s')) × (ready s' ≡ rest)
unfolding read_packet
read_packet-encode c rest s now fits e =
    let (t, got, left) =
      recv_exact_lem 12 (header c) (c.payload ++ rest) s
        (e ∙ append_assoc (header c) c.payload rest) (length-header c) in
    let (s', read, after) = read_payload-header c rest t now fits left in
    (s', ap (read_payload now) got ∙ read, after)

recv_exact-size :
    (size : ℕ) (s : Socket) (d : List ℕ) → (recv_exact size s).0 ≡ ok d → length d ≡ size
unfolding recv_exact
recv_exact-size size s d h =
    length-fill missing size size [] d s (recv_exact size s).1 missing-IsRequest (omega arith)
      (ap (λ r. (r, (recv_exact size s).1)) h)

read_payload-size :
    (now : ℕ) (answer : Result FillError (List ℕ) × Socket) (s' : Socket) (p : GpuCommandPacket)
    → read_payload now answer ≡ (some p, s')
    → length p.payload ≡ p.size
unfolding read_payload
read_payload-size now (err e, s) s' p h = absurd (ground arith)
read_payload-size now (ok header, s) s' p h =
    ground (arith, recv_exact-size (header_size header) s p.payload)

-- A packet that `VirtioSerialTransport.read_command` returns holds as many bytes as its header says.
pub read_packet-size :
    (now : ℕ) (s s' : Socket) (p : GpuCommandPacket)
    → read_packet now s ≡ (some p, s')
    → length p.payload ≡ p.size
unfolding read_packet
read_packet-size now s s' p h = read_payload-size now (recv_exact 12 s) s' p h

-- At the end of the stream there is no packet.
pub read_packet-closed : (now : ℕ) → read_packet now [] ≡ (none, [])
unfolding read_packet recv_exact fill
read_packet-closed now = refl
