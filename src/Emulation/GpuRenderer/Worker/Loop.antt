-- ===== src/Emulation/GpuRenderer/Worker/Loop.antt =====
-- The loop of `run`, with what the system answers while each of the messages is handled, and
-- `_cleanup`. Signals do not arrive. The loop ends, since every round but the last takes something of
-- what is still to come from the parent.
use linblock.Prelude.{
  ℕ, zero, suc, ◌+◌, ◌<◌, ◌≡◌, refl, ap, ◌∙◌, Bool, true, false, ◌&&◌, is_some, ◌⊎◌, inl, inr,
  Option, none, some, List, [], ◌∷◌, arith, if◌then◌else◌, Result, ok, err,
}
use linblock.Socket.{Socket, piece, stall, failure, timeout, os_error, recv}
use linblock.Socket.Weight.{weight}
use linblock.Socket.Fill.{FillError, closed, failed}
use linblock.Emulation.GpuRenderer.Message.{recv_message, after_header, weight-recv_message}
use linblock.Emulation.GpuRenderer.Region.{unlink}
use linblock.Emulation.GpuRenderer.Worker.{
  Error, Error.map_closed, Host, Mapping, Mapping.absent, Mapping.mapped, Descriptor,
  Descriptor.none_yet, Descriptor.opened, Descriptor.shut, Worker, Call,
}
use linblock.Emulation.GpuRenderer.Worker.Handlers.{serve}

-- A round. A timeout, also one within a message, goes on with the next round; any other failure ends
-- the loop.
unfoldable pub after_message :
    (Socket → Worker → Option Worker)
    → Host
    → Result FillError (ℕ × List ℕ) × Socket
    → Worker
    → Option Worker
after_message continue host (err (failed timeout), s) w = continue s w
after_message continue host (err (failed os_error), s) w = some w
after_message continue host (err closed, s) w = some w
after_message continue host (ok (msg_type, d), s) w = continue s (serve host msg_type d w)

-- None: there was not enough fuel. A shutdown ends the loop by its test.
unfoldable pub loop : ℕ → (ℕ → Host) → Socket → Worker → Option Worker
unfolding after_message recv_message
loop zero hosts s w = if w.running then none else some w
loop (suc fuel) hosts s w =
    let next =
      after_message (λ t v. loop fuel (λ n. hosts (n + 1)) t v) (hosts 0) (recv_message s) w in
    if w.running then next else some w

abbrev pub shut_down : Descriptor → Descriptor
shut_down none_yet = none_yet
shut_down opened = shut
shut_down shut = shut

-- `_cleanup`, from the descriptor on. The socket is closed. `unlinks`: whether the system removes the
-- name of the memory; an exception of that is dropped.
unfoldable pub clean_files : Bool → Worker → Worker
clean_files unlinks w = record w {
  descriptor = shut_down w.descriptor;
  shm = (if unlinks then unlink w.shm else w.shm);
}

-- The test of a closed map raises, outside the `try`.
unfoldable pub clean_mapping : Bool → Mapping → Call Unit
unfolding clean_files
clean_mapping unlinks absent w = (ok tt, clean_files unlinks w)
clean_mapping unlinks (mapped region) w =
    (ok tt, clean_files unlinks (record w { mapping = Mapping.closed }))
clean_mapping unlinks Mapping.closed w = (err map_closed, w)

-- `_cleanup`
unfoldable pub cleanup : Bool → Call Unit
unfolding clean_mapping
cleanup unlinks w = clean_mapping unlinks w.mapping w

unfoldable pub cleaned : Bool → Option Worker → Option (Result Error (Unit {0}) × Worker)
unfolding cleanup
cleaned unlinks none = none
cleaned unlinks (some w) = some (cleanup unlinks w)

-- `connects`: whether the connection to the parent is made.
unfoldable pub run :
    (connects unlinks : Bool)
    → ℕ
    → (ℕ → Host)
    → Socket
    → Worker
    → Option (Result Error (Unit {0}) × Worker)
unfolding loop cleaned
run connects unlinks fuel hosts s w =
    if connects then cleaned unlinks (loop fuel hosts s w) else some (cleanup unlinks w)

-- At the end of the stream the connection is closed.
recv_message_end : (s : Socket) → weight s ≡ 0 → recv_message s ≡ (err closed, s)
unfolding recv_message after_header weight recv
recv_message_end [] h = refl
recv_message_end (piece b bs ∷ s) h = absurd (omega arith)
recv_message_end (stall ∷ s) h = absurd (omega arith)
recv_message_end (failure ∷ s) h = absurd (omega arith)

abbrev Ends : Option Worker → Type 0
Ends o = (w : Worker) × (o ≡ some w)

after_message-Ends :
    (continue : Socket → Worker → Option Worker) (host : Host)
    (answer : Result FillError (ℕ × List ℕ) × Socket) (w : Worker)
    → ((v : Worker) → Ends (continue answer.1 v))
    → Ends (after_message continue host answer w)
unfolding after_message
after_message-Ends continue host (err (failed timeout), s) w next = next w
after_message-Ends continue host (err (failed os_error), s) w next = (w, refl)
after_message-Ends continue host (err closed, s) w next = (w, refl)
after_message-Ends continue host (ok (msg_type, d), s) w next = next (serve host msg_type d w)

if-Ends : (b : Bool) (o : Option Worker) (w : Worker) → Ends o → Ends (if b then o else some w)
if-Ends true o w h = h
if-Ends false o w h = (w, refl)

end_or_more : (n : ℕ) → (n ≡ 0) ⊎ (0 < n)
end_or_more zero = inl refl
end_or_more (suc n) = inr (omega arith)

-- One round more than there are bytes, stalls and failures to come is enough.
loop-Ends :
    (fuel : ℕ) (hosts : ℕ → Host) (s : Socket) (w : Worker)
    → weight s < fuel
    → Ends (loop fuel hosts s w)
unfolding loop
loop-Ends zero hosts s w h = absurd (omega arith)
loop-Ends (suc fuel) hosts s w h =
    let continue : Socket → Worker → Option Worker = λ t v. loop fuel (λ n. hosts (n + 1)) t v in
    if-Ends w.running (after_message continue (hosts 0) (recv_message s) w) w
      (elim (end_or_more (weight s)) [
        | inl end ↦
            let e : after_message continue (hosts 0) (recv_message s) w ≡ some w =
              ap (λ a. after_message continue (hosts 0) a w) (recv_message_end s end)
              ∙ unfold after_message in refl in
            (w, e)
        | inr more ↦ after_message-Ends continue (hosts 0) (recv_message s) w (λ v.
            loop-Ends fuel (λ n. hosts (n + 1)) (recv_message s).1 v
              (omega (arith, weight-recv_message s more)))
      ])

abbrev pub is_open : Descriptor → Bool
is_open opened = true
is_open d = false

abbrev pub is_mapped : Mapping → Bool
is_mapped (mapped region) = true
is_mapped m = false

-- What is left when the process ends.
abbrev pub Left : Bool → Result Error (Unit {0}) × Worker → Type 0
Left unlinks r =
    ((r.0 ≡ ok tt)
      × (is_mapped r.1.mapping ≡ false)
      × (is_open r.1.descriptor ≡ false)
      × ((unlinks && is_some r.1.shm.name) ≡ false))
    ⊎ ((r.0 ≡ err map_closed) × (r.1.mapping ≡ Mapping.closed))

shut_down-closed : (d : Descriptor) → is_open (shut_down d) ≡ false
shut_down-closed none_yet = refl
shut_down-closed opened = refl
shut_down-closed shut = refl

clean_files-name :
    (unlinks : Bool) (w : Worker) → (unlinks && is_some (clean_files unlinks w).shm.name) ≡ false
unfolding clean_files
clean_files-name true w = refl
clean_files-name false w = refl

clean_mapping-Left :
    (unlinks : Bool) (m : Mapping) (w : Worker)
    → w.mapping ≡ m
    → Left unlinks (clean_mapping unlinks m w)
unfolding clean_mapping clean_files
clean_mapping-Left unlinks absent w e =
    inl (refl, ap is_mapped e, shut_down-closed w.descriptor, clean_files-name unlinks w)
clean_mapping-Left unlinks (mapped region) w e =
    inl (refl, refl, shut_down-closed w.descriptor, clean_files-name unlinks w)
clean_mapping-Left unlinks Mapping.closed w e = inr (refl, e)

-- For every finite list of arrivals from the parent, cut in whatever pieces, whether or not the
-- connection is made, and whatever the system and the library answer, `run` ends after at most one round more than
-- there are bytes, stalls and failures to come. Then either the map and the descriptor are closed, and the name of
-- the shared memory is gone if the system lets it be removed, or the cleanup has raised the error of a map
-- that a resize has left closed.
pub run-Left :
    (connects unlinks : Bool) (fuel : ℕ) (hosts : ℕ → Host) (s : Socket) (w : Worker)
    → weight s < fuel
    → (r : Result Error (Unit {0}) × Worker) × (run connects unlinks fuel hosts s w ≡ some r)
      × Left unlinks r
unfolding run cleaned cleanup
run-Left true unlinks fuel hosts s w h =
    let (v, e) = loop-Ends fuel hosts s w h in
    (cleanup unlinks v, ap (cleaned unlinks) e, clean_mapping-Left unlinks v.mapping v refl)
run-Left false unlinks fuel hosts s w h =
    (cleanup unlinks w, refl, clean_mapping-Left unlinks w.mapping w refl)
