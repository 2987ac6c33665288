-- ===== src/Emulation/Qemu/Callbacks.antt =====
-- What the callbacks of the QEMU process are told of its states.
use Prim.Native.String.{◌++◌ as ◌<>◌}
use linblock.Prelude.{
  ℕ, ℤ, String, if◌then◌else◌, sym, ap, append_assoc, append-nil, string_eq, ◌==◌, ◌≡◌, refl, true,
  false, Option, none, some, List, [], ◌∷◌, ◌++◌, Result, ok, err, inl, inr, ◌>>◌, >>=-Holds, ◌∙◌,
  Bool-cases, Option-cases,
}
use linblock.Emulation.Qemu.Config.{QemuConfig}
use linblock.Emulation.Qemu.Command.{build_command}
use linblock.Emulation.Qemu.Process.{
  QemuState, stopped, starting, running, stopping, error, same_state, is_zero, Error, QemuProcess,
  new_process, add_state_callback, set_state, Spawn, lives, exits, spawned, Host, fail,
  monitor_round, monitor_exit, no_binary, raises, free_port, choose_ports, choose_adb, choose_vnc,
  enter_starting, confirm, launch, check, start, stop, force_stop, is_active,
}
use linblock.Emulation.Qemu.Changes.{
  heard, last, Event, call_start, call_stop, call_force_stop, monitor, handle, run, exit_state,
  launched, with_ports, entered, all_entered,
}

-- From one process to another through those states, with a listener that has heard of them.
record Goes (p : QemuProcess) (states : List QemuState) (q : QemuProcess) : Type 0 where
  listening : q.listening ≡ true
  notified : q.notified ≡ p.notified ++ heard p.state states
  state : q.state ≡ last p.state states

heard-append :
    (from : QemuState) (xs ys : List QemuState)
    → heard from (xs ++ ys) ≡ heard from xs ++ heard (last from xs) ys
heard-append from [] ys = refl
heard-append from (x ∷ xs) ys =
    let first = if same_state from x then [] else x ∷ [] in
    ap (λ l. first ++ l) (heard-append x xs ys)
    ∙ sym (append_assoc first (heard x xs) (heard (last x xs) ys))

last-append :
    (from : QemuState) (xs ys : List QemuState) → last from (xs ++ ys) ≡ last (last from xs) ys
last-append from [] ys = refl
last-append from (x ∷ xs) ys = last-append x xs ys

Goes-trans :
    {p q r : QemuProcess} (xs ys : List QemuState) → Goes p xs q → Goes q ys r → Goes p (xs ++ ys) r
Goes-trans {p} {q} {r} xs ys g h = record {
  listening = h.listening;
  notified =
      h.notified
      ∙ ap (λ l. l ++ heard q.state ys) g.notified
      ∙ ap (λ s. (p.notified ++ heard p.state xs) ++ heard s ys) g.state
      ∙ append_assoc p.notified (heard p.state xs) (heard (last p.state xs) ys)
      ∙ ap (λ l. p.notified ++ l) (sym (heard-append p.state xs ys));
  state = h.state ∙ ap (λ s. last s ys) g.state ∙ sym (last-append p.state xs ys);
}

-- The fields that are read of the first process, or of the second, are as they were.
Goes-from :
    {p p' q : QemuProcess} {states : List QemuState}
    → p'.notified ≡ p.notified
    → p'.state ≡ p.state
    → Goes p' states q
    → Goes p states q
Goes-from {p} {p'} {q} {states} n s g = record {
  listening = g.listening;
  notified =
      g.notified
      ∙ ap (λ l. l ++ heard p'.state states) n
      ∙ ap (λ s. p.notified ++ heard s states) s;
  state = g.state ∙ ap (λ s. last s states) s;
}

Goes-to :
    {p q : QemuProcess} {states : List QemuState} (r : QemuProcess)
    → Goes p states q
    → r.listening ≡ q.listening
    → r.notified ≡ q.notified
    → r.state ≡ q.state
    → Goes p states r
Goes-to r g l n s = record {
  listening = l ∙ g.listening;
  notified = n ∙ g.notified;
  state = s ∙ g.state;
}

Goes-stay : (p : QemuProcess) → p.listening ≡ true → Goes p [] p
Goes-stay p l = record { listening = l; notified = sym (append-nil p.notified); state = refl }

set_state-Goes :
    (s : QemuState) (p : QemuProcess) → p.listening ≡ true → Goes p (s ∷ []) (set_state s p)
unfolding set_state
set_state-Goes s p l = elim (Bool-cases (same_state p.state s)) [
  | inl same ↦
      simp (l, same)
        (record {
          listening = refl;
          notified = rw same (sym (append-nil p.notified));
          state = refl;
        })
  | inr apart ↦
      simp (l, apart) (record { listening = refl; notified = rw apart refl; state = refl })
]

fail-Goes :
    (text : String) (p : QemuProcess) → p.listening ≡ true → Goes p (error ∷ []) (fail text p).1
unfolding fail
fail-Goes text p l =
    Goes-from refl refl (set_state-Goes error (record p { error_message = text }) l)

monitor_exit-Goes :
    (code : ℤ) (p : QemuProcess)
    → p.listening ≡ true
    → Goes p (exit_state code ∷ []) (monitor_exit code p)
unfolding monitor_exit
monitor_exit-Goes code p l = elim (Bool-cases (is_zero code)) [
  | inl clean ↦ rw clean (Goes-to _ (set_state-Goes stopped p l) refl refl refl)
  | inr broken ↦ rw broken (
      Goes-to _ (Goes-from refl refl (set_state-Goes error (record p { error_message = _ }) l)) refl
        refl refl)
]

abbrev with_child : Host → ℕ → QemuProcess → QemuProcess
with_child host pid p = record p {
  process = some (build_command host.kvm_available p.config);
  pid = some pid;
  monitor_thread = true;
}

launch-Goes :
    (host : Host) (spawn : Spawn) (p : QemuProcess)
    → p.listening ≡ true
    → Goes p (launched spawn) (launch host spawn p).1
unfolding launch confirm
launch-Goes host no_binary p l = fail-Goes _ p l
launch-Goes host (raises text) p l = fail-Goes text p l
launch-Goes host (spawned pid lives) p l =
    Goes-from refl refl (set_state-Goes running (with_child host pid p) l)
launch-Goes host (spawned pid (exits code stderr true)) p l =
    let g = monitor_exit-Goes code (with_child host pid p) l in
    Goes-from refl refl
      (Goes-trans (exit_state code ∷ []) (error ∷ []) g (fail-Goes _ _ g.listening))
launch-Goes host (spawned pid (exits code stderr false)) p l =
    Goes-from refl refl (fail-Goes _ (with_child host pid p) l)

enter_starting-Goes :
    (p : QemuProcess) → p.listening ≡ true → Goes p (starting ∷ []) (enter_starting p).1
unfolding enter_starting
enter_starting-Goes p l = Goes-to _ (set_state-Goes starting p l) refl refl refl

choose_adb-stays :
    (r : Result Error ℕ) (p : QemuProcess) → Goes p [] p → Goes p [] (choose_adb r p).1
unfolding choose_adb
choose_adb-stays (err e) p v = v
choose_adb-stays (ok port) p v = Goes-to _ v refl refl refl

choose_vnc-stays :
    (o p : QemuProcess) (r : Result Error ℕ) → Goes o [] p → Goes o [] (choose_vnc r p).1
unfolding choose_vnc
choose_vnc-stays o p (err e) v = v
choose_vnc-stays o p (ok port) v = Goes-to _ v refl refl refl

choose_ports-stays :
    (host : Host) (p : QemuProcess) → p.listening ≡ true → Goes p [] (choose_ports host p).1
unfolding choose_ports
choose_ports-stays host p l =
    >>=-Holds (λ p. choose_adb (free_port host p.config.adb_port) p)
      (λ _ p. choose_vnc (free_port host p.config.vnc_port) p) p (λ _ q g. choose_vnc-stays p q _ g)
      (choose_adb-stays _ p (Goes-stay p l))

after_ports-Goes :
    (host : Host) (p q : QemuProcess) (r : Result Error (Unit {0}))
    → Goes p [] q
    → Goes p
        (with_ports r host.spawn)
        (((λ _. (r, q)) >> (enter_starting >> launch host host.spawn)) p).1
after_ports-Goes host p q (err e) still = still
after_ports-Goes host p q (ok tt) still =
    let begun = enter_starting-Goes q still.listening in
    Goes-trans [] (starting ∷ launched host.spawn) still (
      Goes-trans (starting ∷ []) (launched host.spawn) begun
        (unfold enter_starting in launch-Goes host host.spawn (enter_starting q).1 begun.listening))

-- After the checks.
after_check-Goes :
    (host : Host) (p : QemuProcess)
    → p.listening ≡ true
    → Goes p
        (with_ports (choose_ports host p).0 host.spawn)
        ((choose_ports host >> (enter_starting >> launch host host.spawn)) p).1
after_check-Goes host p l =
    after_ports-Goes host p (choose_ports host p).1 (choose_ports host p).0
      (choose_ports-stays host p l)

start-Goes :
    (host : Host) (p : QemuProcess)
    → p.listening ≡ true
    → Goes p (entered p (call_start host)) (start host p).1
unfolding start check fail
start-Goes host p l = elim (Bool-cases (is_active p.state)) [
  | inl active ↦ simp active (Goes-stay p l)
  | inr idle ↦ elim (Bool-cases host.qemu_available) [
    | inr missing ↦
        simp (idle, missing) (fail-Goes "QEMU binary 'qemu-system-x86_64' not found" p l)
    | inl available ↦ elim (Bool-cases (p.config.system_image == "")) [
      | inl no_image ↦ simp (idle, available, no_image) (fail-Goes "No system image specified" p l)
      | inr image ↦ elim (Bool-cases (host.exists p.config.system_image)) [
        | inl there ↦ simp (idle, available, image, there) (after_check-Goes host p l)
        | inr absent ↦
            simp (idle, available, image, absent)
              (fail-Goes ("System image not found: " <> p.config.system_image) p l)
      ]
    ]
  ]
]

stop-Goes : (p : QemuProcess) → p.listening ≡ true → Goes p (entered p call_stop) (stop p)
unfolding stop
stop-Goes p l = elim (Bool-cases (is_active p.state)) [
  | inr idle ↦ rw idle (Goes-stay p l)
  | inl active ↦
      let g = set_state-Goes stopping p l in
      rw active (
        Goes-trans (stopping ∷ []) (stopped ∷ []) (Goes-to _ g refl refl refl)
          (set_state-Goes stopped _ g.listening))
]

monitor_round-Goes :
    (poll : Option ℤ) (p : QemuProcess)
    → p.listening ≡ true
    → Goes p (entered p (monitor poll)) (monitor_round poll p)
unfolding monitor_round
monitor_round-Goes none p l = Goes-stay p l
monitor_round-Goes (some code) p l = elim (Bool-cases p.stop_event) [
  | inl set ↦ simp set (Goes-stay p l)
  | inr clear ↦ elim (Option-cases p.process) [
    | inl gone ↦ simp (clear, gone) (Goes-stay p l)
    | inr (command, there) ↦ simp (clear, there) (monitor_exit-Goes code p l)
  ]
]

handle-Goes :
    (p : QemuProcess) (event : Event)
    → p.listening ≡ true
    → Goes p (entered p event) (handle p event)
unfolding handle force_stop
handle-Goes p (call_start host) l = start-Goes host p l
handle-Goes p call_stop l = stop-Goes p l
handle-Goes p call_force_stop l = Goes-from refl refl (set_state-Goes stopped _ l)
handle-Goes p (monitor poll) l = monitor_round-Goes poll p l

run-Goes :
    (p : QemuProcess) (events : List Event)
    → p.listening ≡ true
    → Goes p (all_entered p events) (run p events)
unfolding run
run-Goes p [] l = Goes-stay p l
run-Goes p (event ∷ events) l =
    let g = handle-Goes p event l in
    Goes-trans (entered p event) (all_entered (handle p event) events) g
      (run-Goes (handle p event) events g.listening)

-- However calls and rounds of the monitor follow one another, a callback that was registered on the
-- new process has been told, in order, of each state that these are meant to enter, unless it was the state
-- already, and of no other; and the last of them is the state of the process.
pub notified_lem :
    (config : QemuConfig) (events : List Event)
    → ((run (add_state_callback (new_process config)) events).notified
        ≡ heard stopped (all_entered (add_state_callback (new_process config)) events))
      × ((run (add_state_callback (new_process config)) events).state
          ≡ last stopped (all_entered (add_state_callback (new_process config)) events))
unfolding add_state_callback new_process
notified_lem config events =
    let g = run-Goes (add_state_callback (new_process config)) events refl in (g.notified, g.state)
