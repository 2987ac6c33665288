-- ===== src/Emulation/GpuRenderer/Process/Start.antt =====
-- Starting the renderer, on every branch, and stopping it.
use mathlib.Core.Path.{subst}
use linblock.Prelude.{
  ℕ, String, false, ◌||◌, ◌≡◌, refl, ap, ◌∙◌, ◌⊎◌, inl, inr, Option, none, some, List, [], ◌++◌,
  arith, is_some, if◌then◌else◌, Bool-cases, Result, ok, err, ◌>>◌, >>=-Holds, nat_beq,
}
use Prim.Native.String.{◌++◌ as ◌<>◌}
use linblock.Socket.{Socket}
use linblock.Socket.Fill.{FillError, closed, failed}
use linblock.Emulation.GpuRenderer.Message.{pack, msg_init, msg_shutdown, rsp_ok, recv_message}
use linblock.Emulation.GpuRenderer.Process.{
  ProcessState, stopped, starting, running, stopping, error, same_state, Error, process_error,
  Process, Host, Launch, launch_fails, never_connects, connects, set_state, send_packed,
  send_message, send_shutdown, stop, give_up, text_of, launched, conclude, start, received,
  read_from, recv_response, refuse_start, accept_start, command_line, refusal,
}

set_state_fields :
    (s : ProcessState) (p : Process)
    → ((set_state s p).state ≡ s)
      × ((set_state s p).process ≡ p.process)
      × ((set_state s p).socket ≡ p.socket)
      × ((set_state s p).error_message ≡ p.error_message)
unfolding set_state
set_state_fields s p = ground arith

send_packed_error :
    (host : Host) (o : Option (List ℕ)) (p : Process)
    → (send_packed host o p).1.error_message ≡ p.error_message
unfolding send_packed
send_packed_error host none p = refl
send_packed_error host (some bytes) p = ground arith

send_message_error :
    (host : Host) (msg_type : ℕ) (d : List ℕ) (p : Process)
    → (send_message host msg_type d p).1.error_message ≡ p.error_message
unfolding send_message
send_message_error host msg_type d p = elim (Bool-cases (is_some p.socket)) [
  | inl there ↦ rw there (send_packed_error host (pack msg_type d) p)
  | inr gone ↦ rw gone refl
]

where_connected :
    (o : Option Socket) (v p : Process)
    → p.socket ≡ o
    → v.socket ≡ none
    → v.error_message ≡ p.error_message
    → ((if is_some o then v else p).socket ≡ none)
      × ((if is_some o then v else p).error_message ≡ p.error_message)
where_connected none v p e f g = (e, refl)
where_connected (some s) v p e f g = (f, g)

send_shutdown_fields :
    (host : Host) (p : Process)
    → ((send_shutdown host p).socket ≡ none)
      × ((send_shutdown host p).error_message ≡ p.error_message)
unfolding send_shutdown
send_shutdown_fields host p =
    where_connected p.socket (record ((send_message host msg_shutdown [] p).1) { socket = none }) p
      refl refl (send_message_error host msg_shutdown [] p)

-- Nothing is left of the child and its connection, and the error message is that text.
pub record IsStopped (text : String) (p : Process) : Type 0 where
  pub state : p.state ≡ stopped
  pub socket : p.socket ≡ none
  pub process : p.process ≡ none
  pub error_message : p.error_message ≡ text

stop-IsStopped :
    (host : Host) (p : Process)
    → same_state p.state stopped ≡ false
    → IsStopped p.error_message (stop host p)
unfolding stop
stop-IsStopped host p other =
    let v = set_state stopping p in
    let f = send_shutdown_fields host v in
    let u : Process = record (send_shutdown host v) { process = none } in
    let g = set_state_fields stopped u in
    simp other (record {
      state = g.0;
      socket = g.2 ∙ f.0;
      process = g.1;
      error_message = g.3 ∙ f.1 ∙ (set_state_fields stopping p).3;
    })

give_up-IsStopped :
    (host : Host) (text : String) (p : Process) → IsStopped text (give_up host text p).1
unfolding give_up
give_up-IsStopped host text p =
    let v : Process = record p { error_message = text } in
    let f = set_state_fields error v in
    subst (λ t. IsStopped t (stop host (set_state error v))) f.3
      (stop-IsStopped host (set_state error v) (ap (λ s. same_state s stopped) f.0))

-- What a start comes to, from what its `try` has come to.
Started : Host → Result Error (Unit {0}) × Process → Result Error (Unit {0}) × Process → Type 0
Started host (ok _, v) r = (r.0 ≡ ok tt) × (r.1.state ≡ running) × (r.1.process ≡ v.process)
Started host (err e, v) r =
    (r.0 ≡ err (process_error (text_of host e))) × IsStopped (text_of host e) r.1

conclude-Started :
    (host : Host) (t : Result Error (Unit {0}) × Process) → Started host t (conclude host t)
unfolding Started conclude
conclude-Started host (ok tt, v) =
    (refl, (set_state_fields running v).0, (set_state_fields running v).1)
conclude-Started host (err e, v) =
    (unfold give_up in refl, give_up-IsStopped host (text_of host e) v)

-- The command of the child stays while it is spoken to.
abbrev Runs : List String → Process → Type 0
Runs command p = p.process ≡ some command

module _ (host : Host) (command : List String) where
  send_packed-Runs :
      (o : Option (List ℕ)) (p : Process) → Runs command p → Runs command (send_packed host o p).1
  unfolding send_packed
  send_packed-Runs none p h = h
  send_packed-Runs (some bytes) p h = ground arith

  send_message-Runs :
      (msg_type : ℕ) (d : List ℕ) (p : Process)
      → Runs command p
      → Runs command (send_message host msg_type d p).1
  unfolding send_message
  send_message-Runs msg_type d p h = elim (Bool-cases (is_some p.socket)) [
    | inl there ↦ rw there (send_packed-Runs (pack msg_type d) p h)
    | inr gone ↦ rw gone h
  ]

  received-Runs :
      (p : Process) (r : Result FillError (ℕ × List ℕ) × Socket)
      → Runs command p
      → Runs command (received p r).1
  unfolding received
  received-Runs p (ok m, s) h = h
  received-Runs p (err closed, s) h = h
  received-Runs p (err (failed e), s) h = h

  recv_response-Runs : (p : Process) → Runs command p → Runs command (recv_response host p).1
  unfolding recv_response
  recv_response-Runs p h = read_from-Runs p.socket
    where
      read_from-Runs : (o : Option Socket) → Runs command (read_from o host p).1
      read_from-Runs none = unfold read_from in h
      read_from-Runs (some s) =
          unfold read_from in received-Runs p (recv_message (s ++ host.reply)) h

  refuse_start-Runs :
      (o : Option String) (p : Process) → Runs command p → Runs command (refuse_start o p).1
  unfolding refuse_start
  refuse_start-Runs none p h = h
  refuse_start-Runs (some text) p h =
      (set_state_fields error (record p { error_message = refusal <> text })).1 ∙ h

  accept_start-Runs :
      (m : ℕ × List ℕ) (p : Process) → Runs command p → Runs command (accept_start host m p).1
  unfolding accept_start
  accept_start-Runs (status, d) p h = elim (Bool-cases (nat_beq status rsp_ok)) [
    | inl fine ↦ rw fine h
    | inr refused ↦ rw refused (refuse_start-Runs (host.decode d) p h)
  ]

-- A start that gets through its `try` has a child with that command.
launched-ok :
    (launch : Launch) (host : Host) (p : Process)
    → (launched launch host p).0 ≡ ok tt
    → Runs (command_line host p.config) (launched launch host p).1
unfolding launched
launched-ok (launch_fails text) host p h = absurd (cc)
launched-ok never_connects host p h = absurd (cc)
launched-ok connects host p h =
    let command = command_line host p.config in
    let v : Process = record p { process = some command; socket = some [] } in
    >>=-Holds {P = Runs command} (send_message host msg_init [] >> recv_response host)
      (accept_start host) v (accept_start-Runs host command)
      (>>=-Holds {P = Runs command} (send_message host msg_init []) (λ _. recv_response host) v
        (λ _. recv_response-Runs host command) (send_message-Runs host command msg_init [] v refl))

outcome :
    (host : Host) (command : List String) (t r : Result Error (Unit {0}) × Process)
    → Started host t r
    → (t.0 ≡ ok tt → Runs command t.1)
    → ((r.0 ≡ ok tt) × (r.1.state ≡ running) × (r.1.process ≡ some command))
      ⊎ ((text : String) × (r.0 ≡ err (process_error text)) × IsStopped text r.1)
unfolding Started
outcome host command (ok tt, v) r s runs = inl (s.0, s.1, s.2 ∙ runs refl)
outcome host command (err e, v) r s runs = inr (text_of host e, s.0, s.1)

-- A start either returns, when the state is RUNNING and the child has the command of the
-- configuration, or raises a RendererProcessError, when nothing is left of the child and the connection, the state is
-- STOPPED and not ERROR, and the error message is that of the exception. It is not called while the renderer runs or starts.
pub start_lem :
    (host : Host) (p : Process)
    → (same_state p.state running || same_state p.state starting) ≡ false
    → (((start host p).0 ≡ ok tt)
        × ((start host p).1.state ≡ running)
        × ((start host p).1.process ≡ some (command_line host p.config)))
      ⊎ ((text : String) × ((start host p).0 ≡ err (process_error text))
          × IsStopped text (start host p).1)
unfolding start
start_lem host p idle =
    let v = set_state starting p in
    let t = launched host.launch host v in
    let config : (set_state starting p).config ≡ p.config = unfold set_state in ground arith in
    rw idle (
      outcome host (command_line host p.config) t (conclude host t) (conclude-Started host t)
        (λ h. launched-ok host.launch host v h ∙ ap (λ c. some (command_line host c)) config))
