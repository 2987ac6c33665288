-- ===== src/Emulation/Qemu/Changes.antt =====
-- The states that the QEMU process is meant to enter, call by call, and what a callback hears of them.
use linblock.Prelude.{
  ℤ, Bool, ◌&&◌, not, if◌then◌else◌, is_some, string_eq, ◌==◌, true, false, Option, none, some,
  List, [], ◌∷◌, ◌++◌, Result, ok, err,
}
use linblock.Emulation.Qemu.Process.{
  QemuState, stopped, starting, running, stopping, error, same_state, is_zero, Error, QemuProcess,
  Spawn, lives, exits, spawned, Host, monitor_round, no_binary, raises, choose_ports, start, stop,
  force_stop, is_active,
}

-- Who is told of the changes hears of each state that is entered, unless it is the state before it.
abbrev pub heard : QemuState → List QemuState → List QemuState
heard from [] = []
heard from (s ∷ states) = (if same_state from s then [] else s ∷ []) ++ heard s states

abbrev pub last : QemuState → List QemuState → QemuState
last from [] = from
last from (s ∷ states) = last s states

-- What may happen to a process: calls, and rounds of the monitor thread between them.
pub data Event : Type 0 where
  call_start : Host → Event
  call_stop : Event
  call_force_stop : Event
  monitor : Option ℤ → Event

unfoldable pub handle : QemuProcess → Event → QemuProcess
handle p (call_start host) = (start host p).1
handle p call_stop = stop p
handle p call_force_stop = force_stop p
handle p (monitor poll) = monitor_round poll p

unfoldable pub run : QemuProcess → List Event → QemuProcess
run p [] = p
run p (event ∷ events) = run (handle p event) events

abbrev pub exit_state : ℤ → QemuState
exit_state code = if is_zero code then stopped else error

-- The states that a child goes through while `start` waits, the monitor's included.
abbrev pub launched : Spawn → List QemuState
launched no_binary = error ∷ []
launched (raises text) = error ∷ []
launched (spawned pid lives) = running ∷ []
launched (spawned pid (exits code stderr true)) = exit_state code ∷ error ∷ []
launched (spawned pid (exits code stderr false)) = error ∷ []

abbrev pub with_ports : Result Error (Unit {0}) → Spawn → List QemuState
with_ports (err e) spawn = []
with_ports (ok _) spawn = starting ∷ launched spawn

abbrev pub is_startable : Host → QemuProcess → Bool
is_startable host p =
    host.qemu_available && (not (p.config.system_image == "") && host.exists p.config.system_image)

-- The states that are meant to be entered: by a start STARTING and what becomes of the child, or ERROR where
-- there is nothing to start; by a stop STOPPING and STOPPED; by the monitor what the exit code says.
abbrev pub entered : QemuProcess → Event → List QemuState
entered p (call_start host) =
    if is_active p.state
    then []
    else if is_startable host p
    then with_ports (choose_ports host p).0 host.spawn
    else error ∷ []
entered p call_stop = if is_active p.state then stopping ∷ stopped ∷ [] else []
entered p call_force_stop = stopped ∷ []
entered p (monitor none) = []
entered p (monitor (some code)) =
    if not p.stop_event && is_some p.process then exit_state code ∷ [] else []

abbrev pub all_entered : QemuProcess → List Event → List QemuState
all_entered p [] = []
all_entered p (event ∷ events) = entered p event ++ all_entered (handle p event) events
