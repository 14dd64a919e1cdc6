-- ===== src/Kikka/EventLoop.antt =====
-- `run_with_listener` and `cleanup` of rs/crates/kikka/src/lib.rs: the one thread that owns the
-- controller, as steps over what it receives. Control connections and the clock run beside it, so
-- their steps come between: the lines of control clients (any of them, in any order) and time.
-- The closure that kills the process is the host's, and here it comes back, as in the source's
-- tests; what follows it in the loop is modelled too.
pub mod Audit
pub mod Ending
pub mod Invariant
pub mod Moves
pub mod Frames
pub mod Safety
pub mod Keeping
pub mod Buffers
pub mod Told
pub mod Records
pub mod Waiting
pub mod Struck
pub mod Fate
pub mod Relaxed
pub mod Interrupted
pub mod Liveness
use Prim.Native.String.{String}
use ningen_shikkaku.Base.{
  ℕ, ◌+◌, Bool, true, false, not, ◌&&◌, Option, none, some, List, [], ◌∷◌, map, length, ◌==◌,
  if◌then◌else◌,
}
use ningen_shikkaku.Base.Text.{Bytes}
use ningen_shikkaku.Goodnight.Buffer.{SecretBuffer, wipe}
use ningen_shikkaku.Goodnight.Process.{Kernel}
use ningen_shikkaku.Kiroku.{Lifecycle, Reason, ArmVia}
use ningen_shikkaku.Kikka.Panic.{Controller, new, request_graceful, request_hard, cancel, tick}
use ningen_shikkaku.Kikka.Daemon.{Daemon, collaborators, emit, wipe_buffers, count_u32}
use ningen_shikkaku.Kikka.Control.{process_control}

-- The signals that the daemon installs handlers for.
pub data Signal : Type 0 where
  sigusr1 sigusr2 sigterm sigint : Signal

pub data Event : Type 0 where
  connected : (generation : ℕ) → Event
  heartbeat_lost : (generation : ℕ) → Event
  ping_timeout : (generation : ℕ) → Event
  cancels quits : Event
  signal : Signal → Event

-- What `recv` or `recv_timeout` gives.
pub data Received : Type 0 where
  event : Event → Received
  timed_out disconnected : Received

pub record Watchdog : Type 0 where
  pub controller : Controller
  pub daemon : Daemon
  pub current_gen : ℕ
  pub present : Bool
  pub ended : Option Reason

abbrev Operation : Type 0
Operation = Controller → Daemon → Controller × Daemon

abbrev pub drive : Operation → Watchdog → Watchdog
drive f w = record w {
  controller = (f w.controller w.daemon).0;
  daemon = (f w.controller w.daemon).1;
}

-- Points the lifecycle records at a reason.
abbrev pub triggered : Reason → Watchdog → Watchdog
triggered r w = record w { daemon = record w.daemon { trigger = r } }

-- `cleanup`: a trigger that has fired has recorded its wipe already.
unfoldable pub cleanup : Reason → Watchdog → Watchdog
cleanup end w =
    let d = wipe_buffers w.daemon in
    let d1 =
      if w.controller.fired
      then d
      else emit (Lifecycle.wipe end (count_u32 (length w.daemon.buffers))) d in
    record w { daemon = record (emit (Lifecycle.session_end end) d1) { socket = false } }

-- The end of the loop and the clean-up behind it.
unfoldable pub leave : Reason → Watchdog → Watchdog
unfolding cleanup
leave end w = cleanup end (record w { ended = some end })

-- A step of the loop's thread on what it receives, a line of some control client, or time.
pub data Action : Type 0 where
  receives : Received → Action
  requests : (line : Bytes) → Action
  elapses : ℕ → Action

module _ (k : Kernel) where
  abbrev pub graceful : Reason → String → Watchdog → Watchdog
  graceful r why w = drive (request_graceful (collaborators k) why) (triggered r w)

  -- The loop drops the flag that `cancel` returns.
  abbrev pub cancelling : String → Watchdog → Watchdog
  cancelling why w =
      let (c, d, _) = cancel (collaborators k) why w.controller w.daemon in
      record w { controller = c; daemon = d }

  -- A loss counts only for the generation that is believed to be live.
  abbrev pub is_live : ℕ → Watchdog → Bool
  is_live g w = w.present && g == w.current_gen

  unfoldable pub lose : Reason → String → ℕ → Watchdog → Watchdog
  lose r why g w = if is_live g w then graceful r why (record w { present = false }) else w

  unfoldable pub on_signal : Signal → Watchdog → Watchdog
  on_signal sigusr1 w = graceful Reason.panic_signal "SIGUSR1 panic signal" w
  on_signal sigusr2 w =
      drive (request_hard (collaborators k) "SIGUSR2 hard panic")
        (triggered Reason.hard_panic_signal w)
  on_signal _ w = leave Reason.shutdown w

  unfoldable pub on_event : Event → Watchdog → Watchdog
  unfolding lose on_signal
  on_event (connected g) w =
      cancelling "client reconnected" (record w { current_gen = g; present = true })
  on_event (heartbeat_lost g) w = lose Reason.heartbeat_lost "heartbeat connection dropped" g w
  on_event (ping_timeout g) w = lose Reason.ping_timeout "ping deadline missed" g w
  on_event cancels w = cancelling "client CANCEL" w
  on_event quits w = leave Reason.client_quit w
  on_event (signal s) w = on_signal s w

  unfoldable pub on_received : Received → Watchdog → Watchdog
  unfolding on_event
  on_received (event e) w = on_event e w
  on_received timed_out w = drive (tick (collaborators k) w.daemon.now) w
  on_received disconnected w = leave Reason.shutdown w

  -- One round of the loop. The stop flag is looked at before the channel.
  unfoldable pub iterate : Received → Watchdog → Watchdog
  iterate r w = elim w.ended [
    | some _ ↦ w
    | none ↦ if w.daemon.stop then leave w.daemon.trigger w else on_received r w
  ]

  -- `grace` is the window in seconds that a status reply shows.
  unfoldable pub act : ℕ → Action → Watchdog → Watchdog
  act grace (receives r) w = iterate r w
  act grace (requests line) w = record w { daemon = (process_control k grace line w.daemon).0 }
  act grace (elapses n) w = record w { daemon = record w.daemon { now = w.daemon.now + n } }

  unfoldable pub run : ℕ → List Action → Watchdog → Watchdog
  run grace [] w = w
  run grace (a ∷ rest) w = run grace rest (act grace a w)

abbrev pub start_daemon : (now : ℕ) (armed sink : Bool) → List SecretBuffer → Daemon
start_daemon now armed sink buffers = record {
  armed = armed;
  registered = [];
  buffers = buffers;
  stop = false;
  trigger = Reason.shutdown;
  sink = sink;
  socket = true;
  now = now;
  trace = [];
}

-- The state at the head of the loop: `Watchdog::new`, the socket bound, and the first records.
unfoldable pub start : (grace now : ℕ) (armed sink : Bool) → List SecretBuffer → Watchdog
start grace now armed sink buffers =
    let d = emit (Lifecycle.session_start armed) (start_daemon now armed sink buffers) in
    record {
      controller = new grace;
      daemon = if armed then emit (Lifecycle.arm ArmVia.startup) d else d;
      current_gen = 0;
      present = false;
      ended = none;
    }
