-- ===== src/Kikka/EventLoop/Liveness.antt =====
-- What losing the heartbeat does, and what a reconnection undoes.
use Prim.Native.String.{String}
use ningen_shikkaku.Base.{
  ℕ, ◌+◌, ◌<◌, ◌≡◌, ◌≢◌, refl, sym, ap, ◌∙◌, ◌⊎◌, inl, inr, Bool, true, false, none, some, [], ◌∷◌,
  ◌++◌, arith, if◌then◌else◌, Bool-cases, leb, subst,
}
use ningen_shikkaku.Goodnight.Process.{Kernel}
use ningen_shikkaku.Kiroku.{Reason}
use ningen_shikkaku.Kikka.Panic.{Controller, request_graceful, execute, cancel, tick}
use ningen_shikkaku.Kikka.Daemon.{Daemon, collaborators, wipe_all, kill_self, kill_registered}
use ningen_shikkaku.Kikka.EventLoop.Audit.{watching, dead, audit, verdict, verdict_destroy}
use ningen_shikkaku.Kikka.EventLoop.Interrupted.Shots.{shots, signalled_pids, destroy-shots}
use ningen_shikkaku.Kikka.EventLoop.Safety.{iterate_running}
use ningen_shikkaku.Kikka.EventLoop.{
  Watchdog, receives, elapses, event, timed_out, connected, heartbeat_lost, ping_timeout, graceful,
  on_received, iterate, act, run,
}

-- A loss is stale when no client is present, or its generation is not the one that is live.
abbrev pub IsStale : ℕ → Watchdog → Type 0
IsStale g w = (w.present ≡ false) ⊎ (g ≢ w.current_gen)

-- A stale loss, by a dropped connection or by a missed ping, changes nothing: neither the
-- controller nor the daemon nor the belief about who is connected.
pub stale_ignored :
    (k : Kernel) (g : ℕ) (w : Watchdog)
    → IsStale g w
    → (on_received k (event (heartbeat_lost g)) w ≡ w)
      × (on_received k (event (ping_timeout g)) w ≡ w)
unfolding on_received
stale_ignored k g w s = (ground arith, ground arith)

-- From a daemon that was watching to another: where it was struck, it has signalled its registered
-- processes, zeroized its buffers, and called the lethal closure, in this order, and signalled no
-- others; otherwise it has done nothing.
abbrev pub IsStruck : (over : Bool) → Daemon → Daemon → Type 0
IsStruck true d d' = (verdict d' ≡ some dead) × (shots d' ≡ shots d ++ d.registered)
IsStruck false d d' = d'.trace ≡ d.trace

pub destroy-IsStruck :
    (k : Kernel) (over : Bool) (d d1 : Daemon)
    → d1.trace ≡ d.trace
    → d1.registered ≡ d.registered
    → verdict d ≡ some watching
    → IsStruck over d (if over then kill_self (wipe_all (kill_registered k d1)) else d1)
destroy-IsStruck k true d d1 e r v = (
  verdict_destroy k d1 (ap (audit (some watching)) e ∙ v),
  destroy-shots k d1 ∙ ap (λ es. signalled_pids es ++ d1.registered) e ∙ ap (λ ps. shots d ++ ps) r,
)
destroy-IsStruck k false d d1 e r v = e

-- Running normally: nothing fired, nothing ended, and a client of this generation is connected.
pub record IsWatching (g : ℕ) (w : Watchdog) : Type 0 where
  pub open_loop : w.ended ≡ none
  pub not_stopped : w.daemon.stop ≡ false
  pub unfired : w.controller.fired ≡ false
  pub is_present : w.present ≡ true
  pub current : w.current_gen ≡ g
  pub calm : verdict w.daemon ≡ some watching

pub execute_unfired :
    (k : Kernel) (why : String) (c : Controller) (d : Daemon)
    → c.fired ≡ false
    → (execute (collaborators k) why c d).1 ≡ kill_self (wipe_all (kill_registered k d))
unfolding execute
execute_unfired k why c d f = ground arith

shifted : (t g n : ℕ) → leb (t + g) (t + n) ≡ leb g n
shifted t g n = ground arith

-- A daemon that waits for the grace window of a lost heartbeat to end.
awaiting : Watchdog → Watchdog
awaiting w = record w {
  present = false;
  controller = record w.controller { deadline = some (w.daemon.now + w.controller.grace) };
  daemon = record w.daemon { trigger = Reason.heartbeat_lost };
}

-- A daemon whose lost heartbeat is made good by a client of generation `g'`.
rescued : ℕ → ℕ → Watchdog → Watchdog
rescued m g' w = record w {
  current_gen = g';
  present = true;
  controller = record w.controller { deadline = none };
  daemon = record w.daemon { trigger = Reason.heartbeat_lost; now = w.daemon.now + m };
}

-- The same daemon later, its window not over or over.
abbrev pub later : ℕ → Watchdog → Watchdog
later n w = record w { daemon = record w.daemon { now = w.daemon.now + n } }

module _ (k : Kernel) (g : ℕ) (w : Watchdog) (v : IsWatching g w) where
  on_lost :
      on_received k (event (heartbeat_lost g)) w
      ≡ graceful k Reason.heartbeat_lost "heartbeat connection dropped"
          (record w { present = false })
  unfolding on_received
  on_lost = ground arith

  iterate_lost :
      iterate k (event (heartbeat_lost g)) w
      ≡ graceful k Reason.heartbeat_lost "heartbeat connection dropped"
          (record w { present = false })
  iterate_lost = iterate_running k (event (heartbeat_lost g)) w v.open_loop v.not_stopped ∙ on_lost

  module _ (a : w.daemon.armed ≡ true) (h : 0 < w.controller.grace) where
    iterate_awaits : iterate k (event (heartbeat_lost g)) w ≡ awaiting w
    unfolding awaiting request_graceful
    iterate_awaits = iterate_lost ∙ ground arith

    tick_later :
        (n : ℕ)
        → let d = (later n (awaiting w)).daemon in
          (on_received k timed_out (later n (awaiting w))).daemon
          ≡ (if leb w.controller.grace n then kill_self (wipe_all (kill_registered k d)) else d)
    unfolding on_received awaiting tick
    tick_later n = elim (Bool-cases (leb w.controller.grace n)) [
      | inl over ↦
          rw (shifted w.daemon.now w.controller.grace n, over)
            (execute_unfired k "grace window expired" (later n (awaiting w)).controller
              (later n (awaiting w)).daemon v.unfired)
      | inr early ↦ rw (shifted w.daemon.now w.controller.grace n, early) refl
    ]

    -- An armed daemon that loses its live heartbeat, and looks at its timer `n` ticks later with
    -- no one connected in between, has signalled exactly its registered processes, wiped, and
    -- killed itself, in this order, exactly when the grace window is over; before that nothing is
    -- added to what it has done.
    pub loss_kills :
        (secs n : ℕ)
        → let d =
            (run k secs
              (receives (event (heartbeat_lost g)) ∷ elapses n ∷ receives timed_out ∷ [])
              w).daemon in
          IsStruck (leb w.controller.grace n) w.daemon d
    unfolding run act awaiting
    loss_kills secs n =
        subst (IsStruck (leb w.controller.grace n) w.daemon)
          (sym (
            ap (λ x. (iterate k timed_out (later n x)).daemon) iterate_awaits
            ∙ ap (λ (x : Watchdog). x.daemon)
                (iterate_running k timed_out (later n (awaiting w)) v.open_loop v.not_stopped)
            ∙ tick_later n))
          (destroy-IsStruck k (leb w.controller.grace n) w.daemon (later n (awaiting w)).daemon refl
            refl v.calm)

    reconnects :
        (m g' : ℕ) → iterate k (event (connected g')) (later m (awaiting w)) ≡ rescued m g' w
    unfolding on_received awaiting rescued cancel
    reconnects m g' =
        iterate_running k (event (connected g')) (later m (awaiting w)) v.open_loop v.not_stopped

  stays_rescued :
      (m n g' : ℕ) → iterate k timed_out (later n (rescued m g' w)) ≡ later n (rescued m g' w)
  unfolding on_received rescued tick
  stays_rescued m n g' =
      iterate_running k timed_out (later n (rescued m g' w)) v.open_loop v.not_stopped

  rescued-IsWatching :
      (m n g' : ℕ)
      → let w' = later n (rescued m g' w) in
        IsWatching g' w' × (w'.controller.deadline ≡ none) × (w'.daemon.trace ≡ w.daemon.trace)
  unfolding rescued
  rescued-IsWatching m n g' = (
    record {
      open_loop = v.open_loop;
      not_stopped = v.not_stopped;
      unfired = v.unfired;
      is_present = refl;
      current = refl;
      calm = v.calm;
    },
    refl,
    refl,
  )

  -- A client that connects before the timer is looked at stops an armed panic for good: later
  -- looks do nothing, the client is the live one, and nothing was done meanwhile.
  pub reconnect_saves :
      w.daemon.armed ≡ true
      → 0 < w.controller.grace
      → (secs m n g' : ℕ)
      → let w' =
          run k secs
            (receives (event (heartbeat_lost g))
              ∷ elapses m
              ∷ receives (event (connected g'))
              ∷ elapses n
              ∷ receives timed_out
              ∷ [])
            w in
        IsWatching g' w' × (w'.controller.deadline ≡ none) × (w'.daemon.trace ≡ w.daemon.trace)
  unfolding run act
  reconnect_saves a h secs m n g' =
      subst
        (λ x. IsWatching g' x × (x.controller.deadline ≡ none) × (x.daemon.trace ≡ w.daemon.trace))
        (sym path) (rescued-IsWatching m n g')
    where
      path :
          iterate k timed_out (
            later n
              (iterate k (event (connected g')) (later m (iterate k (event (heartbeat_lost g)) w))))
          ≡ later n (rescued m g' w)
      path =
          ap (λ x. iterate k timed_out (later n (iterate k (event (connected g')) (later m x))))
            (iterate_awaits a h)
          ∙ ap (λ x. iterate k timed_out (later n x)) (reconnects a h m g')
          ∙ stays_rescued m n g'
