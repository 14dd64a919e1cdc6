-- ===== src/Rei/Guard.antt =====
-- When the client signals the daemon.
use ningen_shikkaku.Base.{
  ℕ, ◌≡◌, refl, inl, inr, Bool-cases, Option-cases, Bool, true, false, some, List, [], ◌∷◌,
  if◌then◌else◌,
}
use ningen_shikkaku.Kikka.EventLoop.{Signal}
use ningen_shikkaku.Rei.{DazaiClient, status, read_daemon_pid, panic}

-- What a panic request can do: nothing at all, or one signal of the kind asked for, to the pid of
-- the pid file, with the daemon alive; it reports whether that was delivered.
pub data Guarded (c : DazaiClient) (hard triggered : Bool) (sent : List (ℕ × Signal)) : Type 0 where
  silent : triggered ≡ false → sent ≡ [] → Guarded c hard triggered sent
  signalled :
      (pid : ℕ)
      → (status c).alive ≡ true
      → read_daemon_pid c.pidfile ≡ some pid
      → sent ≡ (pid, (if hard then Signal.sigusr2 else Signal.sigusr1)) ∷ []
      → triggered ≡ c.signal_fn pid (if hard then Signal.sigusr2 else Signal.sigusr1)
      → Guarded c hard triggered sent

-- Whatever the wire and the pid file hold, a panic request does no more than that. In particular
-- nothing is signalled unless a status reply has just said that the daemon is alive.
pub panic-Guarded :
    (c : DazaiClient) (hard : Bool) → Guarded c hard (panic c hard).0 (panic c hard).1
unfolding panic
panic-Guarded c hard = elim (Bool-cases (status c).alive) [
  | inr e ↦ rw (e, panic) (silent refl refl)
  | inl e ↦ elim (Option-cases (read_daemon_pid c.pidfile)) [
    | inl n ↦ rw (e, n, panic) (silent refl refl)
    | inr (pid, n) ↦ rw (e, n, panic) (signalled pid e n refl refl)
  ]
]
