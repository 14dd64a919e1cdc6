-- ===== src/Kikka/Clients/Bounds.antt =====
-- The bound on control connections (rs/crates/kikka/src/lib.rs), and the registry under them.
use ningen_shikkaku.Base.{
  ℕ, zero, suc, ◌+◌, ◌≤◌, ◌≡◌, refl, Bool, true, false, List, [], ◌∷◌, leb, if◌then◌else◌, arith,
  count_if,
}
use ningen_shikkaku.Goodnight.Process.{Kernel}
use ningen_shikkaku.Kikka.Daemon.{Daemon}
use ningen_shikkaku.Kikka.Control.Registry.{IsRegistry, process_control-IsRegistry}
use ningen_shikkaku.Kikka.Heartbeat.{Line, line}
use ningen_shikkaku.Kikka.Clients.{
  Place, opening, serving, reading, closing, gone, Shared, step, advance, Move, arrives, proceeds,
  Office, move, run, opened, max_control,
}

-- A connection that counts as in flight.
abbrev pub is_counted : Place → Bool
is_counted (opening _) = false
is_counted gone = false
is_counted _ = true

-- A connection whose requests are answered.
abbrev pub is_served : Place → Bool
is_served (serving _) = true
is_served reading = true
is_served _ = false

abbrev weight : (Place → Bool) → Place → ℕ
weight f p = if f p then 1 else 0

-- What a step of one connection does to the counts: it is served only when there is room.
record Counted (p : Place) (s : Shared) (s' : Shared) (p' : Place) : Type 0 where
  flights : weight is_counted p' + s.in_flight ≡ weight is_counted p + s'.in_flight
  served : weight is_served p' ≤ weight is_served p + (if leb max_control s.in_flight then 0 else 1)
  registry : IsRegistry s'.daemon.registered

step-Counted :
    (k : Kernel) (grace : ℕ) (l : Line) (p : Place) (s : Shared)
    → weight is_counted p ≤ s.in_flight
    → IsRegistry s.daemon.registered
    → let x = step k grace l p s in Counted p s (x.0) (x.1)
unfolding step
step-Counted k grace l (opening text) s h r = ground (arith, r)
step-Counted k grace l (serving text) s h r =
    let q = process_control-IsRegistry k grace text s.daemon r in
    record { flights = ground arith; served = ground arith; registry = q }
step-Counted k grace (line text) reading s h r = ground (arith, r)
step-Counted k grace l reading s h r = ground (arith, r)
step-Counted k grace l closing s h r = ground (arith, r)
step-Counted k grace l gone s h r = ground (arith, r)

-- One step of one connection, seen from the counts over all of them.
record Advanced (s : Shared) (ps : List Place) (s' : Shared) (ps' : List Place) : Type 0 where
  flights : count_if is_counted ps' + s.in_flight ≡ count_if is_counted ps + s'.in_flight
  served :
      count_if is_served ps'
      ≤ count_if is_served ps + (if leb max_control s.in_flight then 0 else 1)
  registry : IsRegistry s'.daemon.registered

advance-Advanced :
    (i : ℕ) (k : Kernel) (grace : ℕ) (l : Line) (ps : List Place) (s : Shared)
    → count_if is_counted ps ≤ s.in_flight
    → IsRegistry s.daemon.registered
    → let x = advance i k grace l ps s in Advanced s ps (x.0) (x.1)
unfolding advance
advance-Advanced i k grace l [] s h r = record {
  flights = refl;
  served = ground arith;
  registry = r;
}
advance-Advanced zero k grace l (p ∷ ps) s h r =
    let c = step-Counted k grace l p s (omega arith) r in
    record {
      flights = omega (arith, c.flights);
      served = omega (arith, c.served);
      registry = c.registry;
    }
advance-Advanced (suc i) k grace l (p ∷ ps) s h r =
    let a = advance-Advanced i k grace l ps s (omega arith) r in
    record {
      flights = omega (arith, a.flights);
      served = omega (arith, a.served);
      registry = a.registry;
    }

served-le-counted : (ps : List Place) → count_if is_served ps ≤ count_if is_counted ps
served-le-counted [] = omega arith
served-le-counted (p ∷ ps) = omega (arith, one p, served-le-counted ps)
  where
    one : (p : Place) → weight is_served p ≤ weight is_counted p
    one (serving text) = omega arith
    one reading = omega arith
    one p = ground arith

-- The count is right, at most sixteen connections are served, and the registry is one.
record IsBounded (o : Office) : Type 0 where
  flights : count_if is_counted o.connections ≡ o.shared.in_flight
  few : count_if is_served o.connections ≤ max_control
  registry : IsRegistry o.shared.daemon.registered

move-IsBounded :
    (k : Kernel) (grace : ℕ) (m : Move) (o : Office) → IsBounded o → IsBounded (move k grace m o)
unfolding move
move-IsBounded k grace (arrives text) o b = record {
  flights = omega (arith, b.flights);
  few = omega (arith, b.few);
  registry = b.registry;
}
move-IsBounded k grace (proceeds i l) o b =
    let a =
      advance-Advanced i k grace l o.connections o.shared (omega (arith, b.flights)) b.registry in
    record {
      flights = omega (arith, a.flights, b.flights);
      few = ground (arith, a.served, b.few, b.flights, served-le-counted o.connections);
      registry = a.registry;
    }

run-IsBounded :
    (k : Kernel) (grace : ℕ) (ms : List Move) (o : Office)
    → IsBounded o
    → IsBounded (run k grace ms o)
unfolding run
run-IsBounded k grace [] o b = b
run-IsBounded k grace (m ∷ ms) o b =
    run-IsBounded k grace ms (move k grace m o) (move-IsBounded k grace m o b)

-- However control connections come, send and end, and in whatever order their steps interleave:
-- the count of connections in flight is right, so that it never goes below zero, at most 16
-- connections are served, and the registry stays one, with at most 32 positive pids, none twice.
pub control_bounded :
    (k : Kernel) (grace : ℕ) (d : Daemon) (ms : List Move)
    → IsRegistry d.registered
    → let o = run k grace ms (opened d) in
      (count_if is_counted o.connections ≡ o.shared.in_flight)
      × (count_if is_served o.connections ≤ max_control)
      × IsRegistry o.shared.daemon.registered
control_bounded k grace d ms r =
    let b =
      run-IsBounded k grace ms (opened d)
        (record { flights = refl; few = ground arith; registry = r }) in
    (b.flights, b.few, b.registry)
