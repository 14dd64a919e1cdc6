-- ===== src/Kikka/Heartbeat/Belief/Client.antt =====
-- The connections and the loop of rs/crates/kikka/src/lib.rs together: `handle_heartbeat` in any number
-- of threads, the channel, and `run_with_listener`.
use ningen_shikkaku.Base.{
  ℕ, ◌≤◌, ◌≡◌, refl, sym, ap, ◌∙◌, Bool, true, Option, none, List, [], ◌∷◌, All, count_if, arith,
  if◌then◌else◌, subst,
}
use ningen_shikkaku.Goodnight.Buffer.{SecretBuffer}
use ningen_shikkaku.Goodnight.Process.{Kernel}
use ningen_shikkaku.Kikka.Panic.{new}
use ningen_shikkaku.Kikka.Heartbeat as Heartbeat
use ningen_shikkaku.Kikka.Heartbeat.{
  Pc, numbered, live, ending, ended, hello, swapped, over, Move, Lounge, empty,
}
use ningen_shikkaku.Kikka.Heartbeat.Belief.{Belief, beliefs, at_first}
use ningen_shikkaku.Kikka.Heartbeat.Belief.Placing.{carries, Placed, quits_of, bit, Sound}
use ningen_shikkaku.Kikka.Heartbeat.Belief.Soundness.{run-Sound, empty-Sound}
use ningen_shikkaku.Kikka.EventLoop.{Watchdog, Action, run, start}
use ningen_shikkaku.Kikka.EventLoop.Told.{told, belief_of, IsRunning, run-belief}
use ningen_shikkaku.Kikka.EventLoop.Relaxed.{NoPanics, IsRelaxed, run-IsRelaxed}

-- A connection in its loop is the client that the daemon believes in.
abbrev pub IsKnown : Belief → Pc → Type 0
IsKnown v (live g _ _) = (v.current_gen ≡ g) × (v.present ≡ true)
IsKnown v _ = Unit

All-IsKnown :
    (v : Belief) (ps : List Pc)
    → count_if (carries v.current_gen) ps ≤ bit v.present
    → All (Placed v.current_gen) ps
    → All (IsKnown v) ps
All-IsKnown v [] c h = tt
All-IsKnown v (p ∷ ps) c (h, hs) =
    (one p h (omega (arith, c)), All-IsKnown v ps (omega (arith, c)) hs)
  where
    one :
        (p : Pc)
        → Placed v.current_gen p
        → (if carries v.current_gen p then 1 else 0) ≤ bit v.present
        → IsKnown v p
    one (live g _ _) h c = (sym h, ground (arith, h, c))
    one _ h c = tt

-- What the daemon in its loop knows of its connections.
pub record Knows (w : Watchdog) (l : Lounge) : Type 0 where
  pub clients : All (IsKnown (belief_of w)) l.connections
  pub losses :
      quits_of l.lobby l.connections ≡ 0
      → count_if (carries w.current_gen) l.connections ≡ (if w.present then 1 else 0)

Sound-Knows : (w : Watchdog) (l : Lounge) → Sound (belief_of w) l.lobby l.connections → Knows w l
Sound-Knows w l s = record {
  clients = All-IsKnown (belief_of w) l.connections s.carried s.placed;
  losses = s.known;
}

start-belief :
    (grace now : ℕ) (armed sink : Bool) (bs : List SecretBuffer)
    → belief_of (start grace now armed sink bs) ≡ at_first
unfolding start
start-belief grace now armed sink bs = refl

start-IsRelaxed :
    (grace now : ℕ) (armed sink : Bool) (bs : List SecretBuffer)
    → IsRelaxed (start grace now armed sink bs)
unfolding start new
start-IsRelaxed grace now armed sink bs p = refl

-- However heartbeat connections come, read and end, in whatever order their steps and their sends
-- interleave, and whatever else the loop receives in between: once a loop that is still running has
-- received all that they have sent, a connection in its loop is the client that it believes in,
-- with its generation. Where no QUIT is under way, it believes in a client exactly when one
-- connection of the generation announced last has not told of its loss, so no loss is missed and
-- none is taken for another's. And while it believes in a client no panic is pending, unless a
-- SIGUSR1 came.
pub run-Knows :
    (k : Kernel) (grace now : ℕ) (armed sink : Bool) (bs : List SecretBuffer) (xs : List Action)
    (ping : Option ℕ) (ms : List Move)
    → let w = run k grace xs (start grace now armed sink bs) in
      let l = Heartbeat.run ping ms empty in
      IsRunning w
      → told xs ≡ l.lobby.sent
      → Knows w l × (NoPanics xs → w.present ≡ true → w.controller.deadline ≡ none)
run-Knows k grace now armed sink bs xs ping ms r e =
    let w0 = start grace now armed sink bs in
    let w = run k grace xs w0 in
    let l = Heartbeat.run ping ms empty in
    let belief : beliefs at_first l.lobby.sent ≡ belief_of w = sym (
      run-belief k grace xs w0 r
      ∙ ap (λ v. beliefs v (told xs)) (start-belief grace now armed sink bs)
      ∙ ap (beliefs at_first) e) in
    (
      Sound-Knows w l
          (subst (λ v. Sound v l.lobby l.connections) belief (run-Sound ping ms empty empty-Sound)),
      λ n. run-IsRelaxed k grace xs w0 n (start-IsRelaxed grace now armed sink bs),
    )
