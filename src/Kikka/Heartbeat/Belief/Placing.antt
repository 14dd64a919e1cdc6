-- ===== src/Kikka/Heartbeat/Belief/Placing.antt =====
-- The loop's belief of its client against the connections of rs/crates/kikka/src/lib.rs: where each
-- connection can stand, and the turns that leave the belief alone.
use ningen_shikkaku.Base.{
  ℕ, suc, ◌+◌, ◌≤◌, ◌≡◌, refl, Bool, false, ◌==◌, Option, List, [], ◌∷◌, All, count_if,
  count_if-append, if◌then◌else◌, arith,
}
use ningen_shikkaku.Base.Replacement.{
  Replaced, weight, Replaced-weight, Replaced-count, Replaced-put, Replaced-back,
}
use ningen_shikkaku.Base.Text.{Bytes}
use ningen_shikkaku.Kikka.EventLoop.{Event, connected, heartbeat_lost, ping_timeout, cancels, quits}
use ningen_shikkaku.Kikka.Heartbeat.{Pc, hello, over, numbered, live, ending, ended, Lobby, tell}
use ningen_shikkaku.Kikka.Heartbeat.Exclusion.{holds, is_numbered}
use ningen_shikkaku.Kikka.Heartbeat.Belief.{Belief, is_loss, is_quit}
use ningen_shikkaku.Kikka.Heartbeat.Belief.Turn.{EndOf, by_loss, by_timeout, by_quit}

-- The connections whose generation is announced and whose loss is not.
abbrev pub carries : ℕ → Pc → Bool
carries g (live h _ _) = g == h
carries g (ending e) = is_loss g e
carries g (ended e) = is_loss g e
carries g _ = false

-- The connections that are about to send a QUIT.
abbrev pub quitting : Pc → Bool
quitting (ending e) = is_quit e
quitting (ended e) = is_quit e
quitting _ = false

-- Where a connection stands when the last generation announced is `c`.
abbrev pub Placed : ℕ → Pc → Type 0
Placed c (numbered g) = g ≡ suc c
Placed c (live g _ _) = g ≡ c
Placed c (ending (heartbeat_lost g)) = g ≡ c
Placed c (ending (ping_timeout g)) = g ≡ c
Placed c (ending quits) = Unit
Placed c (ending _) = ⊥
Placed c (ended (heartbeat_lost g)) = g ≤ c
Placed c (ended (ping_timeout g)) = g ≤ c
Placed c (ended quits) = Unit
Placed c (ended _) = ⊥
Placed c _ = Unit

abbrev pub bit : Bool → ℕ
bit t = if t then 1 else 0

abbrev pub quits_of : Lobby → List Pc → ℕ
quits_of b ps = count_if is_quit b.sent + count_if quitting ps

pub record Sound (v : Belief) (b : Lobby) (ps : List Pc) : Type 0 where
  pub holders : count_if holds ps ≡ bit b.active
  pub numbers : b.gen_source ≡ v.current_gen + count_if is_numbered ps
  pub placed : All (Placed v.current_gen) ps
  pub carried : count_if (carries v.current_gen) ps ≤ bit v.present
  pub known : quits_of b ps ≡ 0 → count_if (carries v.current_gen) ps ≡ bit v.present

pub numbered-holds : (p : Pc) → holds p ≡ false → is_numbered p ≡ false
numbered-holds p h = ground arith

-- No connection carries a generation that is yet to come.
pub none_carry : (c : ℕ) (ps : List Pc) → All (Placed c) ps → count_if (carries (suc c)) ps ≡ 0
none_carry c [] h = refl
none_carry c (p ∷ ps) (h, hs) = ground (arith, one p h, none_carry c ps hs)
  where
    one : (p : Pc) → Placed c p → carries (suc c) p ≡ false
    one (live g _ _) h = ground arith
    one (ending (heartbeat_lost g)) h = ground arith
    one (ending (ping_timeout g)) h = ground arith
    one (ended (heartbeat_lost g)) h = ground arith
    one (ended (ping_timeout g)) h = ground arith
    one _ h = ground arith

pub Placed-later : (c : ℕ) (p : Pc) → holds p ≡ false → Placed c p → Placed (suc c) p
Placed-later c (ended (heartbeat_lost g)) h s = omega (arith, s)
Placed-later c (ended (ping_timeout g)) h s = omega (arith, s)
Placed-later c (ended (connected g)) h s = elim s [ ]
Placed-later c (ended cancels) h s = elim s [ ]
Placed-later c (ended (Event.signal g)) h s = elim s [ ]
Placed-later c (ended quits) h s = tt
Placed-later c hello h s = tt
Placed-later c over h s = tt
Placed-later c _ h s = cc

-- A turn of `p` that leaves the belief alone.
pub record Quiet (v : Belief) (b b' : Lobby) (p p' : Pc) : Type 0 where
  pub lock : weight holds p' + bit b.active ≡ weight holds p + bit b'.active
  pub draw : b'.gen_source + weight is_numbered p ≡ b.gen_source + weight is_numbered p'
  pub place : Placed v.current_gen p'
  pub carry : weight (carries v.current_gen) p' ≤ weight (carries v.current_gen) p
  pub quit :
      count_if is_quit b.sent + weight quitting p ≤ count_if is_quit b'.sent + weight quitting p'
  pub kept :
      count_if is_quit b'.sent + weight quitting p' ≡ 0
      → weight (carries v.current_gen) p' ≡ weight (carries v.current_gen) p

pub Quiet-Sound :
    {v : Belief} {b b' : Lobby} {p p' : Pc} {ps ps' : List Pc}
    → Quiet v b b' p p'
    → Replaced p p' ps ps'
    → Sound v b ps
    → Sound v b' ps'
Quiet-Sound {v} {b'} {p'} {ps'} t r s =
    let c = Replaced-count (carries v.current_gen) r in
    let q = Replaced-count quitting r in
    record {
      holders = omega (arith, Replaced-count holds r, s.holders, t.lock);
      numbers = omega (arith, Replaced-count is_numbered r, s.numbers, t.draw);
      placed = Replaced-put (Placed v.current_gen) r t.place s.placed;
      carried = omega (arith, c, s.carried, t.carry);
      known = λ z. omega (
        arith,
        c,
        s.known (omega (arith, q, z, t.quit)),
        t.kept (omega (arith, z, Replaced-weight quitting (Replaced-back r))),
      );
    }

ends-Placed : {g c : ℕ} {e : Event} → EndOf g e → g ≡ c → Placed c (ending e)
ends-Placed by_loss h = h
ends-Placed by_timeout h = h
ends-Placed by_quit h = tt

pub ended-Placed : (c : ℕ) (e : Event) → Placed c (ending e) → Placed c (ended e)
ended-Placed c (heartbeat_lost g) h = omega (arith, h)
ended-Placed c (ping_timeout g) h = omega (arith, h)
ended-Placed c quits h = tt
ended-Placed c (connected g) h = elim h [ ]
ended-Placed c cancels h = elim h [ ]
ended-Placed c (Event.signal g) h = elim h [ ]

pub tell-quits :
    (e : Event) (b : Lobby)
    → count_if is_quit (tell e b).sent ≡ count_if is_quit b.sent + (if is_quit e then 1 else 0)
tell-quits e b = omega (arith, count_if-append is_quit b.sent (e ∷ []))

pub ends-Quiet :
    {g : ℕ} {e : Event} (v : Belief) (b : Lobby) (t : Bytes) (dl : Option ℕ)
    → EndOf g e
    → g ≡ v.current_gen
    → Quiet v b b (live g t dl) (ending e)
ends-Quiet v b t dl by_loss h = ground (arith, h)
ends-Quiet v b t dl by_timeout h = ground (arith, h)
ends-Quiet v b t dl by_quit h = ground (arith, h)
