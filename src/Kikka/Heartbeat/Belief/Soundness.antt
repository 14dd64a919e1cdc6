-- ===== src/Kikka/Heartbeat/Belief/Soundness.antt =====
-- The loop's belief of its client against the connections of rs/crates/kikka/src/lib.rs, over every
-- interleaving of their steps.
use ningen_shikkaku.Base.{
  ℕ, suc, ◌≡◌, refl, sym, ap, ◌∙◌, inl, inr, Bool, true, false, ◌&&◌, ◌==◌, Option, List, [], ◌∷◌,
  All, count_if, if◌then◌else◌, Bool-cases, arith, subst,
}
use ningen_shikkaku.Base.Replacement.{
  Replaced, weight, Replaced-weight, Replaced-count, Replaced-All, All-Replaced, Replaced-put,
  Replaced-alone,
}
use ningen_shikkaku.Kikka.EventLoop.{Event, connected, heartbeat_lost, ping_timeout, cancels, quits}
use ningen_shikkaku.Kikka.Heartbeat.{
  Pc, hello, over, numbered, live, ended, Lobby, tell, Lounge, Move, arrives, proceeds, move, run,
  empty, advance,
}
use ningen_shikkaku.Kikka.Heartbeat.Exclusion.{holds, is_numbered}
use ningen_shikkaku.Kikka.Heartbeat.Belief.{
  Belief, beliefs, at_first, beliefs-append, is_loss, is_quit,
}
use ningen_shikkaku.Kikka.Heartbeat.Belief.Turn.{
  Turn, takes, refused, draws, announces, stays, asks, ends, frees, tells, rests, news, sent-news,
  advance-Turn,
}
use ningen_shikkaku.Kikka.Heartbeat.Belief.Placing.{
  carries, Placed, bit, Sound, Quiet, Quiet-Sound, ends-Quiet, ended-Placed, tell-quits,
  numbered-holds, none_carry, Placed-later,
}

-- The connection that holds the lock is the only one.
alone :
    {v : Belief} {b : Lobby} {p p' : Pc} {ps ps' : List Pc}
    → weight holds p ≡ 1
    → Replaced p p' ps ps'
    → Sound v b ps
    → (count_if holds ps ≡ weight holds p)
      × (count_if is_numbered ps ≡ weight is_numbered p)
      × (bit b.active ≡ 1)
alone {b} {p} {ps} h r s = (one, Replaced-alone holds is_numbered numbered-holds one r, taken)
  where
    taken : bit b.active ≡ 1
    taken = ground (arith, s.holders, h, Replaced-weight holds r)

    one : count_if holds ps ≡ weight holds p
    one = omega (arith, s.holders, h, taken)

loss-Quiet :
    {v : Belief} {b : Lobby} {ps ps' : List Pc} (g : ℕ) (e : Event)
    → is_loss v.current_gen e ≡ (v.current_gen == g)
    → is_quit e ≡ false
    → (v.present && g == v.current_gen) ≡ false
    → Replaced (ended e) over ps ps'
    → Sound v b ps
    → Quiet v b (tell e b) (ended e) over
loss-Quiet {v} {b} g e l q m r s =
    let n = Replaced-weight (carries v.current_gen) r in
    ground (arith, tell-quits e b, l, q, n, s.carried, m)

loss-counts :
    {v : Belief} {b : Lobby} {ps ps' : List Pc} (g : ℕ) (e : Event)
    → is_loss v.current_gen e ≡ (v.current_gen == g)
    → (v.present && g == v.current_gen) ≡ true
    → Replaced (ended e) over ps ps'
    → Sound v b ps
    → count_if (carries v.current_gen) ps' ≡ 0
loss-counts {v} g e l m r s =
    ground (arith, Replaced-count (carries v.current_gen) r, s.carried, l, m)

-- A loss that the loop takes for its client's, or not.
loss-Sound :
    {v : Belief} {b : Lobby} {ps ps' : List Pc} (g : ℕ) (e : Event)
    → is_loss v.current_gen e ≡ (v.current_gen == g)
    → is_quit e ≡ false
    → Replaced (ended e) over ps ps'
    → Sound v b ps
    → Sound
        (if v.present && g == v.current_gen then record v { present = false } else v)
        (tell e b)
        ps'
loss-Sound {v} {b} {ps} {ps'} g e l q r s = elim (Bool-cases (v.present && g == v.current_gen)) [
  | inr m ↦
      subst (λ x. Sound x (tell e b) ps') (sym (ap (choose v) m))
        (Quiet-Sound {v = v} (loss-Quiet g e l q m r s) r s)
  | inl m ↦
      let none = loss-counts g e l m r s in
      subst (λ x. Sound x (tell e b) ps') (sym (ap (choose v) m))
        (record {
          holders = omega (arith, Replaced-count holds r, s.holders);
          numbers = omega (arith, Replaced-count is_numbered r, s.numbers);
          placed = Replaced-put (Placed v.current_gen) r tt s.placed;
          carried = omega (arith, none);
          known = λ _. none;
        })
]
  where
    choose : Belief → Bool → Belief
    choose v t = if t then record v { present = false } else v

announced-Sound :
    {v : Belief} {b : Lobby} {ps ps' : List Pc} (g : ℕ) (dl : Option ℕ)
    → Replaced (numbered g) (live g [] dl) ps ps'
    → Sound v b ps
    → Sound (record { current_gen = g; present = true }) (tell (connected g) b) ps'
announced-Sound {v} {b} {ps} {ps'} g dl r s = record {
  holders = omega (arith, Replaced-count holds r, s.holders);
  numbers = omega (arith, Replaced-count is_numbered r, s.numbers, own, a.1);
  placed = placed';
  carried = omega (arith, carries_one);
  known = λ _. carries_one;
}
  where
    a : (count_if holds ps ≡ 1) × (count_if is_numbered ps ≡ 1) × (bit b.active ≡ 1)
    a = alone refl r s

    own : g ≡ suc v.current_gen
    own = Replaced-All (Placed v.current_gen) r s.placed

    carries_one : count_if (carries g) ps' ≡ 1
    carries_one = rw own (
        omega (
          arith,
          Replaced-count (carries (suc v.current_gen)) r,
          none_carry v.current_gen ps s.placed,
          same,
        ))
      where
        same : weight (carries (suc v.current_gen)) (live g [] dl) ≡ 1
        same = ground (arith, own)

    placed' : All (Placed g) ps'
    placed' = rw own (
        All-Replaced (Placed v.current_gen) (Placed (suc v.current_gen)) holds
          (Placed-later v.current_gen) a.0 r own s.placed)

Turn-Sound :
    {v : Belief} {b b' : Lobby} {p p' : Pc} {ps ps' : List Pc} (t : Turn b p b' p')
    → Replaced p p' ps ps'
    → Sound v b ps
    → Sound (beliefs v (news t)) b' ps'
Turn-Sound {v} {b} (takes a) r s = Quiet-Sound {v = v} (ground (arith, a)) r s
Turn-Sound {v} {b} (refused a) r s = Quiet-Sound {v = v} (ground (arith, a)) r s
Turn-Sound {v} {b} draws r s =
    let a = alone refl r s in Quiet-Sound {v = v} (ground (arith, a.1, s.numbers)) r s
Turn-Sound {v} {b} (announces g dl) r s = announced-Sound g dl r s
Turn-Sound {v} {b} (stays g t t' dl dl') r s =
    let h = Replaced-All (Placed v.current_gen) r s.placed in
    Quiet-Sound {v = v} (ground (arith, h)) r s
Turn-Sound {v} {b} (asks g t t' dl dl') r s =
    let h = Replaced-All (Placed v.current_gen) r s.placed in
    Quiet-Sound {v = v} (ground (arith, h, tell-quits cancels b)) r s
Turn-Sound {v} {b} (ends g t dl e) r s =
    Quiet-Sound {v = v} (ends-Quiet v b t dl e (Replaced-All (Placed v.current_gen) r s.placed)) r s
Turn-Sound {v} {b} (frees e) r s =
    let h = ended-Placed v.current_gen e (Replaced-All (Placed v.current_gen) r s.placed) in
    let a = alone refl r s in
    Quiet-Sound {v = v}
      (record {
        lock = ground (arith, a.2);
        draw = refl;
        place = h;
        carry = ground arith;
        quit = ground arith;
        kept = λ _. refl;
      })
      r s
Turn-Sound {v} {b} (tells (heartbeat_lost g)) r s = loss-Sound g (heartbeat_lost g) refl refl r s
Turn-Sound {v} {b} (tells (ping_timeout g)) r s = loss-Sound g (ping_timeout g) refl refl r s
Turn-Sound {v} {b} (tells quits) r s = Quiet-Sound {v = v} (ground (arith, tell-quits quits b)) r s
Turn-Sound {v} {b} (tells (connected g)) r s =
    elim (Replaced-All (Placed v.current_gen) r s.placed) [ ]
Turn-Sound {v} {b} (tells cancels) r s = elim (Replaced-All (Placed v.current_gen) r s.placed) [ ]
Turn-Sound {v} {b} (tells (Event.signal g)) r s =
    elim (Replaced-All (Placed v.current_gen) r s.placed) [ ]
Turn-Sound {v} rests r s = Quiet-Sound {v = v} (ground arith) r s

abbrev pub SoundAt : Lounge → Type 0
SoundAt l = Sound (beliefs at_first l.lobby.sent) l.lobby l.connections

arrives-Sound : {v : Belief} {b : Lobby} {ps : List Pc} → Sound v b ps → Sound v b (hello ∷ ps)
arrives-Sound s = record {
  holders = omega (arith, s.holders);
  numbers = omega (arith, s.numbers);
  placed = (tt, s.placed);
  carried = omega (arith, s.carried);
  known = λ q. omega (arith, s.known (omega (arith, q)));
}

move-Sound : (ping : Option ℕ) (m : Move) (l : Lounge) → SoundAt l → SoundAt (move ping m l)
unfolding move
move-Sound ping arrives l s = arrives-Sound s
move-Sound ping (proceeds i now r) l s =
    let ps = l.connections in
    let b = l.lobby in
    elim (advance-Turn i ping now r ps b) [
      | inl e ↦ rw e s
      | inr (p, p', t, q) ↦
          subst (λ v. Sound v (advance i ping now r ps b).0 (advance i ping now r ps b).1)
            (sym (ap (beliefs at_first) (sent-news t) ∙ beliefs-append at_first b.sent (news t)))
            (Turn-Sound t q s)
    ]

-- Whatever the connections have done, the belief that their events give is sound.
pub run-Sound :
    (ping : Option ℕ) (ms : List Move) (l : Lounge) → SoundAt l → SoundAt (run ping ms l)
unfolding run
run-Sound ping [] l s = s
run-Sound ping (m ∷ ms) l s = run-Sound ping ms (move ping m l) (move-Sound ping m l s)

pub empty-Sound : SoundAt empty
empty-Sound = record {
  holders = refl;
  numbers = refl;
  placed = tt;
  carried = omega arith;
  known = λ _. refl;
}
