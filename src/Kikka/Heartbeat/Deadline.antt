-- ===== src/Kikka/Heartbeat/Deadline.antt =====
-- The ping deadline of `handle_heartbeat` (rs/crates/kikka/src/lib.rs): it is met by whole lines only.
use ningen_shikkaku.Base.{
  ℕ, ◌≤◌, ◌≡◌, refl, true, false, Option, some, List, [], ◌∷◌, ◌++◌, All, ◌==◌, drop, sym, ap, ◌∙◌,
  append-nil, leb, length, branch, arith,
}
use ningen_shikkaku.Base.Text.{Bytes}
use ningen_shikkaku.Kikka.Heartbeat.{
  Read, byte, eof, timed_out, broken, Pc, hello, swapped, over, numbered, live, ending, ended,
  Lobby, Event, tell, on_read, step, max_line,
}
use ningen_shikkaku.Kikka.Heartbeat.Belief.{is_loss}

-- A step of one connection: the time, what it reads, and what the others have left of the shared
-- state.
pub record Tick : Type 0 where
  pub now : ℕ
  pub read : Read
  pub lobby : Lobby

-- A connection, and what it has told the loop, oldest first.
pub record Course : Type 0 where
  pub place : Pc
  pub told : List Event

-- What a step has added to the channel.
abbrev pub added : (before after : Lobby) → List Event
added b b' = drop (length b.sent) b'.sent

unfoldable pub tick_on : Option ℕ → Tick → Course → Course
tick_on ping x c =
    let (b, place, _) = step ping x.now x.read c.place x.lobby in
    record { place = place; told = c.told ++ added x.lobby b }

-- The steps of one connection among those of the others.
unfoldable pub proceed : Option ℕ → List Tick → Course → Course
unfolding tick_on
proceed ping [] c = c
proceed ping (x ∷ xs) c = proceed ping xs (tick_on ping x c)

abbrev pub IsNoNewline : Read → Type 0
IsNoNewline (byte c) = (c == b'\n') ≡ false
IsNoNewline _ = Unit

-- It has told the loop one thing, the loss of the generation.
abbrev pub HasTold : ℕ → List Event → Type 0
HasTold g es = (e : Event) × (es ≡ e ∷ []) × (is_loss g e ≡ true)

-- In its loop with the deadline that it had, or on its way out as lost, with nothing told; or gone,
-- with the loss told.
abbrev pub IsFading : ℕ → ℕ → Pc → List Event → Type 0
IsFading g dl (live h _ d) es = (h ≡ g) × (d ≡ some dl) × (es ≡ [])
IsFading g dl (ending e) es = (is_loss g e ≡ true) × (es ≡ [])
IsFading g dl (ended e) es = (is_loss g e ≡ true) × (es ≡ [])
IsFading g dl over es = HasTold g es
IsFading g dl _ es = ⊥

-- On its way out as lost, or gone with the loss told.
abbrev pub IsLost : ℕ → Pc → List Event → Type 0
IsLost g (ending e) es = (is_loss g e ≡ true) × (es ≡ [])
IsLost g (ended e) es = (is_loss g e ≡ true) × (es ≡ [])
IsLost g over es = HasTold g es
IsLost g _ es = ⊥

same_gen : (g : ℕ) → (g == g) ≡ true
same_gen g = ground arith

drop-length : (es fs : List Event) → drop (length es) (es ++ fs) ≡ fs
drop-length [] fs = refl
drop-length (e ∷ es) fs = drop-length es fs

added-same : (b : Lobby) (es : List Event) → es ++ added b b ≡ es
added-same b es =
    ap (λ fs. es ++ drop (length b.sent) fs) (sym (append-nil b.sent))
    ∙ ap (λ fs. es ++ fs) (drop-length b.sent [])
    ∙ append-nil es

added-none : (b : Lobby) (es : List Event) → es ≡ [] → es ++ added b b ≡ []
added-none b es e = added-same b es ∙ e

added-tell : (b : Lobby) (e : Event) (es : List Event) → es ≡ [] → es ++ added b (tell e b) ≡ e ∷ []
added-tell b e es n = ap (λ x. x ++ added b (tell e b)) n ∙ drop-length b.sent (e ∷ [])

-- What is told behind one more step.
abbrev Behind : (P : Pc → List Event → Type 0) → List Event → Lobby → Lobby × Pc × Bytes → Type 0
Behind P es b y = P y.1 (es ++ added b y.0)

on_read-IsFading :
    (ping : Option ℕ) (now : ℕ) (r : Read) (g dl : ℕ) (t : Bytes) (b : Lobby) (es : List Event)
    → IsNoNewline r
    → es ≡ []
    → Behind (IsFading g dl) es b (on_read ping now r g t (some dl) b)
unfolding on_read
on_read-IsFading ping now eof g dl t b es h n = (same_gen g, added-none b es n)
on_read-IsFading ping now broken g dl t b es h n = (same_gen g, added-none b es n)
on_read-IsFading ping now timed_out g dl t b es h n = (refl, refl, added-none b es n)
on_read-IsFading ping now (byte c) g dl t b es h n = rw h (
    branch (Behind (IsFading g dl) es b) (leb max_line (length (t ++ c ∷ [])))
      (same_gen g, added-none b es n) (refl, refl, added-none b es n))

step-IsFading :
    (ping : Option ℕ) (g dl : ℕ) (x : Tick) (p : Pc) (es : List Event)
    → IsNoNewline x.read
    → IsFading g dl p es
    → Behind (IsFading g dl) es x.lobby (step ping x.now x.read p x.lobby)
unfolding step
step-IsFading ping g dl x (live h t d) es n (e, f, k) =
    rw (e, f)
      (branch (Behind (IsFading g dl) es x.lobby) (leb dl x.now)
        (same_gen g, added-none x.lobby es k)
        (on_read-IsFading ping x.now x.read g dl t x.lobby es n k))
step-IsFading ping g dl x (ending e) es n (l, k) = (l, added-none x.lobby es k)
step-IsFading ping g dl x (ended e) es n (l, k) = (e, added-tell x.lobby e es k, l)
step-IsFading ping g dl x over es n (e, k, l) = (e, added-same x.lobby es ∙ k, l)
step-IsFading ping g dl x hello es n h = elim h [ ]
step-IsFading ping g dl x swapped es n h = elim h [ ]
step-IsFading ping g dl x (numbered e) es n h = elim h [ ]

proceed-IsFading :
    (ping : Option ℕ) (g dl : ℕ) (xs : List Tick) (c : Course)
    → All (λ (x : Tick). IsNoNewline x.read) xs
    → IsFading g dl c.place c.told
    → IsFading g dl (proceed ping xs c).place (proceed ping xs c).told
unfolding proceed tick_on
proceed-IsFading ping g dl [] c n h = h
proceed-IsFading ping g dl (x ∷ xs) c (n, ns) h =
    proceed-IsFading ping g dl xs (tick_on ping x c) ns
      (step-IsFading ping g dl x c.place c.told n h)

late-IsLost :
    (ping : Option ℕ) (g dl : ℕ) (x : Tick) (p : Pc) (es : List Event)
    → dl ≤ x.now
    → IsFading g dl p es
    → Behind (IsLost g) es x.lobby (step ping x.now x.read p x.lobby)
unfolding step
late-IsLost ping g dl x (live h t d) es l (e, f, k) =
    let over : leb dl x.now ≡ true = ground arith in
    rw (e, f, over) (same_gen g, added-none x.lobby es k)
late-IsLost ping g dl x (ending e) es l (h, k) = (h, added-none x.lobby es k)
late-IsLost ping g dl x (ended e) es l (h, k) = (e, added-tell x.lobby e es k, h)
late-IsLost ping g dl x over es l (e, k, h) = (e, added-same x.lobby es ∙ k, h)
late-IsLost ping g dl x hello es l h = elim h [ ]
late-IsLost ping g dl x swapped es l h = elim h [ ]
late-IsLost ping g dl x (numbered e) es l h = elim h [ ]

-- At its last step, or gone with the loss told.
abbrev IsEnded : ℕ → Pc → List Event → Type 0
IsEnded g (ended e) es = (is_loss g e ≡ true) × (es ≡ [])
IsEnded g over es = HasTold g es
IsEnded g _ es = ⊥

-- Gone, with the loss told.
abbrev pub IsTold : ℕ → Pc → List Event → Type 0
IsTold g over es = HasTold g es
IsTold g _ es = ⊥

module _ (ping : Option ℕ) (g : ℕ) where
  lost-IsEnded :
      (x : Tick) (p : Pc) (es : List Event)
      → IsLost g p es
      → Behind (IsEnded g) es x.lobby (step ping x.now x.read p x.lobby)
  unfolding step
  lost-IsEnded x (ending e) es (h, k) = (h, added-same x.lobby es ∙ k)
  lost-IsEnded x (ended e) es (h, k) = (e, added-tell x.lobby e es k, h)
  lost-IsEnded x over es (e, k, h) = (e, added-same x.lobby es ∙ k, h)
  lost-IsEnded x (live _ _ _) es h = elim h [ ]
  lost-IsEnded x hello es h = elim h [ ]
  lost-IsEnded x swapped es h = elim h [ ]
  lost-IsEnded x (numbered e) es h = elim h [ ]

  ended-IsTold :
      (x : Tick) (p : Pc) (es : List Event)
      → IsEnded g p es
      → Behind (IsTold g) es x.lobby (step ping x.now x.read p x.lobby)
  unfolding step
  ended-IsTold x (ended e) es (h, k) = (e, added-tell x.lobby e es k, h)
  ended-IsTold x over es (e, k, h) = (e, added-same x.lobby es ∙ k, h)
  ended-IsTold x (ending _) es h = elim h [ ]
  ended-IsTold x (live _ _ _) es h = elim h [ ]
  ended-IsTold x hello es h = elim h [ ]
  ended-IsTold x swapped es h = elim h [ ]
  ended-IsTold x (numbered e) es h = elim h [ ]

-- A connection whose deadline is `dl` does not put it off by bytes that end no line, however many
-- come, when they come, and whatever the other connections do: at its first step at `dl` or
-- later it is on its way out, and two steps behind that it is gone, and all it has told the loop
-- since is one event, the loss of its generation.
pub trickle-IsLost :
    (ping : Option ℕ) (g dl : ℕ) (t : Bytes) (xs : List Tick) (x y z : Tick)
    → All (λ (y : Tick). IsNoNewline y.read) xs
    → dl ≤ x.now
    → let late =
        tick_on ping x (proceed ping xs (record { place = live g t (some dl); told = [] })) in
      let gone = tick_on ping z (tick_on ping y late) in
      IsLost g late.place late.told × IsTold g gone.place gone.told
unfolding tick_on
trickle-IsLost ping g dl t xs x y z n l =
    let start : Course = record { place = live g t (some dl); told = [] } in
    let c = proceed ping xs start in
    let late = tick_on ping x c in
    let next = tick_on ping y late in
    let fading = proceed-IsFading ping g dl xs start n (refl, refl, refl) in
    let lost = late-IsLost ping g dl x c.place c.told l fading in
    (
      lost,
      ended-IsTold ping g z next.place next.told (lost-IsEnded ping g y late.place late.told lost),
    )
