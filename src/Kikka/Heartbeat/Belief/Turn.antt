-- ===== src/Kikka/Heartbeat/Belief/Turn.antt =====
-- The steps of `handle_heartbeat` (rs/crates/kikka/src/lib.rs) as a relation: what one connection can
-- do to the lock, the generations and the channel.
use ningen_shikkaku.Base.{
  ℕ, zero, suc, ◌+◌, ◌≡◌, refl, sym, append-nil, ◌⊎◌, inl, inr, true, false, Option, List, [], ◌∷◌,
  ◌++◌, ◌==◌, leb, length, branch, Bool-cases,
}
use ningen_shikkaku.Base.Text.{Bytes}
use ningen_shikkaku.Base.Replacement.{Replaced, at_head, in_tail}
use ningen_shikkaku.Kikka.Control.{first_word_upper}
use ningen_shikkaku.Kikka.EventLoop.{Event, connected, heartbeat_lost, ping_timeout, cancels, quits}
use ningen_shikkaku.Kikka.Heartbeat.{
  Read, byte, eof, timed_out, broken, Pc, hello, swapped, over, numbered, live, ending, ended,
  Lobby, tell, Verb, on_verb, on_read, later, verb_of, max_line, Stepped, step, advance, is_over,
}

-- The event that tells of the end of the connection `g`.
pub data EndOf (g : ℕ) : Event → Type 0 where
  by_loss : EndOf g (heartbeat_lost g)
  by_timeout : EndOf g (ping_timeout g)
  by_quit : EndOf g quits

pub data Turn (b : Lobby) : Pc → Lobby → Pc → Type 0 where
  takes : b.active ≡ false → Turn b hello (record b { active = true }) swapped
  refused : b.active ≡ true → Turn b hello (record b { active = true }) over
  draws : Turn b swapped (record b { gen_source = b.gen_source + 1 }) (numbered (b.gen_source + 1))
  announces : (g : ℕ) (dl : Option ℕ) → Turn b (numbered g) (tell (connected g) b) (live g [] dl)
  stays : (g : ℕ) (t t' : Bytes) (dl dl' : Option ℕ) → Turn b (live g t dl) b (live g t' dl')
  asks :
      (g : ℕ) (t t' : Bytes) (dl dl' : Option ℕ)
      → Turn b (live g t dl) (tell cancels b) (live g t' dl')
  ends :
      (g : ℕ) (t : Bytes) (dl : Option ℕ) {e : Event}
      → EndOf g e
      → Turn b (live g t dl) b (ending e)
  frees : (e : Event) → Turn b (ending e) (record b { active = false }) (ended e)
  tells : (e : Event) → Turn b (ended e) (tell e b) over
  rests : Turn b over b over

-- The events that a turn sends to the loop.
abbrev pub news : {b b' : Lobby} {p p' : Pc} → Turn b p b' p' → List Event
news (announces g dl) = connected g ∷ []
news (asks g t t' dl dl') = cancels ∷ []
news (tells e) = e ∷ []
news _ = []

pub sent-news : {b b' : Lobby} {p p' : Pc} (t : Turn b p b' p') → b'.sent ≡ b.sent ++ news t
sent-news {b} (announces g dl) = refl
sent-news {b} (asks g t t' dl dl') = refl
sent-news {b} (tells e) = refl
sent-news {b} (takes a) = sym (append-nil b.sent)
sent-news {b} (refused a) = sym (append-nil b.sent)
sent-news {b} draws = sym (append-nil b.sent)
sent-news {b} (stays g t t' dl dl') = sym (append-nil b.sent)
sent-news {b} (ends g t dl e) = sym (append-nil b.sent)
sent-news {b} (frees e) = sym (append-nil b.sent)
sent-news {b} rests = sym (append-nil b.sent)

abbrev Turned : Lobby → Pc → Stepped → Type 0
Turned b p x = Turn b p (x.0) (x.1)

on_verb-Turn :
    (g : ℕ) (t : Bytes) (dl dl' : Option ℕ) (v : Verb) (b : Lobby)
    → Turned b (live g t dl) (on_verb g dl' v b)
unfolding on_verb
on_verb-Turn g t dl dl' Verb.cancel_verb b = asks g t [] dl dl'
on_verb-Turn g t dl dl' Verb.quit_verb b = ends g t dl by_quit
on_verb-Turn g t dl dl' _ b = stays g t [] dl dl'

on_read-Turn :
    (ping : Option ℕ) (now : ℕ) (r : Read) (g : ℕ) (t : Bytes) (dl : Option ℕ) (b : Lobby)
    → Turned b (live g t dl) (on_read ping now r g t dl b)
unfolding on_read
on_read-Turn ping now eof g t dl b = ends g t dl by_loss
on_read-Turn ping now broken g t dl b = ends g t dl by_loss
on_read-Turn ping now timed_out g t dl b = stays g t t dl dl
on_read-Turn ping now (byte c) g t dl b =
    branch (Turned b (live g t dl)) (c == b'\n')
      (on_verb-Turn g t dl (later ping now) (verb_of (first_word_upper t)) b)
      (branch (Turned b (live g t dl)) (leb max_line (length (t ++ c ∷ []))) (ends g t dl by_loss)
        (stays g t (t ++ c ∷ []) dl dl))

step-Turn :
    (ping : Option ℕ) (now : ℕ) (r : Read) (p : Pc) (b : Lobby) → Turned b p (step ping now r p b)
unfolding step
step-Turn ping now r hello b = elim (Bool-cases b.active) [
  | inl a ↦ rw a (refused refl)
  | inr a ↦ rw a (takes refl)
]
step-Turn ping now r swapped b = draws
step-Turn ping now r (numbered g) b = announces g (later ping now)
step-Turn ping now r (live g t dl) b =
    branch (Turned b (live g t dl)) (is_over dl now) (ends g t dl by_timeout)
      (on_read-Turn ping now r g t dl b)
step-Turn ping now r (ending e) b = frees e
step-Turn ping now r (ended e) b = tells e
step-Turn ping now r over b = rests

-- A step of the connections is no step, or the turn of one of them.
pub advance-Turn :
    (i : ℕ) (ping : Option ℕ) (now : ℕ) (r : Read) (ps : List Pc) (b : Lobby)
    → let x = advance i ping now r ps b in
      (x ≡ (b, ps)) ⊎ ((p : Pc) × (p' : Pc) × Turn b p (x.0) p' × Replaced p p' ps (x.1))
unfolding advance
advance-Turn i ping now r [] b = inl refl
advance-Turn zero ping now r (p ∷ ps) b =
    inr (p, (step ping now r p b).1, step-Turn ping now r p b, at_head ps)
advance-Turn (suc i) ping now r (p ∷ ps) b = elim (advance-Turn i ping now r ps b) [
  | inl e ↦ inl (rw e refl)
  | inr (q, q', t, s) ↦ inr (q, q', t, in_tail p s)
]
