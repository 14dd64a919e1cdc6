-- ===== src/Kikka/Heartbeat/Exclusion.antt =====
-- The client lock of `handle_heartbeat` (rs/crates/kikka/src/lib.rs).
use ningen_shikkaku.Base.{
  ℕ, zero, suc, ◌+◌, ◌≤◌, ◌≡◌, refl, Bool, true, false, Option, All, List, [], ◌∷◌, ◌++◌, ◌==◌, leb,
  if◌then◌else◌, arith, count_if, count_if-append, length,
}
use ningen_shikkaku.Base.Text.{Bytes}
use ningen_shikkaku.Kikka.Control.{first_word_upper}
use ningen_shikkaku.Kikka.EventLoop.{Event, connected, cancels}
use ningen_shikkaku.Kikka.Heartbeat.{
  Read, byte, Pc, hello, swapped, over, numbered, live, ending, ended, Lobby, tell, Verb, on_verb,
  on_read, later, verb_of, max_line, Stepped, step, Lounge, advance, Move, arrives, proceeds, move,
  run, empty,
}

-- The connections that have taken the lock and not given it back.
abbrev pub holds : Pc → Bool
holds hello = false
holds over = false
holds (ended _) = false
holds _ = true

-- A connection with a generation that the loop has not been told of.
abbrev pub is_numbered : Pc → Bool
is_numbered (numbered _) = true
is_numbered _ = false

abbrev pub is_connected : Event → Bool
is_connected (connected _) = true
is_connected _ = false

abbrev weight : (Pc → Bool) → Pc → ℕ
weight f p = if f p then 1 else 0

abbrev taken : Lobby → ℕ
taken b = if b.active then 1 else 0

abbrev announced : Lobby → ℕ
announced b = count_if is_connected b.sent

-- What ends a connection is no announcement.
abbrev IsEnd : Pc → Type 0
IsEnd (ending e) = is_connected e ≡ false
IsEnd (ended e) = is_connected e ≡ false
IsEnd _ = Unit

-- What a step of a connection does to the lock and to the announcements.
record Balanced (p : Pc) (b : Lobby) (x : Stepped) : Type 0 where
  lock : weight holds (x.1) + taken b ≡ weight holds p + taken (x.0)
  numbers :
      announced (x.0) + weight is_numbered (x.1) + b.gen_source
      ≡ announced b + weight is_numbered p + (x.0).gen_source
  ends : IsEnd (x.1)

announced-tell :
    (e : Event) (b : Lobby) → announced (tell e b) ≡ announced b + (if is_connected e then 1 else 0)
announced-tell e b = omega (arith, count_if-append is_connected b.sent (e ∷ []))

on_verb-Balanced :
    (g : ℕ) (text : Bytes) (dl dl' : Option ℕ) (v : Verb) (b : Lobby)
    → Balanced (live g text dl) b (on_verb g dl' v b)
unfolding on_verb
on_verb-Balanced g text dl dl' v b = ground (arith, announced-tell cancels b)

on_read-Balanced :
    (ping : Option ℕ) (now : ℕ) (r : Read) (g : ℕ) (text : Bytes) (dl : Option ℕ) (b : Lobby)
    → Balanced (live g text dl) b (on_read ping now r g text dl b)
unfolding on_read
on_read-Balanced ping now (byte c) g text dl b =
    either (c == b'\n')
      (on_verb-Balanced g text dl (later ping now) (verb_of (first_word_upper text)) b)
      (either (leb max_line (length (text ++ c ∷ []))) (ground arith) (ground arith))
  where
    either :
        (t : Bool) {x y : Stepped}
        → Balanced (live g text dl) b x
        → Balanced (live g text dl) b y
        → Balanced (live g text dl) b (if t then x else y)
    either true h k = h
    either false h k = k
on_read-Balanced ping now r g text dl b = ground arith

step-Balanced :
    (ping : Option ℕ) (now : ℕ) (r : Read) (p : Pc) (b : Lobby)
    → weight holds p ≤ taken b
    → IsEnd p
    → Balanced p b (step ping now r p b)
unfolding step
step-Balanced ping now r hello b h e = ground arith
step-Balanced ping now r swapped b h e = ground arith
step-Balanced ping now r (numbered g) b h e = ground (arith, announced-tell (connected g) b)
step-Balanced ping now r (live g text dl) b h e =
    ground (arith, on_read-Balanced ping now r g text dl b)
step-Balanced ping now r (ending ev) b h e = ground arith
step-Balanced ping now r (ended ev) b h e = ground (arith, announced-tell ev b)
step-Balanced ping now r over b h e = ground arith

-- One step of one connection, seen from the counts over all of them.
record Advanced (b : Lobby) (ps : List Pc) (b' : Lobby) (ps' : List Pc) : Type 0 where
  lock : count_if holds ps' + taken b ≡ count_if holds ps + taken b'
  numbers :
      announced b' + count_if is_numbered ps' + b.gen_source
      ≡ announced b + count_if is_numbered ps + b'.gen_source
  ends : All IsEnd ps'

advance-Advanced :
    (i : ℕ) (ping : Option ℕ) (now : ℕ) (r : Read) (ps : List Pc) (b : Lobby)
    → count_if holds ps ≤ taken b
    → All IsEnd ps
    → let x = advance i ping now r ps b in Advanced b ps (x.0) (x.1)
unfolding advance
advance-Advanced i ping now r [] b h e = record { lock = refl; numbers = refl; ends = tt }
advance-Advanced zero ping now r (p ∷ ps) b h (e, es) =
    let s = step-Balanced ping now r p b (omega arith) e in
    record { lock = omega (arith, s.lock); numbers = omega (arith, s.numbers); ends = (s.ends, es) }
advance-Advanced (suc i) ping now r (p ∷ ps) b h (e, es) =
    let a = advance-Advanced i ping now r ps b (omega arith) es in
    record { lock = omega (arith, a.lock); numbers = omega (arith, a.numbers); ends = (e, a.ends) }

numbered-le-holds : (ps : List Pc) → count_if is_numbered ps ≤ count_if holds ps
numbered-le-holds [] = omega arith
numbered-le-holds (p ∷ ps) = omega (arith, one p, numbered-le-holds ps)
  where
    one : (p : Pc) → weight is_numbered p ≤ weight holds p
    one (numbered g) = omega arith
    one p = ground arith

-- The lock is taken exactly when one connection holds it, and each generation drawn belongs to
-- one announcement, made or about to be made.
record IsExclusive (l : Lounge) : Type 0 where
  holders : count_if holds l.connections ≡ taken l.lobby
  generations : announced l.lobby + count_if is_numbered l.connections ≡ l.lobby.gen_source
  sound : All IsEnd l.connections

move-IsExclusive :
    (ping : Option ℕ) (m : Move) (l : Lounge) → IsExclusive l → IsExclusive (move ping m l)
unfolding move
move-IsExclusive ping arrives l v = record {
  holders = omega (arith, v.holders);
  generations = omega (arith, v.generations);
  sound = (tt, v.sound);
}
move-IsExclusive ping (proceeds i now r) l v =
    let a =
      advance-Advanced i ping now r l.connections l.lobby (omega (arith, v.holders)) v.sound in
    record {
      holders = omega (arith, a.lock, v.holders);
      generations = omega (arith, a.numbers, v.generations);
      sound = a.ends;
    }

run-IsExclusive :
    (ping : Option ℕ) (ms : List Move) (l : Lounge) → IsExclusive l → IsExclusive (run ping ms l)
unfolding run
run-IsExclusive ping [] l v = v
run-IsExclusive ping (m ∷ ms) l v =
    run-IsExclusive ping ms (move ping m l) (move-IsExclusive ping m l v)

-- However connections come, read and end, and in whatever order their steps interleave: at most
-- one holds the client lock, the lock is taken exactly when one does, and the loop is told of a
-- new client once for each generation that was drawn, all but one of them at most already.
pub one_client :
    (ping : Option ℕ) (ms : List Move)
    → let l = run ping ms empty in
      (count_if holds l.connections ≤ 1)
      × (count_if holds l.connections ≡ (if l.lobby.active then 1 else 0))
      × (count_if is_connected l.lobby.sent + count_if is_numbered l.connections
          ≡ l.lobby.gen_source)
      × (count_if is_numbered l.connections ≤ 1)
one_client ping ms =
    let v =
      run-IsExclusive ping ms empty (record { holders = refl; generations = refl; sound = tt }) in
    let n = numbered-le-holds (run ping ms empty).connections in
    (ground (arith, v.holders), v.holders, v.generations, ground (arith, v.holders, n))
