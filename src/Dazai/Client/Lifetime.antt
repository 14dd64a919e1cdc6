-- ===== src/Dazai/Client/Lifetime.antt =====
-- `run_client` of rs/crates/dazai/src/main.rs against the replies of `handle_heartbeat`
-- (rs/crates/kikka/src/lib.rs).
use ningen_shikkaku.Base.{
  ℕ, ◌+◌, ◌≡◌, refl, sym, ap, ◌∙◌, Bool, true, false, ◌&&◌, none, some, List, [], ◌∷◌, ◌++◌, length,
  All, arith, if◌then◌else◌, Bool-cases, inl, inr,
}
use ningen_shikkaku.Base.Text.{Bytes, codes, contains_text, contains_text-split}
use ningen_shikkaku.Base.Utf8.{from_utf8_lossy}
use ningen_shikkaku.Base.Words.{trim}
use ningen_shikkaku.Kikka.Heartbeat.{Lobby, step, hello, numbered, on_verb, ping_verb, eof}
use ningen_shikkaku.Dazai.Client.{
  busy, closed, waiting, Round, Connection, has_pong, ping_loop, greeting_text, stay, on_greeting,
  run_client,
}

-- What the daemon writes to a connection that says HELLO.
abbrev pub welcome : Lobby → Bytes
welcome b =
    if b.active
    then (step none 0 eof hello b).2
    else (step none 0 eof (numbered (b.gen_source + 1)) b).2

-- What the daemon writes for a PING.
abbrev pub pong : Lobby → Bytes
pong b = (on_verb 0 none ping_verb b).2

-- The PING is written and answered as the daemon answers it.
abbrev pub IsAnswered : Lobby → Round → Type 0
IsAnswered b r = (r.sent ≡ true) × (r.reply ≡ some (pong b))

-- A round without an answer: its PING could not be written, the read failed, the stream had ended,
-- or what came has no PONG in it.
pub data IsLost (r : Round) : Type 0 where
  unsent : r.sent ≡ false → IsLost r
  unread : r.reply ≡ none → IsLost r
  at_end : r.reply ≡ some [] → IsLost r
  unanswered :
      (c : ℕ) (s : Bytes)
      → r.reply ≡ some (c ∷ s)
      → ((front back : Bytes) → from_utf8_lossy (c ∷ s) ≡ front ++ codes "PONG" ++ back → ⊥)
      → IsLost r

wordless :
    (s : Bytes)
    → ((front back : Bytes) → s ≡ front ++ codes "PONG" ++ back → ⊥)
    → contains_text (codes "PONG") s ≡ false
wordless s none_in = elim (Bool-cases (contains_text (codes "PONG") s)) [
  | inl e ↦
      let (front, back, f) = contains_text-split (codes "PONG") s e in
      elim (none_in front back f) [ ]
  | inr e ↦ e
]

lost-pong : (r : Round) → IsLost r → (r.sent && has_pong r.reply) ≡ false
unfolding has_pong
lost-pong r (unsent e) = ground (arith, e)
lost-pong r (unread e) = ground (arith, ap has_pong e)
lost-pong r (at_end e) = ground (arith, ap has_pong e)
lost-pong r (unanswered c s e f) =
    ground (arith, ap has_pong e ∙ wordless (from_utf8_lossy (c ∷ s)) f)

has_pong-pong : (b : Lobby) → has_pong (some (pong b)) ≡ true
unfolding has_pong on_verb contains_text from_utf8_lossy
has_pong-pong b = refl

ping_loop-lost :
    (b : Lobby) (xs : List Round) (r : Round) (rest : List Round)
    → All (IsAnswered b) xs
    → IsLost r
    → ping_loop (xs ++ r ∷ rest) ≡ (closed, length xs + 1)
unfolding ping_loop
ping_loop-lost b [] r rest h lost = let no_pong = lost-pong r lost in ground arith
ping_loop-lost b (x ∷ xs) r rest h lost =
    let ih = ping_loop-lost b xs r rest h.1 lost in
    let pongs = ap has_pong h.0.1 ∙ has_pong-pong b in ground (arith, h.0.0)

ping_loop-answered :
    (b : Lobby) (xs : List Round) → All (IsAnswered b) xs → (ping_loop xs).0 ≡ waiting
unfolding ping_loop
ping_loop-answered b [] h = refl
ping_loop-answered b (x ∷ xs) h =
    let ih = ping_loop-answered b xs h.1 in
    let pongs = ap has_pong h.0.1 ∙ has_pong-pong b in ground (arith, h.0.0)

if-eq :
    {A : Type 0} (b : Bool) (x y : A) (v : Bool)
    → b ≡ v
    → (if b then x else y) ≡ (if v then x else y)
if-eq b x y v e = ap (λ t. if t then x else y) e

welcome-busy : (b : Lobby) → b.active ≡ true → welcome b ≡ codes "BUSY\n"
unfolding step
welcome-busy b e = ground arith

welcome-free : (b : Lobby) → b.active ≡ false → welcome b ≡ codes "WELCOME\n"
unfolding step
welcome-free b e = ground arith

busy_text : greeting_text (some (codes "BUSY\n")) ≡ codes "BUSY"
unfolding greeting_text from_utf8_lossy trim
busy_text = refl

welcome_text : greeting_text (some (codes "WELCOME\n")) ≡ codes "WELCOME"
unfolding greeting_text from_utf8_lossy trim
welcome_text = refl

-- The client behind a handshake with the daemon.
shaken :
    (c : Connection) (d : ℕ)
    → c.connects ≡ true
    → c.takes_hello ≡ true
    → c.takes_timeout ≡ true
    → run_client true (some d) c ≡ on_greeting (greeting_text c.greeting) true (some d) c
unfolding run_client
shaken c d connected greets bounded = ground arith

greeted :
    (b : Lobby) (d : ℕ) (c : Connection)
    → c.greeting ≡ some (welcome b)
    → c.retimes ≡ true
    → on_greeting (greeting_text c.greeting) true (some d) c
      ≡ (if b.active then (busy, 0) else ping_loop c.rounds)
unfolding on_greeting stay step contains_text
greeted b d c greeting timed = elim (Bool-cases b.active) [
  | inl e ↦
      let reads : greeting_text c.greeting ≡ codes "BUSY" =
        ap greeting_text (greeting ∙ ap some (welcome-busy b e)) ∙ busy_text in
      ap (λ text. on_greeting text true (some d) c) reads ∙ sym (if-eq b.active _ _ true e)
  | inr e ↦
      let reads : greeting_text c.greeting ≡ codes "WELCOME" =
        ap greeting_text (greeting ∙ ap some (welcome-free b e)) ∙ welcome_text in
      ap (λ text. on_greeting text true (some d) c) reads
      ∙ if-eq c.retimes _ _ true timed
      ∙ sym (if-eq b.active _ _ false e)
]

-- The client that pings at an interval, over a connection that stands, is refused where the daemon
-- already has a client. Otherwise it holds the heartbeat for as long as the daemon answers, and ends
-- at the first round without an answer, whatever would follow, with one PING for each round: where
-- the PING cannot be written, the read fails, the stream has ended, or the reply has no PONG in it.
pub run_client-served :
    (b : Lobby) (d : ℕ) (c : Connection) (xs : List Round) (r : Round) (rest : List Round)
    → c.connects ≡ true
    → c.takes_hello ≡ true
    → c.takes_timeout ≡ true
    → c.greeting ≡ some (welcome b)
    → c.retimes ≡ true
    → c.rounds ≡ xs ++ r ∷ rest
    → All (IsAnswered b) xs
    → IsLost r
    → ((ping_loop xs).0 ≡ waiting)
      × (run_client true (some d) c ≡ (if b.active then (busy, 0) else (closed, length xs + 1)))
run_client-served b d c xs r rest connected greets bounded greeting timed rounds answered lost = (
  ping_loop-answered b xs answered,
  shaken c d connected greets bounded
      ∙ greeted b d c greeting timed
      ∙ ap (λ end. if b.active then (busy, 0) else end)
          (ap ping_loop rounds ∙ ping_loop-lost b xs r rest answered lost),
)
