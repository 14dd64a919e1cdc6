-- ===== src/Rei/RoundTrip.antt =====
-- The client's requests answered by the daemon's own handler: what comes back.
use ningen_shikkaku.Base.{
  ℕ, ◌≤◌, ◌≡◌, refl, ap, ◌∙◌, Bool, true, false, [], ◌∷◌, ◌++◌, if◌then◌else◌, arith, length, subst,
  sym,
}
use ningen_shikkaku.Base.Text.{Bytes, codes, strip_prefix, text_eq}
use ningen_shikkaku.Base.Words.{
  IsWord, is_whitespace, split_whitespace, split_whitespace-word, split_whitespace_last, trim,
  to_ascii_uppercase,
}
use ningen_shikkaku.Base.Words.Trim.{
  EndsDark, EndsDark-append, EndsDark-cons, EndsDark-word, trim-newline,
}
use ningen_shikkaku.Base.Decimal.{show, show-cons, parse_uint-show}
use ningen_shikkaku.Goodnight.Process.{Kernel}
use ningen_shikkaku.Kikka.Daemon.{Daemon}
use ningen_shikkaku.Kikka.Control.{
  status_line, u32_max, process_control, answer, verb_of, first_word_upper,
}
use ningen_shikkaku.Kikka.Control
use ningen_shikkaku.Base.Utf8.{from_utf8_lossy}
use ningen_shikkaku.Rei.{
  StatusOut, DazaiClient, Reply, answered, dead, set_token, set_tokens, parse_status, u64_max,
  first_line, status, daemon_request, status_of,
}
use ningen_shikkaku.Rei.Wire.{show-IsWord, field-IsWord}

abbrev bit : Bool → ℕ
bit b = if b then 1 else 0

names-IsWord :
    IsWord (codes "STATUS")
    × IsWord (codes "alive=1")
    × IsWord (codes "armed=")
    × IsWord (codes "grace=")
    × IsWord (codes "registered=")
unfolding is_whitespace
names-IsWord = (ground arith, ground arith, ground arith, ground arith, ground arith)

-- The words of a status reply.
status_words :
    (armed : Bool) (grace registered : ℕ)
    → split_whitespace (status_line armed grace registered)
      ≡ codes "STATUS"
        ∷ codes "alive=1"
        ∷ (codes "armed=" ++ show (bit armed))
        ∷ (codes "grace=" ++ show grace)
        ∷ (codes "registered=" ++ show registered)
        ∷ []
unfolding status_line
status_words armed grace registered =
    let (w0, w1, w2, w3, w4) = names-IsWord in
    let a = show (bit armed) in
    let r3 = codes "registered=" ++ show registered in
    let r2 = (codes "grace=" ++ show grace) ++ (0x20 ∷ r3) in
    let r1 = (codes "armed=" ++ a) ++ (0x20 ∷ r2) in
    let last =
      split_whitespace_last b'r' (codes "egistered=" ++ show registered)
        (field-IsWord (codes "registered=") registered w4) in
    let third =
      split_whitespace-word b'g' (codes "race=" ++ show grace) r3
        (field-IsWord (codes "grace=") grace w3) in
    let second =
      split_whitespace-word b'a' (codes "rmed=" ++ a) r2
        (field-IsWord (codes "armed=") (bit armed) w2) in
    let first = split_whitespace-word b'a' (codes "live=1") r1 w1 in
    split_whitespace-word b'S' (codes "TATUS") (codes "alive=1" ++ (0x20 ∷ r1)) w0
    ∙ ap (◌∷◌ (codes "STATUS")) (
        first
        ∙ ap (◌∷◌ (codes "alive=1")) (
            second
            ∙ ap (◌∷◌ (codes "armed=" ++ a))
                (third ∙ ap (◌∷◌ (codes "grace=" ++ show grace)) last)))

set_verb : (out : StatusOut) → set_token (codes "STATUS") out ≡ out
unfolding set_token strip_prefix
set_verb out = refl

set_alive : (out : StatusOut) → set_token (codes "alive=1") out ≡ record out { alive = true }
unfolding set_token strip_prefix text_eq
set_alive out = refl

set_armed :
    (armed : Bool) (out : StatusOut)
    → set_token (codes "armed=" ++ show (bit armed)) out ≡ record out { armed = armed }
unfolding set_token strip_prefix text_eq show
set_armed true out = refl
set_armed false out = refl

set_grace :
    (n : ℕ) (out : StatusOut)
    → n ≤ u64_max
    → set_token (codes "grace=" ++ show n) out ≡ record out { grace_seconds = n }
unfolding set_token strip_prefix
set_grace n out h = rw (parse_uint-show u64_max n h) refl

set_registered :
    (n : ℕ) (out : StatusOut)
    → n ≤ u32_max
    → set_token (codes "registered=" ++ show n) out ≡ record out { registered_pids = n }
unfolding set_token strip_prefix
set_registered n out h = rw (parse_uint-show u32_max n h) refl

-- What the status of a daemon is, as the client reports it.
abbrev pub reported : Bool → ℕ → ℕ → StatusOut
reported armed grace registered = record {
  alive = true;
  armed = armed;
  grace_seconds = grace;
  registered_pids = registered;
}

-- The client reads back each field of the status line that the daemon prints, up to the range of
-- the fields.
pub parse_status-status_line :
    (armed : Bool) (grace registered : ℕ)
    → grace ≤ u64_max
    → registered ≤ u32_max
    → parse_status (status_line armed grace registered) ≡ reported armed grace registered
unfolding parse_status set_tokens
parse_status-status_line armed grace registered g r =
    ap (λ ws. set_tokens ws dead) (status_words armed grace registered)
    ∙ rw
        (
          set_verb,
          set_alive,
          set_armed armed,
          set_grace grace (record dead { alive = true; armed = armed }) g,
          set_registered registered
              (record dead { alive = true; armed = armed; grace_seconds = grace }) r,
        )
        refl

-- The daemon at the other end: it answers the line that it is sent, and its reply is one line.
abbrev pub served : Kernel → ℕ → Daemon → Bytes → Reply
served k grace d sent = answered (process_control k grace (first_line sent) d).1

pub show-EndsDark : (n : ℕ) → EndsDark (show n)
show-EndsDark n =
    let (c, s, e) = show-cons n in
    subst EndsDark (sym e) (EndsDark-word c s (subst IsWord e (show-IsWord n)))

status_line-EndsDark :
    (armed : Bool) (grace registered : ℕ) → EndsDark (status_line armed grace registered)
unfolding status_line
status_line-EndsDark armed grace registered =
    let d4 = EndsDark-append (codes "registered=") (show-EndsDark registered) in
    let d3 = EndsDark-append (codes "grace=" ++ show grace) (EndsDark-cons 0x20 d4) in
    let d2 = EndsDark-append (codes "armed=" ++ show (bit armed)) (EndsDark-cons 0x20 d3) in
    let d1 = EndsDark-append (codes "alive=1") (EndsDark-cons 0x20 d2) in
    EndsDark-append (codes "STATUS") (EndsDark-cons 0x20 d1)

-- The newline of the reply goes, and the status line is left.
trim-status_line :
    (armed : Bool) (grace registered : ℕ)
    → trim (status_line armed grace registered ++ b'\n' ∷ []) ≡ status_line armed grace registered
unfolding status_line
trim-status_line armed grace registered =
    trim-newline b'S' _ (unfold is_whitespace in refl) (status_line-EndsDark armed grace registered)

pub status_request :
    (k : Kernel) (grace : ℕ) (d : Daemon)
    → process_control k grace (codes "STATUS") d
      ≡ (d, status_line d.armed grace (length d.registered) ++ b'\n' ∷ [], true)
unfolding process_control answer verb_of text_eq first_word_upper to_ascii_uppercase
    split_whitespace is_whitespace from_utf8_lossy Control.status
status_request k grace d = refl

-- A client that asks a daemon for its status is told that the daemon is alive, whether it is
-- armed, its grace window and how many pids it has registered, up to the range of the fields;
-- and asking changes nothing in the daemon.
pub status-served :
    (k : Kernel) (grace : ℕ) (d : Daemon) (c : DazaiClient)
    → grace ≤ u64_max
    → length d.registered ≤ u32_max
    → (status (record c { exchange = served k grace d })
        ≡ reported d.armed grace (length d.registered))
      × ((process_control k grace (codes "STATUS") d).0 ≡ d)
unfolding status daemon_request status_of first_line
status-served k grace d c g r =
    let n = length d.registered in
    (
      ap (λ p. parse_status (trim p.1)) (status_request k grace d)
          ∙ ap parse_status (trim-status_line d.armed grace n)
          ∙ parse_status-status_line d.armed grace n g r,
      ap (λ p. p.0) (status_request k grace d),
    )
