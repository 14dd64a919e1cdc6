-- ===== src/Kiroku/Sink/Journal.antt =====
-- The records that a process hands to one `Sink` of rs/crates/kiroku/src/lib.rs, one after the
-- other, against the validator of rs/crates/kiroku/src/contract.rs.
use ningen_shikkaku.Base.{
  ℕ, ◌+◌, ◌%◌, ◌^◌, ◌≤◌, ◌<◌, ◌≡◌, refl, sym, ◌∙◌, List, [], ◌∷◌, ◌++◌, append_assoc, append-nil,
  Option, some, map, take, length, All, arith,
}
use ningen_shikkaku.Base.Text.{Bytes}
use ningen_shikkaku.Base.Results.{ok}
use ningen_shikkaku.Kiroku.{Component, Lifecycle}
use ningen_shikkaku.Kiroku.Render.{render}
use ningen_shikkaku.Kiroku.Render.Bound.{IsInRange}
use ningen_shikkaku.Kiroku.Render.Printing.{record_value, body_of, render-eq-print}
use ningen_shikkaku.Kiroku.Json.{Value}
use ningen_shikkaku.Kiroku.Contract.{validate}
use ningen_shikkaku.Kiroku.Contract.Text.{IsPrintable}
use ningen_shikkaku.Kiroku.Contract.Acceptance.{IsSession, validate-render}
use ningen_shikkaku.Kiroku.Sink.{
  now_unix_ms, hex, Sink, open_sink, Write, written, failed, write_record, record_line, emit,
}
use ningen_shikkaku.Kiroku.Sink.Acceptance.{now_unix_ms-lt, hex-IsSession}

-- A record, what the clock said when it was made, and what came of its `write_all`.
pub record Entry : Type 0 where
  pub clock : Option ℕ
  pub outcome : Write
  pub event : Lifecycle

unfoldable pub journal : (producer : Bytes) → List Entry → Sink → Sink
journal producer [] s = s
journal producer (x ∷ xs) s = journal producer xs (emit producer x.clock x.outcome x.event s)

-- What a list of records leaves in the file, and how many of their writes failed, where `Line` holds
-- of every record and its line.
pub data Appended (Line : Entry → Bytes → Type 0) : List Entry → Bytes → ℕ → Type 0 where
  nothing : Appended Line [] [] 0
  whole :
      {x : Entry} {line text : Bytes} {xs : List Entry} {n : ℕ}
      → x.outcome ≡ written
      → Line x line
      → Appended Line xs text n
      → Appended Line (x ∷ xs) (line ++ text) n
  torn :
      {x : Entry} {line text : Bytes} {xs : List Entry} {n after : ℕ}
      → x.outcome ≡ failed after
      → Line x line
      → Appended Line xs text n
      → Appended Line (x ∷ xs) (take after line ++ text) (n + 1)

-- The JSON parser reads the compact text of the record's value back.
abbrev pub ReadsBack :
    (from_str : Bytes → Option Value) (producer : Bytes) (c : Component) (session : Bytes)
    → Entry
    → Type 0
ReadsBack from_str producer c session x =
    from_str (body_of producer c session (now_unix_ms x.clock) x.event)
    ≡ some (record_value producer c session (now_unix_ms x.clock) x.event)

-- The line of a record: the compact text of the value of its own step, at the time of its own
-- clock, and a line break; and the validator accepts it.
abbrev pub IsLineOf :
    (from_str : Bytes → Option Value) (producer : Bytes) (c : Component) (session : Bytes)
    → Entry
    → Bytes
    → Type 0
IsLineOf from_str producer c session x line =
    (line ≡ body_of producer c session (now_unix_ms x.clock) x.event ++ b'\n' ∷ [])
    × (validate from_str producer line ≡ ok tt)

write_record-component :
    (w : Write) (line : Bytes) (s : Sink) → (write_record w line s).component ≡ s.component
unfolding write_record
write_record-component written line s = refl
write_record-component (failed after) line s = refl

write_record-session :
    (w : Write) (line : Bytes) (s : Sink) → (write_record w line s).session ≡ s.session
unfolding write_record
write_record-session written line s = refl
write_record-session (failed after) line s = refl

write_record-dropped :
    (w : Write) (line : Bytes) (s : Sink)
    → s.dropped < 2 ^ 64
    → (write_record w line s).dropped < 2 ^ 64
unfolding write_record
write_record-dropped written line s h = h
write_record-dropped (failed after) line s h = omega arith

module _ (from_str : Bytes → Option Value) (producer : Bytes) (c : Component) (session : Bytes)
    (printable : IsPrintable producer) (short : length producer ≤ 64)
    (named : IsSession session) where
  line-IsLineOf :
      (x : Entry)
      → IsInRange x.event
      → ReadsBack from_str producer c session x
      → IsLineOf from_str producer c session x
          (render producer c session (now_unix_ms x.clock) x.event)
  line-IsLineOf x r p = (
    render-eq-print producer c session (now_unix_ms x.clock) x.event,
    validate-render from_str producer c session (now_unix_ms x.clock) x.event printable short named
        (now_unix_ms-lt x.clock) r p,
  )

  abbrev Outcome : List Entry → Sink → Sink → Type 0
  Outcome xs s s' =
      (text : Bytes) × (n : ℕ) × Appended (IsLineOf from_str producer c session) xs text n
      × (s'.file ≡ s.file ++ text)
      × (s'.dropped ≡ (s.dropped + n) % 2 ^ 64)

  step-Outcome :
      (w : Write) (x : Entry) (xs : List Entry) (line : Bytes) (s s' : Sink)
      → x.outcome ≡ w
      → IsLineOf from_str producer c session x line
      → Outcome xs (write_record w line s) s'
      → Outcome (x ∷ xs) s s'
  unfolding write_record
  step-Outcome written x xs line s s' e v (text, n, a, f, d) =
      (line ++ text, n, whole e v a, f ∙ append_assoc s.file line text, d)
  step-Outcome (failed after) x xs line s s' e v (text, n, a, f, d) = (
    take after line ++ text,
    n + 1,
    torn e v a,
    f ∙ append_assoc s.file (take after line) text,
    omega (arith, d),
  )

  journal-Outcome :
      (xs : List Entry) (s : Sink)
      → s.component ≡ c
      → s.session ≡ session
      → s.dropped < 2 ^ 64
      → All IsInRange (map (λ (x : Entry). x.event) xs)
      → All (ReadsBack from_str producer c session) xs
      → Outcome xs s (journal producer xs s)
  unfolding journal emit record_line
  journal-Outcome [] s ec es b r p = ([], 0, nothing, sym (append-nil s.file), omega (arith, b))
  journal-Outcome (x ∷ xs) s ec es b (r, rs) (p, ps) =
      let line = render producer s.component s.session (now_unix_ms x.clock) x.event in
      let s1 = write_record x.outcome line s in
      step-Outcome x.outcome x xs line s (journal producer xs s1) refl
        (rw (ec, es) (line-IsLineOf x r p))
        (journal-Outcome xs s1 (write_record-component x.outcome line s ∙ ec)
          (write_record-session x.outcome line s ∙ es) (write_record-dropped x.outcome line s b) rs
          ps)

-- What a sink has written of some records: behind what was there, the line of each record, in the
-- order of the records, whole where its write went through and a beginning of it where it did not;
-- and the failures are counted, modulo 2^64.
abbrev pub Written :
    (from_str : Bytes → Option Value) (producer : Bytes)
    → Component
    → (session file : Bytes) → List Entry
    → Sink
    → Type 0
Written from_str producer c session file xs s =
    (text : Bytes) × (n : ℕ) × Appended (IsLineOf from_str producer c session) xs text n
    × (s.file ≡ file ++ text)
    × (s.dropped ≡ n % 2 ^ 64)

-- Whatever the clock says at each record and whatever comes of its write, a sink opened with
-- sixteen random bytes writes the records it is handed, given that they are in range, that the
-- producer is printable and at most 64 bytes long, and that the JSON parser reads the compact text
-- of each record's value back.
pub journal-Written :
    (from_str : Bytes → Option Value) (producer file bytes : Bytes) (c : Component) (s : Sink)
    (xs : List Entry)
    → IsPrintable producer
    → length producer ≤ 64
    → length bytes ≡ 16
    → All (λ b. b < 256) bytes
    → open_sink (some file) (some bytes) c ≡ some s
    → All IsInRange (map (λ (x : Entry). x.event) xs)
    → All (ReadsBack from_str producer c (hex bytes)) xs
    → Written from_str producer c (hex bytes) file xs (journal producer xs s)
unfolding open_sink
journal-Written from_str producer file bytes c s xs hp hl hb hr opened inside back =
    let made : record { file = file; component = c; session = hex bytes; dropped = 0 } ≡ s = cc in
    let (text, n, a, f, d) =
      journal-Outcome from_str producer c (hex bytes) hp hl (hex-IsSession bytes hb hr) xs
        (record { file = file; component = c; session = hex bytes; dropped = 0 }) refl refl
        (omega arith) inside back in
    (text, n, a, rw (sym made) f, rw (sym made) (omega (arith, d)))
