-- ===== src/Kiroku/Sink.antt =====
-- `Sink` of rs/crates/kiroku/src/lib.rs. The clock, the random source, the opening of the file and
-- what comes of each `write_all` are inputs; the file is the bytes appended to it.
pub mod Acceptance
pub mod Journal
use ningen_shikkaku.Base.{
  ℕ, ◌+◌, ◌-◌, ◌/◌, ◌%◌, ◌^◌, min, List, [], ◌∷◌, ◌++◌, Option, none, some, take, leb, ltb,
  if◌then◌else◌,
}
use ningen_shikkaku.Base.Text.{Bytes}
use ningen_shikkaku.Kiroku.{Component, Lifecycle}
use ningen_shikkaku.Kiroku.Render.{render}
use ningen_shikkaku.Kiroku.Checks.{max_safe_int}

-- `clock` is the time since the epoch in milliseconds, or nothing before it.
unfoldable pub now_unix_ms : (clock : Option ℕ) → ℕ
now_unix_ms none = 0
now_unix_ms (some millis) =
    min (if leb millis (2 ^ 64 - 1) then millis else max_safe_int) max_safe_int

-- A digit of `{:02x}`.
unfoldable pub hex_digit : ℕ → ℕ
hex_digit n = if ltb n 10 then b'0' + n else b'a' + (n - 10)

unfoldable pub hex : Bytes → Bytes
hex [] = []
hex (b ∷ bs) = hex_digit (b / 16) ∷ hex_digit (b % 16) ∷ hex bs

-- `urandom` is what reading sixteen bytes from the device gives.
unfoldable pub random_session_id : (urandom : Option Bytes) → Option Bytes
random_session_id none = none
random_session_id (some bytes) = some (hex bytes)

pub record Sink : Type 0 where
  pub file : Bytes
  pub component : Component
  pub session : Bytes
  pub dropped : ℕ

-- `file` is the content of the opened file, or nothing where the opening fails.
unfoldable pub open_sink : (file urandom : Option Bytes) → Component → Option Sink
open_sink none urandom component = none
open_sink (some file) none component = none
open_sink (some file) (some bytes) component =
    some (record { file = file; component = component; session = hex bytes; dropped = 0 })

-- What `write_all` comes to: all of it, or an error after some of it.
pub data Write : Type 0 where
  written : Write
  failed : (after : ℕ) → Write

-- The counter is an `AtomicU64`, which wraps.
unfoldable pub write_record : Write → (line : Bytes) → Sink → Sink
write_record written line s = record s { file = s.file ++ line }
write_record (failed after) line s = record s {
  file = s.file ++ take after line;
  dropped = (s.dropped + 1) % 2 ^ 64;
}

-- The record that `emit` hands to the file.
unfoldable pub record_line : (producer : Bytes) → (clock : Option ℕ) → Sink → Lifecycle → Bytes
record_line producer clock s event = render producer s.component s.session (now_unix_ms clock) event

unfoldable pub emit : (producer : Bytes) → (clock : Option ℕ) → Write → Lifecycle → Sink → Sink
unfolding record_line
emit producer clock outcome event s = write_record outcome (record_line producer clock s event) s
