-- ===== src/Kiroku/Sink/Acceptance.antt =====
-- `Sink::open` and `Sink::emit` of rs/crates/kiroku/src/lib.rs against the validator of
-- rs/crates/kiroku/src/contract.rs.
use ningen_shikkaku.Base.{
  ℕ, ◌*◌, ◌/◌, ◌%◌, ◌^◌, ◌≤◌, ◌<◌, ◌≡◌, refl, subst, true, [], ◌∷◌, ◌++◌, Option, none, some,
  length, All, arith,
}
use ningen_shikkaku.Base.Text.{Bytes}
use ningen_shikkaku.Base.Results.{ok}
use ningen_shikkaku.Kiroku.{Component, Lifecycle}
use ningen_shikkaku.Kiroku.Render.Bound.{IsInRange}
use ningen_shikkaku.Kiroku.Render.Printing.{record_value, body_of}
use ningen_shikkaku.Kiroku.Json.{Value}
use ningen_shikkaku.Kiroku.Checks.{all_bytes, is_hex}
use ningen_shikkaku.Kiroku.Contract.{validate}
use ningen_shikkaku.Kiroku.Contract.Text.{IsPrintable}
use ningen_shikkaku.Kiroku.Contract.Acceptance.{IsSession, validate-render}
use ningen_shikkaku.Kiroku.Sink.{
  now_unix_ms, hex_digit, hex, Sink, open_sink, written, write_record, record_line, emit,
}

pub now_unix_ms-lt : (clock : Option ℕ) → now_unix_ms clock < 2 ^ 53
unfolding now_unix_ms
now_unix_ms-lt none = omega arith
now_unix_ms-lt (some millis) = ground arith

hex_digit-is_hex : (n : ℕ) → n < 16 → is_hex (hex_digit n) ≡ true
unfolding is_hex hex_digit
hex_digit-is_hex n h = ground arith

hex-is_hex : (bs : Bytes) → All (λ b. b < 256) bs → all_bytes is_hex (hex bs) ≡ true
unfolding hex all_bytes
hex-is_hex [] h = refl
hex-is_hex (b ∷ bs) h =
    rw
      (
        hex_digit-is_hex (b / 16) (omega (arith, h.0)),
        hex_digit-is_hex (b % 16) (omega arith),
        hex-is_hex bs h.1,
      )
      refl

length-hex : (bs : Bytes) → length (hex bs) ≡ 2 * length bs
unfolding hex
length-hex [] = refl
length-hex (b ∷ bs) = omega (arith, length-hex bs)

-- Sixteen random bytes give a session that the validator takes.
pub hex-IsSession : (bs : Bytes) → length bs ≡ 16 → All (λ b. b < 256) bs → IsSession (hex bs)
hex-IsSession bs l h = (omega (arith, length-hex bs), hex-is_hex bs h)

-- A sink opened with sixteen random bytes appends, whatever the clock says, for an in-range step a
-- record that the validator accepts, given a printable producer of at most 64 bytes and a JSON
-- parser that reads the compact text of its value back; with the write done, no record is counted
-- as dropped.
pub emit-validates :
    (from_str : Bytes → Option Value) (producer file bytes : Bytes) (c : Component)
    (clock : Option ℕ) (e : Lifecycle) (s : Sink)
    → IsPrintable producer
    → length producer ≤ 64
    → length bytes ≡ 16
    → All (λ b. b < 256) bytes
    → IsInRange e
    → open_sink (some file) (some bytes) c ≡ some s
    → from_str (body_of producer c (hex bytes) (now_unix_ms clock) e)
      ≡ some (record_value producer c (hex bytes) (now_unix_ms clock) e)
    → (line : Bytes) × (validate from_str producer line ≡ ok tt)
      × ((emit producer clock written e s).file ≡ file ++ line)
      × ((emit producer clock written e s).dropped ≡ 0)
unfolding open_sink emit write_record record_line
emit-validates from_str producer file bytes c clock e s hp hl hb hr he opened parsed =
    let made : record { file = file; component = c; session = hex bytes; dropped = 0 } ≡ s = cc in
    subst
      (λ (s : Sink).
        (line : Bytes) × (validate from_str producer line ≡ ok tt)
        × ((emit producer clock written e s).file ≡ file ++ line)
        × ((emit producer clock written e s).dropped ≡ 0))
      made
      (
        _,
        validate-render from_str producer c (hex bytes) (now_unix_ms clock) e hp hl
            (hex-IsSession bytes hb hr) (now_unix_ms-lt clock) he parsed,
        refl,
        refl,
      )
