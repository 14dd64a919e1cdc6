-- ===== src/Tests/Contract.antt =====
-- The validator and the sink of rs/crates/kiroku/src at a concrete record. The parser is a function
-- that knows the text of one value.
use ningen_shikkaku.Base.{ℕ, ◌≡◌, refl, true, [], ◌∷◌, Option, none, some, arith, if◌then◌else◌}
use ningen_shikkaku.Base.Text.{Bytes, codes, text_eq, text_eq_refl}
use ningen_shikkaku.Base.Results.{ok, err, ensure, ok_or}
use ningen_shikkaku.Kiroku.{Component, Lifecycle, Reason, KillTarget}
use ningen_shikkaku.Kiroku.Render.{render}
use ningen_shikkaku.Kiroku.Render.Printing.{record_value, body_of}
use ningen_shikkaku.Kiroku.Json.{Value}
use ningen_shikkaku.Kiroku.Checks.{Refusal, all_bytes, is_ascii, strip_newline, is_hex}
use ningen_shikkaku.Kiroku.Contract.{validate}
use ningen_shikkaku.Kiroku.Contract.Acceptance.{IsSession, validate-render}
use ningen_shikkaku.Kiroku.Contract.Lines.{IsLine, validate-IsLine}
use ningen_shikkaku.Kiroku.Sink.{Sink, now_unix_ms, hex, hex_digit}

abbrev pub producer : Bytes
producer = codes "ningen-shikkaku@0.2.0"

abbrev pub random : Bytes
random = 0 ∷ 17 ∷ 34 ∷ 51 ∷ 68 ∷ 85 ∷ 102 ∷ 119 ∷ 136 ∷ 153 ∷ 170 ∷ 187 ∷ 204 ∷ 221 ∷ 238 ∷ 255 ∷ []

abbrev step : Lifecycle
step = Lifecycle.kill Reason.heartbeat_lost KillTarget.self_process 1 true

abbrev clock : Option ℕ
clock = some 1700000000000

abbrev body : Bytes
body = body_of producer Component.dazai (hex random) (now_unix_ms clock) step

abbrev value : Value
value = record_value producer Component.dazai (hex random) (now_unix_ms clock) step

abbrev parser : Bytes → Option Value
parser s = if text_eq s body then some value else none

parser-body : parser body ≡ some value
parser-body = rw (text_eq_refl body) refl

abbrev opened : Sink
opened = record {
  file = codes "x\n";
  component = Component.dazai;
  session = hex random;
  dropped = 0;
}

random-IsSession : IsSession (hex random)
unfolding hex hex_digit all_bytes is_hex
random-IsSession = (refl, refl)

line-validates :
    validate parser producer (render producer Component.dazai (hex random) (now_unix_ms clock) step)
    ≡ ok tt
line-validates =
    validate-render parser producer Component.dazai (hex random) (now_unix_ms clock) step
      (omega arith) (omega arith) random-IsSession (unfold now_unix_ms in omega arith) (omega arith)
      parser-body

validate-IsLine_example :
    IsLine parser producer (render producer Component.dazai (hex random) (now_unix_ms clock) step)
validate-IsLine_example =
    validate-IsLine parser producer
      (render producer Component.dazai (hex random) (now_unix_ms clock) step) line-validates

-- A line that is not ended is refused.
unterminated : validate parser producer (codes "{}") ≡ err Refusal.not_terminated
unfolding validate ensure ok_or all_bytes is_ascii strip_newline
unterminated = refl
