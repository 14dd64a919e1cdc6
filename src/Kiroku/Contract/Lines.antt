-- ===== src/Kiroku/Contract/Lines.antt =====
-- rs/crates/kiroku/src/contract.rs, `validate`: the lines that it accepts.
use ningen_shikkaku.Base.{
  ℕ, ◌≤◌, ◌≡◌, true, [], ◌∷◌, ◌++◌, Option, some, length, leb, leb→le, Option-cases, inl, inr,
  arith,
}
use ningen_shikkaku.Base.Text.{Bytes}
use ningen_shikkaku.Base.Results.{ok, ensure, ok_or, >>=-take, ensure-inv, ok_or-inv}
use ningen_shikkaku.Kiroku.{Component, Lifecycle, max_record_bytes}
use ningen_shikkaku.Kiroku.Json.{Value}
use ningen_shikkaku.Kiroku.Checks.{Refusal, all_bytes, is_ascii, is_in_line, strip_newline}
use ningen_shikkaku.Kiroku.Contract.{validate}
use ningen_shikkaku.Kiroku.Contract.Records.{IsRecord}
use ningen_shikkaku.Kiroku.Contract.Reading.{validate_value-IsRecord}

strip_newline-inv : (s t : Bytes) → strip_newline s ≡ some t → s ≡ t ++ b'\n' ∷ []
unfolding strip_newline
strip_newline-inv [] t h = cc
strip_newline-inv (c ∷ []) t h = ground arith
strip_newline-inv (c ∷ d ∷ s) t h = elim (Option-cases (strip_newline (d ∷ s))) [
  | inl e ↦ ground arith
  | inr (u, e) ↦ ground (arith, strip_newline-inv (d ∷ s) u e)
]

-- The line is one record of `producer`.
pub record IsLine (from_str : Bytes → Option Value) (producer line : Bytes) : Type 0 where
  pub body : Bytes
  pub value : Value
  pub component : Component
  pub session : Bytes
  pub ms : ℕ
  pub step : Lifecycle
  pub one_line : line ≡ body ++ b'\n' ∷ []
  pub short : length line ≤ max_record_bytes
  pub ascii : all_bytes is_ascii line ≡ true
  pub unbroken : all_bytes is_in_line body ≡ true
  pub parsed : from_str body ≡ some value
  pub says : IsRecord producer value component session ms step

-- A line that the validator accepts has at most 512 bytes, is ASCII, has its one line break at the
-- end, and parses to a record of the contract: with a session of 32 hexadecimal digits, a safe
-- time and an in-range step, holding each field that the writer gives that step, and with no
-- other key at the top, in `args` or in `result`.
pub validate-IsLine :
    (from_str : Bytes → Option Value) (producer line : Bytes)
    → validate from_str producer line ≡ ok tt
    → IsLine from_str producer line
unfolding validate
validate-IsLine from_str producer line h =
    >>=-take (ensure (leb (length line) max_record_bytes) Refusal.too_long) _ h λ u0 p0 h0.
      >>=-take (ensure (all_bytes is_ascii line) Refusal.not_ascii) _ h0 λ u1 p1 h1.
        >>=-take (ok_or (strip_newline line) Refusal.not_terminated) _ h1 λ body p2 h2.
          >>=-take (ensure (all_bytes is_in_line body) Refusal.line_break) _ h2 λ u3 p3 h3.
            >>=-take (ok_or (from_str body) Refusal.not_json) _ h3 λ value p4 h4.
              let (c, session, ms, e, says) = validate_value-IsRecord producer value h4 in
              record {
                body = body;
                value = value;
                component = c;
                session = session;
                ms = ms;
                step = e;
                one_line = strip_newline-inv line body (ok_or-inv _ _ body p2);
                short = leb→le _ _ (ensure-inv _ _ u0 p0);
                ascii = ensure-inv _ _ u1 p1;
                unbroken = ensure-inv _ _ u3 p3;
                parsed = ok_or-inv _ _ value p4;
                says = says;
              }
