-- ===== src/Kiroku/Contract/Steps.antt =====
-- The checks of rs/crates/kiroku/src/contract.rs on fields that are right, and the `match tool_name` on
-- the arguments that rs/crates/kiroku/src/lib.rs gives a step.
use ningen_shikkaku.Base.{
  ℕ, ◌≤◌, ◌≡◌, refl, Bool, true, false, ◌&&◌, List, arith, some, if◌then◌else◌,
}
use ningen_shikkaku.Base.Text.{Bytes, codes, text_eq}
use ningen_shikkaku.Base.Results.{ok, ensure, ok_or, >>=-ok}
use ningen_shikkaku.Kiroku.{
  Component, ArmVia, arm_via_str, all_arm_vias, Reason, reason_str, all_reasons, KillTarget,
  kill_target_str, all_kill_targets, ReadKind, read_kind_str, all_read_kinds, Lifecycle, tool_name,
}
use ningen_shikkaku.Kiroku.Render.{
  succeeded, result_of, common_args, own_args, sort_fields, insert, text_le,
}
use ningen_shikkaku.Kiroku.Render.Bound.{IsInRange}
use ningen_shikkaku.Kiroku.Json.{Value, Map, get, as_str, as_u64, as_bool, is_true}
use ningen_shikkaku.Kiroku.Render.Printing.{members, value_of, args_map, result_map}
use ningen_shikkaku.Kiroku.Checks.{
  Refusal, in_vocab, and_then, str_in, int_le, boolean, names, success_key, is_some_and, texts_eq,
  bool_eq,
}
use ningen_shikkaku.Kiroku.Contract.{step_keys}
use ningen_shikkaku.Kiroku.Contract.Fields.{own_keys, result_key}

-- A lookup that finds a text of the vocabulary passes.
pub str_in-ok :
    (m : Map) (key s : Bytes) (vocab : List Bytes)
    → get m key ≡ some (Value.string s)
    → in_vocab vocab s ≡ true
    → str_in m key vocab ≡ ok s
unfolding str_in and_then as_str ok_or ensure
str_in-ok m key s vocab g v = rw (g, v) refl

pub int_le-ok :
    (m : Map) (key : Bytes) (n max : ℕ)
    → get m key ≡ some (Value.number n)
    → n ≤ max
    → int_le m key max ≡ ok n
unfolding int_le and_then as_u64 ok_or ensure
int_le-ok m key n max g h = ground arith

pub boolean-ok :
    (m : Map) (key : Bytes) (b : Bool) → get m key ≡ some (Value.bool b) → boolean m key ≡ ok b
unfolding boolean and_then as_bool ok_or
boolean-ok m key b g = rw g refl

reason-in_vocab : (r : Reason) → in_vocab (names all_reasons reason_str) (reason_str r) ≡ true
unfolding in_vocab names reason_str text_eq
reason-in_vocab Reason.heartbeat_lost = refl
reason-in_vocab _ = refl

via-in_vocab : (v : ArmVia) → in_vocab (names all_arm_vias arm_via_str) (arm_via_str v) ≡ true
unfolding in_vocab names arm_via_str text_eq
via-in_vocab ArmVia.startup = refl
via-in_vocab _ = refl

target-in_vocab :
    (t : KillTarget) → in_vocab (names all_kill_targets kill_target_str) (kill_target_str t) ≡ true
unfolding in_vocab names kill_target_str text_eq
target-in_vocab KillTarget.registered = refl
target-in_vocab _ = refl

kind-in_vocab :
    (k : ReadKind) → in_vocab (names all_read_kinds read_kind_str) (read_kind_str k) ≡ true
unfolding in_vocab names read_kind_str text_eq
kind-in_vocab ReadKind.static = refl
kind-in_vocab _ = refl

-- Every step of the vocabulary has the arguments and the result that its name asks for.
pub step_keys-record :
    (producer : Bytes) (c : Component) (session : Bytes) (ms : ℕ) (e : Lifecycle)
    → IsInRange e
    → step_keys (tool_name e) (args_map producer c session ms e) (result_map e) (succeeded e)
      ≡ ok (own_keys e, result_key e)
unfolding step_keys tool_name args_map result_map result_of succeeded common_args own_args
    sort_fields insert text_le members value_of get text_eq ensure bool_eq
step_keys-record producer c session ms (Lifecycle.session_start armed) h =
    >>=-ok armed _ (boolean-ok _ _ armed refl) refl
step_keys-record producer c session ms (Lifecycle.arm via) h =
    >>=-ok (arm_via_str via) _ (str_in-ok _ _ _ _ refl (via-in_vocab via)) refl
step_keys-record producer c session ms (Lifecycle.read tool kind true) h =
    >>=-ok tool _ (int_le-ok _ _ tool _ refl h) (
      >>=-ok (read_kind_str kind) _ (str_in-ok _ _ _ _ refl (kind-in_vocab kind))
        (>>=-ok true _ (boolean-ok _ _ true refl) refl))
step_keys-record producer c session ms (Lifecycle.read tool kind false) h =
    >>=-ok tool _ (int_le-ok _ _ tool _ refl h) (
      >>=-ok (read_kind_str kind) _ (str_in-ok _ _ _ _ refl (kind-in_vocab kind))
        (>>=-ok false _ (boolean-ok _ _ false refl) refl))
step_keys-record producer c session ms (Lifecycle.wipe reason buffers) h =
    >>=-ok (reason_str reason) _ (str_in-ok _ _ _ _ refl (reason-in_vocab reason))
      (>>=-ok buffers _ (int_le-ok _ _ buffers _ refl h) refl)
step_keys-record producer c session ms (Lifecycle.kill reason target count executed) h =
    >>=-ok (reason_str reason) _ (str_in-ok _ _ _ _ refl (reason-in_vocab reason)) (
      >>=-ok (kill_target_str target) _ (str_in-ok _ _ _ _ refl (target-in_vocab target)) (
        >>=-ok count _ (int_le-ok _ _ count _ refl h)
          (>>=-ok executed _ (boolean-ok _ _ executed refl) refl)))
step_keys-record producer c session ms (Lifecycle.session_end reason) h =
    >>=-ok (reason_str reason) _ (str_in-ok _ _ _ _ refl (reason-in_vocab reason)) refl

-- A step other than a read or a kill succeeds in its result and as a whole.
pub step-succeeds :
    (e : Lifecycle)
    → ensure
        (if texts_eq (result_key e) success_key
          then is_some_and (get (result_map e) (codes "success")) is_true && succeeded e
          else true)
        Refusal.step_failed
      ≡ ok tt
unfolding ensure texts_eq text_eq is_some_and get result_map members value_of result_of is_true
    succeeded
step-succeeds (Lifecycle.session_start _) = refl
step-succeeds _ = refl
