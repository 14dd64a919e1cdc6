-- ===== src/Kiroku/Contract/Soundness.antt =====
-- rs/crates/kiroku/src/contract.rs: what a value that passes `validate` says, for each arm of the
-- `match tool_name` and for the record as a whole.
use ningen_shikkaku.Base.{
  ◌≡◌, refl, Bool, true, false, List, [], ◌∷◌, some, All, arith, if◌then◌else◌,
}
use ningen_shikkaku.Base.Text.{Bytes, codes, text_eq, text_eq_iff}
use ningen_shikkaku.Base.Results.{ok, ◌>>=◌, ensure, >>=-take, ensure-inv}
use ningen_shikkaku.Kiroku.{
  arm_via_str, all_arm_vias, reason_str, all_reasons, kill_target_str, all_kill_targets,
  read_kind_str, all_read_kinds, Lifecycle, tool_name,
}
use ningen_shikkaku.Kiroku.Render.{bool, Field, result_of, own_args}
use ningen_shikkaku.Kiroku.Render.Bound.{u32_max, IsInRange}
use ningen_shikkaku.Kiroku.Json.{Map, get}
use ningen_shikkaku.Kiroku.Render.Printing.{value_of}
use ningen_shikkaku.Kiroku.Checks.{Refusal, str_in, int_le, boolean, names, success_key, bool_eq}
use ningen_shikkaku.Kiroku.Contract.{step_keys}
use ningen_shikkaku.Kiroku.Contract.Fields.{own_keys, result_key}
use ningen_shikkaku.Kiroku.Contract.Inversion.{int_le-inv, boolean-inv, str_in-names-inv}

-- The map holds the field.
abbrev pub Has : Map → Field → Type 0
Has m f = get m f.0 ≡ some (value_of f.1)

-- What the arm itself checks of `result` and of `success`.
abbrev pub Agrees : Lifecycle → Map → (success : Bool) → Type 0
Agrees (Lifecycle.read _ _ served) result success =
    Has result (codes "served", bool served) × (served ≡ success)
Agrees (Lifecycle.kill _ _ _ executed) result success =
    Has result (codes "executed", bool executed) × (success ≡ true)
Agrees _ result success = Unit

-- The checked parts are those of the step `e`.
pub record IsStep (tool : Bytes) (args result : Map) (success : Bool)
    (allowed : List Bytes × List Bytes) (e : Lifecycle) : Type 0 where
  pub named : tool ≡ tool_name e
  pub in_range : IsInRange e
  pub own : All (Has args) (own_args e)
  pub agrees : Agrees e result success
  pub keys_allowed : allowed ≡ (own_keys e, result_key e)

-- A conditional that has come to `r` took one of its branches.
if-take :
    {A : Type 0} {x y r : A} {G : Type 0} (b : Bool)
    → (if b then x else y) ≡ r
    → (b ≡ true → x ≡ r → G)
    → (y ≡ r → G)
    → G
if-take true h yes_case no_case = yes_case refl h
if-take false h yes_case no_case = no_case h

module _ (tool : Bytes) (args result : Map) (success : Bool)
    (allowed : List Bytes × List Bytes) where
  abbrev Found : Type 0
  Found = (e : Lifecycle) × IsStep tool args result success allowed e

  session_start-Found :
      tool ≡ codes "ningen.session_start"
      → (boolean args (codes "armed") >>= λ _. ok (codes "armed" ∷ [], success_key)) ≡ ok allowed
      → Found
  unfolding tool_name own_args result_of value_of
  session_start-Found t h = >>=-take (boolean args (codes "armed")) _ h λ armed p q. (
    Lifecycle.session_start armed,
    record {
      named = t;
      in_range = tt;
      own = (boolean-inv _ _ _ p, tt);
      agrees = tt;
      keys_allowed = cc;
    },
  )

  arm-Found :
      tool ≡ codes "ningen.arm"
      → (str_in args (codes "via") (names all_arm_vias arm_via_str) >>= λ _.
          ok (codes "via" ∷ [], success_key))
        ≡ ok allowed
      → Found
  unfolding tool_name own_args result_of value_of
  arm-Found t h = >>=-take (str_in args (codes "via") (names all_arm_vias arm_via_str)) _ h λ s p q.
      let (via, g) = str_in-names-inv all_arm_vias arm_via_str args (codes "via") s p in
      (
        Lifecycle.arm via,
        record { named = t; in_range = tt; own = (g, tt); agrees = tt; keys_allowed = cc },
      )

  session_end-Found :
      tool ≡ codes "ningen.session_end"
      → (str_in args (codes "reason") (names all_reasons reason_str) >>= λ _.
          ok (codes "reason" ∷ [], success_key))
        ≡ ok allowed
      → Found
  unfolding tool_name own_args result_of value_of
  session_end-Found t h =
      >>=-take (str_in args (codes "reason") (names all_reasons reason_str)) _ h λ s p q.
        let (reason, g) = str_in-names-inv all_reasons reason_str args (codes "reason") s p in
        (
          Lifecycle.session_end reason,
          record { named = t; in_range = tt; own = (g, tt); agrees = tt; keys_allowed = cc },
        )

  read-Found :
      tool ≡ codes "ningen.read"
      → (int_le args (codes "tool") u32_max >>= λ _.
          str_in args (codes "kind") (names all_read_kinds read_kind_str) >>= λ _.
          boolean result (codes "served") >>= λ served.
          ensure (bool_eq served success) Refusal.read_mismatch >>= λ _.
          ok (codes "tool" ∷ codes "kind" ∷ [], codes "served" ∷ []))
        ≡ ok allowed
      → Found
  unfolding tool_name own_args result_of value_of bool_eq
  read-Found t h = >>=-take (int_le args (codes "tool") u32_max) _ h λ n p h2.
      >>=-take (str_in args (codes "kind") (names all_read_kinds read_kind_str)) _ h2 λ s q h3.
        >>=-take (boolean result (codes "served")) _ h3 λ served r h4.
          >>=-take (ensure (bool_eq served success) Refusal.read_mismatch) _ h4 λ u c h5.
            let (kind, g) = str_in-names-inv all_read_kinds read_kind_str args (codes "kind") s q in
            let (i, range) = int_le-inv args (codes "tool") u32_max n p in
            let same : served ≡ success = let b = ensure-inv _ _ u c in ground arith in
            (
              Lifecycle.read n kind served,
              record {
                named = t;
                in_range = range;
                own = (i, (g, tt));
                agrees = (boolean-inv _ _ _ r, same);
                keys_allowed = cc;
              },
            )

  wipe-Found :
      tool ≡ codes "ningen.wipe"
      → (str_in args (codes "reason") (names all_reasons reason_str) >>= λ _.
          int_le args (codes "buffers") u32_max >>= λ _.
          ok (codes "reason" ∷ codes "buffers" ∷ [], success_key))
        ≡ ok allowed
      → Found
  unfolding tool_name own_args result_of value_of
  wipe-Found t h =
      >>=-take (str_in args (codes "reason") (names all_reasons reason_str)) _ h λ s p h2.
        >>=-take (int_le args (codes "buffers") u32_max) _ h2 λ n q h3.
          let (reason, g) = str_in-names-inv all_reasons reason_str args (codes "reason") s p in
          let (i, range) = int_le-inv args (codes "buffers") u32_max n q in
          (
            Lifecycle.wipe reason n,
            record {
              named = t;
              in_range = range;
              own = (g, (i, tt));
              agrees = tt;
              keys_allowed = cc;
            },
          )

  kill-Found :
      tool ≡ codes "ningen.kill"
      → (str_in args (codes "reason") (names all_reasons reason_str) >>= λ _.
          str_in args (codes "target") (names all_kill_targets kill_target_str) >>= λ _.
          int_le args (codes "count") u32_max >>= λ _. boolean result (codes "executed") >>= λ _.
          ensure success Refusal.kill_failed >>= λ _.
          ok (codes "reason" ∷ codes "target" ∷ codes "count" ∷ [], codes "executed" ∷ []))
        ≡ ok allowed
      → Found
  unfolding tool_name own_args result_of value_of
  kill-Found t h =
      >>=-take (str_in args (codes "reason") (names all_reasons reason_str)) _ h λ s p h2.
        >>=-take (str_in args (codes "target") (names all_kill_targets kill_target_str)) _ h2
          λ w q h3. >>=-take (int_le args (codes "count") u32_max) _ h3 λ n r h4.
            >>=-take (boolean result (codes "executed")) _ h4 λ x b h5.
              >>=-take (ensure success Refusal.kill_failed) _ h5 λ u c h6.
                let (reason, g) =
                  str_in-names-inv all_reasons reason_str args (codes "reason") s p in
                let (target, k) =
                  str_in-names-inv all_kill_targets kill_target_str args (codes "target") w q in
                let (i, range) = int_le-inv args (codes "count") u32_max n r in
                (
                  Lifecycle.kill reason target n x,
                  record {
                    named = t;
                    in_range = range;
                    own = (g, (k, (i, tt)));
                    agrees = (boolean-inv _ _ _ b, ensure-inv _ _ u c);
                    keys_allowed = cc;
                  },
                )

  -- A name of the vocabulary that passes its arm is the name of a step that the parts describe.
  pub step_keys-Found : step_keys tool args result success ≡ ok allowed → Found
  unfolding step_keys
  step_keys-Found h =
      if-take (text_eq tool (codes "ningen.session_start")) h (λ t. session_start-Found (is t))
        λ h1.
          if-take (text_eq tool (codes "ningen.arm")) h1 (λ t. arm-Found (is t))
            λ h2.
              if-take (text_eq tool (codes "ningen.read")) h2 (λ t. read-Found (is t))
                λ h3.
                  if-take (text_eq tool (codes "ningen.wipe")) h3 (λ t. wipe-Found (is t))
                    λ h4.
                      if-take (text_eq tool (codes "ningen.kill")) h4 (λ t. kill-Found (is t))
                        λ h5.
                          if-take (text_eq tool (codes "ningen.session_end")) h5
                            (λ t. session_end-Found (is t)) λ h6. cc
    where
      is : {s : Bytes} → text_eq tool s ≡ true → tool ≡ s
      is {s} e = (text_eq_iff tool s).0 e
