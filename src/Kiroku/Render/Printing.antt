-- ===== src/Kiroku/Render/Printing.antt =====
-- What a record of rs/crates/kiroku/src/lib.rs says: the JSON value of one lifecycle step, the
-- compact text of a value, and `render` as the text of that value.
use ningen_shikkaku.Base.{
  ℕ, ◌≡◌, refl, sym, ap, ◌∙◌, Bool, true, false, List, [], ◌∷◌, ◌++◌, append_assoc,
}
use ningen_shikkaku.Base.Text.{Bytes, codes}
use ningen_shikkaku.Base.Decimal.{show}
use ningen_shikkaku.Kiroku.{Component, source_agent, Lifecycle, tool_name}
use ningen_shikkaku.Kiroku.Render.{
  Scalar, str, int, bool, Field, insert, sort_fields, bool_text, quoted, scalar_text, field_text,
  more_fields, object_text, push_object, own_args, result_of, succeeded, common_args, render,
}
use ningen_shikkaku.Kiroku.Json.{Value, Items, Map}

-- The compact JSON text of a value whose texts need no escape, before `rest`.
unfoldable mutual
  pub print : Value → (rest : Bytes) → Bytes
  print Value.null rest = codes "null" ++ rest
  print (Value.bool true) rest = codes "true" ++ rest
  print (Value.bool false) rest = codes "false" ++ rest
  print (Value.number n) rest = show n ++ rest
  print (Value.other_number literal) rest = literal ++ rest
  print (Value.string s) rest = b'"' ∷ (s ++ b'"' ∷ rest)
  print (Value.array Items.nil) rest = b'[' ∷ b']' ∷ rest
  print (Value.array (Items.cons v vs)) rest = b'[' ∷ print v (print_items vs (b']' ∷ rest))
  print (Value.object Map.empty) rest = b'{' ∷ b'}' ∷ rest
  print (Value.object (Map.member k v m)) rest =
      b'{' ∷ b'"' ∷ (k ++ b'"' ∷ b':' ∷ print v (print_members m (b'}' ∷ rest)))

  pub print_items : Items → (rest : Bytes) → Bytes
  print_items Items.nil rest = rest
  print_items (Items.cons v vs) rest = b',' ∷ print v (print_items vs rest)

  pub print_members : Map → (rest : Bytes) → Bytes
  print_members Map.empty rest = rest
  print_members (Map.member k v m) rest =
      b',' ∷ b'"' ∷ (k ++ b'"' ∷ b':' ∷ print v (print_members m rest))

unfoldable pub value_of : Scalar → Value
value_of (str s) = Value.string s
value_of (int n) = Value.number n
value_of (bool b) = Value.bool b

unfoldable pub members : List Field → Map
unfolding value_of
members [] = Map.empty
members (f ∷ fs) = Map.member f.0 (value_of f.1) (members fs)

-- The arguments in the order of their keys.
unfoldable pub args_map : (producer : Bytes) → Component → (session : Bytes) → ℕ → Lifecycle → Map
unfolding members sort_fields common_args own_args
args_map producer c session ms e =
    members (sort_fields (common_args producer c session ms ++ own_args e))

unfoldable pub result_map : Lifecycle → Map
unfolding members result_of
result_map e = members (result_of e ∷ [])

unfoldable pub record_of :
    (args result : Map) (agent : Bytes) (success : Bool) (tool : Bytes) → Value
record_of args result agent success tool = Value.object (
    Map.member (codes "args") (Value.object args) (
      Map.member (codes "duration_ms") (Value.number 0) (
        Map.member (codes "event_type") (Value.string (codes "AgentToolCall")) (
          Map.member (codes "payload_refs") (Value.array Items.nil) (
            Map.member (codes "result") (Value.object result) (
              Map.member (codes "source_agent") (Value.string agent) (
                Map.member (codes "success") (Value.bool success)
                  (Map.member (codes "tool_name") (Value.string tool) Map.empty))))))))

-- The value that a record stands for.
unfoldable pub record_value :
    (producer : Bytes) → Component → (session : Bytes) → ℕ → Lifecycle → Value
unfolding args_map result_map record_of succeeded
record_value producer c session ms e =
    record_of (args_map producer c session ms e) (result_map e) (source_agent c) (succeeded e)
      (tool_name e)

abbrev pub body_of : (producer : Bytes) → Component → (session : Bytes) → ℕ → Lifecycle → Bytes
body_of producer c session ms e = print (record_value producer c session ms e) []

quoted-append : (s rest : Bytes) → quoted s ++ rest ≡ b'"' ∷ (s ++ b'"' ∷ rest)
unfolding quoted
quoted-append s rest = simp append_assoc refl

scalar_text-append : (v : Scalar) (rest : Bytes) → scalar_text v ++ rest ≡ print (value_of v) rest
unfolding scalar_text bool_text print value_of
scalar_text-append (str s) rest = quoted-append s rest
scalar_text-append (int n) rest = refl
scalar_text-append (bool true) rest = refl
scalar_text-append (bool false) rest = refl

field_text-append :
    (f : Field) (rest : Bytes)
    → field_text f ++ rest ≡ b'"' ∷ (f.0 ++ b'"' ∷ b':' ∷ print (value_of f.1) rest)
unfolding field_text
field_text-append f rest = simp (append_assoc, scalar_text-append) refl

more_fields-append :
    (fs : List Field) (rest : Bytes) → more_fields fs ++ rest ≡ print_members (members fs) rest
unfolding more_fields print members
more_fields-append [] rest = refl
more_fields-append (f ∷ fs) rest =
    rw
      (
        append_assoc (field_text f) (more_fields fs) rest,
        more_fields-append fs rest,
        field_text-append f (print_members (members fs) rest),
      )
      refl

object_text-append :
    (fs : List Field) (rest : Bytes)
    → object_text fs ++ rest ≡ print (Value.object (members fs)) rest
unfolding object_text print members
object_text-append [] rest = refl
object_text-append (f ∷ fs) rest =
    rw
      (
        append_assoc (field_text f) (more_fields fs ++ b'}' ∷ []) rest,
        append_assoc (more_fields fs) (b'}' ∷ []) rest,
        more_fields-append fs (b'}' ∷ rest),
        field_text-append f (print_members (members fs) (b'}' ∷ rest)),
      )
      refl

push_object-append :
    (fs : List Field) (rest : Bytes)
    → push_object fs ++ rest ≡ print (Value.object (members (sort_fields fs))) rest
unfolding push_object
push_object-append fs rest = object_text-append (sort_fields fs) rest

bool_text-append : (b : Bool) (rest : Bytes) → bool_text b ++ rest ≡ print (Value.bool b) rest
unfolding bool_text print
bool_text-append true rest = refl
bool_text-append false rest = refl

mutual
  unfolding print

  print-append : (v : Value) (r s : Bytes) → print v r ++ s ≡ print v (r ++ s)
  print-append Value.null r s = refl
  print-append (Value.bool true) r s = refl
  print-append (Value.bool false) r s = refl
  print-append (Value.number n) r s = append_assoc (show n) r s
  print-append (Value.other_number literal) r s = append_assoc literal r s
  print-append (Value.string t) r s = ap (λ x. b'"' ∷ x) (append_assoc t (b'"' ∷ r) s)
  print-append (Value.array Items.nil) r s = refl
  print-append (Value.array (Items.cons v vs)) r s =
      rw (print-append v (print_items vs (b']' ∷ r)) s, print_items-append vs (b']' ∷ r) s) refl
  print-append (Value.object Map.empty) r s = refl
  print-append (Value.object (Map.member k v m)) r s =
      rw
        (
          append_assoc k (b'"' ∷ b':' ∷ print v (print_members m (b'}' ∷ r))) s,
          print-append v (print_members m (b'}' ∷ r)) s,
          print_members-append m (b'}' ∷ r) s,
        )
        refl

  print_items-append : (vs : Items) (r s : Bytes) → print_items vs r ++ s ≡ print_items vs (r ++ s)
  print_items-append Items.nil r s = refl
  print_items-append (Items.cons v vs) r s =
      rw (print-append v (print_items vs r) s, print_items-append vs r s) refl

  print_members-append : (m : Map) (r s : Bytes) → print_members m r ++ s ≡ print_members m (r ++ s)
  print_members-append Map.empty r s = refl
  print_members-append (Map.member k v m) r s =
      rw
        (
          append_assoc k (b'"' ∷ b':' ∷ print v (print_members m r)) s,
          print-append v (print_members m r) s,
          print_members-append m r s,
        )
        refl

-- The text of the members behind `args`.
print_record :
    (args result : Map) (agent tool : Bytes) (success : Bool) (fs gs : List Field)
    → args ≡ members (sort_fields fs)
    → result ≡ members (sort_fields gs)
    → (codes "{\"args\":"
        ++ (push_object fs
            ++ (codes
                  ",\"duration_ms\":0,\"event_type\":\"AgentToolCall\",\"payload_refs\":[],\"result\":"
                ++ (push_object gs
                    ++ (codes ",\"source_agent\":\""
                        ++ (agent
                            ++ (codes "\",\"success\":"
                                ++ (bool_text success
                                    ++ (codes ",\"tool_name\":\""
                                        ++ (tool ++ codes "\"}\n"))))))))))
      ≡ print (record_of args result agent success tool) (b'\n' ∷ [])
unfolding record_of print show
print_record args result agent tool success fs gs p q =
    rw (p, q, push_object-append fs, push_object-append gs, bool_text-append success) refl

-- A record is the compact text of its value, and a line break.
pub render-eq-print :
    (producer : Bytes) (c : Component) (session : Bytes) (ms : ℕ) (e : Lifecycle)
    → render producer c session ms e ≡ body_of producer c session ms e ++ b'\n' ∷ []
unfolding render record_value args_map result_map members sort_fields insert
render-eq-print producer c session ms e =
    print_record (args_map producer c session ms e) (result_map e) (source_agent c) (tool_name e)
      (succeeded e) (common_args producer c session ms ++ own_args e) (result_of e ∷ []) refl refl
    ∙ sym (print-append (record_value producer c session ms e) [] (b'\n' ∷ []))
