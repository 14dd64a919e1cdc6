-- ===== src/Motokano/Tools/Parsing.antt =====
-- Specs of static tools (rs/crates/motokano/src/tools.rs).
use ningen_shikkaku.Base.{
  ℕ, ◌*◌, ◌^◌, ◌<◌, ◌≡◌, refl, ap, ◌∙◌, true, false, some, [], ◌∷◌, ◌++◌, arith, length, take, max,
  All, ◌==◌, replicate, ◌-◌,
}
use ningen_shikkaku.Base.Text.{Bytes, codes, text_eq, text_eq_refl}
use ningen_shikkaku.Base.Utf8.{as_bytes}
use ningen_shikkaku.Base.Words.{trim, is_whitespace}
use ningen_shikkaku.Goodnight.Buffer.{
  SecretBuffer, Memory, ok, as_slice, IsValid, div_ceil, mapped_size,
}
use ningen_shikkaku.Goodnight.Buffer.Laws.{new-IsValid, new_succeeds, write_lem, take-append_exact}
use ningen_shikkaku.Motokano.Tools.{ToolKind, ToolDef, Action, lookup}
use ningen_shikkaku.Motokano.Tools.Registry.{lookup-cons}
use ningen_shikkaku.Motokano.Tools.Spec.{
  parsed, Draft, blank, split_commas, split_once, set_key, read_segments, store, finish,
  parse_tool_spec, write_into, finish_read, hold, grow, front, set_segment, static_kind, make_tool,
  finish_tool, make_kind, describe_default,
}

-- The kernel maps and addresses a buffer of so many bytes.
pub record IsMappable (m : Memory) (n : ℕ) : Type 0 where
  pub pages : 0 < m.page_size
  pub fits : div_ceil n m.page_size * m.page_size < 2 ^ 64
  pub maps : m.mmap (mapped_size m n) ≡ true

-- A value that can be mapped is stored, in a valid buffer that holds it at its front.
store_lem :
    (m : Memory) (v : Bytes)
    → IsMappable m (max (length v) 1)
    → (b : SecretBuffer) × (store m v ≡ ok b) × IsValid b × (take (length v) (as_slice b) ≡ v)
unfolding store
store_lem m v h =
    let n = max (length v) 1 in
    let (b, e) = new_succeeds m n (ground arith) h.maps in
    let (valid, zeros, len, locked) = new-IsValid m n h.pages h.fits e in
    let (b', e', valid', slice, rest) = write_lem b v valid (ground (arith, len)) in
    (
      b',
      ap (write_into v) e ∙ e',
      valid',
      ap (take (length v)) slice
          ∙ take-append_exact (length v) v (replicate (b.len - length v) 0) refl,
    )

-- No comma in a text.
abbrev pub IsSegment : Bytes → Type 0
IsSegment = All (λ c. (c == b',') ≡ false)

split_commas-segment :
    (s rest : Bytes) → IsSegment s → split_commas (s ++ (b',' ∷ rest)) ≡ s ∷ split_commas rest
unfolding split_commas
split_commas-segment [] rest h = refl
split_commas-segment (c ∷ s) rest (h, hs) =
    rw (h, split_commas) (ap (grow c) (split_commas-segment s rest hs))

split_commas_last : (s : Bytes) → IsSegment s → split_commas s ≡ s ∷ []
unfolding split_commas
split_commas_last [] h = refl
split_commas_last (c ∷ s) (h, hs) = rw (h, split_commas) (ap (grow c) (split_commas_last s hs))

-- The spec that configures a static tool.
abbrev pub static_spec : (name value : Bytes) → Bytes
static_spec name value =
    (codes "name=" ++ name) ++ (b',' ∷ (codes "kind=static" ++ (b',' ∷ (codes "value=" ++ value))))

static_spec-segments :
    (name value : Bytes)
    → IsSegment name
    → IsSegment value
    → split_commas (static_spec name value)
      ≡ (codes "name=" ++ name) ∷ codes "kind=static" ∷ (codes "value=" ++ value) ∷ []
static_spec-segments name value n v =
    split_commas-segment (codes "name=" ++ name)
      (codes "kind=static" ++ (b',' ∷ (codes "value=" ++ value)))
      (refl, (refl, (refl, (refl, (refl, n)))))
    ∙ ap (◌∷◌ (codes "name=" ++ name)) (
        split_commas-segment (codes "kind=static") (codes "value=" ++ value)
          (refl, (refl, (refl, (refl, (refl, (refl, (refl, (refl, (refl, (refl, (refl, tt)))))))))))
        ∙ ap (◌∷◌ (codes "kind=static")) (
            split_commas_last (codes "value=" ++ value)
              (refl, (refl, (refl, (refl, (refl, (refl, v))))))))

drafted : (name value : Bytes) → Draft
drafted name value = record blank {
  name = some name;
  kind = some (codes "static");
  value = some value;
}

read_segments-static :
    (name value : Bytes)
    → read_segments
        ((codes "name=" ++ name) ∷ codes "kind=static" ∷ (codes "value=" ++ value) ∷ [])
        blank
      ≡ parsed (drafted name value)
unfolding read_segments set_segment split_once set_key trim is_whitespace text_eq drafted front
read_segments-static name value = refl

finish-drafted :
    (m : Memory) (name value : Bytes) {b : SecretBuffer}
    → store m (as_bytes value) ≡ ok b
    → finish_read m (parsed (drafted name value))
      ≡ parsed (record {
        name = name;
        description = describe_default name (codes "static");
        kind = ToolKind.static b (length (as_bytes value));
      })
unfolding finish_read finish make_tool make_kind static_kind hold finish_tool text_eq drafted
finish-drafted m name value {b} e =
    ap
      (λ r.
        finish_tool name (describe_default name (codes "static"))
          (hold (length (as_bytes value)) r))
      e

-- A spec of a static tool whose name and value hold no comma, and whose value can be mapped, is
-- accepted, and the tool that it makes serves exactly the bytes of the value.
pub parse_tool_spec-static :
    (m : Memory) (name value : Bytes)
    → IsSegment name
    → IsSegment value
    → IsMappable m (max (length (as_bytes value)) 1)
    → (t : ToolDef) × (parse_tool_spec m (static_spec name value) ≡ parsed t)
      × (t.name ≡ name)
      × (lookup name (t ∷ []) ≡ some (Action.static (as_bytes value)))
unfolding parse_tool_spec
parse_tool_spec-static m name value n v h =
    let bytes = as_bytes value in
    let (b, e, valid, slice) = store_lem m bytes h in
    let t : ToolDef = record {
      name = name;
      description = describe_default name (codes "static");
      kind = ToolKind.static b (length bytes);
    } in
    (
      t,
      ap (λ segs. finish_read m (read_segments segs blank)) (static_spec-segments name value n v)
          ∙ ap (finish_read m) (read_segments-static name value)
          ∙ finish-drafted m name value e,
      refl,
      lookup-cons name t [] ∙ rw (text_eq_refl name) (ap (λ s. some (Action.static s)) slice),
    )
