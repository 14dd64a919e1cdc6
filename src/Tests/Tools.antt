-- ===== src/Tests/Tools.antt =====
-- The tool registry of rs/crates/motokano/src/tools.rs at concrete inputs.
use ningen_shikkaku.Base.{◌≡◌, refl, true, [], ◌∷◌, List, some, arith, All, length, max}
use ningen_shikkaku.Base.Text.{codes}
use ningen_shikkaku.Base.Utf8.{as_bytes}
use ningen_shikkaku.Goodnight.Buffer.{Memory, div_ceil}
use ningen_shikkaku.Motokano.Tools.{ToolDef, ToolKind, Action, lookup, wipe_tools}
use ningen_shikkaku.Motokano.Tools.Registry.{IsErased, wipe_tools-IsErased}
use ningen_shikkaku.Motokano.Tools.Spec.{parsed, parse_tool_spec}
use ningen_shikkaku.Motokano.Tools.Parsing.{IsMappable, static_spec, parse_tool_spec-static}

-- A static tool and an exec tool.
abbrev two_tools : List ToolDef
two_tools =
    record {
      name = codes "key";
      description = [];
      kind = ToolKind.static (record { memory = 65 ∷ 66 ∷ []; len = 1; cap = 2; locked = true }) 1;
    }
    ∷ record { name = codes "date"; description = []; kind = ToolKind.exec (codes "date -u") }
    ∷ []

wipe_tools-IsErased_example : All IsErased (wipe_tools two_tools)
wipe_tools-IsErased_example = wipe_tools-IsErased two_tools

abbrev pages : Memory
pages = record { page_size = 4096; mmap = λ n. true; mlock = λ n. true }

secret_IsMappable : IsMappable pages (max (length (as_bytes (codes "s3cret"))) 1)
unfolding as_bytes div_ceil
secret_IsMappable = record { pages = ground arith; fits = ground arith; maps = refl }

parse_tool_spec-static_example :
    (t : ToolDef) × (parse_tool_spec pages (static_spec (codes "key") (codes "s3cret")) ≡ parsed t)
    × (t.name ≡ codes "key")
    × (lookup (codes "key") (t ∷ []) ≡ some (Action.static (as_bytes (codes "s3cret"))))
parse_tool_spec-static_example =
    parse_tool_spec-static pages (codes "key") (codes "s3cret") (refl, (refl, (refl, tt)))
      (refl, (refl, (refl, (refl, (refl, (refl, tt)))))) secret_IsMappable
