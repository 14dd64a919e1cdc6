-- ===== src/Tests/Records.antt =====
-- The records of rs/crates/kiroku/src/lib.rs at concrete inputs.
use ningen_shikkaku.Base.{◌≤◌, true, arith, length}
use ningen_shikkaku.Base.Text.{Bytes, codes}
use ningen_shikkaku.Kiroku.{Component, Lifecycle, Reason, KillTarget, max_record_bytes}
use ningen_shikkaku.Kiroku.Render.{render}
use ningen_shikkaku.Kiroku.Render.Bound.{length-render}

abbrev producer : Bytes
producer = codes "ningen-shikkaku@0.2.0"

abbrev session : Bytes
session = codes "00112233445566778899aabbccddeeff"

abbrev last_step : Lifecycle
last_step = Lifecycle.kill Reason.heartbeat_lost KillTarget.self_process 1 true

length-render_example :
    length (render producer Component.dazai session 1700000000000 last_step) ≤ max_record_bytes
length-render_example =
    length-render producer Component.dazai session 1700000000000 last_step (ground arith)
      (ground arith) (ground arith) (ground arith)
