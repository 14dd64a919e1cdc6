-- ===== src/Dazai/Order.antt =====
-- rs/crates/dazai/src/main.rs, `run_daemon`, under the monitor of its order.
use ningen_shikkaku.Base.{true, [], ◌∷◌}
use ningen_shikkaku.Goodnight.Buffer as Buffer
use ningen_shikkaku.Dazai.{freed_buffer, Run, scope}
use ningen_shikkaku.Dazai.Monitor.{Mode, at_start}

abbrev ready : Mode
ready = record at_start { tried_limit = true; tried_dump = true; held = 2 }

abbrev with_freed : Run → Run
with_freed = scope (freed_buffer ∷ freed_buffer ∷ [])

abbrev prepared : Mode
prepared = record at_start { tried_limit = true; tried_dump = true }
