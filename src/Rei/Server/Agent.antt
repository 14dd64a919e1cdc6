-- ===== src/Rei/Server/Agent.antt =====
-- An agent that calls the tools of rs/crates/rei/src/lib.rs, and the daemon at the other end
-- (rs/crates/kikka/src/lib.rs).
use ningen_shikkaku.Base.{ℕ, Bool, ◌&&◌, List, [], ◌∷◌, ◌==◌, if◌then◌else◌}
use ningen_shikkaku.Base.Text.{Bytes, codes}
use ningen_shikkaku.Goodnight.Process.{Kernel}
use ningen_shikkaku.Kikka.EventLoop.{
  Watchdog, Signal, Action, receives, requests, event, signal, act, run,
}
use ningen_shikkaku.Rei.{DazaiClient, register_request, unregister_request}
use ningen_shikkaku.Rei.RoundTrip.{served}
use ningen_shikkaku.Rei.Server.{
  Tool, Output, dazai_status, dazai_register, dazai_unregister, dazai_panic, dazai_hard_panic,
  dazai_arm, handle,
}

-- The request that a tool sends; a panic asks for the status first.
abbrev pub request_of : Tool → Bytes
request_of dazai_status = codes "STATUS"
request_of (dazai_register pid) = register_request pid
request_of (dazai_unregister pid) = unregister_request pid
request_of dazai_panic = codes "STATUS"
request_of dazai_hard_panic = codes "STATUS"
request_of dazai_arm = codes "ARM"

-- The signals that reach the process `pid`: those sent to it, where the sender says that it did.
abbrev pub received : (ℕ → Signal → Bool) → (pid : ℕ) → List (ℕ × Signal) → List Action
received sends pid [] = []
received sends pid ((p, s) ∷ rest) =
    let others = received sends pid rest in
    if p == pid && sends p s then receives (event (signal s)) ∷ others else others

-- The daemon runs as `pid`: it takes the request of the tool, and then its signals.
unfoldable pub use_tool :
    Kernel → (grace pid : ℕ) → DazaiClient → Tool → Watchdog → Output × Watchdog
use_tool k grace pid c t w =
    let r = handle (record c { exchange = served k grace w.daemon }) t in
    (r.0, run k grace (received c.signal_fn pid r.1) (act k grace (requests (request_of t)) w))

-- Several tools, one after the other.
unfoldable pub use_tools : Kernel → (grace pid : ℕ) → DazaiClient → List Tool → Watchdog → Watchdog
unfolding use_tool
use_tools k grace pid c [] w = w
use_tools k grace pid c (t ∷ ts) w = use_tools k grace pid c ts (use_tool k grace pid c t w).1
