-- ===== src/Rei/Server.antt =====
-- `DazaiServer` of rs/crates/rei/src/lib.rs: the tools that an agent calls, each on the client of
-- the daemon. The protocol around them is a library's.
pub mod Agent
pub mod Killing
pub mod Dry
use ningen_shikkaku.Base.{ℕ, Bool, true, false, List, []}
use ningen_shikkaku.Kikka.EventLoop.{Signal}
use ningen_shikkaku.Rei.{
  StatusOut, ActionOut, ArmOut, DazaiClient, status, register, unregister, arm, panic,
}

pub data Tool : Type 0 where
  dazai_status : Tool
  dazai_register dazai_unregister : (pid : ℕ) → Tool
  dazai_panic dazai_hard_panic dazai_arm : Tool

pub data Output : Type 0 where
  status_json : StatusOut → Output
  action_json : ActionOut → Output
  trigger_json : (triggered : Bool) → Output
  arm_json : ArmOut → Output

-- What the tool gives back, and the signals that were sent for it.
unfoldable pub handle : DazaiClient → Tool → Output × List (ℕ × Signal)
handle c dazai_status = (status_json (status c), [])
handle c (dazai_register pid) = (action_json (register c pid), [])
handle c (dazai_unregister pid) = (action_json (unregister c pid), [])
handle c dazai_panic = let r = panic c false in (trigger_json r.0, r.1)
handle c dazai_hard_panic = let r = panic c true in (trigger_json r.0, r.1)
handle c dazai_arm = (arm_json (arm c), [])
