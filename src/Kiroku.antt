-- ===== src/Kiroku.antt =====
-- rs/crates/kiroku/src/lib.rs: the vocabulary of lifecycle records.
-- Every enum of the crate is a data type with the source's variants; the identifiers that
-- `as_str`, `source_agent` and `tool_name` give are texts as lists of code points.
pub mod Render
pub mod Json
pub mod Checks
pub mod Contract
pub mod Sink
use ningen_shikkaku.Base.{ℕ, List, [], ◌∷◌, Bool}
use ningen_shikkaku.Base.Text.{Bytes, codes}

abbrev pub contract_id : Bytes
contract_id = codes "ningen-korg-lifecycle@1"

-- `MAX_RECORD_BYTES`
abbrev pub max_record_bytes : ℕ
max_record_bytes = 512

pub data Component : Type 0 where
  dazai motokano : Component

abbrev pub all_components : List Component
all_components = Component.dazai ∷ Component.motokano ∷ []

unfoldable pub component_str : Component → Bytes
component_str Component.dazai = codes "dazai"
component_str Component.motokano = codes "motokano"

unfoldable pub source_agent : Component → Bytes
source_agent Component.dazai = codes "mcp:dazai"
source_agent Component.motokano = codes "mcp:motokano"

pub data ArmVia : Type 0 where
  startup control : ArmVia

abbrev pub all_arm_vias : List ArmVia
all_arm_vias = ArmVia.startup ∷ ArmVia.control ∷ []

unfoldable pub arm_via_str : ArmVia → Bytes
arm_via_str ArmVia.startup = codes "startup"
arm_via_str ArmVia.control = codes "control"

pub data Reason : Type 0 where
  heartbeat_lost ping_timeout panic_signal hard_panic_signal shutdown : Reason
  client_quit calls_exhausted client_disconnect daemon_lost : Reason

abbrev pub all_reasons : List Reason
all_reasons =
    Reason.heartbeat_lost ∷ Reason.ping_timeout ∷ Reason.panic_signal ∷ Reason.hard_panic_signal
    ∷ Reason.shutdown ∷ Reason.client_quit ∷ Reason.calls_exhausted ∷ Reason.client_disconnect
    ∷ Reason.daemon_lost ∷ []

unfoldable pub reason_str : Reason → Bytes
reason_str Reason.heartbeat_lost = codes "heartbeat_lost"
reason_str Reason.ping_timeout = codes "ping_timeout"
reason_str Reason.panic_signal = codes "panic_signal"
reason_str Reason.hard_panic_signal = codes "hard_panic_signal"
reason_str Reason.shutdown = codes "shutdown"
reason_str Reason.client_quit = codes "client_quit"
reason_str Reason.calls_exhausted = codes "calls_exhausted"
reason_str Reason.client_disconnect = codes "client_disconnect"
reason_str Reason.daemon_lost = codes "daemon_lost"

pub data KillTarget : Type 0 where
  registered self_process : KillTarget

abbrev pub all_kill_targets : List KillTarget
all_kill_targets = KillTarget.registered ∷ KillTarget.self_process ∷ []

unfoldable pub kill_target_str : KillTarget → Bytes
kill_target_str KillTarget.registered = codes "registered"
kill_target_str KillTarget.self_process = codes "self"

pub data ReadKind : Type 0 where
  static exec : ReadKind

abbrev pub all_read_kinds : List ReadKind
all_read_kinds = ReadKind.static ∷ ReadKind.exec ∷ []

unfoldable pub read_kind_str : ReadKind → Bytes
read_kind_str ReadKind.static = codes "static"
read_kind_str ReadKind.exec = codes "exec"

-- One lifecycle step; the numbers are `u32`.
pub data Lifecycle : Type 0 where
  session_start : (armed : Bool) → Lifecycle
  arm : (via : ArmVia) → Lifecycle
  read : (tool : ℕ) (kind : ReadKind) (served : Bool) → Lifecycle
  wipe : (reason : Reason) (buffers : ℕ) → Lifecycle
  kill : (reason : Reason) (target : KillTarget) (count : ℕ) (executed : Bool) → Lifecycle
  session_end : (reason : Reason) → Lifecycle

unfoldable pub tool_name : Lifecycle → Bytes
tool_name (Lifecycle.session_start _) = codes "ningen.session_start"
tool_name (Lifecycle.arm _) = codes "ningen.arm"
tool_name (Lifecycle.read _ _ _) = codes "ningen.read"
tool_name (Lifecycle.wipe _ _) = codes "ningen.wipe"
tool_name (Lifecycle.kill _ _ _ _) = codes "ningen.kill"
tool_name (Lifecycle.session_end _) = codes "ningen.session_end"
