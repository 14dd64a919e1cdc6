-- ===== src/Kikka/Control.antt =====
-- The control connection of rs/crates/kikka/src/lib.rs: the words of a line, the verbs, and the
-- registered pids. A handler takes the line, and gives the reply it writes and whether the
-- connection stays open. The one lock and the one atomic flag that a verb touches make each call
-- one step on the shared state.
pub mod Registry
use ningen_shikkaku.Base.{
  ℕ, ◌/◌, ◌≡◌, refl, Bool, true, false, not, ◌||◌, Option, none, some, List, [], ◌∷◌, ◌++◌, length,
  ltb, leb, ◌==◌, if◌then◌else◌, ◌^◌, ◌-◌,
}
use ningen_shikkaku.Base.Text.{Bytes, codes, text_eq, strip_prefix}
use ningen_shikkaku.Base.Utf8.{from_utf8_lossy}
use ningen_shikkaku.Base.Words.{split_whitespace, to_ascii_uppercase}
use ningen_shikkaku.Base.Decimal.{show, parse_uint}
use ningen_shikkaku.Goodnight.Process.{Kernel, pid_exists}
use ningen_shikkaku.Kiroku.{Lifecycle, ArmVia}
use ningen_shikkaku.Kikka.Daemon.{Daemon, emit}

abbrev pub max_registered : ℕ
max_registered = 32

abbrev pub u32_max : ℕ
u32_max = 2 ^ 32 - 1

abbrev first_word : List Bytes → Bytes
first_word [] = []
first_word (w ∷ _) = w

unfoldable pub first_word_upper : Bytes → Bytes
first_word_upper line = to_ascii_uppercase (first_word (split_whitespace (from_utf8_lossy line)))

abbrev or_else {ℓ} : {A : Type ℓ} → Option A → Option A → Option A
or_else (some a) _ = some a
or_else none o = o

-- One word: `pid=` and a number, or nothing.
unfoldable pub pid_token : Bytes → Option ℕ
pid_token tok = elim (strip_prefix (codes "pid=") tok) [
  | none ↦ none
  | some v ↦ parse_uint u32_max v
]

pub find_pid : List Bytes → Option ℕ
unfolding pid_token
find_pid [] = none
find_pid (tok ∷ toks) = or_else (pid_token tok) (find_pid toks)

unfoldable pub parse_pid : Bytes → Option ℕ
unfolding find_pid
parse_pid line = find_pid (split_whitespace (from_utf8_lossy line))

pub contains : ℕ → List ℕ → Bool
contains pid [] = false
contains pid (p ∷ ps) = p == pid || contains pid ps

-- `retain(|&p| p != pid)`
pub without : ℕ → List ℕ → List ℕ
without pid [] = []
without pid (p ∷ ps) = let rest = without pid ps in if p == pid then rest else p ∷ rest

abbrev pub reply_ok : Bytes
reply_ok = codes "OK\n"

abbrev pub reply_busy : Bytes
reply_busy = codes "BUSY\n"

abbrev pub reply_invalid : Bytes
reply_invalid = codes "ERROR invalid pid\n"

pub enlist : ℕ → Daemon → Daemon × Bytes
unfolding contains
enlist pid d =
    if contains pid d.registered
    then (d, reply_ok)
    else if leb max_registered (length d.registered)
    then (d, reply_busy)
    else (record d { registered = d.registered ++ pid ∷ [] }, reply_ok)

unfoldable pub register : Kernel → Option ℕ → Daemon → Daemon × Bytes
unfolding enlist
register k none d = (d, reply_invalid)
register k (some pid) d = if pid_exists k pid then enlist pid d else (d, reply_invalid)

unfoldable pub unregister : Option ℕ → Daemon → Daemon × Bytes
unfolding without
unregister none d = (d, reply_invalid)
unregister (some pid) d = (record d { registered = without pid d.registered }, reply_ok)

unfoldable pub arm : Daemon → Daemon × Bytes
arm d =
    if d.armed
    then (d, codes "ALREADY_ARMED\n")
    else (emit (Lifecycle.arm ArmVia.control) (record d { armed = true }), reply_ok)

-- The text of a status reply without its newline; `grace` is in whole seconds.
unfoldable pub status_line : Bool → ℕ → ℕ → Bytes
status_line armed grace registered =
    codes "STATUS"
    ++ (0x20
        ∷ (codes "alive=1"
            ++ (0x20
                ∷ ((codes "armed=" ++ show (if armed then 1 else 0))
                    ++ (0x20
                        ∷ ((codes "grace=" ++ show grace)
                            ++ (0x20 ∷ (codes "registered=" ++ show registered))))))))

unfoldable pub status : ℕ → Daemon → Bytes
status grace d = status_line d.armed grace (length d.registered) ++ b'\n' ∷ []

pub data Verb : Type 0 where
  register_verb unregister_verb arm_verb status_verb ping_verb quit_verb blank unknown : Verb

unfoldable pub verb_of : Bytes → Verb
verb_of w =
    if text_eq w (codes "REGISTER")
    then register_verb
    else if text_eq w (codes "UNREGISTER")
    then unregister_verb
    else if text_eq w (codes "ARM")
    then arm_verb
    else if text_eq w (codes "STATUS")
    then status_verb
    else if text_eq w (codes "PING")
    then ping_verb
    else if text_eq w (codes "QUIT")
    then quit_verb
    else if text_eq w []
    then blank
    else unknown

unfoldable pub answer : Kernel → ℕ → Verb → Bytes → Daemon → Daemon × Bytes × Bool
answer k grace register_verb line d =
    let (d', reply) = register k (parse_pid line) d in (d', reply, true)
answer k grace unregister_verb line d =
    let (d', reply) = unregister (parse_pid line) d in (d', reply, true)
answer k grace arm_verb line d = let (d', reply) = arm d in (d', reply, true)
answer k grace status_verb line d = (d, status grace d, true)
answer k grace ping_verb line d = (d, codes "PONG\n", true)
answer k grace quit_verb line d = (d, codes "BYE\n", false)
answer k grace blank line d = (d, [], true)
answer k grace unknown line d = (d, codes "ERR unknown-verb\n", true)

unfoldable pub process_control : Kernel → ℕ → Bytes → Daemon → Daemon × Bytes × Bool
process_control k grace line d = answer k grace (verb_of (first_word_upper line)) line d
