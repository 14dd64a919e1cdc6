-- ===== src/Tests/Dazai.antt =====
-- The start of the daemon (rs/crates/dazai/src/main.rs) and its filter (rs/crates/kekkai/src/lib.rs)
-- at concrete answers of the system.
use ningen_shikkaku.Base.{
  ℕ, zero, suc, ◌≡◌, ◌≢◌, refl, Bool, true, false, not, ◌&&◌, List, [], ◌∷◌, ◌++◌, Option, none,
  some, arith, All, ◌==◌, if◌then◌else◌,
}
use ningen_shikkaku.Base.Text.{Bytes, codes, text_eq}
use ningen_shikkaku.Base.Results.{ok, ensure}
use ningen_shikkaku.Kekkai.{
  Seccomp, conceptual_allowlist, runtime_required, apply, add_core, add_runtime, allow_core,
  allow_runtime,
}
use ningen_shikkaku.Kekkai.Filter.{allows, IsAllowed, IsUnlisted, apply-confines}
use ningen_shikkaku.Goodnight.Buffer.{Memory}
use ningen_shikkaku.Dazai.{Host, DaemonArgs, pidfile_written, finished}
use ningen_shikkaku.Kikka.Heartbeat.{Lobby, step, on_verb}
use ningen_shikkaku.Dazai.Client.{Round, Connection, closed, waiting, ping_loop, run_client}
use ningen_shikkaku.Dazai.Client.Lifetime.{welcome, IsAnswered, IsLost, at_end, run_client-served}

-- The names in order, numbered from `n`.
number_in : List Bytes → ℕ → Bytes → Option ℕ
number_in [] n s = none
number_in (t ∷ ts) n s = if text_eq t s then some n else number_in ts (suc n) s

abbrev known : List Bytes
known = conceptual_allowlist ++ runtime_required ++ codes "execve" ∷ []

abbrev library : Seccomp
library = record {
  new_filter = true;
  from_name = number_in known 0;
  add_rule = λ _ _. true;
  load = λ _. true;
}

abbrev execve : ℕ
execve = 62

is_not : Option ℕ → ℕ → Bool
is_not none n = true
is_not (some m) n = not (m == n)

none_is : (Bytes → Option ℕ) → ℕ → List Bytes → Bool
none_is f n [] = true
none_is f n (s ∷ names) = is_not (f s) n && none_is f n names

differs : (o : Option ℕ) (n : ℕ) → is_not o n ≡ true → o ≢ some n
unfolding is_not
differs none n e same = cc
differs (some m) n e same = ground arith

none_is-IsUnlisted :
    (s : Seccomp) (n : ℕ) (names : List Bytes)
    → none_is s.from_name n names ≡ true
    → IsUnlisted s n names
unfolding none_is
none_is-IsUnlisted s n [] h = tt
none_is-IsUnlisted s n (name ∷ names) h =
    (differs (s.from_name name) n (ground arith), none_is-IsUnlisted s n names (ground arith))

count_up : ℕ → ℕ → List ℕ
count_up zero n = []
count_up (suc k) n = n ∷ count_up k (suc n)

apply-library : apply library ≡ ok (count_up 62 0)
unfolding apply ensure add_core add_runtime allow_core allow_runtime number_in text_eq count_up
apply-library = refl

IsUnlisted-core : IsUnlisted library execve conceptual_allowlist
IsUnlisted-core =
    none_is-IsUnlisted library execve conceptual_allowlist
      (unfold none_is is_not number_in text_eq in refl)

IsUnlisted-runtime : IsUnlisted library execve runtime_required
IsUnlisted-runtime =
    none_is-IsUnlisted library execve runtime_required
      (unfold none_is is_not number_in text_eq in refl)

apply-confines_example :
    (library.load (count_up 62 0) ≡ true)
    × All (IsAllowed library (count_up 62 0)) conceptual_allowlist
    × (allows (count_up 62 0) execve ≡ false)
apply-confines_example =
    apply-confines library execve (count_up 62 0) apply-library IsUnlisted-core IsUnlisted-runtime

abbrev memory : Memory
memory = record { page_size = 4096; mmap = λ _. true; mlock = λ _. true }

abbrev host : Host
host = record {
  sink_opens = true;
  getrlimit = some (record { rlim_cur = 65536; rlim_max = 65536 });
  setrlimit = λ _. false;
  prctl = true;
  key_memory = memory;
  work_memory = memory;
  started = some 4242;
  binds = true;
  pidfile = pidfile_written;
  seccomp = library;
  loop = finished;
}

abbrev arguments : DaemonArgs
arguments = record {
  size = 4096;
  grace = some 5;
  timeout_negative = false;
  timeout_positive = false;
  timeout = none;
  korg_sink = true;
  exec = true;
}

abbrev lobby : Lobby
lobby = record { active = false; gen_source = 3; sent = [] }

abbrev answered : Round
answered = record { sent = true; reply = some (codes "PONG\n") }

abbrev broken : Round
broken = record { sent = true; reply = some [] }

abbrev connection : Connection
connection = record {
  connects = true;
  takes_hello = true;
  takes_timeout = true;
  greeting = some (codes "WELCOME\n");
  retimes = true;
  rounds = answered ∷ answered ∷ broken ∷ [];
  reads = [];
}

run_client-served_example :
    ((ping_loop (answered ∷ answered ∷ [])).0 ≡ waiting)
    × (run_client true (some 5) connection ≡ (closed, 3))
run_client-served_example =
    run_client-served lobby 5 connection (answered ∷ answered ∷ []) broken [] refl refl refl greeted
      refl refl pongs lost
  where
    greeted : connection.greeting ≡ some (welcome lobby)
    greeted = unfold step in refl

    pongs : All (IsAnswered lobby) (answered ∷ answered ∷ [])
    pongs = unfold on_verb in ((refl, refl), ((refl, refl), tt))

    lost : IsLost broken
    lost = at_end refl
