-- ===== src/Kikka/Control/Registry.antt =====
-- The registered pids under the control verbs.
use ningen_shikkaku.Base.{
  ℕ, ◌||◌, not, ◌≤◌, ◌≡◌, refl, Bool, true, false, Option, none, some, List, [], ◌∷◌, ◌++◌, length,
  length-append, arith, All, All-append, ◌==◌, inl, inr, leb, if◌then◌else◌, Bool-cases,
}
use ningen_shikkaku.Base.Text.{Bytes}
use ningen_shikkaku.Goodnight.Process.{Kernel, pid_exists, IsPid, pid_exists-IsPid}
use ningen_shikkaku.Kikka.Daemon.{Daemon, emit}
use ningen_shikkaku.Kikka.Control.{
  max_registered, contains, without, enlist, register, unregister, arm, answer, Verb, register_verb,
  unregister_verb, process_control, parse_pid, verb_of, first_word_upper, reply_ok, reply_busy,
  reply_invalid,
}

-- No pid stands twice.
abbrev pub Distinct : List ℕ → Type 0
Distinct [] = Unit
Distinct (p ∷ ps) = (contains p ps ≡ false) × Distinct ps

-- At most 32 pids, each a positive `pid_t`, none of them twice.
pub record IsRegistry (ps : List ℕ) : Type 0 where
  pub few : length ps ≤ max_registered
  pub pids : All IsPid ps
  pub distinct : Distinct ps

contains-append :
    (p : ℕ) (xs ys : List ℕ)
    → contains p xs ≡ false
    → contains p ys ≡ false
    → contains p (xs ++ ys) ≡ false
unfolding contains
contains-append p [] ys h k = k
contains-append p (x ∷ xs) ys h k = ground (arith, contains-append p xs ys)

Distinct-concat :
    (p : ℕ) (ps : List ℕ) → contains p ps ≡ false → Distinct ps → Distinct (ps ++ p ∷ [])
unfolding contains
Distinct-concat p [] h d = ground arith
Distinct-concat p (x ∷ xs) h d = ground (arith, Distinct-concat p xs, contains-append x xs (p ∷ []))

contains-without_le :
    (p q : ℕ) (ps : List ℕ) → contains q ps ≡ false → contains q (without p ps) ≡ false
unfolding contains without
contains-without_le p q [] h = refl
contains-without_le p q (x ∷ xs) h = ground (arith, contains-without_le p q xs)

pub contains-without :
    (p q : ℕ) (ps : List ℕ) → contains q (without p ps) ≡ (if p == q then false else contains q ps)
unfolding contains without
contains-without p q [] = ground arith
contains-without p q (x ∷ xs) = ground (arith, contains-without p q xs)

without-IsRegistry-parts :
    (p : ℕ) (ps : List ℕ)
    → All IsPid ps
    → Distinct ps
    → (length (without p ps) ≤ length ps) × All IsPid (without p ps) × Distinct (without p ps)
unfolding without
without-IsRegistry-parts p [] a d = ground arith
without-IsRegistry-parts p (x ∷ xs) a d =
    ground (arith, without-IsRegistry-parts p xs a.1 d.1, contains-without_le p x xs)

enlist-IsRegistry :
    (k : Kernel) (pid : ℕ) (d : Daemon)
    → pid_exists k pid ≡ true
    → IsRegistry d.registered
    → IsRegistry (enlist pid d).0.registered
unfolding enlist
enlist-IsRegistry k pid d e r = ground (
  arith,
  pid_exists-IsPid k pid e,
  length-append d.registered (pid ∷ []),
  All-append IsPid d.registered (pid ∷ []) r.pids,
  Distinct-concat pid d.registered,
)

register-IsRegistry :
    (k : Kernel) (o : Option ℕ) (d : Daemon)
    → IsRegistry d.registered
    → IsRegistry (register k o d).0.registered
unfolding register
register-IsRegistry k none d r = r
register-IsRegistry k (some pid) d r = elim (Bool-cases (pid_exists k pid)) [
  | inl e ↦ rw (e, register) (enlist-IsRegistry k pid d e r)
  | inr e ↦ rw (e, register) r
]

unregister-IsRegistry :
    (o : Option ℕ) (d : Daemon) → IsRegistry d.registered → IsRegistry (unregister o d).0.registered
unfolding unregister
unregister-IsRegistry none d r = r
unregister-IsRegistry (some pid) d r =
    ground (arith, without-IsRegistry-parts pid d.registered r.pids r.distinct)

arm-registered : (d : Daemon) → (arm d).0.registered ≡ d.registered
unfolding arm emit
arm-registered d = ground arith

answer-IsRegistry :
    (k : Kernel) (grace : ℕ) (v : Verb) (line : Bytes) (d : Daemon)
    → IsRegistry d.registered
    → IsRegistry (answer k grace v line d).0.registered
unfolding answer
answer-IsRegistry k grace register_verb line d r = register-IsRegistry k (parse_pid line) d r
answer-IsRegistry k grace unregister_verb line d r = unregister-IsRegistry (parse_pid line) d r
answer-IsRegistry k grace Verb.arm_verb line d r = rw (arm-registered d) r
answer-IsRegistry k grace v line d r = r

-- Whatever line a control client sends, the registry stays one: at most 32 pids, each a positive
-- `pid_t`, none twice.
pub process_control-IsRegistry :
    (k : Kernel) (grace : ℕ) (line : Bytes) (d : Daemon)
    → IsRegistry d.registered
    → IsRegistry (process_control k grace line d).0.registered
unfolding process_control
process_control-IsRegistry k grace line d r =
    answer-IsRegistry k grace (verb_of (first_word_upper line)) line d r

contains-concat : (q p : ℕ) (ps : List ℕ) → contains q (ps ++ p ∷ []) ≡ (contains q ps || p == q)
unfolding contains
contains-concat q p [] = ground arith
contains-concat q p (x ∷ xs) = ground (arith, contains-concat q p xs)

-- The three answers to a pid that parses. The pid exists and the daemon knows it or has room: it
-- is registered and nothing else changes. It exists, is unknown and the registry is full: busy.
-- It does not exist: refused. In the last two the daemon is as before.
pub data Registered (k : Kernel) (pid : ℕ) (d d' : Daemon) (reply : Bytes) : Type 0 where
  accepted :
      reply ≡ reply_ok
      → pid_exists k pid ≡ true
      → ((q : ℕ) → contains q d'.registered ≡ (contains q d.registered || pid == q))
      → d' ≡ record d { registered = d'.registered }
      → Registered k pid d d' reply
  full :
      reply ≡ reply_busy
      → pid_exists k pid ≡ true
      → contains pid d.registered ≡ false
      → max_registered ≤ length d.registered
      → d' ≡ d
      → Registered k pid d d' reply
  refused : reply ≡ reply_invalid → pid_exists k pid ≡ false → d' ≡ d → Registered k pid d d' reply

enlist-Registered :
    (k : Kernel) (pid : ℕ) (d : Daemon)
    → pid_exists k pid ≡ true
    → (known room : Bool) → contains pid d.registered ≡ known
    → leb max_registered (length d.registered) ≡ not room
    → let r = enlist pid d in Registered k pid d (r.0) (r.1)
unfolding enlist
enlist-Registered k pid d e true room c l = rw (c, enlist) (accepted refl e (λ q. known q) refl)
  where
    known : (q : ℕ) → contains q d.registered ≡ (contains q d.registered || pid == q)
    known q = ground (arith, c)
enlist-Registered k pid d e false false c l = rw (c, l, enlist) (full refl e c (ground arith) refl)
enlist-Registered k pid d e false true c l =
    rw (c, l, enlist) (accepted refl e (λ q. contains-concat q pid d.registered) refl)

-- `REGISTER` of a pid gives one of these three.
pub register_lem :
    (k : Kernel) (pid : ℕ) (d : Daemon)
    → let r = register k (some pid) d in Registered k pid d (r.0) (r.1)
unfolding register
register_lem k pid d = elim (Bool-cases (pid_exists k pid)) [
  | inr e ↦ rw (e, register) (refused refl e refl)
  | inl e ↦
      rw (e, register)
        (enlist-Registered k pid d e (contains pid d.registered)
          (not (leb max_registered (length d.registered))) refl (ground arith))
]

-- `UNREGISTER` of a pid takes out that pid and no other, and changes nothing else.
pub unregister_lem :
    (pid q : ℕ) (d : Daemon)
    → let r = unregister (some pid) d in
      (r.1 ≡ reply_ok)
      × (contains q (r.0).registered ≡ (if pid == q then false else contains q d.registered))
      × (r.0 ≡ record d { registered = (r.0).registered })
unfolding unregister
unregister_lem pid q d = (refl, contains-without pid q d.registered, refl)
