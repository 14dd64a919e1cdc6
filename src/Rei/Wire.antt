-- ===== src/Rei/Wire.antt =====
-- What the daemon makes of the requests that the client prints.
use ningen_shikkaku.Base.{
  ℕ, ◌≤◌, ◌≡◌, refl, ap, ◌∙◌, [], ◌∷◌, ◌++◌, arith, All, All-append, some, none, true, false, ◌<◌,
}
use ningen_shikkaku.Base.Text.{Bytes, codes, strip_prefix, text_eq}
use ningen_shikkaku.Base.Utf8.{from_utf8_lossy, from_utf8_lossy-IsAscii, IsAscii}
use ningen_shikkaku.Base.Words.{
  IsWord, is_whitespace, split_whitespace, split_whitespace-word, split_whitespace_last,
  to_ascii_uppercase,
}
use ningen_shikkaku.Base.Decimal.{show, show-digits, parse_uint-show}
use ningen_shikkaku.Goodnight.Process.{Kernel}
use ningen_shikkaku.Kikka.Daemon.{Daemon}
use ningen_shikkaku.Kikka.Control.{
  u32_max, first_word_upper, parse_pid, pid_token, register, unregister, answer, process_control,
  verb_of,
}
use ningen_shikkaku.Rei.{register_request, unregister_request}

digits-IsWord : (s : Bytes) → All (λ c. (b'0' ≤ c) × (c ≤ b'9')) s → IsWord s
digits-IsWord [] h = tt
digits-IsWord (c ∷ s) ((a, b), h) = (unfold is_whitespace in ground arith, digits-IsWord s h)

digits-IsAscii : (s : Bytes) → All (λ c. (b'0' ≤ c) × (c ≤ b'9')) s → IsAscii s
digits-IsAscii [] h = tt
digits-IsAscii (c ∷ s) ((a, b), h) = (omega arith, digits-IsAscii s h)

pub show-IsWord : (n : ℕ) → IsWord (show n)
show-IsWord n = digits-IsWord (show n) (show-digits n)

pub show-IsAscii : (n : ℕ) → IsAscii (show n)
show-IsAscii n = digits-IsAscii (show n) (show-digits n)

-- A field of a line, `<name><number>`, as one word.
pub field-IsWord : (name : Bytes) (n : ℕ) → IsWord name → IsWord (name ++ show n)
field-IsWord name n h = All-append (λ c. is_whitespace c ≡ false) name (show n) h (show-IsWord n)

-- A line of a verb and a pid.
abbrev pid_line : Bytes → ℕ → Bytes
pid_line verb pid = verb ++ (0x20 ∷ (codes "pid=" ++ show pid))

pid_line-lossy :
    (verb : Bytes) (pid : ℕ)
    → IsAscii verb
    → from_utf8_lossy (pid_line verb pid) ≡ pid_line verb pid
pid_line-lossy verb pid a = from_utf8_lossy-IsAscii (pid_line verb pid) (
    All-append (λ b. b < 0x80) verb (0x20 ∷ (codes "pid=" ++ show pid)) a
      (
        ground arith,
        (ground arith, (ground arith, (ground arith, (ground arith, show-IsAscii pid)))),
      ))

pid_line-words :
    (c : ℕ) (w : Bytes) (pid : ℕ)
    → IsWord (c ∷ w)
    → IsAscii (c ∷ w)
    → split_whitespace (from_utf8_lossy (pid_line (c ∷ w) pid))
      ≡ (c ∷ w) ∷ (codes "pid=" ++ show pid) ∷ []
pid_line-words c w pid h a =
    ap split_whitespace (pid_line-lossy (c ∷ w) pid a)
    ∙ split_whitespace-word c w (codes "pid=" ++ show pid) h
    ∙ ap (◌∷◌ (c ∷ w)) (
        split_whitespace_last b'p' (codes "id=" ++ show pid) (
          field-IsWord (codes "pid=") pid
            (unfold is_whitespace in (refl, (refl, (refl, (refl, tt)))))))

pid_token-show : (pid : ℕ) → pid ≤ u32_max → pid_token (codes "pid=" ++ show pid) ≡ some pid
unfolding pid_token strip_prefix
pid_token-show pid k = parse_uint-show u32_max pid k

pid_line-pid :
    (c : ℕ) (w : Bytes) (pid : ℕ)
    → IsWord (c ∷ w)
    → IsAscii (c ∷ w)
    → pid_token (c ∷ w) ≡ none
    → pid ≤ u32_max
    → parse_pid (pid_line (c ∷ w) pid) ≡ some pid
unfolding parse_pid
pid_line-pid c w pid h a n k = rw (pid_line-words c w pid h a, n, pid_token-show pid k) refl

pid_line-verb :
    (c : ℕ) (w : Bytes) (pid : ℕ)
    → IsWord (c ∷ w)
    → IsAscii (c ∷ w)
    → first_word_upper (pid_line (c ∷ w) pid) ≡ to_ascii_uppercase (c ∷ w)
unfolding first_word_upper
pid_line-verb c w pid h a = rw (pid_line-words c w pid h a) refl

-- The verbs of the two requests, as words.
register-IsWord : IsWord (codes "REGISTER") × IsAscii (codes "REGISTER")
unfolding is_whitespace
register-IsWord = (ground arith, ground arith)

unregister-IsWord : IsWord (codes "UNREGISTER") × IsAscii (codes "UNREGISTER")
unfolding is_whitespace
unregister-IsWord = (ground arith, ground arith)

-- What the client prints to register a pid, the daemon reads as a registration of that pid.
pub process_control-register_request :
    (k : Kernel) (grace pid : ℕ) (d : Daemon)
    → pid ≤ u32_max
    → process_control k grace (register_request pid) d
      ≡ ((register k (some pid) d).0, (register k (some pid) d).1, true)
unfolding process_control register_request answer verb_of text_eq to_ascii_uppercase pid_token
    strip_prefix
process_control-register_request k grace pid d h =
    let (w, a) = register-IsWord in
    ap (λ u. answer k grace (verb_of u) (register_request pid) d)
      (pid_line-verb b'R' (codes "EGISTER") pid w a)
    ∙ ap (λ o. ((register k o d).0, (register k o d).1, true))
        (pid_line-pid b'R' (codes "EGISTER") pid w a refl h)

-- What the client prints to unregister a pid, the daemon reads as an unregistration of that pid.
pub process_control-unregister_request :
    (k : Kernel) (grace pid : ℕ) (d : Daemon)
    → pid ≤ u32_max
    → process_control k grace (unregister_request pid) d
      ≡ ((unregister (some pid) d).0, (unregister (some pid) d).1, true)
unfolding process_control unregister_request answer verb_of text_eq to_ascii_uppercase pid_token
    strip_prefix
process_control-unregister_request k grace pid d h =
    let (w, a) = unregister-IsWord in
    ap (λ u. answer k grace (verb_of u) (unregister_request pid) d)
      (pid_line-verb b'U' (codes "NREGISTER") pid w a)
    ∙ ap (λ o. ((unregister o d).0, (unregister o d).1, true))
        (pid_line-pid b'U' (codes "NREGISTER") pid w a refl h)
