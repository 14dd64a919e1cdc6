-- ===== src/Rei/Registration.antt =====
-- A registration over the socket: what the client is told, and what the daemon then has.
use ningen_shikkaku.Base.{
  ℕ, ◌≤◌, ◌≡◌, refl, ap, sym, All, ◌∙◌, Bool, true, false, ◌&&◌, some, arith, ◌∷◌, [], ◌++◌,
}
use ningen_shikkaku.Base.Text.{Bytes, codes, text_eq}
use ningen_shikkaku.Base.Words.{trim, is_whitespace}
use ningen_shikkaku.Base.Decimal.{show, show-digits}
use ningen_shikkaku.Goodnight.Process.{Kernel, pid_exists}
use ningen_shikkaku.Kikka.Daemon.{Daemon}
use ningen_shikkaku.Kikka.Control
use ningen_shikkaku.Kikka.Control.{
  u32_max, process_control, contains, reply_ok, reply_busy, reply_invalid,
}
use ningen_shikkaku.Kikka.Control.Registry.{Registered, accepted, full, refused, register_lem}
use ningen_shikkaku.Rei.{
  DazaiClient, register, action, action_of, daemon_request, first_line, register_request,
}
use ningen_shikkaku.Rei.Wire.{process_control-register_request}
use ningen_shikkaku.Rei.RoundTrip.{served}

-- Whether a reply is an agreement.
abbrev agrees : Bytes → Bool
agrees reply = text_eq (trim reply) (codes "OK")

agrees_samples :
    (agrees reply_ok ≡ true) × (agrees reply_busy ≡ false) × (agrees reply_invalid ≡ false)
unfolding text_eq trim is_whitespace
agrees_samples = (refl, refl, refl)

Registered-agrees :
    (k : Kernel) (pid : ℕ) (d d' : Daemon) (reply : Bytes)
    → Registered k pid d d' reply
    → agrees reply ≡ (pid_exists k pid && contains pid d'.registered)
Registered-agrees k pid d d' reply (accepted r e f s) =
    let known = f pid in ground (arith, agrees_samples)
Registered-agrees k pid d d' reply (full r e c l s) = ground (arith, agrees_samples)
Registered-agrees k pid d d' reply (refused r e s) = ground (arith, agrees_samples)

-- A line without newlines, and a newline: the line comes back.
pub first_line-digits :
    (s : Bytes) → All (λ c. (b'0' ≤ c) × (c ≤ b'9')) s → first_line (s ++ b'\n' ∷ []) ≡ s
unfolding first_line
first_line-digits [] h = refl
first_line-digits (c ∷ s) ((a, b), h) = ground (arith, first_line-digits s h)

pub first_line-register_request :
    (pid : ℕ) → first_line (register_request pid ++ b'\n' ∷ []) ≡ register_request pid
unfolding first_line register_request
first_line-register_request pid =
    ap (λ s. codes "REGISTER pid=" ++ s) (first_line-digits (show pid) (show-digits pid))

-- A client that registers a pid with a daemon is told that it succeeded exactly when the process
-- exists and the daemon then has it registered.
pub register-served :
    (k : Kernel) (grace pid : ℕ) (d : Daemon) (c : DazaiClient)
    → pid ≤ u32_max
    → (register (record c { exchange = served k grace d }) pid).ok ≡ (
        pid_exists k pid
        && contains pid (process_control k grace (register_request pid) d).0.registered)
unfolding register action daemon_request action_of
register-served k grace pid d c h =
    let e = process_control-register_request k grace pid d h in
    let r = Control.register k (some pid) d in
    ap (λ line. agrees (process_control k grace line d).1) (first_line-register_request pid)
    ∙ ap (λ p. agrees p.1) e
    ∙ Registered-agrees k pid d (r.0) (r.1) (register_lem k pid d)
    ∙ ap (λ p. pid_exists k pid && contains pid p.0.registered) (sym e)
