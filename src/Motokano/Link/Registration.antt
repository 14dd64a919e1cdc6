-- ===== src/Motokano/Link/Registration.antt =====
-- `DazaiLink` of rs/crates/motokano/src/dazai.rs against the daemon's `process_control`
-- (rs/crates/kikka/src/lib.rs).
use ningen_shikkaku.Base.{
  ℕ, ◌+◌, ◌≤◌, ◌≡◌, refl, ap, sym, ◌∙◌, Bool, true, false, ◌&&◌, Option, none, some, List, [], ◌∷◌,
  ◌++◌, length, All, arith, if◌then◌else◌,
}
use ningen_shikkaku.Base.Text.{Bytes, contains_text}
use ningen_shikkaku.Base.Utf8.{from_utf8_lossy}
use ningen_shikkaku.Base.Results.{Result, ok, err}
use ningen_shikkaku.Goodnight.Process.{Kernel, pid_exists}
use ningen_shikkaku.Kiroku.{Reason}
use ningen_shikkaku.Kikka.Daemon.{Daemon}
use ningen_shikkaku.Kikka.Control
use ningen_shikkaku.Kikka.Control.{
  u32_max, process_control, contains, reply_ok, reply_busy, reply_invalid,
}
use ningen_shikkaku.Kikka.Control.Registry.{Registered, accepted, full, refused, register_lem}
use ningen_shikkaku.Rei.{first_line, register_request}
use ningen_shikkaku.Rei.Registration.{first_line-register_request}
use ningen_shikkaku.Rei.Wire.{process_control-register_request}
use ningen_shikkaku.Motokano.Link.{
  DazaiLink, LinkError, register_line, on_reply, connect, Beat, is_alive, monitor,
}

-- The daemon's end of the connection.
abbrev pub daemon_end : Kernel → ℕ → Daemon → Bytes → Option Bytes
daemon_end k grace d written = some (process_control k grace (first_line written) d).1

registered_as : ℕ → (agreed : Bool) → Result LinkError DazaiLink
registered_as pid true = ok (record { own_pid = pid; has_stream = true })
registered_as pid false = err LinkError.refused

registered_as-eq :
    (pid : ℕ) (agreed : Bool)
    → registered_as pid agreed
      ≡ (if agreed then ok (record { own_pid = pid; has_stream = true }) else err LinkError.refused)
unfolding registered_as
registered_as-eq pid true = refl
registered_as-eq pid false = refl

on_reply_samples :
    (pid : ℕ)
    → (on_reply pid (some reply_ok) ≡ registered_as pid true)
      × (on_reply pid (some reply_busy) ≡ registered_as pid false)
      × (on_reply pid (some reply_invalid) ≡ registered_as pid false)
unfolding on_reply contains_text from_utf8_lossy registered_as
on_reply_samples pid = (refl, refl, refl)

on_reply-eq :
    (pid : ℕ) (reply text : Bytes) (known agreed : Bool)
    → reply ≡ text
    → on_reply pid (some text) ≡ registered_as pid agreed
    → known ≡ agreed
    → on_reply pid (some reply) ≡ registered_as pid known
on_reply-eq pid reply text known agreed e sample k =
    ap (λ t. on_reply pid (some t)) e ∙ sample ∙ ap (registered_as pid) (sym k)

Registered-on_reply :
    (k : Kernel) (pid : ℕ) (d d' : Daemon) (reply : Bytes)
    → Registered k pid d d' reply
    → on_reply pid (some reply) ≡ registered_as pid (pid_exists k pid && contains pid d'.registered)
Registered-on_reply k pid d d' reply (accepted r e f s) =
    let known = f pid in
    on_reply-eq pid reply reply_ok _ true r (on_reply_samples pid).0 (ground arith)
Registered-on_reply k pid d d' reply (full r e c l s) =
    on_reply-eq pid reply reply_busy _ false r (on_reply_samples pid).1 (ground arith)
Registered-on_reply k pid d d' reply (refused r e s) =
    on_reply-eq pid reply reply_invalid _ false r (on_reply_samples pid).2 (ground arith)

-- A server that connects to the daemon gets its link, with the stream for the monitor, exactly
-- when the process exists and the daemon then has it registered; otherwise it is refused.
pub connect-served :
    (k : Kernel) (grace pid : ℕ) (d : Daemon)
    → pid ≤ u32_max
    → connect true true (daemon_end k grace d) pid ≡ (
        if pid_exists k pid
          && contains pid (process_control k grace (register_line pid) d).0.registered
        then ok (record { own_pid = pid; has_stream = true })
        else err LinkError.refused)
unfolding connect register_request
connect-served k grace pid d h =
    let e = process_control-register_request k grace pid d h in
    let r = Control.register k (some pid) d in
    ap (λ line. on_reply pid (some (process_control k grace line d).1))
      (first_line-register_request pid)
    ∙ ap (λ p. on_reply pid (some p.1)) e
    ∙ Registered-on_reply k pid d (r.0) (r.1) (register_lem k pid d)
    ∙ ap (λ p. registered_as pid (pid_exists k pid && contains pid p.0.registered)) (sym e)
    ∙ registered_as-eq pid _

-- The monitor watches for as long as something comes back, and asks for the exit at the first
-- round where the PING cannot be written or nothing comes back, whatever would follow.
pub monitor-lost :
    (xs : List Beat) (b : Beat) (rest : List Beat)
    → All (λ x. (x.sent && is_alive x.reply) ≡ true) xs
    → (b.sent && is_alive b.reply) ≡ false
    → ((monitor xs).0 ≡ none)
      × (monitor (xs ++ b ∷ rest) ≡ (some Reason.daemon_lost, length xs + 1))
unfolding monitor
monitor-lost [] b rest h lost = ground arith
monitor-lost (x ∷ xs) b rest h lost =
    let ih = monitor-lost xs b rest h.1 lost in ground (arith, h.0)
