-- ===== src/Rei/Pidfile.antt =====
-- The pid file between the daemon (rs/crates/dazai/src/main.rs) and its client
-- (rs/crates/rei/src/lib.rs).
use ningen_shikkaku.Base.{
  ℕ, ◌≤◌, ◌≡◌, refl, false, Bool, Option, none, All, ◌==◌, sym, ap, ◌∙◌, subst, some, [], ◌∷◌, ◌++◌,
}
use ningen_shikkaku.Base.Text.{Bytes, text_eq_refl}
use ningen_shikkaku.Base.Words.{trim, IsWord}
use ningen_shikkaku.Base.Words.Trim.{EndsDark, trim-dark}
use ningen_shikkaku.Base.Decimal.{show, show-cons, show-digits, parse_uint, parse_uint-show}
use ningen_shikkaku.Kikka.Control.{u32_max}
use ningen_shikkaku.Base.Paths.{Files, write_file, remove_file, join}
use ningen_shikkaku.Base.Paths.Naming.{IsName}
use ningen_shikkaku.Dazai.Paths.{pidfile_for, pidfile_for-shared}
use ningen_shikkaku.Rei.{Reply, Signal, new_client, first_line, read_daemon_pid}
use ningen_shikkaku.Rei.Wire.{show-IsWord}
use ningen_shikkaku.Rei.RoundTrip.{show-EndsDark}
use ningen_shikkaku.Rei.Registration.{first_line-digits}
use ningen_shikkaku.Dazai.Pidfile.{pidfile_text, place_pidfile, clear_pidfile}

trim-show : (n : ℕ) → trim (show n) ≡ show n
trim-show n =
    let (c, s, e) = show-cons n in
    let word : IsWord (c ∷ s) = subst IsWord e (show-IsWord n) in
    ap trim e ∙ trim-dark c s word.0 (subst EndsDark e (show-EndsDark n)) ∙ sym e

read-cons :
    (t : Bytes) (c : ℕ) (s : Bytes)
    → t ≡ c ∷ s
    → read_daemon_pid (some t) ≡ parse_uint u32_max (trim (first_line t))
unfolding read_daemon_pid
read-cons t c s e = rw e refl

-- The client reads back, from the pid file that the daemon writes, the daemon's pid, up to the range of
-- a pid.
read_daemon_pid-pidfile_text :
    (pid : ℕ) → pid ≤ u32_max → read_daemon_pid (some (pidfile_text pid)) ≡ some pid
unfolding pidfile_text
read_daemon_pid-pidfile_text pid h =
    let (c, s, e) = show-cons pid in
    read-cons (show pid ++ b'\n' ∷ []) c (s ++ b'\n' ∷ []) (ap (λ t. t ++ b'\n' ∷ []) e)
    ∙ ap (λ t. parse_uint u32_max (trim t)) (first_line-digits (show pid) (show-digits pid))
    ∙ ap (parse_uint u32_max) (trim-show pid)
    ∙ parse_uint-show u32_max pid h

written_file :
    (path other text : Bytes) (files : Files)
    → path ≡ other
    → write_file other text files path ≡ some text
unfolding write_file
written_file path other text files e = rw (e, text_eq_refl other) refl

removed_file :
    (path other : Bytes) (files : Files) → path ≡ other → remove_file other files path ≡ none
unfolding remove_file
removed_file path other files e = rw (e, text_eq_refl other) refl

module _ (connect : Bytes → Bytes → Reply) (signal_fn : ℕ → Signal → Bool) (files : Files) where
  abbrev finds : (files : Files) (socket : Bytes) → Option ℕ
  finds files socket = read_daemon_pid (new_client connect files signal_fn socket).pidfile

  -- What a client of a socket finds in the pidfile of another.
  found_at :
      (mine theirs : Bytes) (pid : ℕ)
      → pidfile_for mine ≡ pidfile_for theirs
      → pid ≤ u32_max
      → finds (place_pidfile theirs pid files) mine ≡ some pid
  unfolding new_client place_pidfile pidfile_for
  found_at mine theirs pid e h =
      ap read_daemon_pid
        (written_file (pidfile_for mine) (pidfile_for theirs) (pidfile_text pid) files e)
      ∙ read_daemon_pid-pidfile_text pid h

  lost_at :
      (mine theirs : Bytes)
      → pidfile_for mine ≡ pidfile_for theirs
      → finds (clear_pidfile theirs files) mine ≡ none
  unfolding new_client clear_pidfile pidfile_for read_daemon_pid
  lost_at mine theirs e =
      ap read_daemon_pid (removed_file (pidfile_for mine) (pidfile_for theirs) files e)

-- A client of a socket, whatever its path, finds the pid of the daemon that has written its pidfile
-- for that socket, up to the range of a pid, and none once that daemon has removed it.
pub new_client-place_pidfile :
    (connect : Bytes → Bytes → Reply) (signal_fn : ℕ → Signal → Bool) (files : Files)
    (socket : Bytes) (pid : ℕ)
    → pid ≤ u32_max
    → let placed = place_pidfile socket pid files in
      (read_daemon_pid (new_client connect placed signal_fn socket).pidfile ≡ some pid)
      × (read_daemon_pid (new_client connect (clear_pidfile socket placed) signal_fn socket).pidfile
          ≡ none)
new_client-place_pidfile connect signal_fn files socket pid h = (
  found_at connect signal_fn files socket socket pid refl h,
  lost_at connect signal_fn (place_pidfile socket pid files) socket socket refl,
)

-- Two daemons on sockets of one directory whose names differ only in what stands behind the last
-- dot, with something in front of it: a client of the first finds the pid of the second, which has
-- written its pidfile last, up to the range of a pid, and none once the second has removed it.
pub new_client-shared :
    (connect : Bytes → Bytes → Reply) (signal_fn : ℕ → Signal → Bool) (files : Files) (b : Bytes)
    (c : ℕ) (s e e' : Bytes) (pid pid' : ℕ)
    → IsName ((c ∷ s) ++ b'.' ∷ e)
    → IsName ((c ∷ s) ++ b'.' ∷ e')
    → All (λ x. (x == b'.') ≡ false) e
    → All (λ x. (x == b'.') ≡ false) e'
    → pid' ≤ u32_max
    → let first = join b ((c ∷ s) ++ b'.' ∷ e) in
      let second = join b ((c ∷ s) ++ b'.' ∷ e') in
      let placed = place_pidfile second pid' (place_pidfile first pid files) in
      (read_daemon_pid (new_client connect placed signal_fn first).pidfile ≡ some pid')
      × (read_daemon_pid (new_client connect (clear_pidfile second placed) signal_fn first).pidfile
          ≡ none)
new_client-shared connect signal_fn files b c s e e' pid pid' n n' h h' small =
    let first = join b ((c ∷ s) ++ b'.' ∷ e) in
    let second = join b ((c ∷ s) ++ b'.' ∷ e') in
    let once = place_pidfile first pid files in
    let same = pidfile_for-shared b c s e e' n n' h h' in
    (
      found_at connect signal_fn once first second pid' same small,
      lost_at connect signal_fn (place_pidfile second pid' once) first second same,
    )
