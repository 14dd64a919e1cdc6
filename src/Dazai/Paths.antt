-- ===== src/Dazai/Paths.antt =====
-- Where the dazai daemon puts its socket and its pidfile (rs/crates/dazai/src/main.rs).
use ningen_shikkaku.Base.{
  ℕ, ◌≡◌, refl, sym, ap, ◌∙◌, false, Option, none, some, ◌∷◌, ◌++◌, All, All-append, All-imply,
  ◌==◌, ◌≤◌, arith,
}
use ningen_shikkaku.Base.Text.{Bytes, codes, text_eq}
use ningen_shikkaku.Base.Decimal.{show, show-digits}
use ningen_shikkaku.Base.Paths.{with_extension, join, is_skipped}
use ningen_shikkaku.Base.Paths.Naming.{IsName, file_stem_last, with_extension-join}

-- `runtime_dir` is the variable XDG_RUNTIME_DIR, which can be set and empty.
unfoldable pub runtime_base : (runtime_dir : Option Bytes) → Bytes
runtime_base none = codes "/tmp"
runtime_base (some dir) = dir

unfoldable pub default_socket_path : (runtime_dir : Option Bytes) → (uid : ℕ) → Bytes
unfolding runtime_base
default_socket_path runtime_dir uid =
    join (runtime_base runtime_dir) (codes "dazai-" ++ (show uid ++ codes ".sock"))

unfoldable pub pidfile_for : (socket : Bytes) → Bytes
pidfile_for socket = with_extension (codes "pid") socket

socket-IsName : (uid : ℕ) → IsName (codes "dazai-" ++ (show uid ++ codes ".sock"))
unfolding is_skipped text_eq
socket-IsName uid = record {
  whole = (
    refl,
    (
      refl,
      (
        refl,
        (
          refl,
          (
            refl,
            (
              refl,
              All-append (λ c. (c == b'/') ≡ false) (show uid) (codes ".sock")
                  (All-imply (λ c. (b'0' ≤ c) × (c ≤ b'9')) (λ c. (c == b'/') ≡ false)
                    (λ c h. ground (arith, h)) (show uid) (show-digits uid))
                  (refl, (refl, (refl, (refl, (refl, tt))))),
            ),
          ),
        ),
      ),
    ),
  );
  kept = refl;
  child = refl;
}

-- The default pidfile lies beside the default socket, under the same name.
pub default-pidfile :
    (runtime_dir : Option Bytes) (uid : ℕ)
    → pidfile_for (default_socket_path runtime_dir uid)
      ≡ join (runtime_base runtime_dir) (codes "dazai-" ++ (show uid ++ codes ".pid"))
unfolding pidfile_for default_socket_path
default-pidfile runtime_dir uid =
    let name = codes "dazai-" ++ (show uid ++ codes ".sock") in
    with_extension-join (codes "pid") (runtime_base runtime_dir) name (socket-IsName uid)
    ∙ ap (λ x. join (runtime_base runtime_dir) (x ++ codes ".pid"))
        (file_stem_last b'd' (codes "azai-" ++ show uid) (codes "sock")
          (refl, (refl, (refl, (refl, tt)))))

pidfile_for-dotted :
    (b : Bytes) (c : ℕ) (s e : Bytes)
    → IsName ((c ∷ s) ++ b'.' ∷ e)
    → All (λ x. (x == b'.') ≡ false) e
    → pidfile_for (join b ((c ∷ s) ++ b'.' ∷ e)) ≡ join b ((c ∷ s) ++ b'.' ∷ codes "pid")
unfolding pidfile_for
pidfile_for-dotted b c s e n h =
    with_extension-join (codes "pid") b ((c ∷ s) ++ b'.' ∷ e) n
    ∙ ap (λ x. join b (x ++ b'.' ∷ codes "pid")) (file_stem_last c s e h)

-- Two sockets of one directory that differ in their extension have one pidfile.
pub pidfile_for-shared :
    (b : Bytes) (c : ℕ) (s e e' : Bytes)
    → IsName ((c ∷ s) ++ b'.' ∷ e)
    → IsName ((c ∷ s) ++ b'.' ∷ e')
    → All (λ x. (x == b'.') ≡ false) e
    → All (λ x. (x == b'.') ≡ false) e'
    → pidfile_for (join b ((c ∷ s) ++ b'.' ∷ e)) ≡ pidfile_for (join b ((c ∷ s) ++ b'.' ∷ e'))
pidfile_for-shared b c s e e' n n' h h' =
    pidfile_for-dotted b c s e n h ∙ sym (pidfile_for-dotted b c s e' n' h')
