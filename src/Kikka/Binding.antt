-- ===== src/Kikka/Binding.antt =====
-- `Watchdog::bind` of rs/crates/kikka/src/lib.rs: what stands at the path of the socket, and what the
-- system lets the daemon do to it.
use ningen_shikkaku.Base.{ℕ, ◌≡◌, refl, ◌⊎◌, inl, inr, Bool, true, false, if◌then◌else◌, arith}

-- A link whose target is missing is `dangling`. A socket has the process that has bound it.
pub data Node : Type 0 where
  absent dangling file directory : Node
  socket : (server mode : ℕ) → Node

-- Whether the system unlinks, binds and changes the mode, and with which mode a socket is made.
pub record Rights : Type 0 where
  pub unlinks : Bool
  pub binds : Bool
  pub chmods : Bool
  pub made_mode : ℕ

pub data Binding : Type 0 where
  bound no_bind no_chmod : Binding

-- `Path::exists` looks through links.
unfoldable pub path_exists : Node → Bool
path_exists Node.absent = false
path_exists Node.dangling = false
path_exists _ = true

-- `remove_file`, its error ignored.
unfoldable pub remove_file : Rights → Node → Node
remove_file sys Node.directory = Node.directory
remove_file sys n = if sys.unlinks then Node.absent else n

-- `UnixListener::bind` makes the socket where nothing stands, not even a link.
unfoldable pub bind_socket : Rights → (pid : ℕ) → Node → Node × Bool
bind_socket sys pid Node.absent =
    if sys.binds then (Node.socket pid sys.made_mode, true) else (Node.absent, false)
bind_socket sys pid n = (n, false)

abbrev pub owner_only : ℕ
owner_only = 384

unfoldable pub restrict : Rights → (pid : ℕ) → Node × Bool → Node × Binding
restrict sys pid (n, false) = (n, no_bind)
restrict sys pid (n, true) =
    if sys.chmods then (Node.socket pid owner_only, bound) else (n, no_chmod)

unfoldable pub bind : Rights → (pid : ℕ) → Node → Node × Binding
unfolding path_exists remove_file bind_socket restrict
bind sys pid n =
    let cleared = if path_exists n then remove_file sys n else n in
    restrict sys pid (bind_socket sys pid cleared)

-- What a binding leaves at a path where `n` stood.
abbrev pub Left : Rights → (pid : ℕ) → (n : Node) → Node × Binding → Type 0
Left sys pid n (n', bound) = n' ≡ Node.socket pid owner_only
Left sys pid n (n', no_bind) = (n' ≡ n) ⊎ (n' ≡ Node.absent)
Left sys pid n (n', no_chmod) = n' ≡ Node.socket pid sys.made_mode

-- A daemon that has bound its socket has it at the path, for its owner only; one that could not
-- bind has made nothing, and has removed at most what stood there; where only the mode could not be
-- set, the socket stays with the mode it was made with.
pub bind-Left : (sys : Rights) (pid : ℕ) (n : Node) → Left sys pid n (bind sys pid n)
unfolding bind
bind-Left sys pid Node.absent = ground arith
bind-Left sys pid Node.dangling = inl refl
bind-Left sys pid Node.directory = inl refl
bind-Left sys pid Node.file = ground arith
bind-Left sys pid (Node.socket server mode) = ground arith

-- Where the system allows everything, a daemon takes the path of any other: the socket of one that
-- is alive, or a file.
pub bind_over :
    (sys : Rights) (pid : ℕ) (n : Node)
    → sys.unlinks ≡ true
    → sys.binds ≡ true
    → sys.chmods ≡ true
    → n ≡ Node.file ⊎ ((server : ℕ) × (mode : ℕ) × (n ≡ Node.socket server mode))
    → bind sys pid n ≡ (Node.socket pid owner_only, bound)
unfolding bind
bind_over sys pid n u b c (inl e) = rw (e, u, b, c) refl
bind_over sys pid n u b c (inr (server, mode, e)) = rw (e, u, b, c) refl
