-- ===== src/Base/Paths.antt =====
-- What the source uses of `std::path` on Unix. A path is bytes, read as segments between slashes,
-- of which there is always a first.
pub mod Naming
use ningen_shikkaku.Base.{
  ℕ, ◌≡◌, refl, sym, ap, ◌∙◌, Bool, true, false, ◌||◌, Option, none, some, List, [], ◌∷◌, ◌++◌,
  append_assoc, All, ◌==◌, if◌then◌else◌, Bool-cases, inl, inr, arith,
}
use ningen_shikkaku.Base.Text.{Bytes, codes, text_eq}

unfoldable pub segments : Bytes → Bytes × List Bytes
segments [] = ([], [])
segments (c ∷ cs) = let (s, ss) = segments cs in if c == b'/' then ([], s ∷ ss) else (c ∷ s, ss)

unfoldable pub slashed : List Bytes → Bytes
slashed [] = []
slashed (s ∷ ss) = b'/' ∷ (s ++ slashed ss)

-- What stands in front of the last dot.
unfoldable pub before_dot : Bytes → Option Bytes
before_dot [] = none
before_dot (c ∷ cs) = elim (before_dot cs) [
  | some s ↦ some (c ∷ s)
  | none ↦ if c == b'.' then some [] else none
]

-- `Path::file_stem` of a file name: a dot in front of it belongs to it.
unfoldable pub file_stem : Bytes → Bytes
file_stem name = elim (before_dot name) [
  | none ↦ name
  | some s ↦ elim s [ [] ↦ name | c ∷ cs ↦ c ∷ cs ]
]

-- `Path::components` leaves empty segments and `.` out.
unfoldable pub is_skipped : Bytes → Bool
is_skipped s = text_eq s [] || text_eq s (codes ".")

-- Some last segments of a path: all skipped, ended by `..`, or with the file name renamed.
pub data Renamed : Type 0 where
  skipped unnamed : Renamed
  renamed : List Bytes → Renamed

unfoldable pub rename_last : (ext s : Bytes) → Renamed
rename_last ext s =
    if is_skipped s
    then skipped
    else if text_eq s (codes "..")
    then unnamed
    else renamed ((file_stem s ++ b'.' ∷ ext) ∷ [])

unfoldable pub rename : (ext : Bytes) → List Bytes → Renamed
unfolding rename_last
rename ext [] = skipped
rename ext (s ∷ ss) = elim (rename ext ss) [
  | skipped ↦ rename_last ext s
  | unnamed ↦ unnamed
  | renamed r ↦ renamed (s ∷ r)
]

unfoldable pub renamed_path : (path : Bytes) → Renamed → Bytes
unfolding slashed
renamed_path path (renamed (s ∷ ss)) = s ++ slashed ss
renamed_path path _ = path

-- `Path::with_extension`, for an extension that is not empty. A path without a file name stays.
unfoldable pub with_extension : (ext path : Bytes) → Bytes
unfolding segments renamed_path rename
with_extension ext path = renamed_path path (rename ext ((segments path).0 ∷ (segments path).1))

unfoldable pub ends_slash : Bytes → Bool
ends_slash [] = false
ends_slash (c ∷ []) = c == b'/'
ends_slash (c ∷ cs) = ends_slash cs

-- `Path::join` with a relative path that is not empty.
unfoldable pub join : (base name : Bytes) → Bytes
join [] name = name
join base name = if ends_slash base then base ++ name else base ++ b'/' ∷ name

-- The files of a system by their paths: the content of each one that there is.
abbrev pub Files : Type 0
Files = Bytes → Option Bytes

unfoldable pub write_file : (path text : Bytes) → Files → Files
write_file path text files p = if text_eq p path then some text else files p

unfoldable pub remove_file : (path : Bytes) → Files → Files
remove_file path files p = if text_eq p path then none else files p
