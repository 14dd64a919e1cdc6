-- ===== src/Kikka/Heartbeat/Lines.antt =====
-- What a bounded line read gives back.
use ningen_shikkaku.Base.{
  ℕ, ◌+◌, ◌<◌, ◌≡◌, refl, ap, sym, ◌∙◌, Bool, true, false, List, [], ◌∷◌, ◌++◌, ◌==◌, leb, map,
  if◌then◌else◌, arith, length, length-append, All, append_assoc, append-nil, All-append,
}
use ningen_shikkaku.Base.Text.{Bytes}
use ningen_shikkaku.Kikka.Heartbeat.{
  Read, byte, eof, timed_out, broken, Line, line, error, read_line, max_line,
}

-- No newline in a text.
abbrev pub IsLine : Bytes → Type 0
IsLine = All (λ c. (c == b'\n') ≡ false)

-- The reads that bring a text and its newline.
abbrev pub reads_of : Bytes → List Read → List Read
reads_of s rest = map byte s ++ byte b'\n' ∷ rest

read_line_byte :
    (c : ℕ) (buf : Bytes) (rs : List Read)
    → (c == b'\n') ≡ false
    → length buf + 1 < max_line
    → read_line buf (byte c ∷ rs) ≡ read_line (buf ++ c ∷ []) rs
unfolding read_line
read_line_byte c buf rs h k = ground (arith, length-append buf (c ∷ []))

read_line-reads_of :
    (s buf : Bytes) (rest : List Read)
    → IsLine s
    → length buf + length s < max_line
    → read_line buf (reads_of s rest) ≡ (line (buf ++ s), rest)
read_line-reads_of [] buf rest h k =
    unfold read_line in ap (λ t. (line t, rest)) (sym (append-nil buf))
read_line-reads_of (c ∷ s) buf rest (h, hs) k =
    read_line_byte c buf (reads_of s rest) h (omega arith)
    ∙ read_line-reads_of s (buf ++ c ∷ []) rest hs (omega (arith, length-append buf (c ∷ [])))
    ∙ ap (λ t. (line t, rest)) (append_assoc buf (c ∷ []) s)

-- A line that is short enough is read whole, without its newline, and what follows it is left.
pub read_line_whole :
    (s : Bytes) (rest : List Read)
    → IsLine s
    → length s < max_line
    → read_line [] (reads_of s rest) ≡ (line s, rest)
read_line_whole s rest h k = read_line-reads_of s [] rest h (omega arith)

-- The good lines: bounded, and without a newline.
abbrev pub IsBounded : Line → Type 0
IsBounded (line s) = (length s < max_line) × IsLine s
IsBounded _ = Unit

-- A property of both branches.
either :
    (t : Bool) (x y : Line × List Read)
    → (t ≡ true → IsBounded x.0)
    → (t ≡ false → IsBounded y.0)
    → IsBounded (if t then x else y).0
either true x y h k = h refl
either false x y h k = k refl

-- Whatever a connection sends, a line that is read, with nothing or such a text before it,
-- is below 8192 bytes and holds no newline.
pub read_line-IsBounded :
    (rs : List Read) (buf : Bytes)
    → IsLine buf
    → length buf < max_line
    → IsBounded (read_line buf rs).0
unfolding read_line
read_line-IsBounded [] buf h k = tt
read_line-IsBounded (eof ∷ rs) [] h k = tt
read_line-IsBounded (eof ∷ rs) (c ∷ buf) h k = (k, h)
read_line-IsBounded (timed_out ∷ rs) buf h k = tt
read_line-IsBounded (broken ∷ rs) buf h k = tt
read_line-IsBounded (byte c ∷ rs) buf h k =
    let grown = buf ++ c ∷ [] in
    let next = read_line grown rs in
    either (c == b'\n') (line buf, rs) (if leb max_line (length grown) then (error, rs) else next)
      (λ e. (k, h))
      (λ e.
        either (leb max_line (length grown)) (error, rs) next (λ f. tt)
          (λ f.
            read_line-IsBounded rs grown
              (All-append (λ c. (c == b'\n') ≡ false) buf (c ∷ []) h (e, tt)) (ground (arith, f))))
