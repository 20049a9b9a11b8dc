-- ===== src/Paths.antt =====
-- What the program uses of package path/filepath, on Unix: Clean, Join of two elements and Dir.
pub mod Parts
pub mod Cleaned
use pkgsite_metrics.Prelude.{
  ℕ, Bool, true, false, ◌||◌, List, [], ◌∷◌, ◌++◌, Text, text, text_eq, is_empty, ◌==◌,
  if◌then◌else◌,
}

-- The parts of a path between its slashes. `push` puts a byte before the first of them.
abbrev pub push : ℕ → List Text → List Text
push c [] = (c ∷ []) ∷ []
push c (p ∷ ps) = (c ∷ p) ∷ ps

unfoldable pub split : Text → List Text
split [] = [] ∷ []
split (c ∷ s) = let rest = split s in if c == b'/' then [] ∷ rest else push c rest

unfoldable pub join_parts : List Text → Text
join_parts [] = []
join_parts (p ∷ []) = p
join_parts (p ∷ q ∷ ps) = p ++ (b'/' ∷ join_parts (q ∷ ps))

unfoldable pub is_rooted : Text → Bool
is_rooted [] = false
is_rooted (c ∷ s) = c == b'/'

unfoldable pub but_last : List Text → List Text
but_last [] = []
but_last (p ∷ []) = []
but_last (p ∷ q ∷ ps) = p ∷ but_last (q ∷ ps)

unfoldable pub ends_up : List Text → Bool
ends_up [] = true
ends_up (p ∷ []) = text_eq p (text "..")
ends_up (p ∷ q ∷ ps) = ends_up (q ∷ ps)

-- What `..` does to the parts so far. Above the root it does nothing.
abbrev up : Bool → List Text → List Text
up true st = but_last st
up false st = if ends_up st then st ++ (text ".." ∷ []) else but_last st

unfoldable pub enter : Bool → List Text → Text → List Text
enter rooted st p =
    if is_empty p || text_eq p (text ".")
    then st
    else if text_eq p (text "..")
    then up rooted st
    else st ++ (p ∷ [])

unfoldable pub resolve : Bool → List Text → List Text → List Text
resolve rooted st [] = st
resolve rooted st (p ∷ ps) = resolve rooted (enter rooted st p) ps

-- The parts of the shortest path that is the same place.
unfoldable pub clean_parts : Text → List Text
clean_parts s = resolve (is_rooted s) [] (split s)

abbrev or_dot : Text → Text
or_dot [] = text "."
or_dot (c ∷ s) = c ∷ s

abbrev pub rooted_path : List Text → Text
rooted_path ps = b'/' ∷ join_parts ps

-- filepath.Clean
unfoldable pub clean : Text → Text
clean s = if is_rooted s then rooted_path (clean_parts s) else or_dot (join_parts (clean_parts s))

-- filepath.Join
unfoldable pub join : Text → Text → Text
join [] [] = []
join [] (c ∷ s) = clean (c ∷ s)
join (d ∷ dir) s = clean ((d ∷ dir) ++ (b'/' ∷ s))

-- The path up to its last slash.
unfoldable pub has_slash : Text → Bool
has_slash [] = false
has_slash (c ∷ s) = c == b'/' || has_slash s

unfoldable pub through_last_slash : Text → Text
through_last_slash [] = []
through_last_slash (c ∷ s) = if has_slash (c ∷ s) then c ∷ through_last_slash s else []

-- filepath.Dir
unfoldable pub dir : Text → Text
dir s = clean (through_last_slash s)
