-- ===== src/Prelude/Bytes.antt =====
-- Operations of `str` on bytes. White space is the ASCII one.
use Prim.Native.Nat.{ℕ}
use mathlib.Core.Bool.{Bool, true, false, ◌&&◌, ◌||◌}
use mathlib.Core.Option.{Option, none, some}
use mathlib.Core.List.{List, [], ◌∷◌, ◌++◌}
use macos_wireguard_daemon.Prelude.Tests.{Text, ◌==◌, ℕ_eq, List_eq, ltb, leb, if◌then◌else◌}
use macos_wireguard_daemon.Prelude.Lists.{is_empty}

abbrev pub starts_with : Text → Text → Bool
starts_with s [] = true
starts_with [] (p ∷ prefix) = false
starts_with (c ∷ s) (p ∷ prefix) = c == p && starts_with s prefix

-- `strip_prefix`
abbrev pub strip_prefix : Text → Text → Option Text
strip_prefix s [] = some s
strip_prefix [] (p ∷ prefix) = none
strip_prefix (c ∷ s) (p ∷ prefix) =
    let rest = strip_prefix s prefix in if c == p then rest else none

-- `contains`, for a substring
abbrev pub contains_text : Text → Text → Bool
contains_text [] part = is_empty part
contains_text (c ∷ s) part = starts_with (c ∷ s) part || contains_text s part

abbrev pub is_white : ℕ → Bool
is_white c = c == 32 || (leb 9 c && leb c 13)

abbrev pub trim_start : Text → Text
trim_start [] = []
trim_start (c ∷ s) = let rest = trim_start s in if is_white c then rest else c ∷ s

-- `trim_end`: white space goes only where nothing but white space follows.
abbrev pub trim_end : Text → Text
trim_end [] = []
trim_end (c ∷ s) = let rest = trim_end s in if is_white c && is_empty rest then [] else c ∷ rest

abbrev pub trim : Text → Text
trim s = trim_start (trim_end s)

-- A line without a carriage return at its end.
abbrev strip_return : Text → Text
strip_return [] = []
strip_return (c ∷ s) = let rest = strip_return s in if c == 13 && is_empty s then [] else c ∷ rest

-- The first piece between line feeds, and the others.
abbrev pieces : Text → Text × List Text
pieces [] = ([], [])
pieces (c ∷ s) =
    let (line, rest) = pieces s in if c == 10 then ([], line ∷ rest) else (c ∷ line, rest)

-- Nothing after the last line feed is no line, and only a line feed takes a carriage return off.
abbrev ended : Text → List Text → List Text
ended line [] = if is_empty line then [] else line ∷ []
ended line (next ∷ rest) = strip_return line ∷ ended next rest

-- `lines()`
abbrev pub lines : Text → List Text
lines s = let (line, rest) = pieces s in ended line rest

-- The order of `str`, by bytes.
abbrev pub text_leb : Text → Text → Bool
text_leb [] t = true
text_leb (c ∷ s) [] = false
text_leb (c ∷ s) (d ∷ t) = let rest = text_leb s t in if c == d then rest else ltb c d

-- `split_whitespace()`: the word at the front, which may be empty, and the other words.
abbrev words_of : Text → Text × List Text
words_of [] = ([], [])
words_of (c ∷ s) =
    let (word, rest) = words_of s in
    if is_white c then ([], if is_empty word then rest else word ∷ rest) else (c ∷ word, rest)

abbrev pub split_whitespace : Text → List Text
split_whitespace s = let (word, rest) = words_of s in if is_empty word then rest else word ∷ rest

-- What follows the first occurrence of a text.
abbrev pub text_after : Text → Text → Option Text
text_after [] part = strip_prefix [] part
text_after (c ∷ s) part =
    let further = text_after s part in
    elim (strip_prefix (c ∷ s) part) [ some rest ↦ some rest | none ↦ further ]

-- What stands before the first such byte, or all of it: `split(c).next()`.
abbrev pub text_before : ℕ → Text → Text
text_before c [] = []
text_before c (d ∷ s) = let rest = text_before c s in if d == c then [] else d ∷ rest

-- `trim_start_matches` and `trim_end_matches`, for one-byte characters
abbrev pub trim_start_matches : (ℕ → Bool) → Text → Text
trim_start_matches p [] = []
trim_start_matches p (c ∷ s) = let rest = trim_start_matches p s in if p c then rest else c ∷ s

abbrev pub trim_end_matches : (ℕ → Bool) → Text → Text
trim_end_matches p [] = []
trim_end_matches p (c ∷ s) =
    let rest = trim_end_matches p s in if p c && is_empty rest then [] else c ∷ rest

-- `ends_with`
abbrev pub ends_with : Text → Text → Bool
ends_with [] part = is_empty part
ends_with (c ∷ s) part = (c ∷ s) == part || ends_with s part

-- The first piece between such bytes, and the others; `split(c)` gives both.
abbrev pub first_piece : ℕ → Text → Text × List Text
first_piece c [] = ([], [])
first_piece c (d ∷ s) =
    let (piece, rest) = first_piece c s in if d == c then ([], piece ∷ rest) else (d ∷ piece, rest)

abbrev pub split : ℕ → Text → List Text
split c s = let (piece, rest) = first_piece c s in piece ∷ rest

-- `rsplit_once(c)`
abbrev pub rsplit_once : ℕ → Text → Option (Text × Text)
rsplit_once c [] = none
rsplit_once c (d ∷ t) =
    let rest = rsplit_once c t in
    elim rest [
      | some (before, after) ↦ some (d ∷ before, after)
      | none ↦ if d == c then some ([], t) else none
    ]

-- `join(separator)`
abbrev pub join : Text → List Text → Text
join separator [] = []
join separator (a ∷ []) = a
join separator (a ∷ b ∷ rest) = a ++ separator ++ join separator (b ∷ rest)
