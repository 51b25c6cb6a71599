-- ===== src/Prelude/Spaces.antt =====
-- White space in UTF-8 texts: `str::split_whitespace` and `str::trim`.
use Prim.Native.Nat.{ℕ, zero, suc, ◌-◌}
use mathlib.Core.Bool.{Bool, ◌&&◌, ◌||◌}
use mathlib.Core.List.{List, [], ◌∷◌, ◌++◌}
use root_cx.Prelude.Tests.{leb, ◌==◌, if◌then◌else◌}
use root_cx.Prelude.Lists.{length}
use root_cx.Prelude.Bytes.{Text, starts_with}

-- U+2000 to U+200A, U+2028, U+2029, U+202F
unfoldable pub wide_space : Text → ℕ
wide_space (a ∷ b ∷ c ∷ _) =
    if a == 0xe2
      && (b == 0x80 && ((leb 0x80 c && leb c 0x8a) || (c == 0xa8 || (c == 0xa9 || c == 0xaf))))
    then 3
    else 0
wide_space _ = 0

-- How many bytes the white space at the head takes, 0 if none stands there: the code points with the
-- Unicode property White_Space, in UTF-8.
unfoldable pub space_width : Text → ℕ
space_width s =
    if starts_with s (0x20 ∷ [])
    then 1
    else if starts_with s (0x09 ∷ [])
    then 1
    else if starts_with s (0x0a ∷ [])
    then 1
    else if starts_with s (0x0b ∷ [])
    then 1
    else if starts_with s (0x0c ∷ [])
    then 1
    else if starts_with s (0x0d ∷ [])
    then 1
    else if starts_with s (0xc2 ∷ 0x85 ∷ [])
    then 2
    else if starts_with s (0xc2 ∷ 0xa0 ∷ [])
    then 2
    else if starts_with s (0xe1 ∷ 0x9a ∷ 0x80 ∷ [])
    then 3
    else if starts_with s (0xe2 ∷ 0x81 ∷ 0x9f ∷ [])
    then 3
    else if starts_with s (0xe3 ∷ 0x80 ∷ 0x80 ∷ [])
    then 3
    else wide_space s

abbrev pub close_word : Text → List Text → List Text
close_word [] words = words
close_word (c ∷ w) words = (c ∷ w) ∷ words

-- `split_whitespace`: `skipped` bytes of a white space are still to pass over.
unfoldable pub words_from : ℕ → Text → Text → List Text
words_from skipped word [] = close_word word []
words_from (suc skipped) word (c ∷ s) = words_from skipped word s
words_from zero word (c ∷ s) =
    let width = space_width (c ∷ s) in
    let longer = words_from zero (word ++ c ∷ []) s in
    let closed = close_word word (words_from (width - 1) [] s) in
    if width == 0 then longer else closed

unfoldable pub split_whitespace : Text → List Text
split_whitespace s = words_from 0 [] s

unfoldable pub trim_start : ℕ → Text → Text
trim_start skipped [] = []
trim_start (suc skipped) (c ∷ s) = trim_start skipped s
trim_start zero (c ∷ s) =
    let width = space_width (c ∷ s) in
    let behind = trim_start (width - 1) s in if width == 0 then c ∷ s else behind

is_blank : Text → Bool
is_blank s = length (split_whitespace s) == 0

trim_end : Text → Text
trim_end [] = []
trim_end (c ∷ s) = let rest = trim_end s in if is_blank (c ∷ s) then [] else c ∷ rest

-- `str::trim`
pub trim : Text → Text
trim s = trim_end (trim_start 0 s)
