-- ===== src/Authority/Permission.antt =====
-- core/src/governance/authority/perms.rs, permission keys: who satisfies a key, and how two
-- grants are narrowed. A key is the list of its UTF-8 bytes, a `&[String]` a list of keys.
pub mod Grants
pub mod Narrowing
use mathlib.Core.List.{filter_map}
use root_cx.Prelude.{
  ℕ, Bool, true, false, ◌&&◌, ◌||◌, Option, none, some, List, [], ◌∷◌, ◌++◌, Text, bytes, text_eq,
  starts_with, strip_suffix, ends_with, rsplit_once, any, get_elem?, length, ltb, ◌==◌,
  if◌then◌else◌,
}

abbrev pub star : Text
star = bytes "*"

abbrev pub wildcard : Text
wildcard = bytes ":*"

abbrev pub own : Text
own = bytes ".own"

abbrev pub shared : Text
shared = bytes ".shared"

-- `bytes.get(i) == Some(&b)`
abbrev pub byte_is : Text → ℕ → ℕ → Bool
byte_is s i b = elim (get_elem? s i) [ none ↦ false | some x ↦ x == b ]

-- `if let Some(prefix) = p.strip_suffix(":*")`
abbrev pub in_family : Text → Text → Bool
in_family required p = elim (strip_suffix p wildcard) [
  | some prefix ↦ starts_with required prefix && byte_is required (length prefix) b':'
  | none ↦ false
]

-- The closure of `has_permission`: one held key against the required one.
unfoldable pub satisfies : Text → Text → Bool
satisfies required p = text_eq p star || (text_eq p required || in_family required p)

unfoldable pub has_permission : List Text → Text → Bool
has_permission permissions required = any (satisfies required) permissions

-- `key.rsplit_once('.').unwrap().0`: `meet` asks it only of a key that has a dot.
unfoldable pub base_of : Text → Text
base_of key = elim (rsplit_once key b'.') [ some (base, _) ↦ base | none ↦ [] ]

unfoldable pub is_scoped : Text → Bool
is_scoped key = ends_with key own || ends_with key shared

unfoldable pub meet : List Text → Text → Option Text
meet other key =
    if has_permission other key
    then some key
    else if is_scoped key
    then (if has_permission other (base_of key) then some key else none)
    else (if has_permission other (key ++ own) then some (key ++ own) else none)

-- `Ord for str`: lexicographic on bytes.
unfoldable pub text_leb : Text → Text → Bool
text_leb [] ys = true
text_leb (x ∷ xs) [] = false
text_leb (x ∷ xs) (y ∷ ys) = ltb x y || (x == y && text_leb xs ys)

unfoldable pub insert_sorted : Text → List Text → List Text
insert_sorted k [] = k ∷ []
insert_sorted k (x ∷ xs) = if text_leb k x then k ∷ x ∷ xs else x ∷ insert_sorted k xs

-- `sort_unstable`: equal keys cannot be told apart, so any sort gives this list.
unfoldable pub sort : List Text → List Text
sort [] = []
sort (x ∷ xs) = insert_sorted x (sort xs)

-- `dedup`: one of each run of equal neighbours.
unfoldable pub dedup_from : Text → List Text → List Text
dedup_from k [] = k ∷ []
dedup_from k (x ∷ xs) =
    let same = dedup_from k xs in
    let next = dedup_from x xs in if text_eq k x then same else k ∷ next

unfoldable pub dedup : List Text → List Text
dedup [] = []
dedup (x ∷ xs) = dedup_from x xs

abbrev pub is_star : Text → Bool
is_star p = text_eq p star

unfoldable pub intersect_permissions : List Text → List Text → List Text
intersect_permissions a b =
    if any is_star a
    then b
    else if any is_star b
    then a
    else dedup (sort (filter_map (meet b) a ++ filter_map (meet a) b))
