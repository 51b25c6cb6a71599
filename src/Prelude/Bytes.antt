-- ===== src/Prelude/Bytes.antt =====
-- Text as the list of its UTF-8 bytes, with the operations of Rust's `str` that the code calls.
use Prim.Native.Char.{code}
use Prim.Native.String.{String}
use Prim.Native.Nat.{ℕ, zero, suc, ◌+◌, ◌-◌, ◌<◌}
use mathlib.Core.Path.{◌≡◌, refl}
use mathlib.Core.Logic.{◌↔◌, ◌⊎◌, inl, inr}
use mathlib.Core.Bool.{Bool, true, false, ◌&&◌, ◌||◌}
use mathlib.Core.Option
use mathlib.Core.Option.{Option, none, some}
use mathlib.Core.List.{List, [], ◌∷◌, ◌++◌, map}
use native.Mathlib.Omega.{arith}
use root_cx.Prelude.Lists.{take, drop, length, get_elem?, length-append}
use root_cx.Prelude.Tests.{
  Bool-cases, Option-cases, ◌==◌, leb, if◌then◌else◌, and_split, ==_iff, ==_refl,
}

abbrev pub Text : Type 0
Text = List ℕ

-- The bytes of an ASCII literal. `String` has its own `[]` and `∷`.
abbrev pub bytes : String → Text
bytes String.[] = []
bytes (String.◌∷◌ c s) = code c ∷ bytes s

abbrev pub text_eq : Text → Text → Bool
text_eq [] [] = true
text_eq [] (_ ∷ _) = false
text_eq (_ ∷ _) [] = false
text_eq (x ∷ xs) (y ∷ ys) = x == y && text_eq xs ys

pub text_eq_sound : (xs ys : Text) → text_eq xs ys ≡ true → xs ≡ ys
text_eq_sound [] [] h = refl
text_eq_sound [] (y ∷ ys) h = cc
text_eq_sound (x ∷ xs) [] h = cc
text_eq_sound (x ∷ xs) (y ∷ ys) h =
    let (e, r) = and_split (x == y) (text_eq xs ys) h in
    cc ((==_iff x y).0 e, text_eq_sound xs ys r)

pub text_eq_refl : (xs : Text) → text_eq xs xs ≡ true
text_eq_refl [] = refl
text_eq_refl (x ∷ xs) = rw (==_refl x) (text_eq_refl xs)

pub text_eq_iff : (xs ys : Text) → (text_eq xs ys ≡ true) ↔ (xs ≡ ys)
text_eq_iff xs ys = (text_eq_sound xs ys, λ e. rw (← e) (text_eq_refl xs))

-- `s.starts_with(prefix)`.
abbrev pub starts_with : Text → Text → Bool
starts_with s [] = true
starts_with [] (_ ∷ _) = false
starts_with (x ∷ xs) (p ∷ ps) = x == p && starts_with xs ps

-- `s.strip_suffix(suffix)`.
abbrev pub strip_suffix : Text → Text → Option Text
strip_suffix [] suffix = if text_eq [] suffix then some [] else none
strip_suffix (c ∷ s) suffix =
    let shorter = Option.map (λ front. c ∷ front) (strip_suffix s suffix) in
    if text_eq (c ∷ s) suffix then some [] else shorter

abbrev pub ends_with : Text → Text → Bool
ends_with s suffix = elim (strip_suffix s suffix) [ none ↦ false | some _ ↦ true ]

-- `s.rsplit_once(c)`: around the last `c`.
abbrev pub rsplit_once : Text → ℕ → Option (Text × Text)
rsplit_once [] c = none
rsplit_once (x ∷ s) c = elim (rsplit_once s c) [
  | some (before, after) ↦ some (x ∷ before, after)
  | none ↦ if x == c then some ([], s) else none
]

-- `s.contains(part)`, for a text.
abbrev pub has_part : Text → Text → Bool
has_part [] part = starts_with [] part
has_part (c ∷ s) part = starts_with (c ∷ s) part || has_part s part

-- `&s[from..to]`.
abbrev pub slice : Text → ℕ → ℕ → Text
slice s from to = take (to - from) (drop from s)

-- `b.is_ascii_uppercase()`, `is_ascii_lowercase`, `is_ascii_digit`, `is_ascii_alphanumeric`.
abbrev pub is_upper : ℕ → Bool
is_upper c = leb b'A' c && leb c b'Z'

abbrev pub is_lower : ℕ → Bool
is_lower c = leb b'a' c && leb c b'z'

abbrev pub is_digit : ℕ → Bool
is_digit c = leb b'0' c && leb c b'9'

abbrev pub is_alphanumeric : ℕ → Bool
is_alphanumeric c = is_upper c || (is_lower c || is_digit c)

-- `to_ascii_lowercase`.
abbrev pub lower_byte : ℕ → ℕ
lower_byte c = if is_upper c then c + 32 else c

abbrev pub to_lower : Text → Text
to_lower = map lower_byte

pub starts_with_sound : (s p : Text) → starts_with s p ≡ true → (rest : Text) × (s ≡ p ++ rest)
starts_with_sound s [] h = (s, refl)
starts_with_sound [] (p ∷ ps) h = cc
starts_with_sound (x ∷ xs) (p ∷ ps) h =
    let (e, r) = and_split (x == p) (starts_with xs ps) h in
    let (rest, q) = starts_with_sound xs ps r in (rest, cc ((==_iff x p).0 e, q))

pub starts_with-append : (p rest : Text) → starts_with (p ++ rest) p ≡ true
starts_with-append [] rest = refl
starts_with-append (x ∷ xs) rest = rw (==_refl x) (starts_with-append xs rest)

pub strip_suffix_sound :
    (s suffix : Text) {front : Text} → strip_suffix s suffix ≡ some front → s ≡ front ++ suffix
strip_suffix_sound [] suffix {front} h = elim (Bool-cases (text_eq [] suffix)) [
  | inl same ↦ let e : [] ≡ front = cc (rw same at h) in rw (← e) (text_eq_sound [] suffix same)
  | inr other ↦ cc (rw other at h)
]
strip_suffix_sound (c ∷ s) suffix {front} h = elim (Bool-cases (text_eq (c ∷ s) suffix)) [
  | inl same ↦
      let e : [] ≡ front = cc (rw same at h) in rw (← e) (text_eq_sound (c ∷ s) suffix same)
  | inr other ↦
      let (f, stripped, e) = (Option.map-eq-some_iff _ _).0 (rw other at h) in
      rw (← e) (cc (strip_suffix_sound s suffix stripped))
]

pub ends_with_sound :
    (s suffix : Text) → ends_with s suffix ≡ true → (front : Text) × (s ≡ front ++ suffix)
ends_with_sound s suffix h = elim (Option-cases (strip_suffix s suffix)) [
  | inl missing ↦ cc (rw (missing, ends_with) at h)
  | inr (front, found) ↦ (front, strip_suffix_sound s suffix found)
]

longer_ne : (xs ys : Text) → length ys < length xs → text_eq xs ys ≡ false
longer_ne [] ys h = elim h [ ]
longer_ne (x ∷ xs) [] h = refl
longer_ne (x ∷ xs) (y ∷ ys) h = ground (arith, longer_ne xs ys)

pub strip_suffix-append : (front suffix : Text) → strip_suffix (front ++ suffix) suffix ≡ some front
strip_suffix-append [] [] = refl
strip_suffix-append [] (x ∷ suffix) = rw (text_eq_refl (x ∷ suffix))
strip_suffix-append (c ∷ front) suffix =
    let longer =
      longer_ne (c ∷ (front ++ suffix)) suffix (omega (arith, length-append {0} front suffix)) in
    rw (longer, strip_suffix-append front suffix)

pub ends_with-append : (front suffix : Text) → ends_with (front ++ suffix) suffix ≡ true
ends_with-append front suffix = rw (strip_suffix-append front suffix, ends_with)

-- Two ways to cut one text: one cut lies inside a part of the other.
pub append_levi :
    (a b c d : Text)
    → a ++ b ≡ c ++ d
    → ((e : Text) × (a ≡ c ++ e) × (e ++ b ≡ d)) ⊎ ((e : Text) × (c ≡ a ++ e) × (b ≡ e ++ d))
append_levi a b [] d h = inl (a, refl, h)
append_levi [] b (x ∷ c) d h = inr (x ∷ c, refl, h)
append_levi (y ∷ a) b (x ∷ c) d h = elim (append_levi a b c d (cc)) [
  | inl (e, p, q) ↦ inl (e, cc, q)
  | inr (e, p, q) ↦ inr (e, cc, q)
]

pub get_elem?-append :
    (xs : Text) (y : ℕ) (ys : Text) → get_elem? (xs ++ y ∷ ys) (length xs) ≡ some y
get_elem?-append [] y ys = refl
get_elem?-append (x ∷ xs) y ys = get_elem?-append xs y ys

pub get_elem?_here :
    (xs : Text) (n : ℕ) {y : ℕ} → get_elem? xs n ≡ some y → n ≡ 0 → (ys : Text) × (xs ≡ y ∷ ys)
get_elem?_here [] n h e = cc
get_elem?_here (x ∷ xs) zero h e = (xs, cc)
get_elem?_here (x ∷ xs) (suc n) h e = absurd (omega arith)

pub get_elem?_after :
    (xs rest : Text) {y : ℕ}
    → get_elem? (xs ++ rest) (length xs) ≡ some y
    → (ys : Text) × (rest ≡ y ∷ ys)
get_elem?_after [] rest h = get_elem?_here rest 0 h refl
get_elem?_after (x ∷ xs) rest h = get_elem?_after xs rest h
