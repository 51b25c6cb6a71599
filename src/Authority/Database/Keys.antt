-- ===== src/Authority/Database/Keys.antt =====
-- core/src/extensions/rbac/bootstrap.rs, `match_permission`, against perms.rs, `has_permission`.
use root_cx.Prelude.{
  ℕ, zero, suc, ◌-◌, ◌≡◌, refl, sym, ap, subst, ◌∙◌, inl, inr, Bool, true, false, ◌&&◌, none, some,
  Option-cases, Bool-cases, List, [], ◌∷◌, ◌++◌, Text, text_eq, text_eq_sound, starts_with,
  strip_suffix, strip_suffix_sound, strip_suffix-append, take, drop, length, length-append, arith,
}
use root_cx.Authority.Permission.{wildcard, byte_is, in_family, satisfies, has_permission}
use root_cx.Authority.Database.{left, right, unit_after, colon, match_key, match_permission}

take_append_drop : (n : ℕ) (s : Text) → s ≡ take n s ++ drop n s
take_append_drop zero s = refl
take_append_drop (suc n) [] = refl
take_append_drop (suc n) (x ∷ s) = ap (λ (t : Text). x ∷ t) (take_append_drop n s)

take-append_length : (xs ys : Text) → take (length xs) (xs ++ ys) ≡ xs
take-append_length [] ys = refl
take-append_length (x ∷ xs) ys = ap (λ (t : Text). x ∷ t) (take-append_length xs ys)

drop-append_length : (xs ys : Text) → drop (length xs) (xs ++ ys) ≡ ys
drop-append_length [] ys = refl
drop-append_length (x ∷ xs) ys = drop-append_length xs ys

left-starts_with : (s p : Text) → text_eq (left s (length p)) p ≡ starts_with s p
left-starts_with s [] = refl
left-starts_with [] (p ∷ ps) = refl
left-starts_with (x ∷ xs) (p ∷ ps) = rw (left-starts_with xs ps)

unit_after-byte_is : (s : Text) (n : ℕ) → text_eq (unit_after s n) colon ≡ byte_is s n b':'
unit_after-byte_is [] zero = refl
unit_after-byte_is [] (suc n) = refl
unit_after-byte_is (x ∷ s) zero = ground arith
unit_after-byte_is (x ∷ s) (suc n) = unit_after-byte_is s n

length_front : (front : Text) → length (front ++ wildcard) - 2 ≡ length front
length_front front = omega (arith, length-append {0} front wildcard)

-- What the database takes for the front of a family.
abbrev family_test : Text → Text → Bool
family_test required prefix =
    text_eq (left required (length prefix)) prefix
    && text_eq (unit_after required (length prefix)) colon

family_test-byte :
    (required prefix : Text)
    → family_test required prefix
      ≡ (starts_with required prefix && byte_is required (length prefix) b':')
family_test-byte required prefix =
    rw (left-starts_with required prefix, unit_after-byte_is required (length prefix))

right-wildcard :
    (p : Text) → text_eq (right p 2) wildcard ≡ true → p ≡ left p (length p - 2) ++ wildcard
right-wildcard p h =
    take_append_drop (length p - 2) p
    ∙ ap (λ (t : Text). take (length p - 2) p ++ t) (text_eq_sound (right p 2) wildcard h)

right-front : (front : Text) → right (front ++ wildcard) 2 ≡ wildcard
right-front front = rw (length_front front) (drop-append_length front wildcard)

left-front : (front : Text) → left (front ++ wildcard) (length (front ++ wildcard) - 2) ≡ front
left-front front = rw (length_front front) (take-append_length front wildcard)

in_family-front :
    (required front : Text)
    → in_family required (front ++ wildcard)
      ≡ (starts_with required front && byte_is required (length front) b':')
in_family-front required front = rw (strip_suffix-append front wildcard, in_family)

in_family-none : (required p : Text) → strip_suffix p wildcard ≡ none → in_family required p ≡ false
in_family-none required p missing = rw (missing, in_family)

match_key-family :
    (required front : Text)
    → match_key required (front ++ wildcard) ≡ satisfies required (front ++ wildcard)
unfolding match_key satisfies
match_key-family required front =
    rw (right-front front, left-front front)
      (ground (arith, family_test-byte required front, in_family-front required front))

no_family : (p : Text) → strip_suffix p wildcard ≡ none → text_eq (right p 2) wildcard ≡ false
no_family p missing = elim (Bool-cases (text_eq (right p 2) wildcard)) [
  | inl t ↦
      let front = left p (length p - 2) in
      let found : strip_suffix p wildcard ≡ some front =
        ap (λ (t : Text). strip_suffix t wildcard) (right-wildcard p t)
        ∙ strip_suffix-append front wildcard in
      cc (missing, found)
  | inr f ↦ f
]

match_key-other :
    (required p : Text)
    → strip_suffix p wildcard ≡ none
    → match_key required p ≡ satisfies required p
unfolding match_key satisfies
match_key-other required p missing =
    rw (no_family p missing) (ground (arith, in_family-none required p missing))

match_key-satisfies : (required p : Text) → match_key required p ≡ satisfies required p
match_key-satisfies required p = elim (Option-cases (strip_suffix p wildcard)) [
  | inl missing ↦ match_key-other required p missing
  | inr (front, found) ↦
      subst (λ (t : Text). match_key required t ≡ satisfies required t)
        (sym (strip_suffix_sound p wildcard found)) (match_key-family required front)
]

-- The database and the server give the same answer on any list of keys.
pub match_permission_eq :
    (perms : List Text) (required : Text)
    → match_permission perms required ≡ has_permission perms required
unfolding match_permission has_permission
match_permission_eq [] required = refl
match_permission_eq (p ∷ perms) required =
    ground (arith, match_key-satisfies required p, match_permission_eq perms required)
