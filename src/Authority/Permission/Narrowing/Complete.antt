-- ===== src/Authority/Permission/Narrowing/Complete.antt =====
-- What both grants cover, the narrowed set covers.
use mathlib.Core.List.{filter_map}
use root_cx.Prelude.{
  ℕ, ◌≡◌, refl, sym, ap, ◌∙◌, ◌⊎◌, inl, inr, Bool, true, false, ◌||◌, some, List, [], ◌∷◌, ◌++◌,
  append_assoc, append-nil, append_levi, Text, bytes, text_eq_refl, Memᴰ, any, any-append,
  any_of_mem, Bool-cases, or-cases, or_left, or_right, and_split, arith, ◌==◌,
}
use root_cx.Authority.Permission.{
  star, wildcard, satisfies, has_permission, base_of, is_scoped, meet, is_star,
  intersect_permissions,
}
use root_cx.Authority.Permission.Grants.{
  Grants, everything, exact, family, satisfies_complete, has_permission_holder,
  has_permission_of_mem,
}
use root_cx.Authority.Permission.Narrowing.Lists.{any-dedup-sort, any-filter_map_of_mem}
use root_cx.Authority.Permission.Narrowing.Sound.{
  covers, covers_of_has, covers_of_base, is_scoped-cases,
}

abbrev has_colon : Text → Bool
has_colon = any (λ b. b == b':')

has_colon-append : (e s : Text) → has_colon (e ++ b':' ∷ s) ≡ true
has_colon-append e s =
    any-append (λ b. b == b':') e (b':' ∷ s) ∙ or_right (has_colon e) (has_colon (b':' ∷ s)) refl

-- The colon of a family lies before an ending that has none.
colon_before_ending :
    (x s base : Text) (c : ℕ) (ending : Text)
    → has_colon (c ∷ ending) ≡ false
    → x ++ b':' ∷ s ≡ base ++ c ∷ ending
    → (rest : Text) × (base ≡ x ++ b':' ∷ rest)
colon_before_ending x s base c ending plain h =
    elim (append_levi x (b':' ∷ s) base (c ∷ ending) h) [
      | inl (e, p, q) ↦ cc (sym (has_colon-append e s) ∙ ap has_colon q ∙ plain)
      | inr ([], p, q) ↦ cc (ap has_colon q ∙ plain)
      | inr (d ∷ e, p, q) ↦ let colon : b':' ≡ d = cc in (e, rw colon p)
    ]

-- A family that holds a scoped key holds its base.
family_base :
    {p : Text} (x s r : Text)
    → p ≡ x ++ wildcard
    → r ≡ x ++ b':' ∷ s
    → is_scoped r ≡ true
    → Grants p (base_of r)
family_base x s r e e' scoped = elim (is_scoped-cases r scoped) [
  | inl d ↦
      let (rest, q) = colon_before_ending x s (base_of r) b'.' (bytes "own") refl (sym e' ∙ d) in
      family x rest e q
  | inr d ↦
      let (rest, q) = colon_before_ending x s (base_of r) b'.' (bytes "shared") refl (sym e' ∙ d) in
      family x rest e q
]

-- Of two families that share a key, one holds the other.
families_nested :
    (x y s t : Text)
    → x ++ b':' ∷ s ≡ y ++ b':' ∷ t
    → (Grants (y ++ wildcard) (x ++ wildcard)) ⊎ (Grants (x ++ wildcard) (y ++ wildcard))
families_nested x y s t h = elim (append_levi x (b':' ∷ s) y (b':' ∷ t) h) [
  | inl ([], p, q) ↦ inl (exact (rw (p, append-nil y)))
  | inl (d ∷ e, p, q) ↦
      let colon : d ≡ b':' = cc in
      inl (family y (e ++ wildcard) refl (rw (p, colon) (append_assoc y (b':' ∷ e) wildcard)))
  | inr ([], p, q) ↦ inr (exact (rw (p, append-nil x)))
  | inr (d ∷ e, p, q) ↦
      let colon : d ≡ b':' = cc in
      inr (family x (e ++ wildcard) refl (rw (p, colon) (append_assoc x (b':' ∷ e) wildcard)))
]

meet_of_has : (other : List Text) (p : Text) → has_permission other p ≡ true → meet other p ≡ some p
unfolding meet
meet_of_has other p h = ground arith

meet_of_scope :
    (other : List Text) (p : Text)
    → is_scoped p ≡ true
    → has_permission other (base_of p) ≡ true
    → meet other p ≡ some p
unfolding meet
meet_of_scope other p s h = ground arith

abbrev narrowed : List Text → List Text → Text → Bool
narrowed a b r = any (satisfies r) (filter_map (meet b) a ++ filter_map (meet a) b)

or_comm : (p q : Bool) → (p || q) ≡ true → (q || p) ≡ true
or_comm p q h = ground arith

narrowed_swap : (a b : List Text) (r : Text) → narrowed a b r ≡ true → narrowed b a r ≡ true
narrowed_swap a b r h =
    any-append (satisfies r) (filter_map (meet a) b) (filter_map (meet b) a)
    ∙ or_comm (any (satisfies r) (filter_map (meet b) a))
        (any (satisfies r) (filter_map (meet a) b))
        (sym (any-append (satisfies r) (filter_map (meet b) a) (filter_map (meet a) b)) ∙ h)

narrowed_left :
    (a b : List Text) (r : Text) {p : Text}
    → Memᴰ p a
    → meet b p ≡ some p
    → Grants p r
    → narrowed a b r ≡ true
narrowed_left a b r {p} m e g =
    any-append (satisfies r) (filter_map (meet b) a) (filter_map (meet a) b)
    ∙ or_left _ _ (any-filter_map_of_mem (satisfies r) (meet b) a m e (satisfies_complete p r g))

no_star_grants :
    (perms : List Text) {p : Text} → any is_star perms ≡ false → Memᴰ p perms → p ≡ star → ⊥
no_star_grants perms {p} none_is m e = cc (any_of_mem is_star perms m (rw e (text_eq_refl star)))

module _ (a b : List Text) (no_a : any is_star a ≡ false) (no_b : any is_star b ≡ false) where
  narrowed_both :
      (r : Text) → has_permission a r ≡ true → has_permission b r ≡ true → narrowed a b r ≡ true
  narrowed_both r ha hb =
      let (p, m, g) = has_permission_holder a r ha in
      let (q, m', g') = has_permission_holder b r hb in both p q m m' g g'
    where
      both : (p q : Text) → Memᴰ p a → Memᴰ q b → Grants p r → Grants q r → narrowed a b r ≡ true
      both p q m m' (everything e) g' = absurd (no_star_grants a no_a m e)
      both p q m m' (exact e) g' = narrowed_left a b r m (meet_of_has b p (rw e hb)) (exact e)
      both p q m m' (family x s e d) (everything e') = absurd (no_star_grants b no_b m' e')
      both p q m m' (family x s e d) (exact e') =
          narrowed_swap b a r (narrowed_left b a r m' (meet_of_has a q (rw e' ha)) (exact e'))
      both p q m m' (family x s e d) (family y t e' d') =
          elim (families_nested x y s t (sym d ∙ d')) [
            | inl g ↦
                narrowed_left a b r m
                  (meet_of_has b p (has_permission_of_mem b p m' (rw (e, e') g))) (family x s e d)
            | inr g ↦ narrowed_swap b a r (
                narrowed_left b a r m'
                  (meet_of_has a q (has_permission_of_mem a q m (rw (e, e') g))) (family y t e' d'))
          ]

  narrowed_scoped :
      (r : Text)
      → has_permission a r ≡ true
      → is_scoped r ≡ true
      → has_permission b (base_of r) ≡ true
      → (narrowed a b r ≡ true) ⊎ (narrowed a b (base_of r) ≡ true)
  narrowed_scoped r ha s hb = let (p, m, g) = has_permission_holder a r ha in by_holder p m g
    where
      by_holder :
          (p : Text)
          → Memᴰ p a
          → Grants p r
          → (narrowed a b r ≡ true) ⊎ (narrowed a b (base_of r) ≡ true)
      by_holder p m (everything e) = absurd (no_star_grants a no_a m e)
      by_holder p m (exact e) =
          inl (narrowed_left a b r m (meet_of_scope b p (rw e s) (rw e hb)) (exact e))
      by_holder p m (family x t e d) = inr (
          narrowed_both (base_of r)
            (has_permission_of_mem a (base_of r) m (family_base x t r e d s)) hb)

covers-cases :
    (perms : List Text) (r : Text)
    → covers perms r ≡ true
    → (has_permission perms r ≡ true)
      ⊎ ((is_scoped r ≡ true) × (has_permission perms (base_of r) ≡ true))
covers-cases perms r h = elim (or-cases (has_permission perms r) _ h) [
  | inl has ↦ inl has
  | inr scoped ↦ inr (and_split (is_scoped r) _ scoped)
]

covered :
    (perms : List Text) (r : Text)
    → is_scoped r ≡ true
    → (has_permission perms r ≡ true) ⊎ (has_permission perms (base_of r) ≡ true)
    → covers perms r ≡ true
covered perms r s (inl h) = covers_of_has perms r h
covered perms r s (inr h) = covers_of_base perms r s h

narrowed_has :
    (a b : List Text) (r : Text)
    → any is_star a ≡ false
    → any is_star b ≡ false
    → has_permission (intersect_permissions a b) r ≡ narrowed a b r
unfolding intersect_permissions has_permission
narrowed_has a b r no_a no_b =
    rw (no_a, no_b) (any-dedup-sort (satisfies r) (filter_map (meet b) a ++ filter_map (meet a) b))

module _ (a b : List Text) (no_a : any is_star a ≡ false) (no_b : any is_star b ≡ false) where
  has_of_narrowed :
      (r : Text) → narrowed a b r ≡ true → has_permission (intersect_permissions a b) r ≡ true
  has_of_narrowed r h = narrowed_has a b r no_a no_b ∙ h

  covers_of_scoped :
      (r : Text)
      → is_scoped r ≡ true
      → (narrowed a b r ≡ true) ⊎ (narrowed a b (base_of r) ≡ true)
      → covers (intersect_permissions a b) r ≡ true
  covers_of_scoped r s (inl h) = covered _ r s (inl (has_of_narrowed r h))
  covers_of_scoped r s (inr h) = covered _ r s (inr (has_of_narrowed (base_of r) h))

  swap_sides :
      (r : Text)
      → (narrowed b a r ≡ true) ⊎ (narrowed b a (base_of r) ≡ true)
      → (narrowed a b r ≡ true) ⊎ (narrowed a b (base_of r) ≡ true)
  swap_sides r (inl h) = inl (narrowed_swap b a r h)
  swap_sides r (inr h) = inr (narrowed_swap b a (base_of r) h)

  narrowed_complete :
      (r : Text)
      → covers a r ≡ true
      → covers b r ≡ true
      → covers (intersect_permissions a b) r ≡ true
  narrowed_complete r ca cb = elim (covers-cases a r ca) [
    | inl ha ↦ elim (covers-cases b r cb) [
      | inl hb ↦ covers_of_has _ r (has_of_narrowed r (narrowed_both a b no_a no_b r ha hb))
      | inr (s, hb) ↦ covers_of_scoped r s (narrowed_scoped a b no_a no_b r ha s hb)
    ]
    | inr (s, ha) ↦ elim (covers-cases b r cb) [
      | inl hb ↦ covers_of_scoped r s (swap_sides r (narrowed_scoped b a no_b no_a r hb s ha))
      | inr (_, hb) ↦ covers_of_scoped r s (inr (narrowed_both a b no_a no_b (base_of r) ha hb))
    ]
  ]

-- A key that each of the two grants covers, itself or as a scoped key below one that it satisfies, the
-- narrowed set covers.
pub intersect_permissions_complete :
    (a b : List Text) (r : Text)
    → covers a r ≡ true
    → covers b r ≡ true
    → covers (intersect_permissions a b) r ≡ true
intersect_permissions_complete a b r ca cb = elim (Bool-cases (any is_star a)) [
  | inl star_a ↦ unfold intersect_permissions in (rw star_a cb)
  | inr no_a ↦ elim (Bool-cases (any is_star b)) [
    | inl star_b ↦ unfold intersect_permissions in (rw (no_a, star_b) ca)
    | inr no_b ↦ narrowed_complete a b no_a no_b r ca cb
  ]
]
