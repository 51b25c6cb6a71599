-- ===== src/Authority/Permission/Narrowing/Sound.antt =====
-- The narrowed set never exceeds either grant.
use mathlib.Core.List.{filter_map}
use root_cx.Prelude.{
  ℕ, ◌≡◌, refl, sym, ap, ◌∙◌, ◌⊎◌, inl, inr, Bool, true, ◌&&◌, ◌||◌, some, List, [], ◌∷◌, ◌++◌,
  Text, bytes, ends_with, ends_with_sound, ends_with-append, rsplit_once, Memᴰ, any_witness,
  text_eq_sound, any, any-append, Bool-cases, or-cases, or_left, or_right, arith, subst,
}
use root_cx.Authority.Permission.{
  star, own, shared, satisfies, has_permission, base_of, is_scoped, meet, is_star,
  intersect_permissions,
}
use root_cx.Authority.Permission.Grants.{
  Grants, everything, exact, family, satisfies_sound, has_permission_holder, has_permission_of_mem,
  Grants-trans,
}
use root_cx.Authority.Permission.Narrowing.Lists.{any-dedup-sort, filter_map_witness}

-- The whole-table key also covers the keys scoped below it. `has_permission` alone, which gates,
-- does not say so.
abbrev pub covers : List Text → Text → Bool
covers perms r = has_permission perms r || (is_scoped r && has_permission perms (base_of r))

rsplit_once-own : (base : Text) → rsplit_once (base ++ own) b'.' ≡ some (base, bytes "own")
rsplit_once-own [] = refl
rsplit_once-own (c ∷ base) = rw (rsplit_once-own base, rsplit_once) refl

rsplit_once-shared : (base : Text) → rsplit_once (base ++ shared) b'.' ≡ some (base, bytes "shared")
rsplit_once-shared [] = refl
rsplit_once-shared (c ∷ base) = rw (rsplit_once-shared base, rsplit_once) refl

pub base_of-own : (base : Text) → base_of (base ++ own) ≡ base
unfolding base_of
base_of-own base = rw (rsplit_once-own base, base_of)

pub base_of-shared : (base : Text) → base_of (base ++ shared) ≡ base
unfolding base_of
base_of-shared base = rw (rsplit_once-shared base, base_of)

pub is_scoped-own : (base : Text) → is_scoped (base ++ own) ≡ true
unfolding is_scoped
is_scoped-own base = or_left _ _ (ends_with-append base own)

-- A scoped key is its base and one of the two endings.
pub is_scoped-cases :
    (key : Text) → is_scoped key ≡ true → (key ≡ base_of key ++ own) ⊎ (key ≡ base_of key ++ shared)
unfolding is_scoped
is_scoped-cases key h = elim (or-cases (ends_with key own) (ends_with key shared) h) [
  | inl e ↦ let (base, p) = ends_with_sound key own e in inl (rw (p, base_of-own base))
  | inr e ↦ let (base, p) = ends_with_sound key shared e in inr (rw (p, base_of-shared base))
]

abbrev last : Text → ℕ
last [] = 0
last (c ∷ []) = c
last (c ∷ d ∷ s) = last (d ∷ s)

last-append : (x : Text) (c : ℕ) (s : Text) → last (x ++ c ∷ s) ≡ last (c ∷ s)
last-append [] c s = refl
last-append (a ∷ []) c s = refl
last-append (a ∷ b ∷ x) c s = last-append (b ∷ x) c s

last_of_scoped : (p : Text) → is_scoped p ≡ true → (last p ≡ b'n') ⊎ (last p ≡ b'd')
last_of_scoped p s = elim (is_scoped-cases p s) [
  | inl e ↦ inl (ap last e ∙ last-append (base_of p) b'.' (bytes "own"))
  | inr e ↦ inr (ap last e ∙ last-append (base_of p) b'.' (bytes "shared"))
]

-- A scoped key is no wildcard: it satisfies nothing but itself.
pub scoped-Grants_itself : (p r : Text) → is_scoped p ≡ true → Grants p r → p ≡ r
scoped-Grants_itself p r s (everything e) = absurd (omega (arith, last_of_scoped p s, ap last e))
scoped-Grants_itself p r s (exact e) = e
scoped-Grants_itself p r s (family x rest e e') =
    let ends : last p ≡ b'*' = ap last e ∙ last-append x b':' (bytes "*") in
    absurd (omega (arith, last_of_scoped p s, ends))

pub covers_of_has :
    (perms : List Text) (r : Text) → has_permission perms r ≡ true → covers perms r ≡ true
covers_of_has perms r h = or_left _ _ h

pub covers_of_base :
    (perms : List Text) (r : Text)
    → is_scoped r ≡ true
    → has_permission perms (base_of r) ≡ true
    → covers perms r ≡ true
covers_of_base perms r s h = or_right (has_permission perms r) _ (rw (s, h) refl)

-- The three ways in which `meet` returns a key.
meet-cases :
    (other : List Text) (p m : Text)
    → meet other p ≡ some m
    → ((p ≡ m) × (has_permission other p ≡ true))
      ⊎ (((p ≡ m) × (is_scoped p ≡ true) × (has_permission other (base_of p) ≡ true))
          ⊎ ((p ++ own ≡ m) × (has_permission other (p ++ own) ≡ true)))
unfolding meet
meet-cases other p m e = ground arith

module _ (held other : List Text) (p r : Text) (listed : Memᴰ p held) where
  meet_exact :
      has_permission other p ≡ true → Grants p r → (covers held r ≡ true) × (covers other r ≡ true)
  meet_exact has g =
      let (q, m, g') = has_permission_holder other p has in
      (
        covers_of_has held r (has_permission_of_mem held r listed g),
        covers_of_has other r (has_permission_of_mem other r m (Grants-trans g' g)),
      )

  meet_keeps_scope :
      is_scoped p ≡ true
      → has_permission other (base_of p) ≡ true
      → Grants p r
      → (covers held r ≡ true) × (covers other r ≡ true)
  meet_keeps_scope s has g =
      let same = scoped-Grants_itself p r s g in
      (
        covers_of_has held r (has_permission_of_mem held r listed g),
        covers_of_base other r (rw (← same) s) (rw (← same) has),
      )

  meet_adds_scope :
      has_permission other (p ++ own) ≡ true
      → Grants (p ++ own) r
      → (covers held r ≡ true) × (covers other r ≡ true)
  meet_adds_scope has g =
      let same = scoped-Grants_itself (p ++ own) r (is_scoped-own p) g in
      let listed_base = has_permission_of_mem held p listed (exact refl) in
      rw (← same) (
        covers_of_base held (p ++ own) (is_scoped-own p) (rw (base_of-own p) listed_base),
        covers_of_has other (p ++ own) has,
      )

  -- One step of the narrowing, from either side.
  meet_sound :
      {m : Text}
      → meet other p ≡ some m
      → Grants m r
      → (covers held r ≡ true) × (covers other r ≡ true)
  meet_sound {m} e g = elim (meet-cases other p m e) [
    | inl (same, has) ↦ meet_exact has (subst (λ k. Grants k r) (sym same) g)
    | inr (inl (same, s, has)) ↦ meet_keeps_scope s has (subst (λ k. Grants k r) (sym same) g)
    | inr (inr (same, has)) ↦ meet_adds_scope has (subst (λ k. Grants k r) (sym same) g)
  ]

star_has : (perms : List Text) (r : Text) → any is_star perms ≡ true → has_permission perms r ≡ true
star_has perms r h =
    let (p, m, s) = any_witness is_star perms h in
    has_permission_of_mem perms r m (everything (text_eq_sound p star s))

narrowed_sound :
    (a b : List Text) (r : Text)
    → any (satisfies r) (filter_map (meet b) a ++ filter_map (meet a) b) ≡ true
    → (covers a r ≡ true) × (covers b r ≡ true)
narrowed_sound a b r h =
    elim (or-cases _ _
      (sym (any-append (satisfies r) (filter_map (meet b) a) (filter_map (meet a) b)) ∙ h)) [
        | inl left ↦
            let (p, m, listed, e, t) = filter_map_witness (satisfies r) (meet b) a left in
            meet_sound a b p r listed e (satisfies_sound m r t)
        | inr right ↦
            let (p, m, listed, e, t) = filter_map_witness (satisfies r) (meet a) b right in
            let (covered_b, covered_a) = meet_sound b a p r listed e (satisfies_sound m r t) in
            (covered_a, covered_b)
      ]

-- A key that the narrowed set satisfies is covered by each of the two grants: satisfied by it, or
-- scoped `.own` or `.shared` below a key that is.
pub intersect_permissions_sound :
    (a b : List Text) (r : Text)
    → has_permission (intersect_permissions a b) r ≡ true
    → (covers a r ≡ true) × (covers b r ≡ true)
unfolding intersect_permissions
intersect_permissions_sound a b r h = elim (Bool-cases (any is_star a)) [
  | inl star_a ↦ (covers_of_has a r (star_has a r star_a), covers_of_has b r (rw star_a at h))
  | inr no_star_a ↦ elim (Bool-cases (any is_star b)) [
    | inl star_b ↦
        (covers_of_has a r (rw (no_star_a, star_b) at h), covers_of_has b r (star_has b r star_b))
    | inr no_star_b ↦ narrowed_sound a b r (
        sym (any-dedup-sort (satisfies r) (filter_map (meet b) a ++ filter_map (meet a) b))
        ∙ unfold has_permission in (rw (no_star_a, no_star_b) at h))
  ]
]
