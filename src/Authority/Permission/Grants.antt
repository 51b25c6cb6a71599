-- ===== src/Authority/Permission/Grants.antt =====
-- When one key satisfies another, as a relation: the reading of `has_permission`.
use root_cx.Prelude.{
  ℕ, ◌≡◌, refl, sym, ◌∙◌, inl, inr, true, List, [], ◌∷◌, ◌++◌, append_assoc, append-nil, Text,
  text_eq, text_eq_sound, text_eq_refl, starts_with, starts_with_sound, starts_with-append,
  strip_suffix, strip_suffix_sound, strip_suffix-append, append_levi, Memᴰ, All, All_of_mem,
  any_witness, any_of_mem, get_elem?, get_elem?_after, get_elem?-append, length, Option-cases,
  or-cases, or_left, or_right, and_split, and_intro, ==_iff, ==_refl, arith,
}
use root_cx.Authority.Permission.{star, wildcard, byte_is, in_family, satisfies, has_permission}

pub data Grants (p r : Text) : Type 0 where
  everything : p ≡ star → Grants p r
  exact : p ≡ r → Grants p r
  family : (x rest : Text) → p ≡ x ++ wildcard → r ≡ x ++ b':' ∷ rest → Grants p r

byte_is-append : (x rest : Text) (b : ℕ) → byte_is (x ++ b ∷ rest) (length x) b ≡ true
byte_is-append x rest b = rw (get_elem?-append x b rest, byte_is) (==_refl b)

byte_is_after :
    (x rest : Text) (b : ℕ)
    → byte_is (x ++ rest) (length x) b ≡ true
    → (tail : Text) × (rest ≡ b ∷ tail)
byte_is_after x rest b h = elim (Option-cases (get_elem? (x ++ rest) (length x))) [
  | inl missing ↦ cc (rw (missing, byte_is) at h)
  | inr (y, found) ↦
      let (tail, e) = get_elem?_after x rest found in
      (tail, cc (e, (==_iff y b).0 (rw (found, byte_is) at h)))
]

module _ (p r : Text) where
  family_sound : in_family r p ≡ true → Grants p r
  family_sound h = elim (Option-cases (strip_suffix p wildcard)) [
    | inl missing ↦ cc (rw (missing, in_family) at h)
    | inr (x, stripped) ↦
        let (starts, colon) =
          and_split (starts_with r x) (byte_is r (length x) b':') (rw (stripped, in_family) at h) in
        let (rest, e) = starts_with_sound r x starts in
        let (tail, e') = byte_is_after x rest b':' (rw e at colon) in
        family x tail (strip_suffix_sound p wildcard stripped) (rw (← e') e)
  ]

  pub satisfies_sound : satisfies r p ≡ true → Grants p r
  unfolding satisfies
  satisfies_sound h = elim (or-cases (text_eq p star) _ h) [
    | inl e ↦ everything (text_eq_sound p star e)
    | inr h' ↦ elim (or-cases (text_eq p r) (in_family r p) h') [
      | inl e ↦ exact (text_eq_sound p r e)
      | inr f ↦ family_sound f
    ]
  ]

in_family-append : (x rest : Text) → in_family (x ++ b':' ∷ rest) (x ++ wildcard) ≡ true
in_family-append x rest =
    rw (strip_suffix-append x wildcard, in_family)
      (and_intro _ _ (starts_with-append x (b':' ∷ rest)) (byte_is-append x rest b':'))

module _ (p r : Text) where
  pub satisfies_complete : Grants p r → satisfies r p ≡ true
  unfolding satisfies
  satisfies_complete (everything e) = rw (e, text_eq_refl star) refl
  satisfies_complete (exact e) =
      or_right (text_eq p star) _ (or_left (text_eq p r) _ (rw e (text_eq_refl r)))
  satisfies_complete (family x rest e e') =
      or_right (text_eq p star) _
        (or_right (text_eq p r) (in_family r p) (rw (e, e') (in_family-append x rest)))

module _ (perms : List Text) (r : Text) where
  -- A held key that satisfies the required one.
  pub has_permission_holder : has_permission perms r ≡ true → (p : Text) × Memᴰ p perms × Grants p r
  unfolding has_permission
  has_permission_holder h =
      let (p, m, t) = any_witness (satisfies r) perms h in (p, m, satisfies_sound p r t)

  pub has_permission_of_mem : {p : Text} → Memᴰ p perms → Grants p r → has_permission perms r ≡ true
  unfolding has_permission
  has_permission_of_mem {p} m g = any_of_mem (satisfies r) perms m (satisfies_complete p r g)

colon_ne_nil : (x : Text) (b : ℕ) (s : Text) → x ++ b ∷ s ≡ [] → ⊥
colon_ne_nil [] b s h = cc
colon_ne_nil (c ∷ x) b s h = cc

family_ne_star : (x s : Text) → x ++ b':' ∷ s ≡ star → ⊥
family_ne_star [] s h = ground arith
family_ne_star (c ∷ x) s h = colon_ne_nil x b':' s (cc)

wildcard_head : (e s : Text) → e ++ b':' ∷ s ≡ wildcard → e ≡ []
wildcard_head [] s h = refl
wildcard_head (c ∷ []) s h = ground arith
wildcard_head (c ∷ d ∷ e) s h = absurd (colon_ne_nil e b':' s (cc))

-- A family of families: what `x:*` says of `y:*`.
family_trans :
    (x y s t : Text) → x ++ b':' ∷ s ≡ y ++ wildcard → (u : Text) × (y ++ b':' ∷ t ≡ x ++ b':' ∷ u)
family_trans x y s t h = elim (append_levi x (b':' ∷ s) y wildcard h) [
  | inl (e, p, q) ↦ let same : x ≡ y = p ∙ rw (wildcard_head e s q) (append-nil y) in (t, rw same)
  | inr ([], p, q) ↦ (t, rw (p, append-nil x))
  | inr (c ∷ e, p, q) ↦
      let colon : b':' ≡ c = cc in
      (e ++ b':' ∷ t, rw (p, ← colon) (append_assoc x (b':' ∷ e) (b':' ∷ t)))
]

-- A key that satisfies another satisfies what the other does.
pub Grants-trans : {q p r : Text} → Grants q p → Grants p r → Grants q r
Grants-trans (everything e) g = everything e
Grants-trans (exact e) (everything e') = everything (e ∙ e')
Grants-trans (exact e) (exact e') = exact (e ∙ e')
Grants-trans (exact e) (family x rest e' e'') = family x rest (e ∙ e') e''
Grants-trans (family x rest e e') (everything e'') = absurd (family_ne_star x rest (sym e' ∙ e''))
Grants-trans (family x rest e e') (exact e'') = family x rest e (sym e'' ∙ e')
Grants-trans (family x s e e') (family y t d d') =
    let (u, f) = family_trans x y s t (sym e' ∙ d) in family x u e (d' ∙ f)

-- Who holds every key of another list can do what that list can do: the check on each key of a
-- delegated list is enough for all that it satisfies.
pub has_permission_subset :
    (a b : List Text) (r : Text)
    → All (λ p. has_permission a p ≡ true) b
    → has_permission b r ≡ true
    → has_permission a r ≡ true
has_permission_subset a b r each h =
    let (p, listed, p_grants) = has_permission_holder b r h in
    let (q, held, q_grants) =
      has_permission_holder a p (All_of_mem (λ p. has_permission a p ≡ true) b each listed) in
    has_permission_of_mem a r held (Grants-trans q_grants p_grants)
