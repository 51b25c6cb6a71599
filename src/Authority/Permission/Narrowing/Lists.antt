-- ===== src/Authority/Permission/Narrowing/Lists.antt =====
-- Sorting and removing duplicates keep what a list of keys satisfies.
use mathlib.Core.List.{filter_map}
use root_cx.Prelude.{
  ◌≡◌, refl, sym, ◌∙◌, inl, inr, Bool, true, false, ◌||◌, Option, none, some, List, [], ◌∷◌, Text,
  text_eq_sound, Memᴰ, any, any_witness, any_of_mem, Option-cases, arith,
}
use root_cx.Authority.Permission.{insert_sorted, sort, dedup_from, dedup}

module _ (P : Text → Bool) where
  any-insert_sorted : (k : Text) (xs : List Text) → any P (insert_sorted k xs) ≡ (P k || any P xs)
  unfolding insert_sorted
  any-insert_sorted k [] = refl
  any-insert_sorted k (x ∷ xs) = ground (arith, any-insert_sorted k xs)

  any-sort : (xs : List Text) → any P (sort xs) ≡ any P xs
  unfolding sort
  any-sort [] = refl
  any-sort (x ∷ xs) = any-insert_sorted x (sort xs) ∙ rw (any-sort xs)

  any-dedup_from : (k : Text) (xs : List Text) → any P (dedup_from k xs) ≡ (P k || any P xs)
  unfolding dedup_from
  any-dedup_from k [] = refl
  any-dedup_from k (x ∷ xs) =
      ground (arith, any-dedup_from k xs, any-dedup_from x xs, text_eq_sound k x)

  any-dedup : (xs : List Text) → any P (dedup xs) ≡ any P xs
  unfolding dedup
  any-dedup [] = refl
  any-dedup (x ∷ xs) = any-dedup_from x xs

  pub any-dedup-sort : (xs : List Text) → any P (dedup (sort xs)) ≡ any P xs
  any-dedup-sort xs = any-dedup (sort xs) ∙ any-sort xs

  -- The test on what a `filter_map` keeps.
  abbrev pub passes : Option Text → Bool
  passes none = false
  passes (some y) = P y

  pub any-filter_map :
      (f : Text → Option Text) (xs : List Text)
      → any P (filter_map f xs) ≡ any (λ x. passes (f x)) xs
  unfolding filter_map
  any-filter_map f [] = refl
  any-filter_map f (x ∷ xs) = elim (Option-cases (f x)) [
    | inl missing ↦ rw missing (any-filter_map f xs)
    | inr (y, found) ↦ rw found (rw (any-filter_map f xs))
  ]

  passes_cases : (o : Option Text) → passes o ≡ true → (y : Text) × (o ≡ some y) × (P y ≡ true)
  passes_cases none h = cc
  passes_cases (some y) h = (y, refl, h)

  pub filter_map_witness :
      (f : Text → Option Text) (xs : List Text)
      → any P (filter_map f xs) ≡ true
      → (x y : Text) × Memᴰ x xs × (f x ≡ some y) × (P y ≡ true)
  filter_map_witness f xs h =
      let (x, m, t) = any_witness (λ x. passes (f x)) xs (sym (any-filter_map f xs) ∙ h) in
      let (y, e, p) = passes_cases (f x) t in (x, y, m, e, p)

  pub any-filter_map_of_mem :
      (f : Text → Option Text) (xs : List Text) {x y : Text}
      → Memᴰ x xs
      → f x ≡ some y
      → P y ≡ true
      → any P (filter_map f xs) ≡ true
  any-filter_map_of_mem f xs m e p =
      any-filter_map f xs ∙ any_of_mem (λ x. passes (f x)) xs m (rw (e, passes) p)
