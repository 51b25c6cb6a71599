-- ===== src/Authority/Roles/Closure.antt =====
-- core/src/governance/authority/perms.rs, `expand_roles`: the expanded roles are those that the
-- assigned roles reach.
use root_cx.Prelude.{
  ℕ, zero, suc, ◌+◌, ◌≤◌, ◌≡◌, refl, arith, true, Bool-cases, inl, inr, ◌⊎◌, List, [], ◌∷◌, Text,
  Memᴰ, length, sym, subst, if◌then◌else◌,
}
use root_cx.Prelude.Maps.{Map}
use root_cx.Prelude.Sets.{contains_sound}
use root_cx.Authority.Roles.{
  max_role_depth, contains, push_parents, parents_of, expand, expansion, expand_roles,
}

-- A role that is assigned, or a parent of one that is reached.
pub data Reaches (assigned : List Text) (role_map : Map (List Text)) : Text → Type 0 where
  given : {role : Text} → Memᴰ role assigned → Reaches assigned role_map role
  inherited :
      {role parent : Text}
      → Reaches assigned role_map role
      → Memᴰ parent (parents_of role_map role)
      → Reaches assigned role_map parent

abbrev In : Text → List Text → List Text → Type 0
In role stack expanded = Memᴰ role expanded ⊎ Memᴰ role stack

push_parents_keeps :
    (expanded parents stack : List Text) {role : Text}
    → Memᴰ role stack
    → Memᴰ role (push_parents expanded parents stack)
unfolding push_parents
push_parents_keeps expanded [] stack m = m
push_parents_keeps expanded (p ∷ parents) stack m = elim (Bool-cases (contains expanded p)) [
  | inl t ↦ rw (t) (push_parents_keeps expanded parents stack m)
  | inr f ↦ rw (f) (push_parents_keeps expanded parents (p ∷ stack) (Memᴰ.tail m))
]

push_parents_adds :
    (expanded parents stack : List Text) {role : Text}
    → Memᴰ role parents
    → In role (push_parents expanded parents stack) expanded
unfolding push_parents
push_parents_adds expanded [] stack m = elim m [ ]
push_parents_adds expanded (p ∷ parents) stack (Memᴰ.head e) =
    elim (Bool-cases (contains expanded p)) [
      | inl t ↦ inl (subst (λ r. Memᴰ r expanded) (sym e) (contains_sound expanded p t))
      | inr f ↦ inr (rw (f) (push_parents_keeps expanded parents (p ∷ stack) (Memᴰ.head e)))
    ]
push_parents_adds expanded (p ∷ parents) stack (Memᴰ.tail m) =
    push_parents_adds expanded parents (if contains expanded p then stack else p ∷ stack) m

push_parents_only :
    (expanded parents stack : List Text) {role : Text}
    → Memᴰ role (push_parents expanded parents stack)
    → Memᴰ role parents ⊎ Memᴰ role stack
unfolding push_parents
push_parents_only expanded [] stack m = inr m
push_parents_only expanded (p ∷ parents) stack {role} m = elim (Bool-cases (contains expanded p)) [
  | inl t ↦ elim (push_parents_only expanded parents stack (rw t at m)) [
    | inl q ↦ inl (Memᴰ.tail q)
    | inr q ↦ inr q
  ]
  | inr f ↦ elim (push_parents_only expanded parents (p ∷ stack) (rw f at m)) [
    | inl q ↦ inl (Memᴰ.tail q)
    | inr (Memᴰ.head e) ↦ inl (Memᴰ.head e)
    | inr (Memᴰ.tail q) ↦ inr q
  ]
]

module _ (assigned : List Text) (role_map : Map (List Text)) where
  -- What is expanded or waits on the stack is reached.
  abbrev Sound : List Text → List Text → Type 0
  Sound stack expanded = (role : Text) → In role stack expanded → Reaches assigned role_map role

  visit-Sound :
      (role : Text) (stack expanded : List Text)
      → Sound (role ∷ stack) expanded
      → Sound (push_parents (role ∷ expanded) (parents_of role_map role) stack) (role ∷ expanded)
  visit-Sound role stack expanded s r (inl (Memᴰ.head e)) = s r (inr (Memᴰ.head e))
  visit-Sound role stack expanded s r (inl (Memᴰ.tail m)) = s r (inl m)
  visit-Sound role stack expanded s r (inr m) =
      elim (push_parents_only (role ∷ expanded) (parents_of role_map role) stack m) [
        | inl q ↦ inherited (s role (inr (Memᴰ.head refl))) q
        | inr q ↦ s r (inr (Memᴰ.tail q))
      ]

  skip-Sound :
      (role : Text) (stack expanded : List Text)
      → Sound (role ∷ stack) expanded
      → Sound stack expanded
  skip-Sound role stack expanded s r (inl m) = s r (inl m)
  skip-Sound role stack expanded s r (inr m) = s r (inr (Memᴰ.tail m))

  expand-Sound :
      (pops : ℕ) (stack expanded : List Text)
      → Sound stack expanded
      → Sound (expand role_map pops stack expanded).1 (expand role_map pops stack expanded).0
  unfolding expand
  expand-Sound zero stack expanded s = s
  expand-Sound (suc pops) [] expanded s = s
  expand-Sound (suc pops) (role ∷ stack) expanded s = elim (Bool-cases (contains expanded role)) [
    | inl t ↦ rw (t) (expand-Sound pops stack expanded (skip-Sound role stack expanded s))
    | inr f ↦ rw (f) (expand-Sound pops _ (role ∷ expanded) (visit-Sound role stack expanded s))
  ]

  -- An assigned role, and a parent of an expanded one, is expanded or waits on the stack.
  record Complete (stack expanded : List Text) : Type 0 where
    all_given : (role : Text) → Memᴰ role assigned → In role stack expanded
    all_parents :
        (role parent : Text)
        → Memᴰ role expanded
        → Memᴰ parent (parents_of role_map role)
        → In parent stack expanded

  skipped :
      (role : Text) (stack expanded : List Text)
      → contains expanded role ≡ true
      → (r : Text) → In r (role ∷ stack) expanded
      → In r stack expanded
  skipped role stack expanded t r (inl m) = inl m
  skipped role stack expanded t r (inr (Memᴰ.head e)) =
      inl (subst (λ x. Memᴰ x expanded) (sym e) (contains_sound expanded role t))
  skipped role stack expanded t r (inr (Memᴰ.tail m)) = inr m

  visited :
      (role : Text) (stack expanded parents : List Text) (r : Text)
      → In r (role ∷ stack) expanded
      → In r (push_parents (role ∷ expanded) parents stack) (role ∷ expanded)
  visited role stack expanded parents r (inl m) = inl (Memᴰ.tail m)
  visited role stack expanded parents r (inr (Memᴰ.head e)) = inl (Memᴰ.head e)
  visited role stack expanded parents r (inr (Memᴰ.tail m)) =
      inr (push_parents_keeps (role ∷ expanded) parents stack m)

  visit-Complete :
      (role : Text) (stack expanded : List Text)
      → Complete (role ∷ stack) expanded
      → Complete (push_parents (role ∷ expanded) (parents_of role_map role) stack) (role ∷ expanded)
  visit-Complete role stack expanded c = record {
    all_given = λ r m. visited role stack expanded _ r (c.all_given r m);
    all_parents = λ r p m q. parents r p m q;
  }
    where
      parents :
          (r p : Text)
          → Memᴰ r (role ∷ expanded)
          → Memᴰ p (parents_of role_map r)
          → In p (push_parents (role ∷ expanded) (parents_of role_map role) stack) (role ∷ expanded)
      parents r p (Memᴰ.head e) q =
          push_parents_adds (role ∷ expanded) (parents_of role_map role) stack
            (subst (λ x. Memᴰ p (parents_of role_map x)) e q)
      parents r p (Memᴰ.tail m) q = visited role stack expanded _ p (c.all_parents r p m q)

  expand-Complete :
      (pops : ℕ) (stack expanded : List Text)
      → Complete stack expanded
      → Complete (expand role_map pops stack expanded).1 (expand role_map pops stack expanded).0
  unfolding expand
  expand-Complete zero stack expanded c = c
  expand-Complete (suc pops) [] expanded c = c
  expand-Complete (suc pops) (role ∷ stack) expanded c =
      elim (Bool-cases (contains expanded role)) [
        | inl t ↦ rw (t) (
            expand-Complete pops stack expanded (record {
              all_given = λ r m. skipped role stack expanded t r (c.all_given r m);
              all_parents = λ r p m q. skipped role stack expanded t p (c.all_parents r p m q);
            }))
        | inr f ↦
            rw (f) (expand-Complete pops _ (role ∷ expanded) (visit-Complete role stack expanded c))
      ]

  -- Every expanded role is an assigned one, or is inherited from one.
  pub expand_roles_sound :
      (role : Text) → Memᴰ role (expand_roles assigned role_map) → Reaches assigned role_map role
  unfolding expand_roles expansion
  expand_roles_sound role m =
      expand-Sound max_role_depth (push_parents [] assigned []) [] start role (inl m)
    where
      start : Sound (push_parents [] assigned []) []
      start r (inl m) = elim m [ ]
      start r (inr m) = elim (push_parents_only [] assigned [] m) [
        | inl q ↦ given q
        | inr q ↦ elim q [ ]
      ]

  started : Complete (push_parents [] assigned []) []
  started = record {
    all_given = λ r m. push_parents_adds [] assigned [] m;
    all_parents = λ r p m q. elim m [ ];
  }

  reached :
      (expanded : List Text)
      → Complete [] expanded
      → {role : Text} → Reaches assigned role_map role
      → Memᴰ role expanded
  reached expanded c (given m) = elim (c.all_given _ m) [ inl q ↦ q | inr q ↦ elim q [ ] ]
  reached expanded c (inherited r m) = elim (c.all_parents _ _ (reached expanded c r) m) [
    | inl q ↦ q
    | inr q ↦ elim q [ ]
  ]

  -- Where the bound on the pops does not cut the expansion off, so that the stack is empty at its end,
  -- every role that is assigned or inherited is expanded.
  pub expand_roles_complete :
      (role : Text)
      → (expansion assigned role_map).1 ≡ []
      → Reaches assigned role_map role
      → Memᴰ role (expand_roles assigned role_map)
  unfolding expand_roles expansion
  expand_roles_complete role done r =
      reached _
        (subst (λ stack. Complete stack (expand_roles assigned role_map)) done
          (expand-Complete max_role_depth (push_parents [] assigned []) [] started))
        r

  expand-length :
      (pops : ℕ) (stack expanded : List Text)
      → length (expand role_map pops stack expanded).0 ≤ length expanded + pops
  unfolding expand
  expand-length zero stack expanded = omega arith
  expand-length (suc pops) [] expanded = omega arith
  expand-length (suc pops) (role ∷ stack) expanded = elim (Bool-cases (contains expanded role)) [
    | inl t ↦ rw (t) (omega (arith, expand-length pops stack expanded))
    | inr f ↦ rw (f) (omega (arith, expand-length pops _ (role ∷ expanded)))
  ]

  -- At most `max_role_depth` roles are expanded, however the roles are connected.
  pub expand_roles_bound : length (expand_roles assigned role_map) ≤ max_role_depth
  unfolding expand_roles expansion
  expand_roles_bound = expand-length max_role_depth (push_parents [] assigned []) []
