-- ===== src/Authority/Roles/Cycles/Search.antt =====
-- core/src/governance/authority/perms.rs, `detect_cycle`: the search ends, and finds a role above
-- itself exactly where there is one.
use root_cx.Prelude.{
  ℕ, zero, suc, ◌<◌, ◌≡◌, ◌∙◌, refl, sym, subst, ◌⊎◌, inl, inr, arith, true, false, Bool-cases,
  List, [], ◌∷◌, Memᴰ, Text, text_eq_refl, length,
}
use root_cx.Prelude.Sets.{contains_sound, contains_of_mem}
use root_cx.Authority.Roles.{contains, parents_of}
use root_cx.Authority.Roles.Cycles.{
  Roles, keys, get, Marks, Walk, ran_out, cycle, clear, and_then, without, each_parent, enter,
  leave, dfs_cycle, each_key, fresh, detect_cycle,
}
use root_cx.Authority.Roles.Cycles.Unvisited.{
  Within, without_absent, unvisited, unvisited_le_length, unvisited_mono, parents-key,
  unvisited_drop,
}

-- A role inherits from another, through one parent or several.
pub data Above (roles : Roles) : Text → Text → Type 0 where
  direct :
      {role parent : Text} → Memᴰ parent (parents_of (get roles) role) → Above roles role parent
  through :
      {role parent top : Text}
      → Memᴰ parent (parents_of (get roles) role)
      → Above roles parent top
      → Above roles role top

-- Every way up from the role ends.
data Grounded (roles : Roles) : Text → Type 0 where
  grounded :
      {role : Text}
      → ((parent : Text) → Memᴰ parent (parents_of (get roles) role) → Grounded roles parent)
      → Grounded roles role

-- The marks between two visits: every visited role is on the stack, or all ways up from it end.
record Settled (roles : Roles) (s : Marks) : Type 0 where
  settled : (role : Text) → Memᴰ role s.visited → Memᴰ role s.in_stack ⊎ Grounded roles role
  within : Within s.in_stack s.visited

-- Every role on the stack is below this one.
abbrev Leads : Roles → Marks → Text → Type 0
Leads roles s role = (x : Text) → Memᴰ x s.in_stack → Above roles x role

record Cleared (roles : Roles) (s s' : Marks) : Type 0 where
  settles : Settled roles s'
  same_stack : s'.in_stack ≡ s.in_stack
  grows : Within s.visited s'.visited

abbrev Good : Roles → Marks → (Marks → Type 0) → Walk → Type 0
Good roles s Done ran_out = ⊥
Good roles s Done (cycle c) = Above roles c c
Good roles s Done (clear s') = Cleared roles s s' × Done s'

Above-trans : {roles : Roles} {x y z : Text} → Above roles x y → Above roles y z → Above roles x z
Above-trans (direct m) b = through m b
Above-trans (through m a) b = through m (Above-trans a b)

Grounded-Above : {roles : Roles} {x : Text} → Grounded roles x → ¬ Above roles x x
Grounded-Above (grounded up) (direct m) = Grounded-Above (up _ m) (direct m)
Grounded-Above (grounded up) (through m a) = Grounded-Above (up _ m) (Above-trans a (direct m))

module _ (roles : Roles) where
  -- What a visit of a role that is not visited promises.
  abbrev Visits : ℕ → (Text → Marks → Walk) → Type 0
  Visits fuel visit =
      (role : Text) (s : Marks)
      → Settled roles s
      → Leads roles s role
      → contains s.visited role ≡ false
      → unvisited roles s.visited < fuel
      → Good roles s (λ _. Grounded roles role) (visit role s)

  Cleared-refl : (s : Marks) → Settled roles s → Cleared roles s s
  Cleared-refl s i = record { settles = i; same_stack = refl; grows = λ x m. m }

  Cleared-trans : (s t u : Marks) → Cleared roles s t → Cleared roles t u → Cleared roles s u
  Cleared-trans s t u a b = record {
    settles = b.settles;
    same_stack = b.same_stack ∙ a.same_stack;
    grows = λ x m. b.grows x (a.grows x m);
  }

  Good-map :
      (s : Marks) (D E : Marks → Type 0) (w : Walk)
      → Good roles s D w
      → ((t : Marks) → Cleared roles s t → D t → E t)
      → Good roles s E w
  Good-map s D E ran_out g f = g
  Good-map s D E (cycle c) g f = g
  Good-map s D E (clear t) g f = (g.0, f t g.0 g.1)

  Good-extend :
      (s t : Marks) (D : Marks → Type 0) (w : Walk)
      → Cleared roles s t
      → Good roles t D w
      → Good roles s D w
  Good-extend s t D ran_out c g = g
  Good-extend s t D (cycle x) c g = g
  Good-extend s t D (clear u) c g = (Cleared-trans s t u c g.0, g.1)

  Good-bind :
      (s : Marks) (D E : Marks → Type 0) (w : Walk) (next : Marks → Walk)
      → Good roles s D w
      → ((t : Marks) → Cleared roles s t → D t → Good roles t E (next t))
      → Good roles s E (and_then w next)
  Good-bind s D E ran_out next g f = g
  Good-bind s D E (cycle c) next g f = g
  Good-bind s D E (clear t) next g f = Good-extend s t E (next t) g.0 (f t g.0 g.1)

  abbrev AllGrounded : List Text → Type 0
  AllGrounded roles_above = (x : Text) → Memᴰ x roles_above → Grounded roles x

  AllGrounded-cons :
      (x : Text) (xs : List Text) → Grounded roles x → AllGrounded xs → AllGrounded (x ∷ xs)
  AllGrounded-cons x xs g gs y (Memᴰ.head e) = subst (Grounded roles) (sym e) g
  AllGrounded-cons x xs g gs y (Memᴰ.tail m) = gs y m

  Settled-off :
      (s : Marks) (x : Text)
      → Settled roles s
      → contains s.in_stack x ≡ false
      → contains s.visited x ≡ true
      → Grounded roles x
  Settled-off s x i f t = elim (i.settled x (contains_sound s.visited x t)) [
    | inl m ↦ let on = contains_of_mem s.in_stack x m in cc
    | inr g ↦ g
  ]

  Leads-stack :
      (s t : Marks) (x : Text) → t.in_stack ≡ s.in_stack → Leads roles s x → Leads roles t x
  Leads-stack s t x e l y m = l y (subst (Memᴰ y) e m)

  still_below :
      (fuel : ℕ) (s t : Marks)
      → Cleared roles s t
      → unvisited roles s.visited < fuel
      → unvisited roles t.visited < fuel
  still_below fuel s t c h = omega (arith, unvisited_mono roles s.visited t.visited c.grows)

  module _ (fuel : ℕ) (visit : Text → Marks → Walk) (visits : Visits fuel visit) where
    each_parent-Good :
        (parents : List Text) (s : Marks)
        → Settled roles s
        → ((p : Text) → Memᴰ p parents → Leads roles s p)
        → ((p : Text) → Memᴰ p parents → unvisited roles s.visited < fuel)
        → Good roles s (λ _. AllGrounded parents) (each_parent visit parents s)
    unfolding each_parent
    each_parent-Good [] s i leads bound = (Cleared-refl s i, λ x m. elim m [ ])
    each_parent-Good (p ∷ ps) s i leads bound = elim (Bool-cases (contains s.in_stack p)) [
      | inl on ↦ rw on (leads p (Memᴰ.head refl) p (contains_sound s.in_stack p on))
      | inr off ↦ elim (Bool-cases (contains s.visited p)) [
        | inl old ↦
            rw (off, old)
              (Good-map s _ _ (each_parent visit ps s)
                (each_parent-Good ps s i (λ x m. leads x (Memᴰ.tail m))
                  (λ x m. bound x (Memᴰ.tail m)))
                (λ t c gs. AllGrounded-cons p ps (Settled-off s p i off old) gs))
        | inr new ↦
            rw (off, new)
              (Good-bind s _ _ (visit p s) (each_parent visit ps)
                (visits p s i (leads p (Memᴰ.head refl)) new (bound p (Memᴰ.head refl)))
                (λ t c g.
                  Good-map t _ _ (each_parent visit ps t)
                    (each_parent-Good ps t c.settles
                      (λ x m. Leads-stack s t x c.same_stack (leads x (Memᴰ.tail m)))
                      (λ x m. still_below fuel s t c (bound x (Memᴰ.tail m))))
                    (λ u d gs. AllGrounded-cons p ps g gs)))
      ]
    ]

    -- At the start of a walk the stack is empty, so each visited role is grounded.
    each_key-Good :
        (roles_left : List Text) (s : Marks)
        → Settled roles s
        → s.in_stack ≡ []
        → length roles < fuel
        → Good roles s (λ _. AllGrounded roles_left) (each_key visit roles_left s)
    unfolding each_key
    each_key-Good [] s i e bound = (Cleared-refl s i, λ x m. elim m [ ])
    each_key-Good (p ∷ ps) s i e bound = elim (Bool-cases (contains s.visited p)) [
      | inl old ↦ rw old (
          Good-map s _ _ (each_key visit ps s) (each_key-Good ps s i e bound)
            (λ t c gs. AllGrounded-cons p ps (Settled-off s p i (rw e) old) gs))
      | inr new ↦ rw new (
          Good-bind s _ _ (visit p s) (each_key visit ps)
            (visits p s i (λ x m. elim (subst (Memᴰ x) e m) [ ]) new
              (omega (arith, unvisited_le_length roles s.visited)))
            (λ t c g.
              Good-map t _ _ (each_key visit ps t)
                (each_key-Good ps t c.settles (c.same_stack ∙ e) bound)
                (λ u d gs. AllGrounded-cons p ps g gs)))
    ]

  module _ (role : Text) (s : Marks) (i : Settled roles s)
      (new : contains s.visited role ≡ false) where
    off_stack : contains s.in_stack role ≡ false
    off_stack = elim (Bool-cases (contains s.in_stack role)) [
      | inl on ↦
          let seen =
            contains_of_mem s.visited role (i.within role (contains_sound s.in_stack role on)) in
          cc
      | inr off ↦ off
    ]

    enter-Settled : Settled roles (enter role s)
    enter-Settled = record { settled = settled; within = within }
      where
        settled :
            (x : Text) → Memᴰ x (role ∷ s.visited) → Memᴰ x (role ∷ s.in_stack) ⊎ Grounded roles x
        settled x (Memᴰ.head e) = inl (Memᴰ.head e)
        settled x (Memᴰ.tail m) = elim (i.settled x m) [
          | inl on ↦ inl (Memᴰ.tail on)
          | inr g ↦ inr g
        ]

        within : Within (role ∷ s.in_stack) (role ∷ s.visited)
        within x (Memᴰ.head e) = Memᴰ.head e
        within x (Memᴰ.tail m) = Memᴰ.tail (i.within x m)

    enter-Leads :
        Leads roles s role
        → (p : Text) → Memᴰ p (parents_of (get roles) role)
        → Leads roles (enter role s) p
    enter-Leads leads p up x (Memᴰ.head e) = subst (λ r. Above roles r p) (sym e) (direct up)
    enter-Leads leads p up x (Memᴰ.tail m) = Above-trans (leads x m) (direct up)

    left_stack : (t : Marks) → t.in_stack ≡ role ∷ s.in_stack → without role t.in_stack ≡ s.in_stack
    unfolding without
    left_stack t e = rw (e, text_eq_refl role) (without_absent role s.in_stack off_stack)

    leave-Cleared :
        (t : Marks)
        → Cleared roles (enter role s) t
        → Grounded roles role
        → Cleared roles s (record t { in_stack = without role t.in_stack })
    leave-Cleared t c g = record {
      settles = record { settled = settled; within = within };
      same_stack = left_stack t c.same_stack;
      grows = λ x m. c.grows x (Memᴰ.tail m);
    }
      where
        on_stack :
            (x : Text)
            → Memᴰ x (role ∷ s.in_stack)
            → Memᴰ x (without role t.in_stack) ⊎ Grounded roles x
        on_stack x (Memᴰ.head e) = inr (subst (Grounded roles) (sym e) g)
        on_stack x (Memᴰ.tail m) = inl (subst (Memᴰ x) (sym (left_stack t c.same_stack)) m)

        settled :
            (x : Text) → Memᴰ x t.visited → Memᴰ x (without role t.in_stack) ⊎ Grounded roles x
        settled x m = elim (c.settles.settled x m) [
          | inl on ↦ on_stack x (subst (Memᴰ x) c.same_stack on)
          | inr h ↦ inr h
        ]

        within : Within (without role t.in_stack) t.visited
        within x m =
            c.grows x (Memᴰ.tail (i.within x (subst (Memᴰ x) (left_stack t c.same_stack) m)))

    leave-Good :
        (w : Walk)
        → Good roles (enter role s) (λ _. AllGrounded (parents_of (get roles) role)) w
        → Good roles s (λ _. Grounded roles role) (leave role w)
    leave-Good ran_out g = g
    leave-Good (cycle c) g = g
    leave-Good (clear t) g = (leave-Cleared t g.0 (grounded g.1), grounded g.1)

  dfs-Visits : (fuel : ℕ) → Visits fuel (dfs_cycle roles fuel)
  unfolding dfs_cycle
  dfs-Visits zero role s i leads new below = absurd (omega arith)
  dfs-Visits (suc fuel) role s i leads new below = leave-Good role s i new _ (
      each_parent-Good fuel (dfs_cycle roles fuel) (dfs-Visits fuel) (parents_of (get roles) role)
        (enter role s) (enter-Settled role s i new) (enter-Leads role s i new leads)
        (λ p up.
          omega (arith, unvisited_drop roles s.visited role (parents-key roles role p up) new)))

  fresh-Settled : Settled roles fresh
  fresh-Settled = record { settled = λ x m. elim m [ ]; within = λ x m. elim m [ ] }

  -- A role that inherits from something is a key.
  Above-key : {x y : Text} → Above roles x y → Memᴰ x (keys roles)
  Above-key {x} (direct m) = parents-key roles x _ m
  Above-key {x} (through m a) = parents-key roles x _ m

  -- The search always ends. A role that it reports inherits from itself; where it reports none, no
  -- role inherits from itself, whatever the length of the way round.
  pub detect_cycle_decides :
      ((c : Text) × (detect_cycle roles ≡ cycle c) × Above roles c c)
      ⊎ ((s : Marks) × (detect_cycle roles ≡ clear s) × ((x : Text) → ¬ Above roles x x))
  unfolding detect_cycle
  detect_cycle_decides =
      verdict (detect_cycle roles)
        (each_key-Good (suc (length roles)) _ (dfs-Visits (suc (length roles))) (keys roles) fresh
          fresh-Settled refl (omega arith))
        refl
    where
      verdict :
          (w : Walk)
          → Good roles fresh (λ _. AllGrounded (keys roles)) w
          → detect_cycle roles ≡ w
          → ((c : Text) × (detect_cycle roles ≡ cycle c) × Above roles c c)
            ⊎ ((s : Marks) × (detect_cycle roles ≡ clear s) × ((x : Text) → ¬ Above roles x x))
      verdict ran_out g e = absurd g
      verdict (cycle c) g e = inl (c, e, g)
      verdict (clear s) g e = inr (s, e, λ x a. Grounded-Above (g.1 x (Above-key a)) a)
