-- ===== src/Authority/Database/Agrees.antt =====
-- core/src/extensions/rbac/bootstrap.rs, against perms.rs and policy.rs: the database decides as the
-- server does.
use root_cx.Prelude.{
  ℕ, zero, suc, ◌≡◌, refl, sym, ap, subst, ◌∙◌, inl, inr, Bool, true, false, Bool-cases, Option,
  none, some, Option-cases, List, [], ◌∷◌, ◌++◌, Memᴰ, Text, text_eq, text_eq_refl, any, any-append,
  any_witness, any_of_mem, or-cases, or_left, or_right, if◌then◌else◌, arith,
}
use root_cx.Authority.Permission
use root_cx.Authority.Permission.{satisfies}
use root_cx.Authority.Permission.Narrowing.Lists.{any-dedup-sort}
use root_cx.Authority.Roles
use root_cx.Authority.Roles.{contains, push_parents, parents_of, expand, expansion}
use root_cx.Prelude.Sets.{contains_sound}
use root_cx.Authority.Policy
use root_cx.Authority.Policy.{
  Role, Rbac, collect, hierarchy, role_perms, listed, granted, resolved_for, assigned_names,
}
use root_cx.Authority.Policy.Resolved.{granted_witness, granted_of_mem}
use root_cx.Authority.Database
use root_cx.Authority.Database.{
  match_permission, inherits_of, append_parents, pushed, expand_loop, stack_of, selected, perms_for,
}
use root_cx.Authority.Database.Tables.{
  IsKeyed, or_else, column_of, column_of_mem, column_of_found, collect_eq,
}
use root_cx.Authority.Database.Keys.{match_permission_eq}

-- Two lists with the same elements.
abbrev Same : List Text → List Text → Type 0
Same xs ys = (x : Text) → contains xs x ≡ contains ys x

append_parents_eq :
    (xs ys parents stack : List Text)
    → Same xs ys
    → append_parents xs parents stack ≡ push_parents ys parents stack
unfolding append_parents push_parents
append_parents_eq xs ys [] stack same = refl
append_parents_eq xs ys (p ∷ parents) stack same =
    rw (same p) (append_parents_eq xs ys parents (if contains ys p then stack else p ∷ stack) same)

Same-visit : (xs ys : List Text) (cur : Text) → Same xs ys → Same (xs ++ cur ∷ []) (cur ∷ ys)
Same-visit xs ys cur same x = any-append (text_eq x) xs (cur ∷ []) ∙ ground (arith, same x)

stack_of_eq :
    (assigned stack : List Text) → stack_of assigned stack ≡ push_parents [] assigned stack
unfolding push_parents
stack_of_eq [] stack = refl
stack_of_eq (role ∷ assigned) stack = stack_of_eq assigned (role ∷ stack)

inherits_of_eq :
    (rows : List Role) (role : Text) → inherits_of rows role ≡ column_of (λ r. r.inherits) rows role
unfolding inherits_of column_of
inherits_of_eq [] role = refl
inherits_of_eq (row ∷ rows) role = rw (inherits_of_eq rows role)

or_else-none : (o : Option (List Text)) → or_else o none ≡ o
or_else-none none = refl
or_else-none (some keys) = refl

pushed_found :
    (xs ys stack : List Text) (found : Option (List Text))
    → Same xs ys
    → pushed xs found stack ≡ push_parents ys (parents_of (λ _. found) []) stack
unfolding push_parents
pushed_found xs ys stack none same = refl
pushed_found xs ys stack (some parents) same = append_parents_eq xs ys parents stack same

selected_witness :
    (all_roles : List Text) (P : Text → Bool) (rows : List Role)
    → any P (selected all_roles rows) ≡ true
    → (row : Role) × Memᴰ row rows
      × (contains all_roles row.name ≡ true)
      × (any P row.permissions ≡ true)
unfolding selected
selected_witness all_roles P [] h = cc
selected_witness all_roles P (row ∷ rows) h = elim (Bool-cases (contains all_roles row.name)) [
  | inl t ↦
      elim (or-cases _ _
        (sym (any-append P row.permissions (selected all_roles rows)) ∙ (rw t at h))) [
          | inl here ↦ (row, Memᴰ.head refl, t, here)
          | inr later ↦
              let (r, m, c, p) = selected_witness all_roles P rows later in (r, Memᴰ.tail m, c, p)
        ]
  | inr f ↦
      let (r, m, c, p) = selected_witness all_roles P rows (rw f at h) in (r, Memᴰ.tail m, c, p)
]

selected_of_mem :
    (all_roles : List Text) (P : Text → Bool) (rows : List Role) {row : Role}
    → Memᴰ row rows
    → contains all_roles row.name ≡ true
    → any P row.permissions ≡ true
    → any P (selected all_roles rows) ≡ true
unfolding selected
selected_of_mem all_roles P [] m c p = elim m [ ]
selected_of_mem all_roles P (r ∷ rows) (Memᴰ.head e) c p =
    let here = ap (λ (row : Role). contains all_roles row.name) (sym e) ∙ c in
    let keys = ap (λ (row : Role). any P row.permissions) (sym e) ∙ p in
    rw here (any-append P r.permissions (selected all_roles rows) ∙ or_left _ _ keys)
selected_of_mem all_roles P (r ∷ rows) (Memᴰ.tail m) c p =
    let later = selected_of_mem all_roles P rows m c p in
    elim (Bool-cases (contains all_roles r.name)) [
      | inl t ↦ rw t (any-append P r.permissions (selected all_roles rows) ∙ or_right _ _ later)
      | inr f ↦ rw f later
    ]

iff_eq : (a b : Bool) → (a ≡ true → b ≡ true) → (b ≡ true → a ≡ true) → a ≡ b
iff_eq true b f g = sym (f refl)
iff_eq false true f g = g refl
iff_eq false false f g = refl

module _ (rbac : Rbac) (keyed : IsKeyed rbac.roles) where
  hierarchy_eq : (role : Text) → hierarchy rbac role ≡ inherits_of rbac.roles role
  hierarchy_eq role =
      collect_eq (λ r. r.inherits) rbac.roles _ role keyed
      ∙ or_else-none (column_of (λ r. r.inherits) rbac.roles role)
      ∙ sym (inherits_of_eq rbac.roles role)

  role_perms_eq :
      (role : Text) → role_perms rbac role ≡ column_of (λ r. r.permissions) rbac.roles role
  role_perms_eq role =
      collect_eq (λ r. r.permissions) rbac.roles _ role keyed
      ∙ or_else-none (column_of (λ r. r.permissions) rbac.roles role)

  expand_loop-Same :
      (rounds : ℕ) (stack xs ys : List Text)
      → Same xs ys
      → Same (expand_loop rbac.roles rounds stack xs) (expand (hierarchy rbac) rounds stack ys).0
  unfolding expand_loop expand
  expand_loop-Same zero stack xs ys same = same
  expand_loop-Same (suc rounds) [] xs ys same = same
  expand_loop-Same (suc rounds) (cur ∷ stack) xs ys same = elim (Bool-cases (contains ys cur)) [
    | inl t ↦ rw (same cur, t) (expand_loop-Same rounds stack xs ys same)
    | inr f ↦
        let seen = Same-visit xs ys cur same in
        rw
          (
            same cur,
            f,
            ← hierarchy_eq cur,
            pushed_found (xs ++ cur ∷ []) (cur ∷ ys) stack (hierarchy rbac cur) seen,
          )
          (expand_loop-Same rounds (push_parents (cur ∷ ys) (parents_of (hierarchy rbac) cur) stack)
            (xs ++ cur ∷ []) (cur ∷ ys) seen)
  ]

  expand_roles-Same :
      (assigned : List Text)
      → Same
          (Database.expand_roles rbac.roles assigned)
          (Roles.expand_roles assigned (hierarchy rbac))
  unfolding Database.expand_roles Roles.expand_roles expansion
  expand_roles-Same assigned =
      rw (stack_of_eq assigned [])
        (expand_loop-Same 64 (push_parents [] assigned []) [] [] (λ x. refl))

  module _ (P : Text → Bool) (in_database in_server : List Text)
      (same : Same in_database in_server) where
    selected-granted :
        any P (selected in_database rbac.roles) ≡ true
        → any P (granted (role_perms rbac) in_server) ≡ true
    selected-granted h =
        let (row, m, c, p) = selected_witness in_database P rbac.roles h in
        let (key, k, t) = any_witness P row.permissions p in
        let column =
          role_perms_eq row.name ∙ column_of_mem (λ r. r.permissions) rbac.roles keyed m in
        granted_of_mem (role_perms rbac) P in_server
          (contains_sound in_server row.name (sym (same row.name) ∙ c)) (rw (column, listed) k) t

    granted-selected :
        any P (granted (role_perms rbac) in_server) ≡ true
        → any P (selected in_database rbac.roles) ≡ true
    granted-selected h =
        let (role, key, m, l, t) = granted_witness (role_perms rbac) P in_server h in
        elim (Option-cases (role_perms rbac role)) [
          | inl missing ↦
              elim (subst (λ (o : Option (List Text)). Memᴰ key (listed (λ _. o) role)) missing
                l) [ ]
          | inr (keys, found) ↦
              let (row, at_row, name, column) =
                column_of_found (λ r. r.permissions) rbac.roles role
                  (sym (role_perms_eq role) ∙ found) in
              let k : Memᴰ key keys =
                subst (λ (o : Option (List Text)). Memᴰ key (listed (λ _. o) role)) found l in
              selected_of_mem in_database P rbac.roles at_row
                (same row.name
                  ∙ any_of_mem (text_eq row.name) in_server m (rw name (text_eq_refl role)))
                (any_of_mem P row.permissions (subst (Memᴰ key) (sym column) k) t)
        ]

  perms_eq :
      (assigned : List Text) (required : Text)
      → match_permission (perms_for rbac assigned) required
        ≡ Permission.has_permission (resolved_for rbac assigned).1 required
  perms_eq [] required = match_permission_eq [] required
  perms_eq (first ∷ rest) required =
      let P = satisfies required in
      let in_database = Database.expand_roles rbac.roles (first ∷ rest) in
      let in_server = Roles.expand_roles (first ∷ rest) (hierarchy rbac) in
      let same = expand_roles-Same (first ∷ rest) in
      match_permission_eq (perms_for rbac (first ∷ rest)) required
      ∙ unfold Permission.has_permission in
        (any-dedup-sort P (selected in_database rbac.roles)
          ∙ iff_eq _ _ (selected-granted P in_database in_server same)
              (granted-selected P in_database in_server same)
          ∙ sym (any-dedup-sort P (granted (role_perms rbac) in_server)))

-- The answer that the database gives to its row policies and to the gates is the one that the server
-- computes from the same tables, for every user and every key: the role names being distinct, as the
-- primary key of their table makes them.
pub database_agrees :
    (rbac : Rbac) (user required : Text)
    → IsKeyed rbac.roles
    → Database.has_permission rbac (some user) required
      ≡ Permission.has_permission (Policy.resolve_permissions rbac user).1 required
unfolding Database.has_permission Database.resolve_permissions Policy.resolve_permissions
database_agrees rbac user required keyed =
    perms_eq rbac keyed (assigned_names user rbac.assignments) required
