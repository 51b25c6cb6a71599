-- ===== src/Authority/Policy/Resolved.antt =====
-- core/src/governance/authority/policy.rs, `resolve_permissions`: the permissions of a principal are
-- those of the roles that it reaches.
use root_cx.Prelude.{
  ◌≡◌, ◌↔◌, ◌∙◌, sym, subst, refl, Bool, true, List, [], ◌∷◌, Memᴰ, Text, any, any-append,
  any_witness, any_of_mem, or-cases, or_left, or_right, inl, inr,
}
use root_cx.Prelude.Maps.{Map}
use root_cx.Authority.Permission.{has_permission, satisfies}
use root_cx.Authority.Permission.Narrowing.Lists.{any-dedup-sort}
use root_cx.Authority.Roles.{expansion, expand_roles}
use root_cx.Authority.Roles.Closure.{Reaches, expand_roles_sound, expand_roles_complete}
use root_cx.Authority.Policy.{
  Rbac, assigned_names, hierarchy, role_perms, listed, granted, resolved_for, resolve_permissions,
}

-- A role that a user has, itself or by inheritance, lists a key that satisfies the required one.
pub record Granted (rbac : Rbac) (user required : Text) : Type 0 where
  pub role : Text
  pub key : Text
  pub reached : Reaches (assigned_names user rbac.assignments) (hierarchy rbac) role
  pub lists : Memᴰ key (listed (role_perms rbac) role)
  pub suffices : satisfies required key ≡ true

module _ (perms : Map (List Text)) (P : Text → Bool) where
  pub granted_witness :
      (roles : List Text)
      → any P (granted perms roles) ≡ true
      → (role key : Text) × Memᴰ role roles × Memᴰ key (listed perms role) × (P key ≡ true)
  unfolding granted
  granted_witness [] h = cc
  granted_witness (role ∷ roles) h =
      elim (or-cases _ _ (sym (any-append P (listed perms role) (granted perms roles)) ∙ h)) [
        | inl here ↦
            let (key, m, t) = any_witness P (listed perms role) here in
            (role, key, Memᴰ.head refl, m, t)
        | inr later ↦
            let (r, key, at_role, m, t) = granted_witness roles later in
            (r, key, Memᴰ.tail at_role, m, t)
      ]

  pub granted_of_mem :
      (roles : List Text) {role key : Text}
      → Memᴰ role roles
      → Memᴰ key (listed perms role)
      → P key ≡ true
      → any P (granted perms roles) ≡ true
  unfolding granted
  granted_of_mem [] m l t = elim m [ ]
  granted_of_mem (r ∷ roles) {role} {key} (Memᴰ.head e) l t =
      any-append P (listed perms r) (granted perms roles)
      ∙ or_left _ _ (any_of_mem P (listed perms r) (subst (λ x. Memᴰ key (listed perms x)) e l) t)
  granted_of_mem (r ∷ roles) (Memᴰ.tail m) l t =
      any-append P (listed perms r) (granted perms roles)
      ∙ or_right _ _ (granted_of_mem roles m l t)

no_role : (role_map : Map (List Text)) {role : Text} → ¬ Reaches [] role_map role
no_role role_map (Reaches.given m) = elim m [ ]
no_role role_map (Reaches.inherited r m) = no_role role_map r

module _ (rbac : Rbac) (required : Text) where
  resolved_sound :
      (assigned : List Text)
      → has_permission (resolved_for rbac assigned).1 required ≡ true
      → (role key : Text) × Reaches assigned (hierarchy rbac) role
        × Memᴰ key (listed (role_perms rbac) role)
        × (satisfies required key ≡ true)
  unfolding has_permission
  resolved_sound [] h = cc
  resolved_sound (first ∷ rest) h =
      let expanded = expand_roles (first ∷ rest) (hierarchy rbac) in
      let (role, key, m, l, t) =
        granted_witness (role_perms rbac) (satisfies required) expanded
          (sym (any-dedup-sort (satisfies required) (granted (role_perms rbac) expanded)) ∙ h) in
      (role, key, expand_roles_sound (first ∷ rest) (hierarchy rbac) role m, l, t)

  resolved_complete :
      (assigned : List Text) {role key : Text}
      → (expansion assigned (hierarchy rbac)).1 ≡ []
      → Reaches assigned (hierarchy rbac) role
      → Memᴰ key (listed (role_perms rbac) role)
      → satisfies required key ≡ true
      → has_permission (resolved_for rbac assigned).1 required ≡ true
  unfolding has_permission
  resolved_complete [] done r l t = absurd (no_role (hierarchy rbac) r)
  resolved_complete (first ∷ rest) {role} done r l t =
      let expanded = expand_roles (first ∷ rest) (hierarchy rbac) in
      any-dedup-sort (satisfies required) (granted (role_perms rbac) expanded)
      ∙ granted_of_mem (role_perms rbac) (satisfies required) expanded
          (expand_roles_complete (first ∷ rest) (hierarchy rbac) role done r) l t

-- Where the bound on the roles does not cut the expansion off, a user holds a permission exactly when
-- a role that the user is assigned, or that such a role inherits from, lists a key that satisfies it.
pub resolve_permissions_iff :
    (rbac : Rbac) (user required : Text)
    → (expansion (assigned_names user rbac.assignments) (hierarchy rbac)).1 ≡ []
    → (has_permission (resolve_permissions rbac user).1 required ≡ true)
      ↔ Granted rbac user required
unfolding resolve_permissions
resolve_permissions_iff rbac user required done = (
  λ h.
      let (r, k, reach, l, t) =
        resolved_sound rbac required (assigned_names user rbac.assignments) h in
      record { role = r; key = k; reached = reach; lists = l; suffices = t },
  λ g.
      resolved_complete rbac required (assigned_names user rbac.assignments) done g.reached g.lists
        g.suffices,
)
