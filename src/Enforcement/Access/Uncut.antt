-- ===== src/Enforcement/Access/Uncut.antt =====
-- core/src/manifest.rs, `validate_perm_key`, and the permissions that are computed from keys that it
-- admits: none of them holds a comma.
use root_cx.Prelude.{
  or_false, ◌≡◌, refl, ◌∙◌, inl, inr, Bool, false, Bool-cases, Option, none, some, List, [], ◌∷◌,
  ◌++◌, All, Text, text_eq, any, any-append, ◌==◌,
}
use root_cx.Prelude.Maps.{Map, empty, insert}
use mathlib.Core.List.{filter_map}
use root_cx.Authority.PermissionKeys.{validate_perm_key, validate_perm_key-uncut}
use root_cx.Authority.Permission.{
  has_permission, meet, own, base_of, is_scoped, is_star, intersect_permissions,
}
use root_cx.Authority.Permission.Narrowing.Lists.{any-dedup-sort, passes, any-filter_map}
use root_cx.Authority.Roles.{expand_roles}
use root_cx.Authority.Policy.{
  Role, Rbac, assigned_names, collect, hierarchy, role_perms, listed, granted, resolved_for,
  resolve_permissions, perms_or_none, effective_for_pair, effective_under_parent,
  delegated_effective,
}
use root_cx.Authority.Policy.Chains.{Called, authority}

abbrev pub has_comma : Text → Bool
has_comma key = any (λ c. c == b',') key

-- Every key of the roles has passed the validation.
abbrev pub IsValidated : Option Rbac → Type 0
IsValidated none = Unit
IsValidated (some rbac) =
    All (λ (row : Role). All (λ key. validate_perm_key key ≡ none) row.permissions) rbac.roles

abbrev pub ReadValidated : Called → Type 0
ReadValidated (tables, agent) = IsValidated tables

keys_uncut :
    (keys : List Text) → All (λ key. validate_perm_key key ≡ none) keys → any has_comma keys ≡ false
keys_uncut [] valid = refl
keys_uncut (key ∷ keys) (here, rest) = rw (validate_perm_key-uncut key here) (keys_uncut keys rest)

entry_uncut :
    (o o' : Option (List Text))
    → o' ≡ o
    → any has_comma (elim o [ some keys ↦ keys | none ↦ [] ]) ≡ false
    → any has_comma (elim o' [ some keys ↦ keys | none ↦ [] ]) ≡ false
entry_uncut o o' e h = rw e h

collected_uncut :
    (rows : List Role) (found : Map (List Text))
    → All (λ (row : Role). All (λ key. validate_perm_key key ≡ none) row.permissions) rows
    → ((role : Text) → any has_comma (listed found role) ≡ false)
    → (role : Text) → any has_comma (listed (collect (λ r. r.permissions) rows found) role) ≡ false
collected_uncut [] found valid before role = before role
collected_uncut (row ∷ rows) found (here, rest) before role =
    collected_uncut rows (insert row.name row.permissions found) rest added role
  where
    added :
        (role : Text) → any has_comma (listed (insert row.name row.permissions found) role) ≡ false
    added role = elim (Bool-cases (text_eq row.name role)) [
      | inl t ↦
          entry_uncut (some row.permissions) (insert row.name row.permissions found role)
            (rw t refl) (keys_uncut row.permissions here)
      | inr f ↦
          entry_uncut (found role) (insert row.name row.permissions found role) (rw f refl)
            (before role)
    ]

granted_uncut :
    (perms : Map (List Text)) (roles : List Text)
    → ((role : Text) → any has_comma (listed perms role) ≡ false)
    → any has_comma (granted perms roles) ≡ false
unfolding granted
granted_uncut perms [] all_uncut = refl
granted_uncut perms (role ∷ roles) all_uncut =
    any-append has_comma (listed perms role) (granted perms roles)
    ∙ rw (all_uncut role) (granted_uncut perms roles all_uncut)

resolved_uncut :
    (rbac : Rbac) (assigned : List Text)
    → IsValidated (some rbac)
    → any has_comma (resolved_for rbac assigned).1 ≡ false
resolved_uncut rbac [] valid = refl
resolved_uncut rbac (first ∷ rest) valid =
    any-dedup-sort has_comma
      (granted (role_perms rbac) (expand_roles (first ∷ rest) (hierarchy rbac)))
    ∙ granted_uncut (role_perms rbac) _ (collected_uncut rbac.roles empty valid (λ role. refl))

perms_uncut :
    (seen : Option Rbac) (user : Text)
    → IsValidated seen
    → any has_comma (perms_or_none seen user) ≡ false
unfolding resolve_permissions
perms_uncut none user valid = refl
perms_uncut (some rbac) user valid =
    resolved_uncut rbac (assigned_names user rbac.assignments) valid

own_uncut : (key : Text) → has_comma key ≡ false → has_comma (key ++ own) ≡ false
own_uncut key uncut = any-append (λ c. c == b',') key own ∙ rw uncut refl

met_uncut :
    (other : List Text) (key : Text)
    → has_comma key ≡ false
    → passes has_comma (meet other key) ≡ false
unfolding meet
met_uncut other key uncut = elim (Bool-cases (has_permission other key)) [
  | inl t ↦ rw t uncut
  | inr f ↦ elim (Bool-cases (is_scoped key)) [
    | inl s ↦ elim (Bool-cases (has_permission other (base_of key))) [
      | inl t ↦ rw (f, s, t) uncut
      | inr g ↦ rw (f, s, g) refl
    ]
    | inr s ↦ elim (Bool-cases (has_permission other (key ++ own))) [
      | inl t ↦ rw (f, s, t) (own_uncut key uncut)
      | inr g ↦ rw (f, s, g) refl
    ]
  ]
]

narrowed_uncut :
    (other keys : List Text)
    → any has_comma keys ≡ false
    → any has_comma (filter_map (meet other) keys) ≡ false
narrowed_uncut other keys uncut =
    any-filter_map has_comma (meet other) keys ∙ none_passes keys uncut
  where
    none_passes :
        (keys : List Text)
        → any has_comma keys ≡ false
        → any (λ key. passes has_comma (meet other key)) keys ≡ false
    none_passes [] h = refl
    none_passes (key ∷ keys) h =
        let (here, rest) = or_false (has_comma key) _ h in
        rw (met_uncut other key here) (none_passes keys rest)

intersected_uncut :
    (a b : List Text)
    → any has_comma a ≡ false
    → any has_comma b ≡ false
    → any has_comma (intersect_permissions a b) ≡ false
unfolding intersect_permissions
intersected_uncut a b ua ub = elim (Bool-cases (any is_star a)) [
  | inl t ↦ rw t ub
  | inr f ↦ elim (Bool-cases (any is_star b)) [
    | inl t ↦ rw (f, t) ua
    | inr g ↦
        rw (f, g)
          (any-dedup-sort has_comma (filter_map (meet b) a ++ filter_map (meet a) b)
            ∙ any-append has_comma (filter_map (meet b) a) (filter_map (meet a) b)
            ∙ rw (narrowed_uncut b a ua, narrowed_uncut a b ub) refl)
  ]
]

-- What a chain of agents comes to, holds no comma.
pub authority_uncut :
    (seen : Option Rbac) (user : Text) (last : Called) (callers : List Called)
    → IsValidated seen
    → All ReadValidated (last ∷ callers)
    → any has_comma (authority seen user last callers) ≡ false
unfolding delegated_effective effective_for_pair effective_under_parent
authority_uncut seen user (tables, agent) [] valid (here, rest) =
    intersected_uncut (perms_or_none tables agent) (perms_or_none seen user)
      (perms_uncut tables agent here) (perms_uncut seen user valid)
authority_uncut seen user (tables, agent) (caller ∷ callers) valid (here, rest) =
    intersected_uncut (perms_or_none tables agent) (authority seen user caller callers)
      (perms_uncut tables agent here) (authority_uncut seen user caller callers valid rest)
