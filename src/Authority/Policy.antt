-- ===== src/Authority/Policy.antt =====
-- core/src/governance/authority/policy.rs: the permissions that the tables of assignments and roles
-- give a principal, and the authority of a delegated agent. A read of the database that may fail is
-- an `Option` of what it sees.
use root_cx.Prelude.{
  ◌≡◌, Bool, true, false, Option, none, some, List, [], ◌∷◌, ◌++◌, Text, text_eq, any,
  if◌then◌else◌,
}
use root_cx.Prelude.Maps.{Map, empty, insert}
use root_cx.Authority.Permission.{star, intersect_permissions, sort, dedup}
use root_cx.Authority.Roles.{expand_roles}
pub mod Resolved
pub mod Chains

-- A row of rbac_roles.
pub record Role : Type 0 where
  pub name : Text
  pub inherits : List Text
  pub permissions : List Text

-- The tables rbac_assignments, of a user and a role, and rbac_roles.
pub record Rbac : Type 0 where
  pub assignments : List (Text × Text)
  pub roles : List Role

unfoldable pub assigned_names : Text → List (Text × Text) → List Text
assigned_names user [] = []
assigned_names user ((owner, role) ∷ rows) =
    let rest = assigned_names user rows in if text_eq owner user then role ∷ rest else rest

abbrev pub collect : (Role → List Text) → List Role → Map (List Text) → Map (List Text)
collect column [] found = found
collect column (r ∷ rows) found = collect column rows (insert r.name (column r) found)

abbrev pub hierarchy : Rbac → Map (List Text)
hierarchy rbac = collect (λ r. r.inherits) rbac.roles empty

abbrev pub role_perms : Rbac → Map (List Text)
role_perms rbac = collect (λ r. r.permissions) rbac.roles empty

abbrev pub listed : Map (List Text) → Text → List Text
listed perms role = elim (perms role) [ some keys ↦ keys | none ↦ [] ]

-- The loop that extends `perm_set`.
unfoldable pub granted : Map (List Text) → List Text → List Text
granted perms [] = []
granted perms (role ∷ roles) = listed perms role ++ granted perms roles

-- A sorted list of the elements of a set.
abbrev pub resolved_for : Rbac → List Text → List Text × List Text
resolved_for rbac [] = ([], [])
resolved_for rbac (role ∷ rest) =
    let expanded = expand_roles (role ∷ rest) (hierarchy rbac) in
    (sort expanded, dedup (sort (granted (role_perms rbac) expanded)))

unfoldable pub resolve_permissions : Rbac → Text → List Text × List Text
resolve_permissions rbac user = resolved_for rbac (assigned_names user rbac.assignments)

-- `require_admin`
unfoldable pub is_admin : Rbac → Text → Bool
is_admin rbac user = any (text_eq star) (resolve_permissions rbac user).1

-- `resolve_permissions(..).await.map(|(_, p)| p).unwrap_or_default()`
abbrev pub perms_or_none : Option Rbac → Text → List Text
perms_or_none none user = []
perms_or_none (some rbac) user = (resolve_permissions rbac user).1

-- The two reads are concurrent: each sees its own tables, or fails.
unfoldable pub effective_for_pair : Option Rbac → Option Rbac → Text → Text → List Text
effective_for_pair for_agent for_delegator agent delegator =
    intersect_permissions (perms_or_none for_agent agent) (perms_or_none for_delegator delegator)

unfoldable pub effective_under_parent : Option Rbac → Text → List Text → List Text
effective_under_parent for_child child parent_perms =
    intersect_permissions (perms_or_none for_child child) parent_perms

unfoldable pub delegated_effective :
    Option Rbac → Option Rbac → Text → Option Text → Option (List Text) → List Text
delegated_effective for_agent for_invoker agent invoker (some parent_perms) =
    effective_under_parent for_agent agent parent_perms
delegated_effective for_agent for_invoker agent (some user) none =
    effective_for_pair for_agent for_invoker agent user
delegated_effective for_agent for_invoker agent none none = []
