-- ===== src/Authority/Roles.antt =====
-- core/src/governance/authority/perms.rs, `expand_roles`: the roles that assigned roles stand for. A
-- `HashSet` is the list of its elements, the last inserted first; the stack is a list, its top first.
use root_cx.Prelude.{
  ℕ, zero, suc, Bool, Option, none, some, List, [], ◌∷◌, Text, text_eq, any, if◌then◌else◌,
}
use root_cx.Prelude.Maps.{Map}
pub use root_cx.Prelude.Sets.{contains}
pub mod Closure
pub mod Cycles

abbrev pub max_role_depth : ℕ
max_role_depth = 64

-- Each parent that is not expanded yet is pushed.
unfoldable pub push_parents : List Text → List Text → List Text → List Text
push_parents expanded [] stack = stack
push_parents expanded (parent ∷ parents) stack =
    push_parents expanded parents (if contains expanded parent then stack else parent ∷ stack)

abbrev pub parents_of : Map (List Text) → Text → List Text
parents_of role_map role = elim (role_map role) [ some parents ↦ parents | none ↦ [] ]

-- The loop, with the pops that are left until `depth > MAX_ROLE_DEPTH`: the expanded roles, and what the
-- stack still holds.
unfoldable pub expand : Map (List Text) → ℕ → List Text → List Text → List Text × List Text
expand role_map zero stack expanded = (expanded, stack)
expand role_map (suc pops) [] expanded = (expanded, [])
expand role_map (suc pops) (role ∷ stack) expanded =
    let skip = expand role_map pops stack expanded in
    let visit =
      expand role_map pops (push_parents (role ∷ expanded) (parents_of role_map role) stack)
        (role ∷ expanded) in
    if contains expanded role then skip else visit

-- `assigned.iter().collect()` pushes each assigned role.
unfoldable pub expansion : List Text → Map (List Text) → List Text × List Text
expansion assigned role_map = expand role_map max_role_depth (push_parents [] assigned []) []

unfoldable pub expand_roles : List Text → Map (List Text) → List Text
expand_roles assigned role_map = (expansion assigned role_map).0
