-- ===== src/Authority/Database.antt =====
-- core/src/extensions/rbac/bootstrap.rs: the functions that Core installs in the database for the
-- row policies, in PL/pgSQL: `match_permission`, `expand_roles`, `resolve_permissions` and
-- `has_permission`. A text is a list of units, which `length`, `left`, `right` and `substr` count.
use root_cx.Prelude.{
  ℕ, zero, suc, ◌-◌, Bool, true, false, ◌&&◌, Option, none, some, List, [], ◌∷◌, ◌++◌, Text,
  text_eq, take, drop, length, any, if◌then◌else◌,
}
use root_cx.Authority.Permission.{star, wildcard, sort, dedup}
use root_cx.Authority.Roles.{contains}
use root_cx.Authority.Policy.{Role, Rbac, assigned_names}
pub mod Keys
pub mod Tables
pub mod Agrees

-- `left(s, n)`, `right(s, n)` and `substr(s, n + 1, 1)`.
abbrev pub left : Text → ℕ → Text
left s n = take n s

abbrev pub right : Text → ℕ → Text
right s n = drop (length s - n) s

abbrev pub unit_after : Text → ℕ → Text
unit_after s n = take 1 (drop n s)

abbrev pub colon : Text
colon = b':' ∷ []

-- The body of the loop over the held keys.
unfoldable pub match_key : Text → Text → Bool
match_key required p =
    if text_eq p star
    then true
    else if text_eq p required
    then true
    else if text_eq (right p 2) wildcard
    then (let prefix = left p (length p - 2) in
        text_eq (left required (length prefix)) prefix
        && text_eq (unit_after required (length prefix)) colon)
    else false

unfoldable pub match_permission : List Text → Text → Bool
match_permission [] required = false
match_permission (p ∷ perms) required =
    let rest = match_permission perms required in if match_key required p then true else rest

-- `SELECT inherits INTO parents .. WHERE name = cur`: the first row, NULL where there is none.
unfoldable pub inherits_of : List Role → Text → Option (List Text)
inherits_of [] role = none
inherits_of (row ∷ rows) role =
    let rest = inherits_of rows role in if text_eq row.name role then some row.inherits else rest

-- The `FOREACH` over the parents; an array is the list of its elements, and the stack's top first.
unfoldable pub append_parents : List Text → List Text → List Text → List Text
append_parents expanded [] stack = stack
append_parents expanded (p ∷ parents) stack =
    append_parents expanded parents (if contains expanded p then stack else p ∷ stack)

abbrev pub pushed : List Text → Option (List Text) → List Text → List Text
pushed expanded none stack = stack
pushed expanded (some parents) stack = append_parents expanded parents stack

-- The `WHILE` loop, with the rounds left until `depth < 64` fails.
unfoldable pub expand_loop : List Role → ℕ → List Text → List Text → List Text
expand_loop rows zero stack expanded = expanded
expand_loop rows (suc rounds) [] expanded = expanded
expand_loop rows (suc rounds) (cur ∷ stack) expanded =
    let skip = expand_loop rows rounds stack expanded in
    let appended = expanded ++ cur ∷ [] in
    let visit = expand_loop rows rounds (pushed appended (inherits_of rows cur) stack) appended in
    if contains expanded cur then skip else visit

abbrev pub stack_of : List Text → List Text → List Text
stack_of [] stack = stack
stack_of (role ∷ assigned) stack = stack_of assigned (role ∷ stack)

unfoldable pub expand_roles : List Role → List Text → List Text
expand_roles rows assigned = expand_loop rows 64 (stack_of assigned []) []

-- `unnest(r.permissions) .. WHERE r.name = ANY(all_roles)`
unfoldable pub selected : List Text → List Role → List Text
selected all_roles [] = []
selected all_roles (row ∷ rows) =
    let rest = selected all_roles rows in
    if contains all_roles row.name then row.permissions ++ rest else rest

-- `array_agg(DISTINCT perm)` sorts.
abbrev pub perms_for : Rbac → List Text → List Text
perms_for rbac [] = []
perms_for rbac (role ∷ rest) =
    dedup (sort (selected (expand_roles rbac.roles (role ∷ rest)) rbac.roles))

unfoldable pub resolve_permissions : Rbac → Text → List Text
resolve_permissions rbac user = perms_for rbac (assigned_names user rbac.assignments)

unfoldable pub has_permission : Rbac → Option Text → Text → Bool
has_permission rbac none required = false
has_permission rbac (some user) required = match_permission (resolve_permissions rbac user) required
