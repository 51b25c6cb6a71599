-- ===== src/Authority/Roles/Cycles.antt =====
-- core/src/governance/authority/perms.rs, `detect_cycle` and `dfs_cycle`: a depth-first search for a
-- role that inherits from itself. The entries of the `HashMap` are a list, in the order of `keys()`.
use root_cx.Prelude.{ℕ, zero, suc, List, [], ◌∷◌, map, Text, text_eq, length, if◌then◌else◌}
use root_cx.Prelude.Maps.{Map, empty, insert}
use root_cx.Authority.Roles.{contains, parents_of}
pub mod Unvisited
pub mod Search

abbrev pub Roles : Type 0
Roles = List (Text × List Text)

abbrev pub keys : Roles → List Text
keys roles = map (λ (entry : Text × List Text). entry.0) roles

-- `roles.get`.
abbrev pub get : Roles → Map (List Text)
get [] = empty
get ((role, parents) ∷ rest) = insert role parents (get rest)

pub record Marks : Type 0 where
  pub visited : List Text
  pub in_stack : List Text

-- What a search ends in: `Some(cycle)`, or `None` with the marks it leaves; `ran_out` is the model's
-- own.
pub data Walk : Type 0 where
  ran_out : Walk
  cycle : Text → Walk
  clear : Marks → Walk

abbrev pub and_then : Walk → (Marks → Walk) → Walk
and_then ran_out next = ran_out
and_then (cycle c) next = cycle c
and_then (clear s) next = next s

-- `HashSet::remove`.
unfoldable pub without : Text → List Text → List Text
without node [] = []
without node (x ∷ xs) = let rest = without node xs in if text_eq node x then rest else x ∷ rest

-- The loop over the parents of one role; `visit` is the recursive call.
unfoldable pub each_parent : (Text → Marks → Walk) → List Text → Marks → Walk
each_parent visit [] s = clear s
each_parent visit (parent ∷ parents) s =
    let seen = each_parent visit parents s in
    let down = and_then (visit parent s) (each_parent visit parents) in
    if contains s.in_stack parent
    then cycle parent
    else if contains s.visited parent
    then seen
    else down

abbrev pub enter : Text → Marks → Marks
enter node s = record { visited = node ∷ s.visited; in_stack = node ∷ s.in_stack }

abbrev pub leave : Text → Walk → Walk
leave node (clear s) = clear (record s { in_stack = without node s.in_stack })
leave node (cycle c) = cycle c
leave node ran_out = ran_out

unfoldable pub dfs_cycle : Roles → ℕ → Text → Marks → Walk
dfs_cycle roles zero node s = ran_out
dfs_cycle roles (suc fuel) node s =
    leave node (each_parent (dfs_cycle roles fuel) (parents_of (get roles) node) (enter node s))

-- The loop over `roles.keys()`.
unfoldable pub each_key : (Text → Marks → Walk) → List Text → Marks → Walk
each_key visit [] s = clear s
each_key visit (role ∷ rest) s =
    let seen = each_key visit rest s in
    let down = and_then (visit role s) (each_key visit rest) in
    if contains s.visited role then seen else down

abbrev pub fresh : Marks
fresh = record { visited = []; in_stack = [] }

unfoldable pub detect_cycle : Roles → Walk
detect_cycle roles = each_key (dfs_cycle roles (suc (length roles))) (keys roles) fresh
