-- ===== src/Authority/Policy/Chains.antt =====
-- core/src/governance/authority/policy.rs, `delegated_effective`: agents that call agents.
use root_cx.Prelude.{
  ◌≡◌, true, false, ◌&&◌, Option, none, some, List, [], ◌∷◌, Text, or-cases, and_split, inl, inr,
  All, arith,
}
use root_cx.Authority.Permission.{has_permission, is_scoped, base_of, intersect_permissions}
use root_cx.Authority.Permission.Narrowing.Sound.{
  covers, covers_of_has, intersect_permissions_sound,
}
use root_cx.Authority.Policy.{
  Rbac, perms_or_none, effective_for_pair, effective_under_parent, delegated_effective,
}

-- An agent with the tables that the read of its permissions sees.
abbrev pub Called : Type 0
Called = Option Rbac × Text

-- The authority of the last agent of a chain, the last called first: the first agent is invoked by
-- the user, each other one by the agent before it.
abbrev pub authority : Option Rbac → Text → Called → List Called → List Text
authority seen user (tables, agent) [] = delegated_effective tables seen agent (some user) none
authority seen user (tables, agent) (caller ∷ rest) =
    delegated_effective tables seen agent (some user) (some (authority seen user caller rest))

-- A scope does not stand on a scoped key.
abbrev pub IsSimple : Text → Type 0
IsSimple r = (is_scoped r && is_scoped (base_of r)) ≡ false

abbrev pub HeldBy : Text → Called → Type 0
HeldBy r (tables, agent) = covers (perms_or_none tables agent) r ≡ true

covers_lift :
    (perms : List Text) (r : Text)
    → IsSimple r
    → is_scoped r ≡ true
    → covers perms (base_of r) ≡ true
    → covers perms r ≡ true
covers_lift perms r simple scoped h = ground arith

covers_narrowed :
    (a b : List Text) (r : Text)
    → IsSimple r
    → covers (intersect_permissions a b) r ≡ true
    → (covers a r ≡ true) × (covers b r ≡ true)
covers_narrowed a b r simple h = elim (or-cases _ _ h) [
  | inl has ↦ intersect_permissions_sound a b r has
  | inr below ↦
      let (scoped, has) = and_split _ _ below in
      let (in_a, in_b) = intersect_permissions_sound a b (base_of r) has in
      (covers_lift a r simple scoped in_a, covers_lift b r simple scoped in_b)
]

covers-authority :
    (seen : Option Rbac) (user : Text) (last : Called) (callers : List Called) (r : Text)
    → IsSimple r
    → covers (authority seen user last callers) r ≡ true
    → (covers (perms_or_none seen user) r ≡ true) × All (HeldBy r) (last ∷ callers)
unfolding delegated_effective effective_for_pair effective_under_parent
covers-authority seen user (tables, agent) [] r simple h =
    let (mine, users) =
      covers_narrowed (perms_or_none tables agent) (perms_or_none seen user) r simple h in
    (users, (mine, tt))
covers-authority seen user (tables, agent) (caller ∷ rest) r simple h =
    let (mine, above) =
      covers_narrowed (perms_or_none tables agent) (authority seen user caller rest) r simple h in
    let (users, agents) = covers-authority seen user caller rest r simple above in
    (users, (mine, agents))

-- However long the chain of agents that call agents, what the last one may do is covered by the
-- permissions of the user who began it and by those of every agent on the way, for a key whose scope
-- does not stand on another scope. Permissions that could not be read count as none.
pub authority_sound :
    (seen : Option Rbac) (user : Text) (last : Called) (callers : List Called) (r : Text)
    → IsSimple r
    → has_permission (authority seen user last callers) r ≡ true
    → (covers (perms_or_none seen user) r ≡ true) × All (HeldBy r) (last ∷ callers)
authority_sound seen user last callers r simple h =
    covers-authority seen user last callers r simple
      (covers_of_has (authority seen user last callers) r h)
