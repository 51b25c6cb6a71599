-- ===== src/Delegation/Fire.antt =====
-- core/src/governance/triggers/fire_gate.rs: the gate of crons, hooks, webhooks and channels.
use root_cx.Prelude.{
  ℕ, ◌≡◌, Bool, true, false, Option, none, some, List, [], ◌∷◌, ◌++◌, Text, bytes, if◌then◌else◌,
}
use root_cx.Authority.Policy.{Rbac}
use root_cx.Authority.Database
use root_cx.Delegation.Grants.{Table, is_valid}
pub mod Gate

pub data FireDenied : Type 0 where
  no_owner : FireDenied
  disabled : FireDenied
  no_delegation : FireDenied
  no_invoke : Text → FireDenied
  check_failed : FireDenied

pub data Fired : Type 0 where
  fires : Text → Fired
  refuses : FireDenied → Fired

-- What the gate reads: whether a principal is enabled, the delegations, and the tables on which the
-- database decides `has_permission`; `none` is a failed read.
pub record Answers : Type 0 where
  pub principal_enabled : Text → Bool
  pub delegations : Option Table
  pub tables : Option Rbac

abbrev pub invoke_perm : Text → Text
invoke_perm app_id = bytes "app:" ++ (app_id ++ bytes ":invoke")

abbrev pub by_permission : Text → Text → Option Rbac → Fired
by_permission uid perm none = refuses check_failed
by_permission uid perm (some rbac) =
    if Database.has_permission rbac (some uid) perm then fires uid else refuses (no_invoke perm)

abbrev pub delegated : ℕ → Text → Text → Option Table → Option Bool
delegated now delegator agent none = none
delegated now delegator agent (some rows) = some (is_valid now delegator agent rows)

abbrev pub by_delegation : Option Bool → Fired → Fired
by_delegation none next = refuses check_failed
by_delegation (some valid) next = if valid then next else refuses no_delegation

-- `agent` is the principal of the app's agent, a hash of the app's name.
unfoldable pub assert_can_fire : (Text → Text) → ℕ → Answers → Option Text → Text → Fired
assert_can_fire agent now db none app_id = refuses no_owner
assert_can_fire agent now db (some delegator) app_id =
    if db.principal_enabled delegator
    then by_delegation (delegated now delegator (agent app_id) db.delegations)
        (by_permission delegator (invoke_perm app_id) db.tables)
    else refuses disabled

unfoldable pub assert_can_fire_workflow : Answers → Option Text → Text → Fired
assert_can_fire_workflow db none app_id = refuses no_owner
assert_can_fire_workflow db (some uid) app_id =
    if db.principal_enabled uid
    then by_permission uid (invoke_perm app_id) db.tables
    else refuses disabled
