-- ===== src/Delegation/ActAs.antt =====
-- core/src/governance/delegation/act_as.rs: the gate by which a human runs work as another principal.
use root_cx.Prelude.{
  ℕ, ◌≡◌, Bool, true, false, ◌&&◌, Option, none, some, List, [], ◌∷◌, Text, bytes, text_eq, all,
  any, if◌then◌else◌,
}
use root_cx.Prelude.Maps.{Map}
use root_cx.Authority.Permission.{has_permission}
use root_cx.Authority.Policy.{Rbac, resolve_permissions}
use root_cx.Delegation.Grants.{
  Table, DelegationError, Created, created, refused, is_valid, create, between, revoke_where,
}
pub mod Gate
pub mod Standing

-- What the gate reads of the database.
pub record Db : Type 0 where
  pub public_execution_principals : List Text
  pub delegations : Table
  pub rbac : Rbac
  pub kinds : Map Text

pub data Denied : Type 0 where
  managed_principal : Denied
  no_delegation : Text → Denied
  exceeds : Denied
  invalid_run_as : Denied

abbrev pub act_as : Text
act_as = bytes "act_as"

-- `None` is `Ok(())`.
unfoldable pub assert_can_act_as : ℕ → Db → Text → Text → Option Denied
assert_can_act_as now db human target =
    if any (text_eq target) db.public_execution_principals
    then some managed_principal
    else if text_eq human target
    then none
    else if is_valid now human target db.delegations
    then (let human_perms = (resolve_permissions db.rbac human).1 in
        let target_perms = (resolve_permissions db.rbac target).1 in
        if all (has_permission human_perms) target_perms then none else some exceeds)
    else some (no_delegation target)

pub data Owner : Type 0 where
  owner : Text → Owner
  denied : Denied → Owner

abbrev pub owner_unless : Text → Option Denied → Owner
owner_unless target none = owner target
owner_unless target (some e) = denied e

abbrev pub owner_named : ℕ → Db → Text → Option Text → Owner
owner_named now db caller none = denied invalid_run_as
owner_named now db caller (some target) =
    owner_unless target (assert_can_act_as now db caller target)

-- `parse` is the parser of uuids.
unfoldable pub resolve_owner : (Text → Option Text) → ℕ → Db → Text → Option Text → Owner
resolve_owner parse now db caller none = owner caller
resolve_owner parse now db caller (some run_as) = owner_named now db caller (parse run_as)

unfoldable pub grant : ℕ → Map Text → Text → Text → Text → Table → Created
grant now kinds id human sa rows =
    if is_valid now human sa rows
    then created rows []
    else create kinds id human sa act_as none rows

-- Every standing delegation of this kind, and of this kind only.
unfoldable pub revoke : ℕ → Text → Text → Table → Table
revoke now human sa =
    revoke_where now (λ row. between human sa row && text_eq row.trigger_type act_as)
