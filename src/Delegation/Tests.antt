-- ===== src/Delegation/Tests.antt =====
-- Runs of the theorems on delegations and their gates at concrete rows.
use root_cx.Prelude.{ℕ, ◌≡◌, ◌↔◌, ◌⊎◌, refl, true, any, none, some, [], ◌∷◌, Text, bytes}
use root_cx.Prelude.Maps.{Map, empty, insert}
use root_cx.Authority.Permission.{
  has_permission, satisfies, insert_sorted, sort, dedup_from, dedup, text_leb,
}
use root_cx.Authority.Roles.{push_parents, expand, expansion, expand_roles}
use root_cx.Authority.Policy.{Role, Rbac, assigned_names, granted, resolve_permissions}
use root_cx.Delegation.Grants.{
  Delegation, created, is_valid, validate_delegation_kinds, upsert, insert_row, fresh_row, create,
}
use root_cx.Delegation.Grants.Validity.{create-is_valid}
use root_cx.Delegation.ActAs.{Db, owner, act_as, assert_can_act_as, resolve_owner, grant, revoke}
use root_cx.Delegation.ActAs.Gate.{Passes, resolve_owner_safe}
use root_cx.Delegation.ActAs.Standing.{counts_otherwise, grant-revoke}
use root_cx.Delegation.Fire.{fires, Answers, assert_can_fire}
use root_cx.Delegation.Fire.Gate.{MayFire, assert_can_fire_iff}

abbrev ann : Text
ann = bytes "ann"

abbrev robot : Text
robot = bytes "robot"

abbrev kinds : Map Text
kinds = insert ann (bytes "human") (insert robot (bytes "agent") empty)

-- A delegation that a cron made.
abbrev cron_row : Delegation
cron_row = fresh_row (bytes "1") ann robot (bytes "cron") (some (bytes "nightly"))

-- The same cron in the name of another user, whom the creation replaces.
abbrev older_row : Delegation
older_row = fresh_row (bytes "0") (bytes "bob") robot (bytes "cron") (some (bytes "nightly"))

abbrev taken_over : Delegation
taken_over = record older_row { delegator_uid = ann }

abbrev act_as_row : Delegation
act_as_row = fresh_row (bytes "2") ann robot act_as none

create-is_valid_example : is_valid 5 ann robot (act_as_row ∷ taken_over ∷ []) ≡ true
unfolding create validate_delegation_kinds insert_row upsert
create-is_valid_example =
    create-is_valid kinds 5 (bytes "1") ann robot (bytes "cron") (some (bytes "nightly"))
      (act_as_row ∷ older_row ∷ []) (act_as_row ∷ taken_over ∷ []) (bytes "0")
      (λ t. cc t, (λ t. (refl, refl), tt)) refl

robot_granted : grant 5 kinds (bytes "2") ann robot [] ≡ created (act_as_row ∷ []) (bytes "2")
unfolding grant create validate_delegation_kinds insert_row upsert is_valid
robot_granted = refl

grant-revoke_example :
    (is_valid 5 ann robot (act_as_row ∷ []) ≡ true)
    × ((at later : ℕ)
        → is_valid later ann robot (revoke at ann robot (act_as_row ∷ []))
          ≡ any (counts_otherwise later ann robot) [])
grant-revoke_example =
    grant-revoke 5 kinds (bytes "2") ann robot [] (act_as_row ∷ []) (bytes "2") robot_granted

abbrev member : Role
member = record {
  name = bytes "member";
  inherits = [];
  permissions = bytes "app:notes:invoke" ∷ [];
}

abbrev rbac : Rbac
rbac = record {
  assignments = (ann, bytes "member") ∷ (robot, bytes "member") ∷ [];
  roles = member ∷ [];
}

abbrev db : Db
db = record {
  public_execution_principals = [];
  delegations = act_as_row ∷ [];
  rbac = rbac;
  kinds = kinds;
}

robot_owns : resolve_owner some 5 db ann (some robot) ≡ owner robot
unfolding resolve_owner assert_can_act_as is_valid resolve_permissions has_permission satisfies
    insert_sorted sort dedup_from dedup text_leb push_parents expand expansion expand_roles
    assigned_names granted
robot_owns = refl

robot_invokes : has_permission (resolve_permissions rbac robot).1 (bytes "app:notes:invoke") ≡ true
unfolding resolve_permissions has_permission satisfies insert_sorted sort dedup_from dedup text_leb
    push_parents expand expansion expand_roles assigned_names granted
robot_invokes = refl

resolve_owner_safe_example :
    ((ann ≡ robot) ⊎ Passes 5 db ann robot)
    × (has_permission (resolve_permissions rbac ann).1 (bytes "app:notes:invoke") ≡ true)
resolve_owner_safe_example =
    resolve_owner_safe some 5 db ann (some robot) robot (bytes "app:notes:invoke") robot_owns
      robot_invokes

abbrev answers : Answers
answers = record {
  principal_enabled = λ uid. true;
  delegations = some (cron_row ∷ []);
  tables = some rbac;
}

assert_can_fire_iff_example :
    (assert_can_fire (λ app. robot) 5 answers (some ann) (bytes "notes") ≡ fires ann)
    ↔ MayFire (λ app. robot) 5 answers (some ann) (bytes "notes") ann
assert_can_fire_iff_example =
    assert_can_fire_iff (λ app. robot) 5 answers (some ann) (bytes "notes") ann
