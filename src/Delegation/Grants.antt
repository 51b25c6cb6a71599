-- ===== src/Delegation/Grants.antt =====
-- core/src/governance/delegation/grants.rs: the rows of rootcx_system.delegations, and the statements
-- that read and write them. Time is the database's `now()`; a fresh id is an argument.
use root_cx.Prelude.{
  ℕ, ◌≡◌, Bool, true, false, ◌&&◌, ◌||◌, Option, none, some, List, [], ◌∷◌, map, Text, bytes,
  text_eq, any, ltb, if◌then◌else◌,
}
use root_cx.Prelude.Maps.{Map}
pub mod Validity

pub record Delegation : Type 0 where
  pub id : Text
  pub delegator_uid : Text
  pub delegatee_uid : Text
  pub trigger_type : Text
  pub trigger_ref : Option Text
  pub expires_at : Option ℕ
  pub revoked_at : Option ℕ

abbrev pub Table : Type 0
Table = List Delegation

abbrev pub is_null {ℓ} : {A : Type ℓ} → Option A → Bool
is_null none = true
is_null (some _) = false

-- An equation of SQL with a column that may be NULL.
abbrev pub column_eq : Option Text → Text → Bool
column_eq none value = false
column_eq (some found) value = text_eq found value

abbrev pub unexpired : ℕ → Option ℕ → Bool
unexpired now none = true
unexpired now (some expiry) = ltb now expiry

abbrev pub between : Text → Text → Delegation → Bool
between delegator delegatee row =
    text_eq row.delegator_uid delegator && text_eq row.delegatee_uid delegatee

-- `revoked_at IS NULL AND (expires_at IS NULL OR expires_at > now())`
abbrev pub stands : ℕ → Delegation → Bool
stands now row = is_null row.revoked_at && unexpired now row.expires_at

unfoldable pub is_valid : ℕ → Text → Text → Table → Bool
is_valid now delegator delegatee rows =
    any (λ row. between delegator delegatee row && stands now row) rows

pub data DelegationError : Type 0 where
  human_delegatee : DelegationError
  agent_delegator : DelegationError

abbrev pub kind_is : Map Text → Text → Text → Bool
kind_is kinds user kind = column_eq (kinds user) kind

-- The kinds are those of rootcx_system.users.
unfoldable pub validate_delegation_kinds : Map Text → Text → Text → Text → Option DelegationError
validate_delegation_kinds kinds delegator delegatee trigger_type =
    if kind_is kinds delegatee (bytes "human")
    then some human_delegatee
    else if kind_is kinds delegator (bytes "agent") && text_eq trigger_type (bytes "act_as")
    then some agent_delegator
    else none

-- The row that the unique index on (trigger_type, trigger_ref) brings into conflict.
abbrev pub conflicts : Text → Text → Delegation → Bool
conflicts trigger_type trigger_ref row =
    text_eq row.trigger_type trigger_type
    && (column_eq row.trigger_ref trigger_ref && is_null row.revoked_at)

-- `INSERT .. ON CONFLICT .. DO UPDATE SET delegator_uid .. RETURNING id`: the row in conflict gets the
-- new delegator and keeps its delegatee.
unfoldable pub upsert : Delegation → Text → Table → Table × Text
upsert new trigger_ref [] = (new ∷ [], new.id)
upsert new trigger_ref (row ∷ rows) =
    let (rest, id) = upsert new trigger_ref rows in
    if conflicts new.trigger_type trigger_ref row
    then (record row { delegator_uid = new.delegator_uid } ∷ rows, row.id)
    else (row ∷ rest, id)

-- A row without a reference is never in conflict.
unfoldable pub insert_row : Delegation → Option Text → Table → Table × Text
insert_row new none rows = (new ∷ rows, new.id)
insert_row new (some trigger_ref) rows = upsert new trigger_ref rows

abbrev pub fresh_row : Text → Text → Text → Text → Option Text → Delegation
fresh_row id delegator delegatee trigger_type trigger_ref = record {
  id = id;
  delegator_uid = delegator;
  delegatee_uid = delegatee;
  trigger_type = trigger_type;
  trigger_ref = trigger_ref;
  expires_at = none;
  revoked_at = none;
}

pub data Created : Type 0 where
  created : Table → Text → Created
  refused : DelegationError → Created

abbrev pub create_unless : Option DelegationError → Table × Text → Created
create_unless (some e) (rows, id) = refused e
create_unless none (rows, id) = created rows id

unfoldable pub create : Map Text → Text → Text → Text → Text → Option Text → Table → Created
create kinds id delegator delegatee trigger_type trigger_ref rows =
    create_unless (validate_delegation_kinds kinds delegator delegatee trigger_type)
      (insert_row (fresh_row id delegator delegatee trigger_type trigger_ref) trigger_ref rows)

-- `UPDATE .. SET revoked_at = now() WHERE .. AND revoked_at IS NULL`
abbrev pub revoke_row : ℕ → (Delegation → Bool) → Delegation → Delegation
revoke_row now chosen row =
    if chosen row && is_null row.revoked_at then record row { revoked_at = some now } else row

unfoldable pub revoke_where : ℕ → (Delegation → Bool) → Table → Table
revoke_where now chosen rows = map (revoke_row now chosen) rows

unfoldable pub revoke : ℕ → Text → Table → Table
unfolding revoke_where
revoke now delegation_id = revoke_where now (λ row. text_eq row.id delegation_id)

unfoldable pub revoke_by_trigger : ℕ → Text → Text → Table → Table
unfolding revoke_where
revoke_by_trigger now trigger_type trigger_ref =
    revoke_where now
      (λ row. text_eq row.trigger_type trigger_type && column_eq row.trigger_ref trigger_ref)
