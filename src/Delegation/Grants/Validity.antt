-- ===== src/Delegation/Grants/Validity.antt =====
-- core/src/governance/delegation/grants.rs: what a created delegation and a revocation do to
-- `is_valid`.
use root_cx.Prelude.{
  ℕ, ◌≡◌, refl, subst, Bool, true, not, ◌&&◌, Bool-cases, inl, inr, Option, none, some, [], ◌∷◌,
  Text, text_eq_refl, any, or_left, or_right, All, arith,
}
use root_cx.Prelude.Maps.{Map}
use root_cx.Delegation.Grants.{
  Delegation, DelegationError, Table, between, stands, unexpired, is_valid, conflicts, upsert,
  insert_row, fresh_row, created, create, create_unless, validate_delegation_kinds, revoke_row,
  revoke_where,
}

-- A standing row between the two principals.
abbrev pub counts : ℕ → Text → Text → Delegation → Bool
counts now delegator delegatee row = between delegator delegatee row && stands now row

revoke_row-counts :
    (now later : ℕ) (delegator delegatee : Text) (chosen : Delegation → Bool) (row : Delegation)
    → counts later delegator delegatee (revoke_row now chosen row)
      ≡ (not (chosen row) && counts later delegator delegatee row)
revoke_row-counts now later delegator delegatee chosen row = ground arith

-- A revocation withdraws exactly the rows that it chooses: afterwards, at any time, one principal may
-- stand in for another exactly on the strength of a row that was not chosen.
pub revoke_where-is_valid :
    (now later : ℕ) (delegator delegatee : Text) (chosen : Delegation → Bool) (rows : Table)
    → is_valid later delegator delegatee (revoke_where now chosen rows)
      ≡ any (λ row. not (chosen row) && counts later delegator delegatee row) rows
unfolding is_valid revoke_where
revoke_where-is_valid now later delegator delegatee chosen [] = refl
revoke_where-is_valid now later delegator delegatee chosen (row ∷ rows) = rw (
  revoke_row-counts now later delegator delegatee chosen row,
  revoke_where-is_valid now later delegator delegatee chosen rows,
)

-- Every row that stands in the way of a new one with this trigger is for the same delegatee.
abbrev pub Agrees : ℕ → Text → Text → Text → Delegation → Type 0
Agrees now trigger_type trigger_ref delegatee row =
    conflicts trigger_type trigger_ref row ≡ true
    → (row.delegatee_uid ≡ delegatee) × (unexpired now row.expires_at ≡ true)

pub fresh_row-counts :
    (now : ℕ) (id delegator delegatee trigger_type : Text) (trigger_ref : Option Text)
    → counts now delegator delegatee (fresh_row id delegator delegatee trigger_type trigger_ref)
      ≡ true
fresh_row-counts now id delegator delegatee trigger_type trigger_ref =
    rw (text_eq_refl delegator, text_eq_refl delegatee)

module _ (now : ℕ) (id delegator delegatee trigger_type trigger_ref : Text) where
  abbrev new_row : Delegation
  new_row = fresh_row id delegator delegatee trigger_type (some trigger_ref)

  updated-counts :
      (row : Delegation)
      → Agrees now trigger_type trigger_ref delegatee row
      → conflicts trigger_type trigger_ref row ≡ true
      → counts now delegator delegatee (record row { delegator_uid = delegator }) ≡ true
  updated-counts row agrees t =
      let (same, unexpired) = agrees t in
      rw same (ground (arith, text_eq_refl delegator, text_eq_refl delegatee))

  upsert-is_valid :
      (rows : Table)
      → All (Agrees now trigger_type trigger_ref delegatee) rows
      → is_valid now delegator delegatee (upsert new_row trigger_ref rows).0 ≡ true
  unfolding is_valid upsert
  upsert-is_valid [] agrees =
      or_left _ _ (fresh_row-counts now id delegator delegatee trigger_type (some trigger_ref))
  upsert-is_valid (row ∷ rows) agrees = elim (Bool-cases (conflicts trigger_type trigger_ref row)) [
    | inl t ↦ rw t (or_left _ _ (updated-counts row agrees.0 t))
    | inr f ↦ rw f (or_right _ _ (upsert-is_valid rows agrees.1))
  ]

pub created-rows :
    (refusal : Option DelegationError) (inserted : Table × Text) {rows : Table} {id : Text}
    → create_unless refusal inserted ≡ created rows id
    → inserted.0 ≡ rows
created-rows none inserted h = ground arith
created-rows (some e) inserted h = cc

abbrev pub AgreesAny : ℕ → Text → Option Text → Text → Delegation → Type 0
AgreesAny now trigger_type none delegatee row = Unit {0}
AgreesAny now trigger_type (some trigger_ref) delegatee row =
    Agrees now trigger_type trigger_ref delegatee row

insert_row-is_valid :
    (now : ℕ) (id delegator delegatee trigger_type : Text) (trigger_ref : Option Text)
    (rows : Table)
    → All (AgreesAny now trigger_type trigger_ref delegatee) rows
    → is_valid now delegator delegatee
        (insert_row (fresh_row id delegator delegatee trigger_type trigger_ref) trigger_ref rows).0
      ≡ true
unfolding insert_row is_valid
insert_row-is_valid now id delegator delegatee trigger_type none rows agrees =
    or_left _ _ (fresh_row-counts now id delegator delegatee trigger_type none)
insert_row-is_valid now id delegator delegatee trigger_type (some trigger_ref) rows agrees =
    upsert-is_valid now id delegator delegatee trigger_type trigger_ref rows agrees

-- A created delegation is valid at once, where each unrevoked row with the same trigger, whose
-- delegator the creation overwrites, is for the same delegatee and has not expired.
pub create-is_valid :
    (kinds : Map Text) (now : ℕ) (id delegator delegatee trigger_type : Text)
    (trigger_ref : Option Text) (rows after : Table) (made : Text)
    → All (AgreesAny now trigger_type trigger_ref delegatee) rows
    → create kinds id delegator delegatee trigger_type trigger_ref rows ≡ created after made
    → is_valid now delegator delegatee after ≡ true
unfolding create
create-is_valid kinds now id delegator delegatee trigger_type trigger_ref rows after made agrees h =
    subst (λ (t : Table). is_valid now delegator delegatee t ≡ true)
      (created-rows (validate_delegation_kinds kinds delegator delegatee trigger_type) _ h)
      (insert_row-is_valid now id delegator delegatee trigger_type trigger_ref rows agrees)
