-- ===== src/Delegation/Fire/Gate.antt =====
-- core/src/governance/triggers/fire_gate.rs: what the gate lets through.
use root_cx.Prelude.{ℕ, ◌≡◌, ◌↔◌, refl, true, Bool-cases, inl, inr, Option, none, some, Text}
use root_cx.Authority.Policy.{Rbac}
use root_cx.Authority.Database
use root_cx.Delegation.Grants.{Table, is_valid}
use root_cx.Delegation.Fire.{
  Fired, fires, Answers, invoke_perm, by_permission, by_delegation, delegated, assert_can_fire,
}

-- The four conditions, each on what was read.
pub record MayFire (agent : Text → Text) (now : ℕ) (db : Answers) (owner : Option Text)
    (app_id uid : Text) : Type 0 where
  pub owned : owner ≡ some uid
  pub enabled : db.principal_enabled uid ≡ true
  pub rows : Table
  pub rows_read : db.delegations ≡ some rows
  pub delegates : is_valid now uid (agent app_id) rows ≡ true
  pub rbac : Rbac
  pub rbac_read : db.tables ≡ some rbac
  pub invokes : Database.has_permission rbac (some uid) (invoke_perm app_id) ≡ true

module _ (uid app_id : Text) where
  by_permission-fires :
      (tables : Option Rbac) {who : Text}
      → by_permission uid (invoke_perm app_id) tables ≡ fires who
      → (uid ≡ who)
        × ((rbac : Rbac) × (tables ≡ some rbac)
            × (Database.has_permission rbac (some uid) (invoke_perm app_id) ≡ true))
  by_permission-fires none h = cc
  by_permission-fires (some rbac) h =
      elim (Bool-cases (Database.has_permission rbac (some uid) (invoke_perm app_id))) [
        | inl t ↦ (cc (rw t at h), (rbac, refl, t))
        | inr f ↦ cc (rw f at h)
      ]

by_delegation-fires :
    (now : ℕ) (delegator agent : Text) (read : Option Table) (next : Fired) {who : Text}
    → by_delegation (delegated now delegator agent read) next ≡ fires who
    → (rows : Table) × (read ≡ some rows)
      × (is_valid now delegator agent rows ≡ true)
      × (next ≡ fires who)
by_delegation-fires now delegator agent none next h = cc
by_delegation-fires now delegator agent (some rows) next h =
    elim (Bool-cases (is_valid now delegator agent rows)) [
      | inl t ↦ (rows, refl, t, rw t at h)
      | inr f ↦ cc (rw f at h)
    ]

module _ (agent : Text → Text) (now : ℕ) (db : Answers) (app_id uid : Text) where
  fires-MayFire :
      (owner : Option Text)
      → assert_can_fire agent now db owner app_id ≡ fires uid
      → MayFire agent now db owner app_id uid
  unfolding assert_can_fire
  fires-MayFire none h = cc
  fires-MayFire (some delegator) h = elim (Bool-cases (db.principal_enabled delegator)) [
    | inl t ↦
        let (rows, read, valid, rest) =
          by_delegation-fires now delegator (agent app_id) db.delegations _ (rw t at h) in
        let (same, found) = by_permission-fires delegator app_id db.tables rest in
        let (rbac, seen, holds) = found in
        record {
          owned = rw same;
          enabled = rw (← same) t;
          rows = rows;
          rows_read = read;
          delegates = rw (← same) valid;
          rbac = rbac;
          rbac_read = seen;
          invokes = rw (← same) holds;
        }
    | inr f ↦ cc (rw f at h)
  ]

  MayFire-fires :
      (owner : Option Text)
      → MayFire agent now db owner app_id uid
      → assert_can_fire agent now db owner app_id ≡ fires uid
  unfolding assert_can_fire
  MayFire-fires owner m =
      rw m.owned (rw (m.enabled, m.rows_read, m.rbac_read) (rw (m.delegates, m.invokes)))

-- A trigger fires, for a principal, exactly when that principal is its owner and is enabled, has a
-- valid delegation to the app's agent, and holds the app's `invoke` key in the tables that the
-- database reads. In all other cases, a read that fails included, it is refused.
pub assert_can_fire_iff :
    (agent : Text → Text) (now : ℕ) (db : Answers) (owner : Option Text) (app_id uid : Text)
    → (assert_can_fire agent now db owner app_id ≡ fires uid)
      ↔ MayFire agent now db owner app_id uid
assert_can_fire_iff agent now db owner app_id uid =
    (fires-MayFire agent now db app_id uid owner, MayFire-fires agent now db app_id uid owner)
