-- ===== src/Delegation/ActAs/Gate.antt =====
-- core/src/governance/delegation/act_as.rs: who may run work as another principal.
use root_cx.Prelude.{
  ℕ, ◌≡◌, refl, sym, subst, Bool, true, false, Bool-cases, inl, inr, ◌⊎◌, Option, none, some, List,
  [], ◌∷◌, Text, text_eq, text_eq_sound, any, all, and_split, All,
}
use root_cx.Authority.Permission.{has_permission}
use root_cx.Authority.Permission.Grants.{has_permission_subset}
use root_cx.Authority.Policy.{resolve_permissions}
use root_cx.Delegation.Grants.{is_valid}
use root_cx.Delegation.ActAs.{
  Db, Denied, owner, owner_unless, owner_named, assert_can_act_as, resolve_owner,
}

all-All : (P : Text → Bool) (xs : List Text) → all P xs ≡ true → All (λ x. P x ≡ true) xs
all-All P [] h = tt
all-All P (x ∷ xs) h = let (here, rest) = and_split _ _ h in (here, all-All P xs rest)

-- A principal other than the caller is not managed, is delegated to, and has no key that the caller
-- does not hold.
pub record Passes (now : ℕ) (db : Db) (human target : Text) : Type 0 where
  pub unmanaged : any (text_eq target) db.public_execution_principals ≡ false
  pub delegated : is_valid now human target db.delegations ≡ true
  pub subset :
      All
        (λ key. has_permission (resolve_permissions db.rbac human).1 key ≡ true)
        (resolve_permissions db.rbac target).1

module _ (now : ℕ) (db : Db) (human : Text) where
  assert-cases :
      (target : Text)
      → assert_can_act_as now db human target ≡ none
      → (human ≡ target) ⊎ Passes now db human target
  unfolding assert_can_act_as
  assert-cases target h = elim (Bool-cases (any (text_eq target) db.public_execution_principals)) [
    | inl managed ↦ cc (rw managed at h)
    | inr unmanaged ↦ elim (Bool-cases (text_eq human target)) [
      | inl same ↦ inl (text_eq_sound human target same)
      | inr other ↦ elim (Bool-cases (is_valid now human target db.delegations)) [
        | inr no_row ↦ cc (rw (unmanaged, other, no_row) at h)
        | inl valid ↦
            elim (Bool-cases (
              all (has_permission (resolve_permissions db.rbac human).1)
                (resolve_permissions db.rbac target).1)) [
                  | inl held ↦ inr (record {
                    unmanaged = unmanaged;
                    delegated = valid;
                    subset = all-All _ _ held;
                  })
                  | inr beyond ↦ cc (rw (unmanaged, other, valid, beyond) at h)
                ]
      ]
    ]
  ]

owner_unless-owner :
    (target : Text) (refusal : Option Denied) {who : Text}
    → owner_unless target refusal ≡ owner who
    → (target ≡ who) × (refusal ≡ none)
owner_unless-owner target none h = (cc, refl)
owner_unless-owner target (some e) h = cc

module _ (parse : Text → Option Text) (now : ℕ) (db : Db) (caller : Text) where
  owner_named-cases :
      (parsed : Option Text) {who : Text}
      → owner_named now db caller parsed ≡ owner who
      → (caller ≡ who) ⊎ Passes now db caller who
  owner_named-cases none h = cc
  owner_named-cases (some target) h =
      let (same, passed) = owner_unless-owner target (assert_can_act_as now db caller target) h in
      subst (λ who. (caller ≡ who) ⊎ Passes now db caller who) same
        (assert-cases now db caller target passed)

  owner-cases :
      (run_as : Option Text) {who : Text}
      → resolve_owner parse now db caller run_as ≡ owner who
      → (caller ≡ who) ⊎ Passes now db caller who
  unfolding resolve_owner
  owner-cases none h = inl (cc)
  owner-cases (some name) h = owner_named-cases (parse name) h

-- Whatever principal a caller names to own a unit of work: if it is accepted, it is the caller, or a
-- valid delegation leads to it and it is not a publication's, and in either case every key that the
-- owner of the work satisfies the caller satisfies too.
pub resolve_owner_safe :
    (parse : Text → Option Text) (now : ℕ) (db : Db) (caller : Text) (run_as : Option Text)
    (who required : Text)
    → resolve_owner parse now db caller run_as ≡ owner who
    → has_permission (resolve_permissions db.rbac who).1 required ≡ true
    → ((caller ≡ who) ⊎ Passes now db caller who)
      × (has_permission (resolve_permissions db.rbac caller).1 required ≡ true)
resolve_owner_safe parse now db caller run_as who required h holds =
    elim (owner-cases parse now db caller run_as h) [
      | inl same ↦ (
        inl same,
        subst (λ user. has_permission (resolve_permissions db.rbac user).1 required ≡ true)
            (sym same) holds,
      )
      | inr passes ↦ (
        inr passes,
        has_permission_subset (resolve_permissions db.rbac caller).1
            (resolve_permissions db.rbac who).1 required passes.subset holds,
      )
    ]
