-- ===== src/Delegation/ActAs/Standing.antt =====
-- core/src/governance/delegation/act_as.rs: granting and withdrawing a standing delegation.
use root_cx.Prelude.{
  ℕ, ◌≡◌, ◌∙◌, Bool, true, false, not, ◌&&◌, Bool-cases, inl, inr, ◌⊎◌, or_left, none, [], ◌∷◌,
  Text, text_eq, text_eq_refl, any, arith,
}
use root_cx.Prelude.Maps.{Map}
use root_cx.Delegation.Grants.{
  Delegation, Table, created, is_valid, create, validate_delegation_kinds, insert_row, fresh_row,
  between,
}
use root_cx.Delegation.Grants.Validity.{
  counts, fresh_row-counts, revoke_where-is_valid, created-rows,
}
use root_cx.Delegation.ActAs.{act_as, grant, revoke}

-- A standing row of another trigger.
abbrev pub counts_otherwise : ℕ → Text → Text → Delegation → Bool
counts_otherwise now human sa row =
    not (between human sa row && text_eq row.trigger_type act_as) && counts now human sa row

granted_row-otherwise :
    (now : ℕ) (id human sa : Text)
    → counts_otherwise now human sa (fresh_row id human sa act_as none) ≡ false
granted_row-otherwise now id human sa = rw (text_eq_refl human, text_eq_refl sa)

module _ (now : ℕ) (kinds : Map Text) (id human sa : Text) (rows : Table) where
  grant-cases :
      {after : Table} {made : Text}
      → grant now kinds id human sa rows ≡ created after made
      → ((is_valid now human sa rows ≡ true) × (rows ≡ after))
        ⊎ (fresh_row id human sa act_as none ∷ rows ≡ after)
  unfolding grant create insert_row
  grant-cases h = elim (Bool-cases (is_valid now human sa rows)) [
    | inl valid ↦
        let same : created rows [] ≡ created _ _ = rw valid at h in inl (valid, ground arith)
    | inr new ↦ inr (
        created-rows (validate_delegation_kinds kinds human sa act_as)
          (fresh_row id human sa act_as none ∷ rows, id) (rw new at h))
  ]

  granted_valid :
      {after : Table} {made : Text}
      → grant now kinds id human sa rows ≡ created after made
      → is_valid now human sa after ≡ true
  unfolding is_valid
  granted_valid h = elim (grant-cases h) [
    | inl (valid, same) ↦ rw (← same) valid
    | inr same ↦ rw (← same) (or_left _ _ (fresh_row-counts now id human sa act_as none))
  ]

  granted_otherwise :
      (later : ℕ) {after : Table} {made : Text}
      → grant now kinds id human sa rows ≡ created after made
      → any (counts_otherwise later human sa) after ≡ any (counts_otherwise later human sa) rows
  granted_otherwise later h = elim (grant-cases h) [
    | inl (valid, same) ↦ rw (← same)
    | inr same ↦ rw (← same) (rw (granted_row-otherwise later id human sa))
  ]

-- A granted act-as delegation is valid at once. Once it is withdrawn, whenever that is and however
-- often it was granted before, what is left at any later time is exactly what the rows before the
-- grant give through triggers other than act-as.
pub grant-revoke :
    (now : ℕ) (kinds : Map Text) (id human sa : Text) (rows after : Table) (made : Text)
    → grant now kinds id human sa rows ≡ created after made
    → (is_valid now human sa after ≡ true)
      × ((at later : ℕ)
          → is_valid later human sa (revoke at human sa after)
            ≡ any (counts_otherwise later human sa) rows)
unfolding revoke
grant-revoke now kinds id human sa rows after made h = (
  granted_valid now kinds id human sa rows h,
  λ at later.
      revoke_where-is_valid at later human sa _ after
      ∙ granted_otherwise now kinds id human sa rows later h,
)
