-- ===== src/Authority/Database/Tables.antt =====
-- core/src/governance/authority/policy.rs: the maps that are collected from the rows of rbac_roles, as
-- searches of the rows.
use root_cx.Prelude.{
  ◌≡◌, refl, subst, ◌∙◌, inl, inr, true, false, Bool-cases, Option, none, some, List, [], ◌∷◌, Memᴰ,
  Text, text_eq, text_eq_refl, text_eq_sound, any, any_of_mem, if◌then◌else◌, arith,
}
use root_cx.Prelude.Maps.{Map, insert}
use root_cx.Authority.Policy.{Role, collect}

-- The name is the primary key of rbac_roles.
abbrev pub IsKeyed : List Role → Type 0
IsKeyed [] = Unit
IsKeyed (row ∷ rows) =
    (any (λ (other : Role). text_eq row.name other.name) rows ≡ false) × IsKeyed rows

abbrev pub or_else : Option (List Text) → Option (List Text) → Option (List Text)
or_else none other = other
or_else (some found) other = some found

module _ (column : Role → List Text) where
  -- The column of the first row of a name.
  unfoldable pub column_of : List Role → Text → Option (List Text)
  column_of [] role = none
  column_of (row ∷ rows) role =
      let rest = column_of rows role in if text_eq row.name role then some (column row) else rest

  column_of_absent :
      (rows : List Role) (name : Text)
      → any (λ (other : Role). text_eq name other.name) rows ≡ false
      → column_of rows name ≡ none
  unfolding column_of
  column_of_absent [] name h = refl
  column_of_absent (row ∷ rows) name h =
      ground (arith, column_of_absent rows name, text_eq_sound row.name name, text_eq_refl name)

  pub column_of_mem :
      (rows : List Role) {row : Role}
      → IsKeyed rows
      → Memᴰ row rows
      → column_of rows row.name ≡ some (column row)
  unfolding column_of
  column_of_mem [] k m = elim m [ ]
  column_of_mem (r ∷ rows) k (Memᴰ.head e) = rw e (rw (text_eq_refl r.name))
  column_of_mem (r ∷ rows) {row} k (Memᴰ.tail m) = elim (Bool-cases (text_eq r.name row.name)) [
    | inl t ↦
        let found = any_of_mem (λ (other : Role). text_eq r.name other.name) rows m t in
        cc (found, k.0)
    | inr f ↦ rw f (column_of_mem rows k.1 m)
  ]

  pub column_of_found :
      (rows : List Role) (role : Text) {keys : List Text}
      → column_of rows role ≡ some keys
      → (row : Role) × Memᴰ row rows × (row.name ≡ role) × (column row ≡ keys)
  unfolding column_of
  column_of_found [] role h = cc
  column_of_found (row ∷ rows) role h = elim (Bool-cases (text_eq row.name role)) [
    | inl t ↦ (row, Memᴰ.head refl, text_eq_sound row.name role t, cc (rw t at h))
    | inr f ↦
        let (found, m, e, c) = column_of_found rows role (rw f at h) in (found, Memᴰ.tail m, e, c)
  ]

  or_else-insert :
      (name role : Text) (value : List Text) (found : Map (List Text)) (rest : Option (List Text))
      → (text_eq name role ≡ true → rest ≡ none)
      → or_else rest (insert name value found role)
        ≡ or_else (if text_eq name role then some value else rest) (found role)
  or_else-insert name role value found rest only = elim (Bool-cases (text_eq name role)) [
    | inl t ↦ rw (t, only t)
    | inr f ↦ rw f
  ]

  pub collect_eq :
      (rows : List Role) (found : Map (List Text)) (role : Text)
      → IsKeyed rows
      → collect column rows found role ≡ or_else (column_of rows role) (found role)
  unfolding column_of
  collect_eq [] found role k = refl
  collect_eq (row ∷ rows) found role k =
      collect_eq rows (insert row.name (column row) found) role k.1
      ∙ or_else-insert row.name role (column row) found (column_of rows role) (λ t.
        subst (λ (x : Text). column_of rows x ≡ none) (text_eq_sound row.name role t)
          (column_of_absent rows row.name k.0))
