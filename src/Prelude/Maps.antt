-- ===== src/Prelude/Maps.antt =====
-- A `HashMap` with text keys, as the function from keys to entries that it is: its order is not used.
use mathlib.Core.Path.{◌≡◌}
use mathlib.Core.Bool.{Bool, true, false}
use mathlib.Core.Option.{Option, none, some}
use native.Mathlib.Omega.{arith}
use root_cx.Prelude.Tests.{if◌then◌else◌}
use root_cx.Prelude.Bytes.{Text, text_eq, text_eq_refl}

abbrev pub Map {ℓ} : Type ℓ → Type ℓ
Map V = Text → Option V

module _ {ℓ} {V : Type ℓ} where
  abbrev pub empty : Map V
  empty key = none

  abbrev pub insert : Text → V → Map V → Map V
  insert key value entries other = if text_eq key other then some value else entries other

  abbrev pub remove : Text → Map V → Map V
  remove key entries other = if text_eq key other then none else entries other

  -- An entry is kept if it passes the test.
  abbrev pub kept : (V → Bool) → Option V → Option V
  kept p none = none
  kept p (some value) = if p value then some value else none

  abbrev pub retain : (V → Bool) → Map V → Map V
  retain p entries key = kept p (entries key)

  pub insert_here :
      (key : Text) (value : V) (entries : Map V) → insert key value entries key ≡ some value
  insert_here key value entries = ground (arith, text_eq_refl key)

  pub insert_other :
      (key other : Text) (value : V) (entries : Map V)
      → text_eq key other ≡ false
      → insert key value entries other ≡ entries other
  insert_other key other value entries h = ground arith

  pub remove_here : (key : Text) (entries : Map V) → remove key entries key ≡ none
  remove_here key entries = ground (arith, text_eq_refl key)

  pub remove_other :
      (key other : Text) (entries : Map V)
      → text_eq key other ≡ false
      → remove key entries other ≡ entries other
  remove_other key other entries h = ground arith

  pub retain-none :
      (p : V → Bool) (entries : Map V) (key : Text)
      → entries key ≡ none
      → retain p entries key ≡ none
  retain-none p entries key h = ground arith

  pub retain-some :
      (p : V → Bool) (entries : Map V) (key : Text) (value : V)
      → entries key ≡ some value
      → p value ≡ true
      → retain p entries key ≡ some value
  retain-some p entries key value h t = ground arith
