-- ===== src/Prelude/Sets.antt =====
-- A set of texts as the list of its elements.
use mathlib.Core.Path.{◌≡◌, sym, subst}
use mathlib.Core.Bool.{Bool, true, false}
use mathlib.Core.Logic.{inl, inr}
use mathlib.Core.List.{List, [], ◌∷◌, Memᴰ}
use root_cx.Prelude.Tests.{Bool-cases}
use root_cx.Prelude.Lists.{any, any_witness, any_of_mem}
use root_cx.Prelude.Bytes.{Text, text_eq, text_eq_refl, text_eq_sound}

abbrev pub contains : List Text → Text → Bool
contains set x = any (text_eq x) set

pub contains_sound : (set : List Text) (x : Text) → contains set x ≡ true → Memᴰ x set
contains_sound set x h =
    let (y, m, e) = any_witness (text_eq x) set h in
    subst (λ z. Memᴰ z set) (sym (text_eq_sound x y e)) m

pub contains_of_mem : (set : List Text) (x : Text) → Memᴰ x set → contains set x ≡ true
contains_of_mem set x m = any_of_mem (text_eq x) set m (text_eq_refl x)

-- What is not contained is no element.
pub not_mem : (set : List Text) (x : Text) → contains set x ≡ false → ¬ Memᴰ x set
not_mem set x h m = let found = contains_of_mem set x m in cc

abbrev pub Distinct : List Text → Type 0
Distinct [] = Unit
Distinct (x ∷ xs) = (contains xs x ≡ false) × Distinct xs

pub contains_absent : (set : List Text) (x : Text) → ¬ Memᴰ x set → contains set x ≡ false
contains_absent set x h = elim (Bool-cases (contains set x)) [
  | inl t ↦ absurd (h (contains_sound set x t))
  | inr f ↦ f
]
