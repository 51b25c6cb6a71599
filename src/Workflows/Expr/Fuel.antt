-- ===== src/Workflows/Expr/Fuel.antt =====
-- core/src/extensions/workflows/expr.rs, `interpolate`: each round consumes what it finds.
use root_cx.Prelude.{
  ℕ, zero, suc, ◌≤◌, ◌<◌, ◌≡◌, refl, ap, Bool-cases, inl, inr, some, Option-cases, [], ◌∷◌, ◌++◌,
  Text, drop, length, starts_with, arith,
}
use root_cx.Prelude.Spaces.{trim}
use root_cx.Workflows.Json.{Value}
use root_cx.Workflows.Expr.{opening, closing, split_once, interpolate, eval_js, shown}

length-drop : (n : ℕ) (s : Text) → length (drop n s) ≤ length s
length-drop zero s = omega arith
length-drop (suc n) [] = omega arith
length-drop (suc n) (c ∷ s) = omega (arith, length-drop n s)

split_shorter :
    (s : Text) (p : ℕ) (pat : Text) {before after : Text}
    → split_once s (p ∷ pat) ≡ some (before, after)
    → length after < length s
unfolding split_once
split_shorter [] p pat h = cc
split_shorter (c ∷ s) p pat {before} {after} h = elim (Bool-cases (starts_with (c ∷ s) (p ∷ pat))) [
  | inl t ↦
      let same : drop (length pat) s ≡ after = cc (rw t at h) in
      omega (arith, length-drop (length pat) s, ap (λ (x : Text). length x) same)
  | inr f ↦ elim (Option-cases (split_once s (p ∷ pat))) [
    | inl missing ↦ cc (rw (f, missing) at h)
    | inr ((b, a), found) ↦
        let same : a ≡ after = cc (rw (f, found) at h) in
        omega (arith, split_shorter s p pat found, ap (λ (x : Text). length x) same)
  ]
]

module _ (engine : Text → Value) (show : Value → Text) where
  -- More fuel than the text is long changes nothing: the loop ends of itself.
  interpolate_fuel :
      (f g : ℕ) (s : Text)
      → length s ≤ f
      → length s ≤ g
      → interpolate engine show f s ≡ interpolate engine show g s
  unfolding interpolate split_once
  interpolate_fuel zero zero s hf hg = refl
  interpolate_fuel zero (suc g) [] hf hg = refl
  interpolate_fuel zero (suc g) (c ∷ s) hf hg = absurd (omega arith)
  interpolate_fuel (suc f) zero [] hf hg = refl
  interpolate_fuel (suc f) zero (c ∷ s) hf hg = absurd (omega arith)
  interpolate_fuel (suc f) (suc g) s hf hg = elim (Option-cases (split_once s opening)) [
    | inl missing ↦ rw missing
    | inr ((before, after), found) ↦ elim (Option-cases (split_once after closing)) [
      | inl unclosed ↦
          rw (found, unclosed)
            (ap (λ (t : Text). before ++ (opening ++ t))
              (interpolate_fuel f g after (omega (arith, split_shorter s _ _ found))
                (omega (arith, split_shorter s _ _ found))))
      | inr ((inner, tail), closed) ↦
          rw (found, closed)
            (ap
              (λ (t : Text). before ++ (shown engine show (eval_js engine show (trim inner)) ++ t))
              (interpolate_fuel f g tail
                (omega (arith, split_shorter s _ _ found, split_shorter after _ _ closed))
                (omega (arith, split_shorter s _ _ found, split_shorter after _ _ closed))))
    ]
  ]
