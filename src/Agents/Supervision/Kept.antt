-- ===== src/Agents/Supervision/Kept.antt =====
-- core/src/extensions/agents/supervision.rs, `Vec::retain`: what is left of a record of calls.
use root_cx.Prelude.{
  ℕ, ◌≤◌, ◌≡◌, arith, Bool, Bool-cases, true, false, inl, inr, List, [], ◌∷◌, length, keep,
}

-- The times of a record for which `P` holds, each as often as it is there and in the same order.
pub data Kept (P : ℕ → Type 0) : List ℕ → List ℕ → Type 0 where
  empty : Kept P [] []
  stays : {t : ℕ} {ts left : List ℕ} → P t → Kept P ts left → Kept P (t ∷ ts) (t ∷ left)
  goes : {t : ℕ} {ts left : List ℕ} → (¬ P t) → Kept P ts left → Kept P (t ∷ ts) left

pub length-Kept : {P : ℕ → Type 0} {ts left : List ℕ} → Kept P ts left → length left ≤ length ts
length-Kept empty = omega arith
length-Kept (stays h rest) = omega (arith, length-Kept rest)
length-Kept (goes h rest) = omega (arith, length-Kept rest)

pub Kept-keep :
    (P : ℕ → Type 0) (p : ℕ → Bool)
    → ((t : ℕ) → p t ≡ true → P t)
    → ((t : ℕ) → p t ≡ false → ¬ P t)
    → (ts : List ℕ) → Kept P ts (keep p ts)
Kept-keep P p yes_for no_for [] = empty
Kept-keep P p yes_for no_for (t ∷ ts) = elim (Bool-cases (p t)) [
  | inl h ↦ rw h (stays (yes_for t h) (Kept-keep P p yes_for no_for ts))
  | inr h ↦ rw h (goes (no_for t h) (Kept-keep P p yes_for no_for ts))
]

-- What is kept of what was kept.
pub Kept-trans :
    {P Q : ℕ → Type 0} {ts mid left : List ℕ}
    → Kept P ts mid
    → Kept Q mid left
    → Kept (λ t. P t × Q t) ts left
Kept-trans empty empty = empty
Kept-trans (stays p first) (stays q second) = stays (p, q) (Kept-trans first second)
Kept-trans (stays p first) (goes q second) = goes (λ both. q both.1) (Kept-trans first second)
Kept-trans (goes p first) second = goes (λ both. p both.0) (Kept-trans first second)

pub Kept-same :
    {P Q : ℕ → Type 0} {ts left : List ℕ}
    → ((t : ℕ) → P t → Q t)
    → ((t : ℕ) → Q t → P t)
    → Kept P ts left
    → Kept Q ts left
Kept-same to back empty = empty
Kept-same to back (stays {t} p rest) = stays (to t p) (Kept-same to back rest)
Kept-same to back (goes {t} p rest) = goes (λ q. p (back t q)) (Kept-same to back rest)

pub Kept-all : {P : ℕ → Type 0} → ((t : ℕ) → P t) → (ts : List ℕ) → Kept P ts ts
Kept-all all [] = empty
Kept-all all (t ∷ ts) = stays (all t) (Kept-all all ts)
