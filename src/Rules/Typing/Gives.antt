-- ===== src/Rules/Typing/Gives.antt =====
-- core/src/rules/typing.rs: what a step of the checker gives, and what it keeps of a tree.
use root_cx.Prelude.{Bool, true, false, ◌≡◌, refl, List, Text, if◌then◌else◌}
use root_cx.Rules.Ast.{WellCalled, Expr, Exprs, fields, fields_each}
use root_cx.Rules.Typing.Types.{Refusal, Checked, ok, err, ◌>>=◌, expect}
use root_cx.Rules.Typing.Check.{Typed}

-- The given predicate of a result, a refusal, but no panic.
pub data Gives {ℓ} {A : Type ℓ} (P : A → Type 0) : Checked A → Type ℓ where
  gives : {a : A} → P a → Gives P (ok a)
  refuses : {e : Refusal} → Gives P (err e)

pub Gives-bind {ℓ κ} :
    {A : Type ℓ} {B : Type κ} {P : A → Type 0} {Q : B → Type 0} {m : Checked A} (f : A → Checked B)
    → Gives P m
    → ((a : A) → P a → Gives Q (f a))
    → Gives Q (m >>= f)
Gives-bind f (gives h) k = k _ h
Gives-bind f refuses k = refuses

pub Gives-expect {κ} :
    {B : Type κ} {Q : B → Type 0} (test : Bool) (e : Refusal) {m : Checked B}
    → Gives Q m
    → Gives Q (expect test e >>= λ _. m)
Gives-expect true e h = h
Gives-expect false e h = refuses

pub Gives-if {κ} :
    {B : Type κ} {Q : B → Type 0} (test : Bool) {m n : Checked B}
    → (test ≡ true → Gives Q m)
    → Gives Q n
    → Gives Q (if test then m else n)
Gives-if true h k = h refl
Gives-if false h k = k

-- The second tree reads the fields of the first, in their order.
abbrev pub SameFields : Expr → Expr → Type 0
SameFields e e' = (out : List Text) → fields e' out ≡ fields e out

abbrev pub SameEach : Exprs → Exprs → Type 0
SameEach es es' = (out : List Text) → fields_each es' out ≡ fields_each es out

-- The same fields, and calls that have their arguments.
abbrev pub Resolves : Expr → Expr → Type 0
Resolves e e' = SameFields e e' × WellCalled e'

abbrev pub Keeps : Expr → Typed → Type 0
Keeps e c = Resolves e c.0
