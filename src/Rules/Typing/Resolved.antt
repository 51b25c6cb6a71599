-- ===== src/Rules/Typing/Resolved.antt =====
-- core/src/rules/typing.rs, `Checker::check`: what the resolved tree keeps of the tree as written, and
-- why neither `unreachable!` nor an index out of range is met.
use root_cx.Prelude.{
  Bool, ◌≡◌, ◌∙◌, ◌⊎◌, inl, inr, refl, arith, Option, none, some, List, [], ◌∷◌, Text,
}
use root_cx.Rules.Ast.{
  WellCalled, EachCalled, Expr, Exprs, nil, cons, Func, fields, fields_each, exprs_length, arity,
}
use root_cx.Rules.Pattern
use root_cx.Rules.Pattern.{Verdict, admitted, refused}
use root_cx.Rules.Typing.Types.{Ty, Field, Fields, lookup, Refusal, Checked, ok, err, Spellings}
use root_cx.Rules.Typing.Check.{
  Typed, untyped, coalesce, simple, call, of_field, between_of, item_of, in_of, boolean, check,
  check_items, check_args,
}
use root_cx.Rules.Typing.Gives.{
  Gives, gives, refuses, Gives-bind, Gives-expect, SameFields, Resolves, Keeps,
}
use root_cx.Rules.Typing.Steps.{unify-kept, binary-kept}

module _ (known : Fields) (spell : Spellings) (parse_regex : Text → Option Pattern.Ast) where
  -- The checked arguments of a call: their fields, and how many they are.
  abbrev KeepsAll : Exprs → List Typed → Type 0
  KeepsAll es args =
      ((out : List Text)
        → fields_each (untyped known spell parse_regex args) out ≡ fields_each es out)
      × (exprs_length (untyped known spell parse_regex args) ≡ exprs_length es)
      × EachCalled (untyped known spell parse_regex args)

  abbrev KeepsItems : Exprs → Exprs → Type 0
  KeepsItems es es' =
      ((out : List Text) → fields_each es' out ≡ fields_each es out) × EachCalled es'

  simple-kept :
      (func : Func) (test : Bool) (given : Ty) (es : Exprs) (args : List Typed) (ty : Ty)
      → exprs_length es ≡ arity func
      → KeepsAll es args
      → Gives (Keeps (Expr.call func es)) (simple known spell parse_regex func test given args ty)
  unfolding fields
  simple-kept func test given es args ty n h = Gives-expect _ _ (gives (h.0, (h.1 ∙ n, h.2)))

  coalesce-kept :
      (es : Exprs) (first second : Typed)
      → KeepsAll es (first ∷ second ∷ [])
      → Gives
          (Keeps (Expr.call Func.coalesce es))
          (coalesce known spell parse_regex first (second ∷ []))
  unfolding fields
  coalesce-kept es first second h = Gives-expect _ _ (
      Gives-bind _
        (unify-kept known spell parse_regex first.1 second.0 second ((λ out. refl), h.2.1.0))
        λ met kept.
          gives ((λ out. cc (kept.0 (fields first.0 out), h.0 out)), (refl, (h.2.0, (kept.1, tt)))))

  0≢arity : (func : Func) → 0 ≡ arity func → ⊥
  0≢arity func h = ground arith

  call-kept :
      (func : Func) (es : Exprs) (args : List Typed)
      → exprs_length es ≡ arity func
      → KeepsAll es args
      → Gives (Keeps (Expr.call func es)) (call known spell parse_regex func args)
  unfolding call
  call-kept func es [] n h = elim (0≢arity func (rw h.1 n)) [ ]
  call-kept Func.coalesce es (a ∷ []) n h = ground arith
  call-kept Func.coalesce es (a ∷ b ∷ []) n h = coalesce-kept es a b h
  call-kept Func.coalesce es (a ∷ b ∷ c ∷ more) n h = ground arith
  call-kept func es (a ∷ more) n h = simple-kept _ _ _ es (a ∷ more) _ n h

  of_field-kept :
      (name : Text) (found : Option Field)
      → Gives (Keeps (Expr.field name)) (of_field known spell parse_regex name found)
  of_field-kept name (some field) = gives ((λ out. refl), tt)
  of_field-kept name none = refuses

  between-kept :
      (negated : Bool) (e lo hi : Expr) (c : Typed) {m n : Checked Typed}
      → Keeps e c
      → Gives (Keeps lo) m
      → Gives (Keeps hi) n
      → Gives
          (Keeps (Expr.between e lo hi negated))
          (between_of known spell parse_regex negated m n c)
  unfolding fields
  between-kept negated e lo hi c hc hm hn = Gives-expect _ _ (
      Gives-bind _ (Gives-bind _ hm λ a ha. unify-kept known spell parse_regex c.1 lo a ha)
        λ lo' hlo.
          Gives-bind _ (Gives-bind _ hn λ b hb. unify-kept known spell parse_regex c.1 hi b hb)
            λ hi' hhi. gives (
              (λ out. cc (hhi.0 (fields lo'.0 (fields c.0 out)), hlo.0 (fields c.0 out), hc.0 out)),
              (hc.1, hlo.1, hhi.1),
            ))

  item-kept :
      (ty : Ty) (item : Expr) (rest : Exprs) {m : Checked Typed} {n : Checked Exprs}
      → Gives (Keeps item) m
      → Gives (KeepsItems rest) n
      → Gives (KeepsItems (cons item rest)) (item_of known spell parse_regex ty item m n)
  unfolding fields
  item-kept ty item rest hm hn = Gives-expect _ _ (
      Gives-bind _ (Gives-bind _ hm λ a ha. unify-kept known spell parse_regex ty item a ha)
        λ item' hi.
          Gives-bind _ hn
            λ rest' hr. gives ((λ out. cc (hr.0 (fields item'.0 out), hi.0 out)), (hi.1, hr.1)))

  in-kept :
      (negated : Bool) (e : Expr) (list : Exprs) (c : Typed) (items : Ty → Checked Exprs)
      → Keeps e c
      → ((ty : Ty) → Gives (KeepsItems list) (items ty))
      → Gives (Keeps (Expr.in_list e list negated)) (in_of known spell parse_regex negated items c)
  unfolding fields
  in-kept negated e list c items hc hi = Gives-expect _ _ (
      Gives-bind _ (hi c.1)
        λ list' hl. gives ((λ out. cc (hl.0 (fields c.0 out), hc.0 out)), (hc.1, hl.1)))

  mutual
    unfolding check check_items check_args fields fields_each

    check-kept : (e : Expr) → WellCalled e → Gives (Keeps e) (check known spell parse_regex e)
    check-kept (Expr.field name) w = of_field-kept name (lookup name known)
    check-kept (Expr.text value) w = gives ((λ out. refl), tt)
    check-kept (Expr.number value) w = gives ((λ out. refl), tt)
    check-kept (Expr.bool value) w = gives ((λ out. refl), tt)
    check-kept (Expr.interval amount unit) w = gives ((λ out. refl), tt)
    check-kept (Expr.typed ty value) w = gives ((λ out. refl), tt)
    check-kept (Expr.negation e) w = Gives-bind _ (check-kept e w) λ c h. Gives-expect _ _ (gives h)
    check-kept (Expr.neg e) w = Gives-bind _ (check-kept e w) λ c h. Gives-expect _ _ (gives h)
    check-kept (Expr.is_null e negated) w = Gives-bind _ (check-kept e w) λ c h. gives h
    check-kept (Expr.binary op l r) w =
        let right = check-kept r w.1 in
        Gives-bind _ (check-kept l w.0) λ c h. binary-kept known spell parse_regex op l r c h right
    check-kept (Expr.between e lo hi negated) w =
        let low = check-kept lo w.1 in
        let high = check-kept hi w.2 in
        Gives-bind _ (check-kept e w.0) λ c h. between-kept negated e lo hi c h low high
    check-kept (Expr.in_list e list negated) w =
        let items = check_items-kept list w.1 in
        Gives-bind _ (check-kept e w.0)
          λ c h. in-kept negated e list c (check_items known spell parse_regex list) h items
    check-kept (Expr.call func args) w =
        Gives-bind _ (check_args-kept args w.1) λ checked h. call-kept func args checked w.0 h
    check-kept (Expr.array_within name values) w = gives ((λ out. refl), tt)
    check-kept (Expr.finite e numeric) w = Gives-bind _ (check-kept e w) λ c h. gives h

    check_items-kept :
        (list : Exprs)
        → EachCalled list
        → (ty : Ty) → Gives (KeepsItems list) (check_items known spell parse_regex list ty)
    check_items-kept nil w ty = gives ((λ out. refl), tt)
    check_items-kept (cons item rest) w ty =
        item-kept ty item rest (check-kept item w.0) (check_items-kept rest w.1 ty)

    check_args-kept :
        (args : Exprs)
        → EachCalled args
        → Gives (KeepsAll args) (check_args known spell parse_regex args)
    check_args-kept nil w = gives ((λ out. refl), refl, tt)
    check_args-kept (cons arg args) w =
        let rest = check_args-kept args w.1 in
        Gives-bind _ (check-kept arg w.0) λ a ha. Gives-bind _ rest λ more hr.
          gives {a = a ∷ more}
            ((λ out. cc (hr.0 (fields a.0 out), ha.0 out)), cc (hr.1), (ha.1, hr.2))

  pub boolean-kept :
      (e : Expr) → WellCalled e → Gives (Resolves e) (boolean known spell parse_regex e)
  unfolding boolean
  boolean-kept e w = Gives-bind _ (check-kept e w) λ c h. Gives-expect _ _ (gives h)

  -- Where each call has the arguments that its function takes, type resolution does not panic: it
  -- refuses the tree, or gives a typed tree that reads the same fields in the same order, and in which
  -- each call has its arguments again.
  pub check-Resolves :
      (e : Expr)
      → WellCalled e
      → ((why : Refusal) × (check known spell parse_regex e ≡ err why))
        ⊎ ((c : Typed) × (check known spell parse_regex e ≡ ok c)
            × SameFields e c.0
            × WellCalled c.0)
  check-Resolves e w = outcome (check-kept e w)
    where
      outcome :
          {m : Checked Typed}
          → Gives (Keeps e) m
          → ((why : Refusal) × (m ≡ err why))
            ⊎ ((c : Typed) × (m ≡ ok c) × SameFields e c.0 × WellCalled c.0)
      outcome (gives {a} h) = inr (a, refl, h.0, h.1)
      outcome (refuses {e}) = inl (e, refl)
