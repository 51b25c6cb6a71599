-- ===== src/Rules/Shorthand/Reads.antt =====
-- core/src/rules/shorthand.rs: a shorthand of a field is about that field alone.
use root_cx.Prelude.{
  ℕ, ◌≡◌, ◌∙◌, refl, ◌⊎◌, inl, inr, Bool, true, false, ◌++◌, Option, none, some, List, [], ◌∷◌,
  Text, text_eq, text_eq_refl, bytes, any, All, if◌then◌else◌,
}
use root_cx.Prelude.Spaces.{trim}
use root_cx.Rules.Ast.{WellCalled, Expr, BinOp, fields}
use root_cx.Rules.Pattern
use root_cx.Rules.Typing.Types.{Ty, Fields, Checked, Spellings}
use root_cx.Rules.Typing.Gives.{Gives, gives, refuses, Resolves}
use root_cx.Rules.Typing.Resolved.{boolean-kept}
use root_cx.Rules.Shorthand.{
  JsonValue, string, number, other_value, FieldRules, Shorthand, Fault, Compiled, ok, err, ◌>>=◌,
  needs, signed, valid, split_sign, bound_of, bound, push, pushed, limit, whole_rule, scale_rule,
  length_rule, blank_rule, match_rule, format_rule, pattern_rule, json_rule, items_rule, in_order,
  too_long, compile, json_types, email_pattern,
}

-- The given predicate of a result, or a refusal.
data Fine {ℓ} {A : Type ℓ} (P : A → Type 0) : Compiled A → Type ℓ where
  fine : {a : A} → P a → Fine P (ok a)
  faulty : {e : Fault} → Fine P (err e)

Fine-bind {ℓ κ} :
    {A : Type ℓ} {B : Type κ} {P : A → Type 0} {Q : B → Type 0} {m : Compiled A}
    (f : A → Compiled B)
    → Fine P m
    → ((a : A) → P a → Fine Q (f a))
    → Fine Q (m >>= f)
Fine-bind f (fine h) k = k _ h
Fine-bind f faulty k = faulty

Fine-needs {κ} :
    {B : Type κ} {Q : B → Type 0} (test : Bool) (key what : Text) {m : Compiled B}
    → Fine Q m
    → Fine Q (needs test key what >>= λ _. m)
Fine-needs true key what h = h
Fine-needs false key what h = faulty

Fine-if {κ} :
    {B : Type κ} {Q : B → Type 0} (test : Bool) {m n : Compiled B}
    → Fine Q m
    → Fine Q n
    → Fine Q (if test then m else n)
Fine-if true h k = h
Fine-if false h k = k

All-append {ℓ} :
    {A : Type ℓ} (P : A → Type 0) (xs ys : List A) → All P xs → All P ys → All P (xs ++ ys)
All-append P [] ys h k = k
All-append P (x ∷ xs) ys h k = (h.0, All-append P xs ys h.1 k)

-- A tree that reads no field and calls nothing.
abbrev Closed : Expr → Type 0
Closed e = ((out : List Text) → fields e out ≡ out) × WellCalled e

signed-Closed : (s : Bool × Text) → Closed (signed s)
unfolding fields
signed-Closed (true, digits) = ((λ out. refl), tt)
signed-Closed (false, digits) = ((λ out. refl), tt)

bound_of-Fine : (key text : Text) → Fine Closed (bound_of key text)
bound_of-Fine key text =
    Fine-if (valid (split_sign text).1) (fine (signed-Closed (split_sign text))) faulty

bound-Fine : (key : Text) (value : JsonValue) (ty : Ty) → Fine Closed (bound key value ty)
unfolding bound
bound-Fine key (string text) Ty.numeric = bound_of-Fine key (trim text)
bound-Fine key (number text) Ty.numeric = faulty
bound-Fine key other_value Ty.numeric = faulty
bound-Fine key (number text) ty = bound_of-Fine key text
bound-Fine key (string text) ty = faulty
bound-Fine key other_value ty = faulty

module _ (known : Fields) (spell : Spellings) (parse_regex : Text → Option Pattern.Ast)
    (name : Text) (ty : Ty) where
  -- The tree reads this field, and no other.
  abbrev pub ReadsThis : Expr → Type 0
  ReadsThis e = fields e [] ≡ name ∷ []

  abbrev Right : List Shorthand → Type 0
  Right out = All (λ s. ReadsThis s.tree) out

  abbrev Step : (List Shorthand → Compiled (List Shorthand)) → Type 0
  Step f = (out : List Shorthand) → Right out → Fine Right (f out)

  pushed-Fine :
      (kind : Text) (tree : Expr)
      → ReadsThis tree
      → (out : List Shorthand) → Right out
      → {m : Checked Expr} → Gives (Resolves tree) m
      → Fine Right (pushed known spell parse_regex name ty kind out m)
  pushed-Fine kind tree reads out right (gives {a} same) =
      fine (All-append _ out _ right (same.0 [] ∙ reads, tt))
  pushed-Fine kind tree reads out right refuses = faulty

  push-Step :
      (kind : Text) (tree : Expr)
      → ReadsThis tree
      → WellCalled tree
      → Step (push known spell parse_regex name ty kind tree)
  unfolding push
  push-Step kind tree reads called out right =
      pushed-Fine kind tree reads out right (boolean-kept known spell parse_regex tree called)

  limit-Step :
      (key kind : Text) (op : BinOp) (value : Option JsonValue)
      → Step (limit known spell parse_regex name ty key kind op value)
  unfolding fields
  limit-Step key kind op none out right = fine right
  limit-Step key kind op (some value) out right = Fine-needs _ _ _ (
      Fine-bind _ (bound-Fine key value ty) λ b closed.
        push-Step kind _ (rw (closed.0 (name ∷ []), text_eq_refl name) refl) ((tt, closed.1), tt)
          out right)

  whole_rule-Step : (integer : Bool) → Step (whole_rule known spell parse_regex name ty integer)
  unfolding fields
  whole_rule-Step false out right = fine right
  whole_rule-Step true out right = Fine-needs _ _ _ (
      push-Step _ _ (rw (text_eq_refl name) (rw (text_eq_refl name) refl))
        ((tt, (refl, (tt, tt))), tt) out right)

  scale_rule-Step : (scale : Option ℕ) → Step (scale_rule known spell parse_regex name ty scale)
  unfolding fields
  scale_rule-Step none out right = fine right
  scale_rule-Step (some scale) out right =
      Fine-needs _ _ _
        (push-Step _ _ (rw (text_eq_refl name) refl) (((refl, (tt, tt)), tt), tt) out right)

  length_rule-Step :
      (key kind : Text) (op : BinOp) (n : Option ℕ)
      → Step (length_rule known spell parse_regex name ty key kind op n)
  unfolding fields
  length_rule-Step key kind op none out right = fine right
  length_rule-Step key kind op (some n) out right =
      Fine-needs _ _ _ (push-Step kind _ refl ((refl, (tt, tt)), tt) out right)

  blank_rule-Step : (not_blank : Bool) → Step (blank_rule known spell parse_regex name ty not_blank)
  unfolding fields
  blank_rule-Step false out right = fine right
  blank_rule-Step true out right =
      Fine-needs _ _ _ (push-Step _ _ refl ((refl, ((refl, (tt, tt)), tt)), tt) out right)

  match_rule-Step :
      (kind pattern : Text) → Step (match_rule known spell parse_regex name ty kind pattern)
  unfolding fields
  match_rule-Step kind pattern = push-Step kind _ refl (tt, tt)

  format_rule-Step :
      (format : Option Text) → Step (format_rule known spell parse_regex name ty format)
  format_rule-Step none out right = fine right
  format_rule-Step (some format) out right = Fine-needs _ _ _ (
      Fine-if (text_eq format (bytes "email"))
        (match_rule-Step (bytes "format") email_pattern out right) faulty)

  pattern_rule-Step :
      (pattern : Option Text) → Step (pattern_rule known spell parse_regex name ty pattern)
  pattern_rule-Step none out right = fine right
  pattern_rule-Step (some pattern) out right =
      Fine-needs _ _ _ (match_rule-Step (bytes "pattern") pattern out right)

  json_rule-Step :
      (json_type : Option Text) → Step (json_rule known spell parse_regex name ty json_type)
  unfolding fields
  json_rule-Step none out right = fine right
  json_rule-Step (some json_type) out right = Fine-needs _ _ _ (
      Fine-if (any (text_eq json_type) json_types)
        (push-Step _ _ refl ((refl, (tt, tt)), tt) out right) faulty)

  items_rule-Step : (max : Option ℕ) → Step (items_rule known spell parse_regex name ty max)
  unfolding fields
  items_rule-Step none out right = fine right
  items_rule-Step (some max) out right =
      Fine-needs _ _ _ (push-Step _ _ refl ((refl, (tt, tt)), tt) out right)

  in_order-Step : (long : Bool) → Step (in_order known spell parse_regex name ty long)
  in_order-Step true out right = faulty
  in_order-Step false out right = fine right

  compile-Fine : (rules : FieldRules) → Fine Right (compile known spell parse_regex name ty rules)
  unfolding compile
  compile-Fine rules = Fine-bind _ (limit-Step _ _ _ rules.minimum [] tt) λ a ra.
      Fine-bind _ (limit-Step _ _ _ rules.maximum a ra) λ b rb.
        Fine-bind _ (limit-Step _ _ _ rules.exclusive_minimum b rb) λ c rc.
          Fine-bind _ (limit-Step _ _ _ rules.exclusive_maximum c rc) λ d rd.
            Fine-bind _ (whole_rule-Step rules.integer d rd) λ e re.
              Fine-bind _ (scale_rule-Step rules.max_scale e re) λ f rf.
                Fine-bind _ (in_order-Step (too_long rules.min_length rules.max_length) f rf)
                  λ g rg.
                    Fine-bind _
                      (length_rule-Step (bytes "min_length") (bytes "minlen") BinOp.ge
                        rules.min_length g rg)
                      λ h rh.
                        Fine-bind _
                          (length_rule-Step (bytes "max_length") (bytes "maxlen") BinOp.le
                            rules.max_length h rh)
                          λ i ri. Fine-bind _ (blank_rule-Step rules.not_blank i ri) λ j rj.
                            Fine-bind _ (format_rule-Step rules.format j rj) λ k rk.
                              Fine-bind _ (pattern_rule-Step rules.pattern k rk) λ l rl.
                                Fine-bind _ (json_rule-Step rules.json_type l rl)
                                  λ m rm. items_rule-Step rules.max_items m rm

  -- Compiling the shorthands of a field does not panic: it is refused, or every compiled rule reads
  -- that field and no other.
  pub compile-ReadsThis :
      (rules : FieldRules)
      → ((fault : Fault) × (compile known spell parse_regex name ty rules ≡ err fault))
        ⊎ ((out : List Shorthand) × (compile known spell parse_regex name ty rules ≡ ok out)
            × All (λ s. ReadsThis s.tree) out)
  compile-ReadsThis rules = outcome (compile-Fine rules)
    where
      outcome :
          {m : Compiled (List Shorthand)}
          → Fine Right m
          → ((fault : Fault) × (m ≡ err fault))
            ⊎ ((out : List Shorthand) × (m ≡ ok out) × All (λ s. ReadsThis s.tree) out)
      outcome (fine {a} right) = inr (a, refl, right)
      outcome (faulty {e}) = inl (e, refl)
