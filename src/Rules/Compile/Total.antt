-- ===== src/Rules/Compile/Total.antt =====
-- core/src/rules/mod.rs: what compiling a declared check gives for every text.
use root_cx.Prelude.{
  ◌≡◌, ◌≤◌, refl, ◌⊎◌, inl, inr, true, false, Bool-cases, Option, none, some, List, [], ◌∷◌, Text,
  Memᴰ, subst, length, ltb, ltb→ge,
}
use root_cx.Rules.Ast.{Expr, fields, WellCalled}
use root_cx.Rules.Parser.Limits.{parse_total}
use root_cx.Rules.Pattern
use root_cx.Rules.Typing.Types.{Fields, Checked, Spellings}
use root_cx.Rules.Typing.Gives.{Gives, gives, refuses, Resolves}
use root_cx.Rules.Typing.Resolved.{boolean-kept}
use root_cx.Rules.Emit.{sql}
use root_cx.Rules.Emit.Totality.{sql_total}
use root_cx.Rules.Compile.{
  CheckFault, CheckResult, compiled, refused, is_sensitive, find_sensitive, scope_of,
  sensitive_scope, emitted, scoped, resolved, compile_check,
}

-- Where a sensitive field is read, no other field is.
abbrev pub KeepsSecrets : Fields → Expr → Type 0
KeepsSecrets known tree =
    (name : Text)
    → Memᴰ name (fields tree [])
    → is_sensitive known name ≡ true
    → length (fields tree []) ≤ 1

found_if_listed :
    (known : Fields) (used : List Text) (name : Text)
    → Memᴰ name used
    → is_sensitive known name ≡ true
    → (first : Text) × (find_sensitive known used ≡ some first)
found_if_listed known [] name m h = elim m [ ]
found_if_listed known (x ∷ used) name m h = elim (Bool-cases (is_sensitive known x)) [
  | inl t ↦ (x, rw (t) refl)
  | inr f ↦ elim m [
    | Memᴰ.head e ↦ cc (subst (λ y. is_sensitive known y ≡ true) e h, f)
    | Memᴰ.tail later ↦
        let (first, found) = found_if_listed known used name later h in (first, rw (f) found)
  ]
]

scope_alone :
    (used : List Text) (first : Text) → scope_of used false (some first) ≡ none → length used ≤ 1
scope_alone used first h = elim (Bool-cases (ltb 1 (length used))) [
  | inl t ↦ cc (rw t at h)
  | inr f ↦ ltb→ge 1 (length used) f
]

sensitive_scope-KeepsSecrets :
    (known : Fields) (tree : Expr)
    → sensitive_scope tree known false ≡ none
    → KeepsSecrets known tree
unfolding sensitive_scope
sensitive_scope-KeepsSecrets known tree h name m s =
    let (first, found) = found_if_listed known (fields tree []) name m s in
    scope_alone (fields tree []) first (rw found at h)

-- A refusal, or a tree with its SQL.
data Compiles (known : Fields) : CheckResult → Type 0 where
  gives_sql :
      {tree : Expr} {text : Text}
      → sql tree ≡ some text
      → KeepsSecrets known tree
      → Compiles known (compiled tree text)
  gives_fault : {fault : CheckFault} → Compiles known (refused fault)

module _ (known : Fields) (spell : Spellings) (parse_regex : Text → Option Pattern.Ast) where
  emitted-Compiles :
      (tree : Expr)
      → WellCalled tree
      → KeepsSecrets known tree
      → Compiles known (emitted known spell parse_regex tree (sql tree))
  emitted-Compiles tree w secrets = let (text, e) = sql_total tree w in rw (e) (gives_sql e secrets)

  scoped-Compiles :
      (tree : Expr)
      → WellCalled tree
      → (fault : Option CheckFault) → sensitive_scope tree known false ≡ fault
      → Compiles known (scoped known spell parse_regex tree fault)
  scoped-Compiles tree w (some fault) e = gives_fault
  scoped-Compiles tree w none e =
      emitted-Compiles tree w (sensitive_scope-KeepsSecrets known tree e)

  resolved-Compiles :
      (written : Expr) {m : Checked Expr}
      → Gives (Resolves written) m
      → Compiles known (resolved known spell parse_regex m)
  resolved-Compiles written (gives {a} h) =
      scoped-Compiles a h.1 (sensitive_scope a known false) refl
  resolved-Compiles written refuses = gives_fault

  compile_check-Compiles :
      (source : Text) → Compiles known (compile_check known spell parse_regex source)
  unfolding compile_check
  compile_check-Compiles source = elim (parse_total source) [
    | inl (tree, e, _, w) ↦
        rw (e) (resolved-Compiles tree (boolean-kept known spell parse_regex tree w))
    | inr (x, e) ↦ rw (e) gives_fault
  ]

  -- Whatever the text of a declared check, compiling it ends without a panic: in a refusal, or in a
  -- tree and the SQL that is emitted from it. A tree that reads a sensitive field reads no other.
  pub compile_check_total :
      (source : Text)
      → ((fault : CheckFault) × (compile_check known spell parse_regex source ≡ refused fault))
        ⊎ ((tree : Expr) × (text : Text) × (compile_check known spell parse_regex source
              ≡ compiled tree text)
            × (sql tree ≡ some text)
            × KeepsSecrets known tree)
  compile_check_total source = outcome (compile_check-Compiles source)
    where
      outcome :
          {r : CheckResult}
          → Compiles known r
          → ((fault : CheckFault) × (r ≡ refused fault))
            ⊎ ((tree : Expr) × (text : Text) × (r ≡ compiled tree text)
                × (sql tree ≡ some text)
                × KeepsSecrets known tree)
      outcome (gives_sql {tree} {text} e secrets) = inr (tree, text, refl, e, secrets)
      outcome (gives_fault {fault}) = inl (fault, refl)
