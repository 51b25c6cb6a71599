-- ===== src/Rules/Parser/Keeps.antt =====
-- What a parsing step guarantees, and one rule for each way in which the steps are combined.
use root_cx.Prelude.{
  ℕ, zero, suc, ◌+◌, ◌-◌, ◌≤◌, ◌<◌, ◌≡◌, refl, Bool, true, false, inl, inr, List, [], ◌∷◌, Text,
  length, ltb, ltb→ge, Bool-cases, if◌then◌else◌, arith,
}
use root_cx.Rules.Ast.{Expr}
use root_cx.Rules.Parser.Weight.{weight}
use root_cx.Rules.Outcome.{Message, SyntaxError, Outcome, ok, err}
use root_cx.Rules.Lexer.{IsClosed, Tok, eof, is_last}
use root_cx.Rules.Parser.State.{
  Parser, M, pure, ◌>>=◌, follow, get_or, token_of, peek, bump, error_here, skip, expect, node,
  nested, max_depth, max_nodes,
}

-- A token on which the lexer does not stop has a successor.
pub next_in_range :
    (toks : List (Tok × ℕ)) (i : ℕ) (d : Tok × ℕ)
    → IsClosed toks
    → i < length toks
    → is_last (get_or toks i d).0 ≡ false
    → i + 1 < length toks
next_in_range [] i d c h l = absurd c
next_in_range (t ∷ []) zero d c h l = ground arith
next_in_range (t ∷ []) (suc i) d c h l = absurd (omega arith)
next_in_range (t ∷ u ∷ ts) zero d c h l = omega arith
next_in_range (t ∷ u ∷ ts) (suc i) d c h l =
    omega (arith, next_in_range (u ∷ ts) i d c (omega arith) l)

module _ (src : Text) (toks : List (Tok × ℕ)) where
  -- A state between two steps at nesting depth `d`.
  pub record IsAt (d : ℕ) (s : Parser) : Type 0 where
    pub in_range : s.at < length toks
    pub level : s.depth ≡ d
    pub counted : s.nodes ≤ max_nodes

  -- The step read `k` tokens at least, and the nodes that it counted are those of its result, less
  -- the `pre` nodes of the trees that it was given.
  pub data Post {A : Type 0} (w : A → ℕ) (k pre d : ℕ) (s : Parser)
      : Outcome (A × Parser) → Type 0 where
    done :
        {a : A} {t : Parser}
        → IsAt d t
        → s.at + k ≤ t.at
        → t.nodes + pre ≡ s.nodes + w a
        → Post w k pre d s (ok (a, t))
    failed : {e : SyntaxError} → Post w k pre d s (err e)

  pub record Parses {A : Type 0} (w : A → ℕ) (k pre d : ℕ) (m : M A) : Type 0 where
    pub run : (s : Parser) → IsAt d s → Post w k pre d s (m s)

  -- A later step's guarantee, read from an earlier state.
  pub Post-later :
      {A : Type 0} {w : A → ℕ} {k k' pre pre' d : ℕ} {s t : Parser} {r : Outcome (A × Parser)}
      (j : ℕ)
      → Post w k pre d t r
      → s.at + j ≤ t.at
      → k' ≤ j + k
      → s.nodes + pre ≡ t.nodes + pre'
      → Post w k' pre' d s r
  Post-later j (done i p n) q r e = done i (omega arith) (omega arith)
  Post-later j failed q r e = failed

  pub Post-follow :
      {A B : Type 0} {w : A → ℕ} {w' : B → ℕ} {j pre k' total d : ℕ} {s : Parser}
      {r : Outcome (A × Parser)} (f : A → M B) (k pre' : ℕ)
      → Post w j pre d s r
      → ((a : A) (t : Parser) → IsAt d t → s.at + j ≤ t.at → Post w' k (w a + pre') d t (f a t))
      → k' ≤ j + k
      → total ≡ pre + pre'
      → Post w' k' total d s (follow r f)
  Post-follow {j} f k pre' (done {a} {t} i p n) pf le e =
      Post-later j (pf a t i p) p le (omega arith)
  Post-follow f k pre' failed pf le e = failed

  pub Post-pre :
      {A : Type 0} {w : A → ℕ} {k pre pre' d : ℕ} {s : Parser} {r : Outcome (A × Parser)}
      → Post w k pre d s r
      → pre' ≡ pre
      → Post w k pre' d s r
  Post-pre p e = Post-later 0 p (omega arith) (omega arith) (omega arith)

  pub Parses-pre :
      {A : Type 0} {w : A → ℕ} {k pre pre' d : ℕ} {m : M A}
      → Parses w k pre d m
      → pre' ≡ pre
      → Parses w k pre' d m
  Parses-pre pm e = record { run = λ s h. Post-pre (pm.run s h) e }

  -- A step that is given `pre` nodes, and one that is given its result and `pre'` nodes more.
  pub Parses-bind :
      {A B : Type 0} {w : A → ℕ} {w' : B → ℕ} {j pre k' total d : ℕ} {m : M A} {f : A → M B}
      (k pre' : ℕ)
      → Parses w j pre d m
      → ((a : A) → Parses w' k (w a + pre') d (f a))
      → k' ≤ j + k
      → total ≡ pre + pre'
      → Parses w' k' total d (m >>= f)
  Parses-bind {f} k pre' pm pf le e = record {
    run = λ s h. Post-follow f k pre' (pm.run s h) (λ a t i _. (pf a).run t i) le e;
  }

  -- The same, for a first step that is given no tree.
  pub Parses-then :
      {A B : Type 0} {w : A → ℕ} {w' : B → ℕ} {j k' pre d : ℕ} {m : M A} {f : A → M B} (k : ℕ)
      → Parses w j 0 d m
      → ((a : A) → Parses w' k (w a + pre) d (f a))
      → k' ≤ j + k
      → Parses w' k' pre d (m >>= f)
  Parses-then {pre} k pm pf le = Parses-bind k pre pm pf le (omega arith)

  pub Parses-pure :
      {A : Type 0} {w : A → ℕ} {pre d : ℕ} (a : A) → pre ≡ w a → Parses w 0 pre d (pure a)
  unfolding pure
  Parses-pure a e = record { run = λ s h. done h (omega arith) (omega arith) }

  pub Parses-error :
      {A : Type 0} {w : A → ℕ} {k pre d : ℕ} (message : Message)
      → Parses w k pre d (error_here src toks message)
  unfolding error_here
  Parses-error message = record { run = λ s h. failed }

  Post-if :
      {A : Type 0} {w : A → ℕ} {k pre d : ℕ} {s : Parser} {q r : Outcome (A × Parser)} (b : Bool)
      → Post w k pre d s q
      → Post w k pre d s r
      → Post w k pre d s (if b then q else r)
  Post-if true pq pr = pq
  Post-if false pq pr = pr

  Post-error :
      {A : Type 0} {w : A → ℕ} {k pre d : ℕ} {s : Parser} (message : Message) (t : Parser)
      → Post w k pre d s (error_here src toks message t)
  unfolding error_here
  Post-error message t = failed

  -- The depth is given back.
  Post-leave :
      {A : Type 0} {w : A → ℕ} {k pre d : ℕ} {m : M A} (s : Parser)
      → Parses w k pre (suc d) m
      → IsAt (suc d) (record s { depth = s.depth + 1 })
      → Post w k pre d s (
          follow
            (m (record s { depth = s.depth + 1 }))
            (λ a t. ok (a, record t { depth = t.depth - 1 })))
  Post-leave {A} {w} {k} {pre} {d} {m} s pm h = left _ (pm.run (record s { depth = s.depth + 1 }) h)
    where
      left :
          (r : Outcome (A × Parser))
          → Post w k pre (suc d) (record s { depth = s.depth + 1 }) r
          → Post w k pre d s (follow r (λ a t. ok (a, record t { depth = t.depth - 1 })))
      left r (done {a} {t} i p n) =
          done
            (record { in_range = i.in_range; level = omega (arith, i.level); counted = i.counted })
            p n
      left r failed = failed

  pub Parses-if :
      {A : Type 0} {w : A → ℕ} {k pre d : ℕ} {m n : M A} (b : Bool)
      → Parses w k pre d m
      → Parses w k pre d n
      → Parses w k pre d (if b then m else n)
  Parses-if true pm pn = pm
  Parses-if false pm pn = pn

  pub Parses-choose :
      {A : Type 0} {w : A → ℕ} {k pre d : ℕ} {m n : M A} (test : Parser → Bool)
      → Parses w k pre d m
      → Parses w k pre d n
      → Parses w k pre d (λ s. if test s then m s else n s)
  Parses-choose test pm pn = record { run = λ s h. Post-if (test s) (pm.run s h) (pn.run s h) }

  module _ (closed : IsClosed toks) where
    -- A token is read, if it is not the last.
    pub bump-Post :
        {d : ℕ} (s : Parser)
        → IsAt d s
        → (b : Bool) → is_last (token_of src toks s.at).0 ≡ b
        → Post (λ _. 0) (if b then 0 else 1) 0 d s (bump src toks s)
    unfolding bump
    bump-Post s h true e = rw e (done h (omega arith) (omega arith))
    bump-Post s h false e =
        let further = next_in_range toks s.at (eof, length src) closed h.in_range e in
        rw e (
          done (record { in_range = further; level = h.level; counted = h.counted }) (omega arith)
            (omega arith))

    skipped :
        {d k : ℕ} {s : Parser} {r : Outcome (Tok × Parser)}
        → Post (λ _. 0) k 0 d s r
        → Post (λ _. 0) k 0 d s (follow r (λ _ s'. ok (tt, s')))
    skipped (done i p n) = done i p n
    skipped failed = failed

    Post-weaken :
        {k d : ℕ} {s : Parser} {r : Outcome (Unit {0} × Parser)}
        → Post (λ _. 0) k 0 d s r
        → Post (λ _. 0) 0 0 d s r
    Post-weaken {k} p = Post-later 0 p (omega arith) (omega arith) (omega arith)

    pub Parses-skip : {d : ℕ} → Parses (λ _. 0) 0 0 d (skip src toks)
    unfolding skip
    Parses-skip = record { run = λ s h. Post-weaken (skipped (bump-Post s h _ refl)) }

    pub Parses-expect :
        {d : ℕ} (test : Tok → Bool) (what : Text)
        → ((t : Tok) → test t ≡ true → is_last t ≡ false)
        → Parses (λ _. 0) 1 0 d (expect src toks test what)
    unfolding expect skip peek
    Parses-expect test what excludes = record {
      run = λ s h. elim (Bool-cases (test (token_of src toks s.at).0)) [
        | inl found ↦
            rw found (skipped (bump-Post s h false (excludes (token_of src toks s.at).0 found)))
        | inr missing ↦ rw missing (Post-error _ s)
      ];
    }

  pub Parses-node :
      {pre d : ℕ} (e : Expr) → weight e ≡ suc pre → Parses weight 0 pre d (node src toks e)
  unfolding node
  Parses-node e sized = record {
    run = λ s h. elim (Bool-cases (ltb max_nodes (s.nodes + 1))) [
      | inl over ↦ rw over (Post-error Message.too_many_nodes _)
      | inr fits ↦ rw fits (
          done
            (record {
              in_range = h.in_range;
              level = h.level;
              counted = ltb→ge max_nodes (s.nodes + 1) fits;
            })
            (omega arith) (omega arith))
    ];
  }

  pub Parses-nested :
      {A : Type 0} {w : A → ℕ} {k pre d : ℕ} {m : M A}
      → (suc d ≤ max_depth → Parses w k pre (suc d) m)
      → Parses w k pre d (nested src toks m)
  unfolding nested
  Parses-nested pm = record {
    run = λ s h. elim (Bool-cases (ltb max_depth (s.depth + 1))) [
      | inl over ↦ rw over (Post-error Message.too_deep _)
      | inr fits ↦ rw fits (
          Post-leave s (pm (omega (arith, ltb→ge max_depth (s.depth + 1) fits, h.level)))
            (record { in_range = h.in_range; level = omega (arith, h.level); counted = h.counted }))
    ];
  }
