-- ===== src/Workflows/Topo/Degrees.antt =====
-- core/src/extensions/workflows/executor.rs, `topo_sort`: what the map of in-degrees holds.
use root_cx.Prelude.{
  ℕ, suc, ◌+◌, ◌≡◌, refl, sym, ap, subst, ◌∙◌, ◌⊎◌, inl, inr, Bool, true, false, not, ◌&&◌,
  Bool-cases, Option, none, some, List, [], ◌∷◌, Memᴰ, Text, text_eq, text_eq_iff, ◌==◌,
  if◌then◌else◌, arith,
}
use root_cx.Prelude.Sets.{contains}
use root_cx.Workflows.Graph.{WorkflowNode, WorkflowEdge}
use root_cx.Workflows.Topo.{Degrees, ensure, bump, lowered, lower, in_degrees}

-- `in_degree.get(x)`
unfoldable pub degree : Text → Degrees → Option ℕ
degree x [] = none
degree x ((k, d) ∷ m) = let later = degree x m in if text_eq k x then some d else later

abbrev pub or_zero : Option ℕ → ℕ
or_zero none = 0
or_zero (some d) = d

degree-ensure :
    (id x : Text) (m : Degrees)
    → degree x (ensure id m) ≡ (if text_eq id x then some (or_zero (degree x m)) else degree x m)
unfolding degree ensure
degree-ensure id x [] = refl
degree-ensure id x ((k, d) ∷ m) =
    ground (arith, text_eq_iff k id, text_eq_iff k x, text_eq_iff id x, degree-ensure id x m)

degree-bump :
    (id x : Text) (m : Degrees)
    → degree x (bump id m)
      ≡ (if text_eq id x then some (suc (or_zero (degree x m))) else degree x m)
unfolding degree bump
degree-bump id x [] = refl
degree-bump id x ((k, d) ∷ m) =
    ground (arith, text_eq_iff k id, text_eq_iff k x, text_eq_iff id x, degree-bump id x m)

-- The entries that are not zero.
unfoldable pub positives : Degrees → ℕ
positives [] = 0
positives ((k, d) ∷ m) = (if d == 0 then 0 else 1) + positives m

-- A key of positive degree is lowered, without an overflow.
pub lower-lowered :
    (id : Text) (d : ℕ) (m : Degrees)
    → degree id m ≡ some (suc d)
    → (m' : Degrees) × (lower id m ≡ lowered d m')
      × ((x : Text) → degree x m' ≡ (if text_eq id x then some d else degree x m))
      × (positives m' + (if d == 0 then 1 else 0) ≡ positives m)
unfolding degree lower positives
lower-lowered id d [] h = cc
lower-lowered id d ((k, e) ∷ m) h = elim (Bool-cases (text_eq k id)) [
  | inl t ↦
      let same : e ≡ suc d = cc (rw t at h) in
      (
        (k, d) ∷ m,
        rw (t, same),
        λ x. ground (arith, text_eq_iff k id, text_eq_iff k x, text_eq_iff id x),
        rw same (ground arith),
      )
  | inr f ↦
      let (m', is_lowered, degrees, count) = lower-lowered id d m (rw f at h) in
      (
        (k, e) ∷ m',
        rw (f, is_lowered),
        λ x. ground (arith, degrees x, text_eq_iff k id, text_eq_iff k x, text_eq_iff id x),
        omega (arith, count),
      )
]

-- The edges into a node from a node that is not taken yet.
abbrev pub waits : List Text → Text → WorkflowEdge → Bool
waits taken x e = text_eq e.to x && not (contains taken e.from)

unfoldable pub pending : List Text → Text → List WorkflowEdge → ℕ
pending taken x [] = 0
pending taken x (e ∷ edges) = (if waits taken x e then 1 else 0) + pending taken x edges

abbrev pub is_some : Option ℕ → Bool
is_some none = false
is_some (some d) = true

or_zero-ensure :
    (id x : Text) (m : Degrees) → or_zero (degree x (ensure id m)) ≡ or_zero (degree x m)
or_zero-ensure id x m = ground (arith, degree-ensure id x m)

or_zero-bump :
    (id x : Text) (m : Degrees)
    → or_zero (degree x (bump id m)) ≡ or_zero (degree x m) + (if text_eq id x then 1 else 0)
or_zero-bump id x m = ground (arith, degree-bump id x m)

-- The map counts the edges into each key.
pub counted :
    (nodes : List WorkflowNode) (edges : List WorkflowEdge) (m : Degrees) (x : Text)
    → or_zero (degree x (in_degrees nodes edges m)) ≡ or_zero (degree x m) + pending [] x edges
unfolding in_degrees pending
counted [] [] m x = omega arith
counted [] (e ∷ edges) m x = ground (arith, counted [] edges (bump e.to m) x, or_zero-bump e.to x m)
counted (n ∷ nodes) [] m x =
    counted nodes [] (ensure n.id m) x ∙ ground (arith, or_zero-ensure n.id x m)
counted (n ∷ nodes) (e ∷ edges) m x =
    counted nodes (e ∷ edges) (ensure n.id m) x ∙ ground (arith, or_zero-ensure n.id x m)

is_some-ensure :
    (id x : Text) (m : Degrees)
    → (is_some (degree x m) ≡ true) ⊎ (id ≡ x)
    → is_some (degree x (ensure id m)) ≡ true
is_some-ensure id x m (inl h) = ground (arith, degree-ensure id x m)
is_some-ensure id x m (inr h) = ground (arith, degree-ensure id x m, text_eq_iff id x)

is_some-bump :
    (id x : Text) (m : Degrees)
    → (is_some (degree x m) ≡ true) ⊎ (id ≡ x)
    → is_some (degree x (bump id m)) ≡ true
is_some-bump id x m (inl h) = ground (arith, degree-bump id x m)
is_some-bump id x m (inr h) = ground (arith, degree-bump id x m, text_eq_iff id x)

-- A text that the graph names as a node or as the target of an edge.
abbrev pub Named : List WorkflowNode → List WorkflowEdge → Text → Type 0
Named nodes edges x =
    ((n : WorkflowNode) × Memᴰ n nodes × (n.id ≡ x))
    ⊎ ((e : WorkflowEdge) × Memᴰ e edges × (e.to ≡ x))

in_degrees_keeps :
    (nodes : List WorkflowNode) (edges : List WorkflowEdge) (m : Degrees) (x : Text)
    → is_some (degree x m) ≡ true
    → is_some (degree x (in_degrees nodes edges m)) ≡ true
unfolding in_degrees
in_degrees_keeps [] [] m x h = h
in_degrees_keeps [] (e ∷ edges) m x h =
    in_degrees_keeps [] edges (bump e.to m) x (is_some-bump e.to x m (inl h))
in_degrees_keeps (n ∷ nodes) [] m x h =
    in_degrees_keeps nodes [] (ensure n.id m) x (is_some-ensure n.id x m (inl h))
in_degrees_keeps (n ∷ nodes) (e ∷ edges) m x h =
    in_degrees_keeps nodes (e ∷ edges) (ensure n.id m) x (is_some-ensure n.id x m (inl h))

pub known_target :
    (edges : List WorkflowEdge) (m : Degrees) {e : WorkflowEdge}
    → Memᴰ e edges
    → is_some (degree e.to (in_degrees [] edges m)) ≡ true
unfolding in_degrees
known_target [] m at = elim at [ ]
known_target (f ∷ edges) m {e} (Memᴰ.head same) =
    in_degrees_keeps [] edges (bump f.to m) e.to
      (is_some-bump f.to e.to m (inr (ap (λ (g : WorkflowEdge). g.to) (sym same))))
known_target (f ∷ edges) m (Memᴰ.tail at) = known_target edges (bump f.to m) at

-- Every named text is a key.
pub in_degrees_nodes :
    (nodes : List WorkflowNode) (edges : List WorkflowEdge) (m : Degrees) (x : Text)
    → (is_some (degree x m) ≡ true) ⊎ Named nodes edges x
    → is_some (degree x (in_degrees nodes edges m)) ≡ true
unfolding in_degrees
in_degrees_nodes nodes edges m x (inl h) = in_degrees_keeps nodes edges m x h
in_degrees_nodes [] edges m x (inr (inl (n, at, same))) = elim at [ ]
in_degrees_nodes [] edges m x (inr (inr (e, at, same))) =
    subst (λ y. is_some (degree y (in_degrees [] edges m)) ≡ true) same (known_target edges m at)
in_degrees_nodes (f ∷ nodes) [] m x (inr (inr (e, at, same))) = elim at [ ]
in_degrees_nodes (f ∷ nodes) (g ∷ edges) m x (inr (inr (e, at, same))) =
    in_degrees_nodes nodes (g ∷ edges) (ensure f.id m) x (inr (inr (e, at, same)))
in_degrees_nodes (f ∷ nodes) edges m x (inr (inl (n, Memᴰ.head e, same))) =
    in_degrees_keeps nodes edges (ensure f.id m) x
      (is_some-ensure f.id x m (inr (ap (λ (g : WorkflowNode). g.id) (sym e) ∙ same)))
in_degrees_nodes (f ∷ nodes) edges m x (inr (inl (n, Memᴰ.tail at, same))) =
    in_degrees_nodes nodes edges (ensure f.id m) x (inr (inl (n, at, same)))
