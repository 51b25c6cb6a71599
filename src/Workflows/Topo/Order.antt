-- ===== src/Workflows/Topo/Order.antt =====
-- core/src/extensions/workflows/executor.rs, `topo_sort`: the loop ends, and what it ends in.
use root_cx.Prelude.{
  ℕ, zero, suc, ◌+◌, ◌<◌, ◌≡◌, refl, sym, ap, ◌∙◌, inl, inr, Bool, true, false, ◌||◌, Bool-cases,
  or_left, or_right, Option, some, List, [], ◌∷◌, Memᴰ, Text, text_eq, text_eq_refl, text_eq_sound,
  text_eq_iff, length, arith,
}
use root_cx.Prelude.Sets.{contains, contains_sound, contains_of_mem, Distinct}
use root_cx.Workflows.Graph.{WorkflowEdge, WorkflowGraph}
use root_cx.Workflows.Topo.{
  Degrees, Work, sorted, or_overflowed, onto, in_degrees, zero_keys, drain, topo_sort,
}
use root_cx.Workflows.Topo.Degrees.{
  degree, is_some, positives, pending, counted, in_degrees_nodes, Named,
}
use root_cx.Workflows.Topo.Keys.{
  names, Distinct-in_degrees, known-Named, zero_keys_complete, zero_keys_sound, Distinct-zero_keys,
  length-zero_keys,
}
use root_cx.Workflows.Topo.Kahn.{at, Counted, Relaxed, relax-Relaxed}

module _ (edges : List WorkflowEdge) where
  -- Every edge into the node comes from a taken one.
  abbrev Sourced : List Text → Text → Type 0
  Sourced taken x = (e : WorkflowEdge) → Memᴰ e edges → e.to ≡ x → contains taken e.from ≡ true

  -- The last taken first.
  abbrev Grown : List Text → Type 0
  Grown [] = Unit
  Grown (x ∷ older) = Sourced older x × Grown older

  -- Each node stands behind the sources of all its edges.
  abbrev pub Follows : List Text → List Text → Type 0
  Follows before [] = Unit
  Follows before (x ∷ order) =
      ((e : WorkflowEdge) → Memᴰ e edges → e.to ≡ x → Memᴰ e.from before)
      × Follows (x ∷ before) order

  onto-Follows :
      (taken order : List Text) → Grown taken → Follows taken order → Follows [] (onto taken order)
  onto-Follows [] order g f = f
  onto-Follows (x ∷ older) order g f =
      onto-Follows older (x ∷ order) g.1
        ((λ e m same. contains_sound older e.from (g.0 e m same)), f)

none_pending :
    (taken : List Text) (x : Text) (edges : List WorkflowEdge)
    → pending taken x edges ≡ 0
    → Sourced edges taken x
unfolding pending
none_pending taken x [] h e m same = elim m [ ]
none_pending taken x (f ∷ edges) h e (Memᴰ.head here) same =
    let to_x : f.to ≡ x = ap (λ (g : WorkflowEdge). g.to) (sym here) ∙ same in
    let found : contains taken f.from ≡ true = ground (arith, text_eq_iff f.to x) in
    ap (λ (g : WorkflowEdge). contains taken g.from) here ∙ found
none_pending taken x (f ∷ edges) h e (Memᴰ.tail m) same =
    none_pending taken x edges (omega arith) e m same

all-Sourced :
    (taken : List Text) (x : Text) (edges : List WorkflowEdge)
    → Sourced edges taken x
    → pending taken x edges ≡ 0
unfolding pending
all-Sourced taken x [] s = refl
all-Sourced taken x (f ∷ edges) s =
    let rest = all-Sourced taken x edges (λ e m. s e (Memᴰ.tail m)) in
    elim (Bool-cases (text_eq f.to x)) [
      | inl t ↦ rw (t, s f (Memᴰ.head refl) (text_eq_sound f.to x t)) (omega (arith, rest))
      | inr u ↦ rw u (omega (arith, rest))
    ]

contains-onto :
    (xs ys : List Text) (x : Text) → contains (onto xs ys) x ≡ (contains xs x || contains ys x)
contains-onto [] ys x = refl
contains-onto (z ∷ xs) ys x = contains-onto xs (z ∷ ys) x ∙ ground arith

Distinct-onto :
    (xs ys : List Text)
    → Distinct xs
    → Distinct ys
    → ((x : Text) → contains xs x ≡ true → contains ys x ≡ false)
    → Distinct (onto xs ys)
Distinct-onto [] ys h k apart = k
Distinct-onto (z ∷ xs) ys h k apart =
    Distinct-onto xs (z ∷ ys) h.1 (apart z (or_left _ _ (text_eq_refl z)), k)
      (λ x m. ground (arith, apart x, text_eq_iff x z, text_eq_iff z x))

module _ (known : Text → Bool) (edges : List WorkflowEdge)
    (targets : (e : WorkflowEdge) → Memᴰ e edges → known e.to ≡ true) where
  pop-Counted :
      (count : Text → ℕ) (taken : List Text) (degrees : Degrees) (n : Text) (queue : List Text)
      → Counted known count taken degrees (n ∷ queue)
      → Counted known count (n ∷ taken) degrees queue
  pop-Counted count taken degrees n queue c = record {
    holds = c.holds;
    queue_zero = λ x m. c.queue_zero x (or_right _ _ m);
    taken_zero = λ x m. ground (arith, c.taken_zero x, c.queue_zero x);
    apart = λ x m. ground (arith, c.apart x, text_eq_iff x n, c.distinct.0);
    distinct = c.distinct.1;
    ready = λ x k z. ground (arith, c.ready x);
  }

  record Drained (fuel : ℕ) (degrees : Degrees) (queue taken : List Text) : Type 0 where
    final : List Text
    runs : drain edges fuel (degrees, queue) taken ≡ sorted (onto final [])
    distinct : Distinct final
    grown : Grown edges final
    complete : (x : Text) → known x ≡ true → pending final x edges ≡ 0 → contains final x ≡ true
    only : (x : Text) → contains final x ≡ true → known x ≡ true

  drain-Drained :
      (fuel : ℕ) (count : Text → ℕ) (taken : List Text) (degrees : Degrees) (queue : List Text)
      → Counted known count taken degrees queue
      → ((x : Text) → count x ≡ pending taken x edges)
      → Distinct taken
      → Grown edges taken
      → positives degrees + length queue < fuel
      → Drained fuel degrees queue taken
  unfolding drain
  drain-Drained zero count taken degrees queue c counts d g below = absurd (omega arith)
  drain-Drained (suc fuel) count taken degrees [] c counts d g below = record {
    final = taken;
    runs = refl;
    distinct = d;
    grown = g;
    complete = λ x k z. ground (arith, c.ready x, counts x);
    only = λ x m. (c.taken_zero x m).0;
  }
  drain-Drained (suc fuel) count taken degrees (n ∷ queue) c counts d g below =
      let in_queue : contains (n ∷ queue) n ≡ true = or_left _ _ (text_eq_refl n) in
      let new = c.apart n in_queue in
      let round : Relaxed known n (λ _. 0) edges taken degrees queue =
        relax-Relaxed known n taken new edges (λ _. 0) count degrees queue
          (pop-Counted count taken degrees n queue c) targets (λ x. counts x ∙ omega arith) in
      let rest : Drained fuel round.degrees' round.queue_after (n ∷ taken) =
        drain-Drained fuel round.count' (n ∷ taken) round.degrees' round.queue_after round.counted
          (λ x. round.counts x ∙ omega arith) (new, d)
          (none_pending taken n edges (sym (counts n) ∙ (c.queue_zero n in_queue).1), g)
          (omega (arith, round.measure)) in
      record {
        final = rest.final;
        runs =
            ap (λ (o : Option Work). or_overflowed o (λ w. drain edges fuel w (n ∷ taken)))
              round.runs
            ∙ rest.runs;
        distinct = rest.distinct;
        grown = rest.grown;
        complete = rest.complete;
        only = rest.only;
      }

  Drained-Follows :
      (fuel : ℕ) (degrees : Degrees) (queue : List Text) (r : Drained fuel degrees queue [])
      → Follows edges [] (onto r.final [])
  Drained-Follows fuel degrees queue r = onto-Follows edges r.final [] r.grown tt

-- A walk over a `HashMap` meets every entry once, in any order.
pub record Walks (walk : List Text → List Text) : Type 0 where
  pub same : (xs : List Text) (x : Text) → contains (walk xs) x ≡ contains xs x
  pub keeps_distinct : (xs : List Text) → Distinct xs → Distinct (walk xs)
  pub as_long : (xs : List Text) → length (walk xs) ≡ length xs

-- An order of the graph: each node once and behind its sources, none left out whose sources are all in.
pub record IsTopological (graph : WorkflowGraph) (order : List Text) : Type 0 where
  pub follows : Follows graph.edges [] order
  pub distinct : Distinct order
  pub complete :
      (x : Text)
      → Named graph.nodes graph.edges x
      → ((e : WorkflowEdge) → Memᴰ e graph.edges → e.to ≡ x → Memᴰ e.from order)
      → Memᴰ x order
  pub only : (x : Text) → Memᴰ x order → Named graph.nodes graph.edges x

module _ (walk : List Text → List Text) (walks : Walks walk) (graph : WorkflowGraph) where
  abbrev all_degrees : Degrees
  all_degrees = in_degrees graph.nodes graph.edges []

  abbrev is_key : Text → Bool
  is_key x = is_some (degree x all_degrees)

  no_names : Distinct (names all_degrees)
  no_names = Distinct-in_degrees graph.nodes graph.edges [] tt

  all_counted : (x : Text) → degree x all_degrees ≡ at (is_key x) (pending [] x graph.edges)
  unfolding degree
  all_counted x = ground (arith, counted graph.nodes graph.edges [] x)

  start-Counted :
      Counted is_key (λ x. pending [] x graph.edges) [] all_degrees (walk (zero_keys all_degrees))
  start-Counted = record {
    holds = all_counted;
    queue_zero = λ x m. zero x (zero_keys_sound x all_degrees no_names (sym (walks.same _ x) ∙ m));
    taken_zero = λ x m. cc;
    apart = λ x m. refl;
    distinct = walks.keeps_distinct _ (Distinct-zero_keys all_degrees no_names);
    ready = λ x k z.
        walks.same _ x
        ∙ contains_of_mem _ x (zero_keys_complete x all_degrees (all_counted x ∙ rw (k, z)));
  }
    where
      zero :
          (x : Text)
          → degree x all_degrees ≡ some 0
          → (is_key x ≡ true) × (pending [] x graph.edges ≡ 0)
      zero x h = ground (arith, all_counted x)

  targets_known : (e : WorkflowEdge) → Memᴰ e graph.edges → is_key e.to ≡ true
  targets_known e m = in_degrees_nodes graph.nodes graph.edges [] e.to (inr (inr (e, m, refl)))

  all_drained :
      Drained is_key graph.edges targets_known
        (suc (length all_degrees))
        all_degrees
        (walk (zero_keys all_degrees))
        []
  all_drained =
      drain-Drained is_key graph.edges targets_known (suc (length all_degrees)) _ [] all_degrees _
        start-Counted (λ x. refl) tt tt
        (omega (arith, walks.as_long (zero_keys all_degrees), length-zero_keys all_degrees))

  ordered : (x : Text) → contains (onto all_drained.final []) x ≡ contains all_drained.final x
  ordered x = contains-onto all_drained.final [] x ∙ ground arith

  IsTopological-drained : IsTopological graph (onto all_drained.final [])
  IsTopological-drained = record {
    follows = Drained-Follows is_key graph.edges targets_known _ _ _ all_drained;
    distinct = Distinct-onto all_drained.final [] all_drained.distinct tt (λ x m. refl);
    complete = λ x named sources. contains_sound _ x (
        ordered x
        ∙ all_drained.complete x (in_degrees_nodes graph.nodes graph.edges [] x (inr named)) (
            all-Sourced all_drained.final x graph.edges
              (λ e m same. sym (ordered e.from) ∙ contains_of_mem _ e.from (sources e m same))));
    only = λ x m.
        known-Named graph.nodes graph.edges x
          (all_drained.only x (sym (ordered x) ∙ contains_of_mem _ x m));
  }

-- The sort always ends in an order: no degree is lowered below zero, and the fuel is enough. Whatever
-- the order in which the map is walked, every node of it stands once and behind the sources of all
-- edges into it, and a node or target is left out exactly where a source of one of its edges is.
pub topo_sort_lem :
    (walk : List Text → List Text) (graph : WorkflowGraph)
    → Walks walk
    → (order : List Text) × (topo_sort walk graph ≡ sorted order) × IsTopological graph order
unfolding topo_sort
topo_sort_lem walk graph walks =
    let drained = all_drained walk walks graph in
    (onto drained.final [], drained.runs, IsTopological-drained walk walks graph)
