-- ===== src/Workflows/Validate/Sound.antt =====
-- core/src/extensions/workflows/validate.rs: what a graph without issues is.
use root_cx.Prelude.{
  ℕ, zero, suc, ◌≡◌, refl, sym, ap, ◌∙◌, inl, inr, Bool, true, false, Bool-cases, Option-cases,
  List, [], ◌∷◌, ◌++◌, Memᴰ, Text, text_eq, or_left, or_right, text_eq_refl, text_eq_sound, length,
  arith,
}
use root_cx.Prelude.Sets.{contains, contains_sound, Distinct}
use root_cx.Workflows.Json.{
  Value, null, bool, number, string, array, object, Values, nil, cons, Entries, end, entry,
}
use root_cx.Workflows.Graph.{WorkflowNode, WorkflowEdge, WorkflowGraph}
use root_cx.Workflows.Expr.{split_once}
use root_cx.Workflows.Validate.{
  Issue, no_trigger, no_source, no_target, node_ids, duplicates, missing, dangling, note, refs_from,
  extract_node_refs, collect_node_refs, collect_values, collect_entries, nodes_refs, has_trigger,
  validate,
}

append-empty : (xs ys : List Issue) → xs ++ ys ≡ [] → (xs ≡ []) × (ys ≡ [])
append-empty [] ys h = (refl, h)
append-empty (x ∷ xs) ys h = cc

missing-empty : (present : Bool) (issue : Issue) → missing present issue ≡ [] → present ≡ true
missing-empty true issue h = refl
missing-empty false issue h = cc

note_keeps :
    (ids : List Text) (id : Text) (errors : List Issue) → note ids id errors ≡ [] → errors ≡ []
note_keeps ids id [] h = refl
note_keeps ids id (e ∷ errors) h = ground arith

refs_from_keeps :
    (fuel : ℕ) (pat quote : Text) (ids : List Text) (rest : Text) (errors : List Issue)
    → refs_from fuel pat quote ids rest errors ≡ []
    → errors ≡ []
unfolding refs_from
refs_from_keeps zero pat quote ids rest errors h = h
refs_from_keeps (suc fuel) pat quote ids rest errors h = elim (Option-cases (split_once rest pat)) [
  | inl absent ↦ rw absent at h
  | inr ((before, after), found) ↦ elim (Option-cases (split_once after quote)) [
    | inl unclosed ↦ rw (found, unclosed) at h
    | inr ((node_id, tail), closed) ↦ note_keeps ids node_id errors (
        refs_from_keeps fuel pat quote ids tail (note ids node_id errors) (rw (found, closed) at h))
  ]
]

extract_node_refs_keeps :
    (ids : List Text) (s : Text) (errors : List Issue)
    → extract_node_refs ids s errors ≡ []
    → errors ≡ []
unfolding extract_node_refs
extract_node_refs_keeps ids s errors h =
    refs_from_keeps (length s) _ _ ids s errors (refs_from_keeps (length s) _ _ ids s _ h)

mutual
  unfolding collect_node_refs collect_values collect_entries

  collect_node_refs_keeps :
      (ids : List Text) (v : Value) (errors : List Issue)
      → collect_node_refs ids v errors ≡ []
      → errors ≡ []
  collect_node_refs_keeps ids (string s) errors h = extract_node_refs_keeps ids s errors h
  collect_node_refs_keeps ids (object entries) errors h = collect_entries_keeps ids entries errors h
  collect_node_refs_keeps ids (array values) errors h = collect_values_keeps ids values errors h
  collect_node_refs_keeps ids null errors h = h
  collect_node_refs_keeps ids (bool b) errors h = h
  collect_node_refs_keeps ids (number n) errors h = h

  collect_values_keeps :
      (ids : List Text) (vs : Values) (errors : List Issue)
      → collect_values ids vs errors ≡ []
      → errors ≡ []
  collect_values_keeps ids nil errors h = h
  collect_values_keeps ids (cons v vs) errors h =
      collect_node_refs_keeps ids v errors (collect_values_keeps ids vs _ h)

  collect_entries_keeps :
      (ids : List Text) (es : Entries) (errors : List Issue)
      → collect_entries ids es errors ≡ []
      → errors ≡ []
  collect_entries_keeps ids end errors h = h
  collect_entries_keeps ids (entry k v rest) errors h =
      collect_node_refs_keeps ids v errors (collect_entries_keeps ids rest _ h)

nodes_refs_keeps :
    (ids : List Text) (nodes : List WorkflowNode) (errors : List Issue)
    → nodes_refs ids nodes errors ≡ []
    → errors ≡ []
unfolding nodes_refs
nodes_refs_keeps ids [] errors h = h
nodes_refs_keeps ids (n ∷ nodes) errors h =
    collect_node_refs_keeps ids n.params errors (nodes_refs_keeps ids nodes _ h)

-- An id that is seen does not come again.
duplicates-unseen :
    (ids seen : List Text) (id : Text)
    → duplicates seen ids ≡ []
    → contains seen id ≡ true
    → contains ids id ≡ false
unfolding duplicates
duplicates-unseen [] seen id h s = refl
duplicates-unseen (x ∷ ids) seen id h s = elim (Bool-cases (contains seen x)) [
  | inl t ↦ cc (rw t at h)
  | inr f ↦
      let rest : duplicates (x ∷ seen) ids ≡ [] = rw f at h in
      rw (other id x s f) (duplicates-unseen ids (x ∷ seen) id rest (or_right (text_eq id x) _ s))
]
  where
    other : (id x : Text) → contains seen id ≡ true → contains seen x ≡ false → text_eq id x ≡ false
    other id x s f = elim (Bool-cases (text_eq id x)) [
      | inr d ↦ d
      | inl t ↦ cc (sym s ∙ ap (contains seen) (text_eq_sound id x t) ∙ f)
    ]

duplicates-Distinct : (ids seen : List Text) → duplicates seen ids ≡ [] → Distinct ids
unfolding duplicates
duplicates-Distinct [] seen h = tt
duplicates-Distinct (x ∷ ids) seen h = elim (Bool-cases (contains seen x)) [
  | inl t ↦ cc (rw t at h)
  | inr f ↦
      let rest : duplicates (x ∷ seen) ids ≡ [] = rw f at h in
      (
        duplicates-unseen ids (x ∷ seen) x rest (or_left _ _ (text_eq_refl x)),
        duplicates-Distinct ids (x ∷ seen) rest,
      )
]

-- A graph that a run may follow: no two nodes share an id, one is a trigger, and the edges lead from
-- nodes to nodes.
pub record IsSound (graph : WorkflowGraph) : Type 0 where
  pub distinct : Distinct (node_ids graph)
  pub triggered : has_trigger graph ≡ true
  pub sources : (e : WorkflowEdge) → Memᴰ e graph.edges → Memᴰ e.from (node_ids graph)
  pub targets : (e : WorkflowEdge) → Memᴰ e graph.edges → Memᴰ e.to (node_ids graph)

dangling-empty :
    (ids : List Text) (edges : List WorkflowEdge) {e : WorkflowEdge}
    → dangling ids edges ≡ []
    → Memᴰ e edges
    → (contains ids e.from ≡ true) × (contains ids e.to ≡ true)
unfolding dangling
dangling-empty ids [] h m = elim m [ ]
dangling-empty ids (f ∷ edges) h m =
    let (from, rest) = append-empty (missing (contains ids f.from) (no_source f.from)) _ h in
    let (to, later) = append-empty (missing (contains ids f.to) (no_target f.to)) _ rest in
    elim m [
      | Memᴰ.head same ↦ (
        ap (λ (g : WorkflowEdge). contains ids g.from) same ∙ missing-empty _ _ from,
        ap (λ (g : WorkflowEdge). contains ids g.to) same ∙ missing-empty _ _ to,
      )
      | Memᴰ.tail at ↦ dangling-empty ids edges later at
    ]

pub validate-IsSound : (graph : WorkflowGraph) → validate graph ≡ [] → IsSound graph
unfolding validate
validate-IsSound graph h =
    let ids = node_ids graph in
    let structure = nodes_refs_keeps ids graph.nodes _ h in
    let (no_duplicate, rest) = append-empty (duplicates [] ids) _ structure in
    let (trigger, edges) = append-empty (missing (has_trigger graph) no_trigger) _ rest in
    record {
      distinct = duplicates-Distinct ids [] no_duplicate;
      triggered = missing-empty _ _ trigger;
      sources = λ e m. contains_sound ids e.from (dangling-empty ids graph.edges edges m).0;
      targets = λ e m. contains_sound ids e.to (dangling-empty ids graph.edges edges m).1;
    }
