-- ===== src/Workflows/Validate.antt =====
-- core/src/extensions/workflows/validate.rs: the issues of a graph, in the order in which they are
-- found. The message of an issue is its constructor.
use root_cx.Prelude.{
  ℕ, zero, suc, ◌≡◌, Bool, true, false, not, ◌&&◌, ◌||◌, Option, none, some, List, [], ◌∷◌, ◌++◌,
  map, Text, bytes, text_eq, any, length, if◌then◌else◌,
}
use root_cx.Prelude.Sets.{contains}
use root_cx.Workflows.Json.{
  Value, null, bool, number, string, array, object, Values, nil, cons, Entries, end, entry,
}
use root_cx.Workflows.Graph.{WorkflowNode, WorkflowEdge, WorkflowGraph}
use root_cx.Workflows.Expr.{split_once}
use root_cx.Workflows.Routing.{is_trigger_kind}
pub mod Sound

pub data Issue : Type 0 where
  duplicate : Text → Issue
  no_trigger : Issue
  no_source : Text → Issue
  no_target : Text → Issue
  no_node : Text → Issue

abbrev pub node_ids : WorkflowGraph → List Text
node_ids graph = map (λ (n : WorkflowNode). n.id) graph.nodes

-- `!seen.insert(id)`, with what was seen. Where as many ids are in the set as in the list there is none.
unfoldable pub duplicates : List Text → List Text → List Issue
duplicates seen [] = []
duplicates seen (id ∷ ids) =
    let rest = duplicates (id ∷ seen) ids in if contains seen id then duplicate id ∷ rest else rest

abbrev pub missing : Bool → Issue → List Issue
missing present issue = if present then [] else issue ∷ []

unfoldable pub dangling : List Text → List WorkflowEdge → List Issue
dangling ids [] = []
dangling ids (e ∷ edges) =
    missing (contains ids e.from) (no_source e.from)
    ++ (missing (contains ids e.to) (no_target e.to) ++ dangling ids edges)

abbrev pub names_node : Text → Issue → Bool
names_node id (no_node other) = text_eq id other
names_node id _ = false

-- `if !errors.contains(&msg) { errors.push(msg) }`, for an id that is not valid.
abbrev pub note : List Text → Text → List Issue → List Issue
note ids id errors =
    if contains ids id
    then errors
    else if any (names_node id) errors
    then errors
    else errors ++ no_node id ∷ []

abbrev pub on_part {ℓ} : {A : Type ℓ} → Option (Text × Text) → A → (Text → Text → A) → A
on_part none otherwise found = otherwise
on_part (some (before, after)) otherwise found = found before after

-- The `while` loop for one pattern; `fuel` is at least the length of `rest`.
unfoldable pub refs_from : ℕ → Text → Text → List Text → Text → List Issue → List Issue
refs_from zero pat quote ids rest errors = errors
refs_from (suc fuel) pat quote ids rest errors =
    on_part (split_once rest pat) errors (λ before after.
      on_part (split_once after quote) errors
        (λ node_id tail. refs_from fuel pat quote ids tail (note ids node_id errors)))

abbrev pub pattern_double : Text
pattern_double = bytes "$node[" ++ b'"' ∷ []

abbrev pub pattern_single : Text
pattern_single = bytes "$node['"

unfoldable pub extract_node_refs : List Text → Text → List Issue → List Issue
extract_node_refs ids s errors =
    refs_from (length s) pattern_single (b'\'' ∷ []) ids s
      (refs_from (length s) pattern_double (b'"' ∷ []) ids s errors)

unfoldable mutual
  unfolding extract_node_refs

  pub collect_node_refs : List Text → Value → List Issue → List Issue
  collect_node_refs ids (string s) errors = extract_node_refs ids s errors
  collect_node_refs ids (object entries) errors = collect_entries ids entries errors
  collect_node_refs ids (array values) errors = collect_values ids values errors
  collect_node_refs ids null errors = errors
  collect_node_refs ids (bool b) errors = errors
  collect_node_refs ids (number n) errors = errors

  pub collect_values : List Text → Values → List Issue → List Issue
  collect_values ids nil errors = errors
  collect_values ids (cons v vs) errors = collect_values ids vs (collect_node_refs ids v errors)

  pub collect_entries : List Text → Entries → List Issue → List Issue
  collect_entries ids end errors = errors
  collect_entries ids (entry k v rest) errors =
      collect_entries ids rest (collect_node_refs ids v errors)

unfoldable pub nodes_refs : List Text → List WorkflowNode → List Issue → List Issue
nodes_refs ids [] errors = errors
nodes_refs ids (n ∷ nodes) errors = nodes_refs ids nodes (collect_node_refs ids n.params errors)

abbrev pub has_trigger : WorkflowGraph → Bool
has_trigger graph = any (λ (n : WorkflowNode). is_trigger_kind n.kind) graph.nodes

-- The empty list is `Ok(())`.
unfoldable pub validate : WorkflowGraph → List Issue
validate graph =
    let ids = node_ids graph in
    nodes_refs ids graph.nodes
      (duplicates [] ids ++ (missing (has_trigger graph) no_trigger ++ dangling ids graph.edges))
