-- ===== src/Workflows/Routing.antt =====
-- core/src/extensions/workflows/executor.rs: which nodes run, and with which items.
use root_cx.Prelude.{
  ℕ, zero, suc, ◌+◌, Bool, true, false, ◌||◌, Option, none, some, List, [], ◌∷◌, ◌++◌, map, Text,
  text_eq, any, keep, ltb, ◌==◌, if◌then◌else◌,
}
use root_cx.Prelude.Maps.{Map}
use root_cx.Workflows.Json.{Value}
use root_cx.Workflows.Graph.{WorkflowNodeKind, WorkflowNode, WorkflowEdge, WorkflowGraph, Item}
use root_cx.Workflows.Items.{decode_port}
pub mod Gate
pub mod Inputs

unfoldable pub find_node : Text → List WorkflowNode → Option WorkflowNode
find_node id [] = none
find_node id (n ∷ nodes) = let rest = find_node id nodes in if text_eq n.id id then some n else rest

abbrev pub is_trigger_kind : WorkflowNodeKind → Bool
is_trigger_kind (WorkflowNodeKind.trigger _) = true
is_trigger_kind _ = false

abbrev pub is_trigger : Option WorkflowNode → Bool
is_trigger none = false
is_trigger (some n) = is_trigger_kind n.kind

abbrev pub inbound : Text → WorkflowGraph → List WorkflowEdge
inbound node_id graph = keep (λ e. text_eq e.to node_id) graph.edges

abbrev pub active_at : Option (List ℕ) → ℕ → Bool
active_at none port = false
active_at (some ports) port = any (λ p. p == port) ports

abbrev pub any_active : List WorkflowEdge → Map (List ℕ) → Bool
any_active edges active_ports =
    any (λ (e : WorkflowEdge). active_at (active_ports e.from) e.from_output) edges

abbrev pub routed : List WorkflowEdge → Bool → Map (List ℕ) → Bool
routed [] trigger active_ports = trigger
routed (e ∷ edges) trigger active_ports = any_active (e ∷ edges) active_ports

unfoldable pub should_execute : Text → WorkflowGraph → Map (List ℕ) → Bool
should_execute node_id graph active_ports =
    routed (inbound node_id graph) (is_trigger (find_node node_id graph.nodes)) active_ports

abbrev pub max_with : ℕ → Option ℕ → Option ℕ
max_with i none = some i
max_with i (some m) = some (if ltb m i then i else m)

-- `inbound.iter().map(|e| e.to_input).max()`
abbrev pub max_port : List WorkflowEdge → Option ℕ
max_port [] = none
max_port (e ∷ edges) = max_with e.to_input (max_port edges)

abbrev pub empty_ports : ℕ → List (List Item)
empty_ports zero = [] ∷ []
empty_ports (suc n) = [] ∷ empty_ports n

-- `ports[i].extend(items)`; out of range it panics.
unfoldable pub extend_at : List (List Item) → ℕ → List Item → Option (List (List Item))
extend_at [] i items = none
extend_at (port ∷ ports) zero items = some ((port ++ items) ∷ ports)
extend_at (port ∷ ports) (suc i) items = elim (extend_at ports i items) [
  | none ↦ none
  | some rest ↦ some (port ∷ rest)
]

-- The items that come over an edge.
abbrev pub over : Map Value → WorkflowEdge → List Item
over run_outputs e = elim (run_outputs e.from) [
  | none ↦ []
  | some output ↦ decode_port output e.from_output
]

abbrev pub and_then :
    Option (List (List Item))
    → (List (List Item) → Option (List (List Item)))
    → Option (List (List Item))
and_then none next = none
and_then (some ports) next = next ports

-- The loop over the inbound edges. An edge from a node with no output extends its port by nothing.
unfoldable pub fill : Map Value → List WorkflowEdge → List (List Item) → Option (List (List Item))
fill run_outputs [] ports = some ports
fill run_outputs (e ∷ edges) ports =
    and_then (extend_at ports e.to_input (over run_outputs e)) (fill run_outputs edges)

abbrev pub from_port : Map Value → List WorkflowEdge → Option ℕ → Option (List (List Item))
from_port run_outputs edges none = some []
from_port run_outputs edges (some last) = fill run_outputs edges (empty_ports last)

-- `none` is a panic.
unfoldable pub collect_inputs_by_port : Text → WorkflowGraph → Map Value → Option (List (List Item))
collect_inputs_by_port node_id graph run_outputs =
    from_port run_outputs (inbound node_id graph) (max_port (inbound node_id graph))
