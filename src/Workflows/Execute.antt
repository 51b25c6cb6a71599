-- ===== src/Workflows/Execute.antt =====
-- core/src/extensions/workflows/executor.rs, `execute_tool_node` and `execute_node`, and the modes of
-- tools/mod.rs. The tools are an argument: for each name its declared mode, and what the n-th call of
-- the run answers.
use root_cx.Prelude.{
  ℕ, zero, suc, ◌+◌, Bool, true, false, Option, none, some, List, [], ◌∷◌, ◌++◌, map, Text, bytes,
  text_eq, if◌then◌else◌,
}
use root_cx.Prelude.Maps.{Map}
use root_cx.Rules.Emit.{decimal}
use root_cx.Workflows.Json.{
  Value, null, bool, number, string, array, object, Values, nil, cons, Entries, end, entry,
  elements, values_of, get, as_str, empty_object,
}
use root_cx.Workflows.Graph.{
  ControlKind, WorkflowNodeKind, WorkflowNode, WorkflowGraph, Item, WorkflowNodeRunStatus,
}
use root_cx.Workflows.Expr.{Engine, resolve}
use root_cx.Workflows.Items.{encode}
use root_cx.Workflows.Routing.{collect_inputs_by_port}
use root_cx.Workflows.Nodes.{
  Outcome, succeeded, failed, not_implemented, merge_args, flatten, execute_control_node,
}
pub mod Total

pub data BatchMode : Type 0 where
  per_item once : BatchMode

unfoldable pub parse_mode : Text → Option BatchMode
parse_mode s =
    if text_eq s (bytes "once")
    then some once
    else if text_eq s (bytes "perItem")
    then some per_item
    else none

-- `DispatchError` is its message.
pub data Answer : Type 0 where
  answers : Value → Answer
  rejects : Text → Answer

pub record Tools : Type 0 where
  pub batch_mode : Text → Option BatchMode
  pub dispatch : ℕ → Text → Value → Text → Answer

-- `o.remove("batchMode")`
abbrev pub remove_entry : Text → Entries → Entries
remove_entry key end = end
remove_entry key (entry k v rest) =
    let later = entry k v (remove_entry key rest) in if text_eq k key then rest else later

abbrev pub without_mode : Value → Value
without_mode (object entries) = object (remove_entry (bytes "batchMode") entries)
without_mode v = v

abbrev pub or_mode : Option BatchMode → BatchMode → BatchMode
or_mode none declared = declared
or_mode (some m) declared = m

abbrev pub asked_mode : Option Value → Option BatchMode
asked_mode (some (string s)) = parse_mode s
asked_mode _ = none

abbrev pub blank : Item
blank = record { json = empty_object }

abbrev pub to_process : BatchMode → List Item → List Item
to_process once items = blank ∷ []
to_process per_item [] = blank ∷ []
to_process per_item (item ∷ items) = item ∷ items

abbrev pub item_of : Value → Item
item_of v = record { json = v }

-- The arrays among the values of an object.
abbrev pub arrays_in : Entries → List Values
arrays_in end = []
arrays_in (entry k (array vs) rest) = vs ∷ arrays_in rest
arrays_in (entry k _ rest) = arrays_in rest

abbrev pub expanded : Value → List Values → List Item
expanded v (vs ∷ []) = map item_of (elements vs)
expanded v _ = item_of v ∷ []

unfoldable pub normalize_tool_output : Value → List Item
normalize_tool_output (array vs) = map item_of (elements vs)
normalize_tool_output (object entries) = expanded (object entries) (arrays_in entries)
normalize_tool_output v = item_of v ∷ []

-- The outcome, and how many calls the run has made since its start.
abbrev pub Made : Type 0
Made = Outcome × ℕ

abbrev pub key_for : Text → ℕ → Text
key_for idem_base i = idem_base ++ (bytes ":" ++ decimal i)

abbrev pub on_answer : Answer → (Value → Made) → ℕ → Made
on_answer (answers v) next made = next v
on_answer (rejects e) next made = (failed e, made)

-- The loop over the items, from the `i`-th on.
unfoldable pub dispatch_items :
    Engine → Tools → Text → Value → Text → Map Value → ℕ → List Item → List Item → ℕ → Made
dispatch_items engine tools name params idem_base outputs i [] output made =
    (succeeded (output ∷ []), made)
dispatch_items engine tools name params idem_base outputs i (item ∷ items) output made =
    let args = merge_args (resolve engine params item.json outputs) item.json in
    on_answer (tools.dispatch made name args (key_for idem_base i))
      (λ v.
        dispatch_items engine tools name params idem_base outputs (suc i) items
          (output ++ normalize_tool_output v) (suc made))
      (suc made)

abbrev pub run_tool :
    Engine → Tools → Text → Value → List Item → Text → Map Value → ℕ → Option BatchMode → Made
run_tool engine tools name raw items idem_base outputs made none =
    (failed (bytes "unknown tool: " ++ name), made)
run_tool engine tools name raw items idem_base outputs made (some declared) =
    let mode = or_mode (asked_mode (get (bytes "batchMode") raw)) declared in
    dispatch_items engine tools name (without_mode raw) idem_base outputs 0 (to_process mode items)
      [] made

unfoldable pub execute_tool_node :
    Engine → Tools → Text → Value → List Item → Text → Map Value → ℕ → Made
execute_tool_node engine tools name raw items idem_base outputs made =
    run_tool engine tools name raw items idem_base outputs made (tools.batch_mode name)

unfoldable pub items_to_json : List Item → Value
items_to_json [] = empty_object
items_to_json (item ∷ []) = item.json
items_to_json (item ∷ other ∷ items) =
    array (values_of (map (λ (i : Item). i.json) (item ∷ other ∷ items)))

pub record NodeExecution : Type 0 where
  pub status : WorkflowNodeRunStatus
  pub output_json : Value
  pub input_json : Value
  pub error : Option Text
  pub halt : Bool
  pub made : ℕ

abbrev pub halts : WorkflowNodeKind → Bool
halts (WorkflowNodeKind.control ControlKind.stop) = true
halts _ = false

abbrev pub with_calls : ℕ → Option Outcome → Option Made
with_calls made none = none
with_calls made (some o) = some (o, made)

abbrev pub outcome_of :
    Engine
    → Tools
    → Text
    → WorkflowNode
    → WorkflowNodeKind
    → List (List Item)
    → Map Value
    → ℕ
    → Option Made
outcome_of engine tools exec_id node (WorkflowNodeKind.trigger _) ports outputs made =
    some (succeeded ((record { json = node.params } ∷ []) ∷ []), made)
outcome_of engine tools exec_id node (WorkflowNodeKind.tool name) ports outputs made = some (
    execute_tool_node engine tools name node.params (flatten ports)
      (exec_id ++ (bytes ":" ++ node.id)) outputs made)
outcome_of engine tools exec_id node (WorkflowNodeKind.control control) ports outputs made =
    with_calls made (execute_control_node engine control node.params (flatten ports) ports outputs)
outcome_of engine tools exec_id node WorkflowNodeKind.code ports outputs made =
    some (not_implemented, made)
outcome_of engine tools exec_id node (WorkflowNodeKind.sub_workflow _) ports outputs made =
    some (not_implemented, made)

abbrev pub execution_of : WorkflowNode → List (List Item) → Option Made → Option NodeExecution
execution_of node ports none = none
execution_of node ports (some (o, made)) = some (record {
  status = o.status;
  output_json = encode o.ports;
  input_json = items_to_json (flatten ports);
  error = o.error;
  halt = halts node.kind;
  made = made;
})

abbrev pub execute_with :
    Engine
    → Tools
    → Text
    → WorkflowNode
    → Map Value
    → ℕ
    → Option (List (List Item))
    → Option NodeExecution
execute_with engine tools exec_id node outputs made none = none
execute_with engine tools exec_id node outputs made (some ports) =
    execution_of node ports (outcome_of engine tools exec_id node node.kind ports outputs made)

-- `none` is a panic.
unfoldable pub execute_node :
    Engine → Tools → Text → WorkflowNode → WorkflowGraph → Map Value → ℕ → Option NodeExecution
execute_node engine tools exec_id node graph outputs made =
    execute_with engine tools exec_id node outputs made
      (collect_inputs_by_port node.id graph outputs)
