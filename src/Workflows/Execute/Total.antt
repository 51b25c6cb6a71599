-- ===== src/Workflows/Execute/Total.antt =====
-- core/src/extensions/workflows/executor.rs, `execute_node`: it always gives an execution.
use root_cx.Prelude.{ℕ, ◌≡◌, refl, ap, ◌∙◌, Option, some, List, Text}
use root_cx.Prelude.Maps.{Map}
use root_cx.Workflows.Json.{Value}
use root_cx.Workflows.Graph.{ControlKind, WorkflowNodeKind, WorkflowNode, WorkflowGraph, Item}
use root_cx.Workflows.Expr.{Engine}
use root_cx.Workflows.Routing.Inputs.{collect_inputs_by_port_lem}
use root_cx.Workflows.Nodes.{flatten, execute_control_node}
use root_cx.Workflows.Nodes.Ports.{execute_switch_lem}
use root_cx.Workflows.Execute.{
  Tools, with_calls, outcome_of, execution_of, execute_with, execute_node,
}

abbrev pub Given {ℓ} : {A : Type ℓ} → Option A → Type ℓ
Given {A = A} o = (a : A) × (o ≡ some a)

execute_control_node_total :
    (engine : Engine) (control : ControlKind) (raw : Value) (items : List Item)
    (ports : List (List Item)) (outputs : Map Value)
    → Given (execute_control_node engine control raw items ports outputs)
unfolding execute_control_node
execute_control_node_total engine ControlKind.branch raw items ports outputs = (_, refl)
execute_control_node_total engine ControlKind.switch raw items ports outputs =
    let (switched, runs, _, _) = execute_switch_lem engine raw outputs items in (_, runs)
execute_control_node_total engine ControlKind.set raw items ports outputs = (_, refl)
execute_control_node_total engine ControlKind.merge raw items ports outputs = (_, refl)
execute_control_node_total engine ControlKind.stop raw items ports outputs = (_, refl)
execute_control_node_total engine ControlKind.loop raw items ports outputs = (_, refl)
execute_control_node_total engine ControlKind.wait raw items ports outputs = (_, refl)

module _ (engine : Engine) (tools : Tools) (exec_id : Text) (node : WorkflowNode)
    (outputs : Map Value) where
  outcome_of_total :
      (kind : WorkflowNodeKind) (ports : List (List Item)) (made : ℕ)
      → Given (outcome_of engine tools exec_id node kind ports outputs made)
  outcome_of_total (WorkflowNodeKind.trigger t) ports made = (_, refl)
  outcome_of_total (WorkflowNodeKind.tool name) ports made = (_, refl)
  outcome_of_total (WorkflowNodeKind.control control) ports made =
      let (o, runs) =
        execute_control_node_total engine control node.params (flatten ports) ports outputs in
      (_, ap (with_calls made) runs)
  outcome_of_total WorkflowNodeKind.code ports made = (_, refl)
  outcome_of_total (WorkflowNodeKind.sub_workflow w) ports made = (_, refl)

  pub execute_node_total :
      (graph : WorkflowGraph) (made : ℕ)
      → Given (execute_node engine tools exec_id node graph outputs made)
  unfolding execute_node
  execute_node_total graph made =
      let (ports, collected, _) = collect_inputs_by_port_lem node.id graph outputs in
      let (o, runs) = outcome_of_total node.kind ports made in
      (
        _,
        ap (execute_with engine tools exec_id node outputs made) collected
            ∙ ap (execution_of node ports) runs,
      )
