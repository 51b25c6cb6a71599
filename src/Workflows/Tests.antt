-- ===== src/Workflows/Tests.antt =====
-- Runs of the theorems on workflows at a small graph.
use root_cx.Prelude.{
  ℕ, ◌≡◌, ◌↔◌, ◌⊎◌, refl, true, not, keep, none, some, List, [], ◌∷◌, Memᴰ, Text, bytes, length,
  suc, all, arith,
}
use root_cx.Prelude.Maps.{Map, empty, insert}
use root_cx.Workflows.Json.{
  Value, null, bool, string, array, object, nil, cons, Entries, end, entry, get, empty_object,
}
use root_cx.Workflows.Graph.{
  TriggerKind, ControlKind, WorkflowNodeKind, WorkflowNode, WorkflowEdge, WorkflowGraph, Item,
  WorkflowExecutionStatus,
}
use root_cx.Workflows.Validate.{
  validate, duplicates, dangling, nodes_refs, collect_node_refs, collect_entries,
}
use root_cx.Workflows.Run.{Execution, Outside}
use root_cx.Workflows.Topo.{topo_sort, sorted}
use root_cx.Workflows.Topo.Order.{Walks, IsTopological, topo_sort_lem}
use root_cx.Workflows.Items.{encode, decode_port, active_ports}
use root_cx.Workflows.Items.RoundTrip.{at_port, IsActive, encode-decode}
use root_cx.Workflows.Expr.{Engine}
use root_cx.Workflows.Execute.{Tools, rejects}
use root_cx.Workflows.Routing.{inbound, should_execute, collect_inputs_by_port}
use root_cx.Workflows.Routing.Gate.{Started, Entered, should_execute_iff}
use root_cx.Workflows.Routing.Inputs.{arriving, collect_inputs_by_port_lem}
use root_cx.Workflows.Nodes.{
  overlay, merge_args, succeeded, switch_cases, num_cases, execute_if, execute_switch,
}
use root_cx.Workflows.Nodes.Objects.{overlay-merge_args}
use root_cx.Workflows.NodeRuns.{NodeRun, seed_resume}
use root_cx.Workflows.Runner.{Progress, Run, drive, started}
use root_cx.Workflows.Runner.Steps.{was_succeeded, AllStored, Comes}
use root_cx.Workflows.Runner.Replay.{drive_replays}
use root_cx.Workflows.Nodes.Ports.{holds, goes_to, execute_switch_lem, execute_if_lem}

abbrev start : WorkflowNode
start = record {
  id = bytes "start";
  kind = WorkflowNodeKind.trigger TriggerKind.manual;
  params = empty_object;
}

abbrev check : WorkflowNode
check = record {
  id = bytes "check";
  kind = WorkflowNodeKind.control ControlKind.branch;
  params = empty_object;
}

abbrev link : WorkflowEdge
link = record { from = bytes "start"; to = bytes "check"; from_output = 0; to_input = 0 }

abbrev graph : WorkflowGraph
graph = record { nodes = check ∷ start ∷ []; edges = link ∷ [] }

abbrev in_place : List Text → List Text
in_place keys = keys

in_place-Walks : Walks in_place
in_place-Walks = record {
  same = λ xs x. refl;
  keeps_distinct = λ xs distinct. distinct;
  as_long = λ xs. refl;
}

topo_sort_lem_example :
    (order : List Text) × (topo_sort in_place graph ≡ sorted order) × IsTopological graph order
topo_sort_lem_example = topo_sort_lem in_place graph in_place-Walks

abbrev item : Item
item = record { json = bool true }

abbrev output : List (List Item)
output = [] ∷ (item ∷ []) ∷ []

encode-decode_example :
    (decode_port (encode output) 1 ≡ at_port output 1)
    × (Memᴰ 1 (active_ports (encode output)) ↔ IsActive output 1)
encode-decode_example = encode-decode output 1 (omega arith)

abbrev active : Map (List ℕ)
active = insert (bytes "start") (0 ∷ []) empty

should_execute_iff_example :
    (should_execute (bytes "check") graph active ≡ true)
    ↔ (Started (bytes "check") graph ⊎ Entered (bytes "check") graph active)
should_execute_iff_example = should_execute_iff (bytes "check") graph active

abbrev outputs : Map Value
outputs = insert (bytes "start") (encode output) empty

collect_inputs_by_port_lem_example :
    (ports : List (List Item)) × (collect_inputs_by_port (bytes "check") graph outputs ≡ some ports)
    × ((p : ℕ) → at_port ports p ≡ arriving outputs p (inbound (bytes "check") graph))
collect_inputs_by_port_lem_example = collect_inputs_by_port_lem (bytes "check") graph outputs

abbrev params : Entries
params = entry (bytes "id") (string (bytes "1")) end

abbrev data_of_item : Entries
data_of_item = entry (bytes "id") (string (bytes "2")) (entry (bytes "name") null end)

overlay-merge_args_example :
    (get (bytes "id") (overlay (object params) (object data_of_item)) ≡ some (string (bytes "2")))
    × (get (bytes "id") (merge_args (object params) (object data_of_item))
        ≡ some (string (bytes "1")))
overlay-merge_args_example = overlay-merge_args params data_of_item (bytes "id") (refl, (refl, tt))

-- An engine that takes every expression for true.
abbrev engine : Engine
engine = record { eval = λ input outputs expr. bool true; show = λ v. [] }

abbrev empty_outputs : Map Value
empty_outputs = empty

abbrev switch_params : Value
switch_params = object (entry (bytes "cases") (array (cons (bool true) nil)) end)

execute_switch_lem_example :
    (ports : List (List Item)) × (execute_switch engine switch_params empty_outputs
        (item ∷ item ∷ [])
      ≡ some (succeeded ports))
    × (length ports
        ≡ suc (
            num_cases engine switch_params empty_outputs
              (switch_cases engine switch_params empty_outputs)))
    × ((p : ℕ)
        → at_port ports p ≡ keep (goes_to engine switch_params empty_outputs p) (item ∷ item ∷ []))
execute_switch_lem_example =
    execute_switch_lem engine switch_params empty_outputs (item ∷ item ∷ [])

execute_if_lem_example :
    execute_if engine empty_object empty_outputs (item ∷ [])
    ≡ succeeded (
        keep (holds engine empty_object empty_outputs) (item ∷ [])
        ∷ keep (λ i. not (holds engine empty_object empty_outputs i)) (item ∷ [])
        ∷ [])
execute_if_lem_example = execute_if_lem engine empty_object empty_outputs (item ∷ [])

-- The trigger has run; its tool calls and writes succeed.
abbrev prior : List NodeRun
prior =
    record {
      node_id = bytes "start";
      status = bytes "succeeded";
      input = empty_object;
      output = some (encode output);
      error = none;
      attempts = 1;
    }
    ∷ []

abbrev resumed : Run
resumed = record {
  engine = engine;
  tools = record { batch_mode = λ name. none; dispatch = λ made name args key. rejects [] };
  exec_id = bytes "7";
  graph = graph;
  done = (seed_resume prior).done;
  stored = λ n. true;
  answers = λ n. true;
}

drive_replays_example :
    (s : Progress) × Comes resumed
      (drive resumed (bytes "start" ∷ bytes "check" ∷ []) (started prior))
      s
    × (s.all_succeeded ≡ all was_succeeded s.events)
    × (AllStored resumed
        → (id : Text)
        → ((seed_resume s.rows).run_outputs id ≡ s.run_outputs id)
          × ((seed_resume s.rows).active_ports id ≡ s.active_ports id))
drive_replays_example =
    drive_replays resumed (bytes "start" ∷ bytes "check" ∷ []) prior (refl, (refl, tt)) (refl, tt)
      refl

abbrev no_tools : Tools
no_tools = record { batch_mode = λ name. none; dispatch = λ made name args key. rejects [] }

-- A delivery that finds the trigger recorded and the execution running.
abbrev redelivered : Execution
redelivered = record {
  id = bytes "7";
  run_as_user_id = bytes "ann";
  status = WorkflowExecutionStatus.running;
  graph = some graph;
  lease_msg_id = some 12;
  attempts = 1;
  error = none;
}

-- Everything goes well.
abbrev outside : Outside
outside = record {
  engine = engine;
  tools = no_tools;
  stored = λ n. true;
  answers = λ n. true;
  statements = record { loads = true; starts = true; reads = true; finishes = true };
}

graph_valid : validate graph ≡ []
unfolding validate duplicates dangling nodes_refs collect_node_refs collect_entries
graph_valid = refl
