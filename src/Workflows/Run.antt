-- ===== src/Workflows/Run.antt =====
-- core/src/extensions/workflows/runner.rs, `create_execution` and `run`: an execution from its row to
-- the final one. The clock and the lease's heartbeat are left out; a statement that fails is taken to
-- change nothing.
use root_cx.Prelude.{
  ℕ, suc, ◌+◌, ◌≡◌, Bool, true, false, ◌&&◌, Option, none, some, List, [], ◌∷◌, ◌++◌, Text, bytes,
  text_eq, ◌==◌, if◌then◌else◌,
}
use root_cx.Workflows.Json.{Value}
use root_cx.Workflows.Graph.{
  WorkflowNode, WorkflowGraph, WorkflowExecutionStatus, execution_status_name,
}
use root_cx.Workflows.Expr.{Engine}
use root_cx.Workflows.Topo.{Sorted, sorted, overflowed, ran_out, topo_sort}
use root_cx.Workflows.Routing.{is_trigger_kind}
use root_cx.Workflows.Execute.{Tools}
use root_cx.Workflows.Validate.{Issue, validate}
use root_cx.Workflows.NodeRuns.{NodeRun, seed_resume}
use root_cx.Workflows.Runner.{Progress, Run, Loop, WorkflowEvent, drive, started, publish}
use root_cx.Workflows.Runner
pub mod Ends

-- A row of workflow_executions.
pub record Execution : Type 0 where
  pub id : Text
  pub run_as_user_id : Text
  pub status : WorkflowExecutionStatus
  pub graph : Option WorkflowGraph
  pub lease_msg_id : Option ℕ
  pub attempts : ℕ
  pub error : Option Text

-- `graph.nodes.iter_mut().find(..)`: the parameters of the first trigger.
unfoldable pub with_trigger_data : Value → List WorkflowNode → List WorkflowNode
with_trigger_data td [] = []
with_trigger_data td (n ∷ nodes) =
    let rest = n ∷ with_trigger_data td nodes in
    if is_trigger_kind n.kind then record n { params = td } ∷ nodes else rest

abbrev pub snapshot : Option Value → WorkflowGraph → WorkflowGraph
snapshot none graph = graph
snapshot (some td) graph = record graph { nodes = with_trigger_data td graph.nodes }

-- `workflow` is the graph of the workflow if it is found and enabled, `id` a fresh one.
unfoldable pub create_execution :
    Option WorkflowGraph → Text → Text → Option Value → Option ℕ → Option Execution
create_execution none id user_id trigger_data lease_msg_id = none
create_execution (some graph) id user_id trigger_data lease_msg_id = some (record {
  id = id;
  run_as_user_id = user_id;
  status = WorkflowExecutionStatus.queued;
  graph = some (snapshot trigger_data graph);
  lease_msg_id = lease_msg_id;
  attempts = 0;
  error = none;
})

abbrev pub is_open : WorkflowExecutionStatus → Bool
is_open WorkflowExecutionStatus.queued = true
is_open WorkflowExecutionStatus.running = true
is_open _ = false

abbrev pub leased_by : Option ℕ → ℕ → Bool
leased_by none msg_id = false
leased_by (some m) msg_id = m == msg_id

abbrev pub is_runnable : Text → ℕ → Execution → Bool
is_runnable user_id lease_msg_id exec =
    text_eq exec.run_as_user_id user_id
    && (leased_by exec.lease_msg_id lease_msg_id && is_open exec.status)

-- The rows are those of the table, the newest first.
unfoldable pub inflight_for_lease : List Execution → ℕ → Option Text
inflight_for_lease [] msg_id = none
inflight_for_lease (exec ∷ rows) msg_id =
    let older = inflight_for_lease rows msg_id in
    if leased_by exec.lease_msg_id msg_id && is_open exec.status then some exec.id else older

-- Which of the statements of `run` succeed: the SELECT of the execution, the UPDATE that makes it
-- running, the SELECT of its node runs, and the UPDATE at the end.
pub record Statements : Type 0 where
  pub loads : Bool
  pub starts : Bool
  pub reads : Bool
  pub finishes : Bool

-- An error before the row is changed.
pub data Refusal : Type 0 where
  load_failed mismatch no_graph start_failed : Refusal
  invalid : List Issue → Refusal

-- With the row as it is left, and the progress where there is one.
pub data Ran : Type 0 where
  refused : Refusal → Ran
  panics : Ran
  read_failed : Execution → Ran
  hangs : Execution → Progress → Ran
  finish_failed : Execution → Progress → Ran
  ended : Execution → Progress → Ran

abbrev pub begun : Execution → Execution
begun exec = record exec { status = WorkflowExecutionStatus.running; attempts = suc exec.attempts }

abbrev pub final_status : Progress → WorkflowExecutionStatus
final_status s =
    if s.all_succeeded then WorkflowExecutionStatus.succeeded else WorkflowExecutionStatus.failed

abbrev pub finished : Execution → Progress → Execution
finished exec s = record exec {
  status = final_status s;
  error = s.first_error;
  lease_msg_id = none;
}

abbrev pub end_of : Bool → Execution → Loop → Ran
end_of finishes exec Loop.panics = panics
end_of finishes exec (Loop.hangs s) = hangs exec s
end_of false exec (Loop.ends s) = finish_failed exec s
end_of true exec (Loop.ends s) =
    ended (finished exec s)
      (publish (Runner.done (execution_status_name (final_status s)) s.first_error) s)

-- What the statements and the executions of the nodes come to: `stored` and `answers` as in `Run`.
pub record Outside : Type 0 where
  pub engine : Engine
  pub tools : Tools
  pub stored : ℕ → Bool
  pub answers : ℕ → Bool
  pub statements : Statements

abbrev pub run_for : Outside → Text → WorkflowGraph → List NodeRun → Run
run_for outside exec_id graph prior = record {
  engine = outside.engine;
  tools = outside.tools;
  exec_id = exec_id;
  graph = graph;
  done = (seed_resume prior).done;
  stored = outside.stored;
  answers = outside.answers;
}

abbrev pub along : (List Text → Ran) → Sorted → Ran
along next (sorted order) = next order
along next overflowed = panics
along next ran_out = panics

abbrev pub unless_invalid : List Issue → Ran → Ran
unless_invalid [] next = next
unless_invalid (e ∷ errors) next = refused (invalid (e ∷ errors))

-- From the UPDATE that makes the row running, on the row as this leaves it.
abbrev pub run_begun :
    Outside → (List Text → List Text) → Execution → List NodeRun → WorkflowGraph → Ran
run_begun outside walk exec prior graph =
    along
      (λ order.
        if outside.statements.reads
        then end_of outside.statements.finishes exec
            (drive (run_for outside exec.id graph prior) order (started prior))
        else read_failed exec)
      (topo_sort walk graph)

abbrev pub run_graph :
    Outside → (List Text → List Text) → Execution → List NodeRun → Option WorkflowGraph → Ran
run_graph outside walk exec prior none = refused no_graph
run_graph outside walk exec prior (some graph) = unless_invalid (validate graph) (
    if outside.statements.starts
    then run_begun outside walk (begun exec) prior graph
    else refused start_failed)

-- `prior` is what the node runs of the execution are, `walk` the order of a `HashMap`.
unfoldable pub run : Outside → (List Text → List Text) → Text → ℕ → Execution → List NodeRun → Ran
run outside walk user_id lease_msg_id exec prior =
    if outside.statements.loads
    then if is_runnable user_id lease_msg_id exec
      then run_graph outside walk exec prior exec.graph
      else refused mismatch
    else refused load_failed
