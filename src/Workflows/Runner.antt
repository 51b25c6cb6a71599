-- ===== src/Workflows/Runner.antt =====
-- core/src/extensions/workflows/runner.rs: a durable run. Its node runs are rows that the caller may
-- hold back, write by write, as `let _ =` lets them fail, and each execution of a node may be one that
-- is not reached or does not return. The clock and the lease's renewal are left out.
use root_cx.Prelude.{
  ℕ, zero, suc, ◌+◌, ◌*◌, ◌-◌, ◌%◌, ◌^◌, Bool, true, false, ◌&&◌, ◌||◌, Option, none, some, List,
  [], ◌∷◌, ◌++◌, Text, bytes, text_eq, ltb, if◌then◌else◌,
}
use root_cx.Prelude.Sets.{contains}
use root_cx.Prelude.Maps.{Map, empty, insert}
use root_cx.Workflows.Json.{Value, Number, bool, number, string, array, nil, cons, get, one_entry}
use root_cx.Workflows.Graph.{WorkflowNode, WorkflowGraph, WorkflowNodeRunStatus, status_name}
use root_cx.Workflows.Items.{active_ports}
use root_cx.Workflows.Expr.{Engine}
use root_cx.Workflows.Routing.{should_execute}
use root_cx.Workflows.Execute.{Tools, NodeExecution, execute_node}
use root_cx.Workflows.NodeRuns.{
  NodeRun, upsert, Resume, with_output, add_done, seed_row, seed_rows, seed_resume,
}
pub mod Rows
pub mod Steps
pub mod Replay

pub record RetryPolicy : Type 0 where
  pub max_attempts : ℕ
  pub backoff_ms : ℕ
  pub continue_on_error : Bool

abbrev pub field_of : Text → Option Value → Option Value
field_of key none = none
field_of key (some v) = get key v

abbrev pub u64_or : ℕ → Option Value → ℕ
u64_or default (some (number (Number.unsigned n))) = n
u64_or default _ = default

abbrev pub bool_or : Bool → Option Value → Bool
bool_or default (some (bool b)) = b
bool_or default _ = default

-- `.max(1) as u32`
abbrev pub at_least_one : ℕ → ℕ
at_least_one n = (if ltb n 1 then 1 else n) % 2 ^ 32

unfoldable pub retry_policy : WorkflowNode → RetryPolicy
retry_policy node =
    let r = get (bytes "retry") node.params in
    record {
      max_attempts = at_least_one (u64_or 1 (field_of (bytes "maxAttempts") r));
      backoff_ms = u64_or 500 (field_of (bytes "backoffMs") r);
      continue_on_error = bool_or false (get (bytes "continueOnError") node.params);
    }

pub data WorkflowEvent : Type 0 where
  node : Text → Text → Value → Option Text → WorkflowEvent
  done : Text → Option Text → WorkflowEvent

-- What the loop changes, with the rows, the events in the order of their publication, how many tool
-- calls and writes were made, how many executions of a node have returned, and the milliseconds slept.
pub record Progress : Type 0 where
  pub active_ports : Map (List ℕ)
  pub run_outputs : Map Value
  pub all_succeeded : Bool
  pub first_error : Option Text
  pub aborted : Bool
  pub halted : Bool
  pub rows : List NodeRun
  pub events : List WorkflowEvent
  pub made : ℕ
  pub written : ℕ
  pub returned : ℕ
  pub slept : ℕ

-- What the loop reads; `stored n` is false where the n-th write of the run fails, `answers n` where the
-- n-th execution of a node does not return, as a tool or a script hangs, or the pause before it is
-- without end.
pub record Run : Type 0 where
  pub engine : Engine
  pub tools : Tools
  pub exec_id : Text
  pub graph : WorkflowGraph
  pub done : List Text
  pub stored : ℕ → Bool
  pub answers : ℕ → Bool

-- What the loop comes to: it may be left in a node's execution that does not return.
pub data Loop : Type 0 where
  ends hangs : Progress → Loop
  panics : Loop

unfoldable pub persist_node_run : (ℕ → Bool) → NodeRun → Progress → Progress
persist_node_run stored row s = record s {
  rows = if stored s.written then upsert row s.rows else s.rows;
  written = suc s.written;
}

abbrev pub row_for : Text → WorkflowNodeRunStatus → NodeExecution → Value → ℕ → NodeRun
row_for node_id status ex output attempt = record {
  node_id = node_id;
  status = status_name status;
  input = ex.input_json;
  output = some output;
  error = ex.error;
  attempts = attempt;
}

abbrev pub is_failed : WorkflowNodeRunStatus → Bool
is_failed WorkflowNodeRunStatus.failed = true
is_failed _ = false

abbrev pub text_or_empty : Option Text → Text
text_or_empty none = []
text_or_empty (some t) = t

-- `json!([[{ "json": { "error": .. } }]])`
abbrev pub error_output : Option Text → Value
error_output error =
    let item =
      one_entry (bytes "json") (one_entry (bytes "error") (string (text_or_empty error))) in
    array (cons (array (cons item nil)) nil)

abbrev pub recorded : RetryPolicy → NodeExecution → WorkflowNodeRunStatus × Value
recorded policy ex =
    if is_failed ex.status && policy.continue_on_error
    then (WorkflowNodeRunStatus.succeeded, error_output ex.error)
    else (ex.status, ex.output_json)

-- `ex.error.clone().or_else(|| Some("node failed".into()))`
abbrev pub error_or_failed : Option Text → Option Text
error_or_failed none = some (bytes "node failed")
error_or_failed (some e) = some e

abbrev pub first_of_two : Option Text → Option Text → Option Text
first_of_two none other = other
first_of_two (some e) other = some e

abbrev pub unsettled : WorkflowNodeRunStatus → Option Text → Progress → Progress
unsettled status error s = record s {
  all_succeeded = false;
  first_error = first_of_two s.first_error (error_or_failed error);
  aborted = s.aborted || is_failed status;
}

-- The branches on `rec_status`.
abbrev pub settle : Text → WorkflowNodeRunStatus → Value → Option Text → Progress → Progress
settle node_id WorkflowNodeRunStatus.succeeded output error s = record s {
  active_ports = insert node_id (active_ports output) s.active_ports;
  run_outputs = insert node_id output s.run_outputs;
}
settle node_id status output error s = unsettled status error s

abbrev pub publish : WorkflowEvent → Progress → Progress
publish event s = record s { events = s.events ++ event ∷ [] }

abbrev pub mark_halted : Bool → Progress → Progress
mark_halted halt s = record s { halted = s.halted || halt }

-- The end of the last attempt.
unfoldable pub conclude :
    (ℕ → Bool) → Text → WorkflowNodeRunStatus → Value → NodeExecution → ℕ → Progress → Progress
conclude stored node_id rec_status output ex attempt s = mark_halted ex.halt (
    settle node_id rec_status output ex.error (
      publish (node node_id (status_name rec_status) output ex.error)
        (persist_node_run stored (row_for node_id rec_status ex output attempt) s)))

abbrev pub with_made : ℕ → Progress → Progress
with_made made s = record s { made = made; returned = suc s.returned }

-- Each attempt starts from the caches, which an attempt that fails leaves as they are.
abbrev pub on_executed : Bool → Option NodeExecution → Progress → (NodeExecution → Loop) → Loop
on_executed false ex s next = hangs s
on_executed true none s next = panics
on_executed true (some ex) s next = next ex

abbrev pub executed : Run → WorkflowNode → Progress → (NodeExecution → Loop) → Loop
executed run n s =
    on_executed (run.answers s.returned)
      (execute_node run.engine run.tools run.exec_id n run.graph s.run_outputs s.made) s

abbrev pub concluded : Run → Text → WorkflowNode → NodeExecution → ℕ → Progress → Progress
concluded run node_id n ex attempt s =
    let (rec_status, output) = recorded (retry_policy n) ex in
    conclude run.stored node_id rec_status output ex attempt (with_made ex.made s)

-- `sleep(Duration::from_millis(policy.backoff_ms * attempt as u64))`; the product of two `u64` is that
-- of an optimised build, where it wraps around.
abbrev pub pause : RetryPolicy → ℕ → Progress → Progress
pause policy attempt s = record s { slept = s.slept + (policy.backoff_ms * attempt) % 2 ^ 64 }

abbrev pub failed_attempt : Run → Text → WorkflowNode → NodeExecution → ℕ → Progress → Progress
failed_attempt run node_id n ex attempt s = pause (retry_policy n) attempt (
    persist_node_run run.stored
      (row_for node_id WorkflowNodeRunStatus.failed ex ex.output_json attempt)
      (with_made ex.made s))

-- The `loop`, with the attempts that `attempt < policy.max_attempts` leaves.
unfoldable pub attempts_from : Run → Text → WorkflowNode → ℕ → ℕ → Progress → Loop
attempts_from run node_id n zero attempt s =
    executed run n s (λ ex. ends (concluded run node_id n ex attempt s))
attempts_from run node_id n (suc left) attempt s = executed run n s (λ ex.
    let again =
      attempts_from run node_id n left (suc attempt) (failed_attempt run node_id n ex attempt s) in
    if is_failed ex.status then again else ends (concluded run node_id n ex attempt s))

unfoldable pub run_node : Run → Text → WorkflowNode → Progress → Loop
run_node run node_id n s = attempts_from run node_id n ((retry_policy n).max_attempts - 1) 1 s

-- A later node of the same id replaces an earlier one.
unfoldable pub node_map : List WorkflowNode → Map WorkflowNode → Map WorkflowNode
node_map [] found = found
node_map (n ∷ nodes) found = node_map nodes (insert n.id n found)

abbrev pub unless_stopped : Loop → (Progress → Loop) → Loop
unless_stopped panics next = panics
unless_stopped (hangs s) next = hangs s
unless_stopped (ends s) next = if s.aborted || s.halted then ends s else next s

abbrev pub on_node : Option WorkflowNode → Loop → (WorkflowNode → Loop) → Loop
on_node none skip visit = skip
on_node (some n) skip visit = visit n

-- The loop over `order`.
unfoldable pub drive : Run → List Text → Progress → Loop
drive run [] s = ends s
drive run (node_id ∷ order) s =
    let skip = drive run order s in
    on_node (node_map run.graph.nodes empty node_id) skip (λ n.
      let visit = unless_stopped (run_node run node_id n s) (drive run order) in
      if contains run.done node_id
      then skip
      else if should_execute node_id run.graph s.active_ports
      then visit
      else skip)

abbrev pub started : List NodeRun → Progress
started prior = record {
  active_ports = (seed_resume prior).active_ports;
  run_outputs = (seed_resume prior).run_outputs;
  all_succeeded = true;
  first_error = none;
  aborted = false;
  halted = false;
  rows = prior;
  events = [];
  made = 0;
  written = 0;
  returned = 0;
  slept = 0;
}
