-- ===== src/Workflows/NodeRuns.antt =====
-- core/src/extensions/workflows/runner.rs: the rows of workflow_node_runs, and the caches that a run
-- rebuilds from them.
use root_cx.Prelude.{ℕ, Option, none, some, List, [], ◌∷◌, Text, text_eq, if◌then◌else◌}
use root_cx.Prelude.Maps.{Map, empty, insert}
use root_cx.Workflows.Json.{Value}
use root_cx.Workflows.Graph.{WorkflowNodeRunStatus, status_name}
use root_cx.Workflows.Items.{active_ports}

-- A row of workflow_node_runs, of one execution; `node_id` is its key.
pub record NodeRun : Type 0 where
  pub node_id : Text
  pub status : Text
  pub input : Value
  pub output : Option Value
  pub error : Option Text
  pub attempts : ℕ

-- `ON CONFLICT (execution_id, node_id) DO UPDATE`
unfoldable pub upsert : NodeRun → List NodeRun → List NodeRun
upsert new [] = new ∷ []
upsert new (row ∷ rows) =
    let rest = row ∷ upsert new rows in if text_eq row.node_id new.node_id then new ∷ rows else rest

pub record Resume : Type 0 where
  pub active_ports : Map (List ℕ)
  pub run_outputs : Map Value
  pub done : List Text

abbrev pub with_output : Text → Option Value → Resume → Resume
with_output node_id none r = r
with_output node_id (some out) r = record r {
  active_ports = insert node_id (active_ports out) r.active_ports;
  run_outputs = insert node_id out r.run_outputs;
}

abbrev pub add_done : Text → Resume → Resume
add_done node_id r = record r { done = node_id ∷ r.done }

abbrev pub seed_row : NodeRun → Resume → Resume
seed_row row r =
    if text_eq row.status (status_name WorkflowNodeRunStatus.succeeded)
    then add_done row.node_id (with_output row.node_id row.output r)
    else r

unfoldable pub seed_rows : List NodeRun → Resume → Resume
seed_rows [] r = r
seed_rows (row ∷ rows) r = seed_rows rows (seed_row row r)

unfoldable pub seed_resume : List NodeRun → Resume
seed_resume prior =
    seed_rows prior (record { active_ports = empty; run_outputs = empty; done = [] })
