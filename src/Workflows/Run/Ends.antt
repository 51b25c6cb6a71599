-- ===== src/Workflows/Run/Ends.antt =====
-- core/src/extensions/workflows/runner.rs, `run`: what an execution comes to, on each of its exits.
use root_cx.Prelude.{ℕ, suc, ◌≡◌, ◌≢◌, ◌↔◌, ◌⊎◌, true, false, none, some, [], Text, all}
use root_cx.Workflows.Graph.{WorkflowGraph, WorkflowExecutionStatus}
use root_cx.Workflows.Validate.{validate}
use root_cx.Workflows.Validate.Sound.{IsSound}
use root_cx.Workflows.Runner.{Progress}
use root_cx.Workflows.Runner.Steps.{was_succeeded}
use root_cx.Workflows.Run.{
  Execution, is_open, is_runnable, Outside, Refusal, load_failed, mismatch, no_graph, start_failed,
  invalid, Ran, refused, read_failed, hangs, finish_failed, ended,
}

-- The run returns an error before it has changed the row, for this reason.
abbrev pub IsReason : Outside → Text → ℕ → Execution → Refusal → Type 0
IsReason outside user_id lease_msg_id exec load_failed = outside.statements.loads ≡ false
IsReason outside user_id lease_msg_id exec mismatch = is_runnable user_id lease_msg_id exec ≡ false
IsReason outside user_id lease_msg_id exec no_graph = exec.graph ≡ none
IsReason outside user_id lease_msg_id exec (invalid issues) =
    (issues ≢ [])
    × ((graph : WorkflowGraph) × (exec.graph ≡ some graph) × (validate graph ≡ issues))
IsReason outside user_id lease_msg_id exec start_failed = outside.statements.starts ≡ false

-- The run has left the row running, and the cause.
abbrev pub IsLeft : Outside → Execution → Ran → Type 0
IsLeft outside before r =
    ((r ≡ read_failed before) × (outside.statements.reads ≡ false))
    ⊎ (((s : Progress) × (r ≡ hangs before s) × (outside.answers s.returned ≡ false))
        ⊎ ((s : Progress) × (r ≡ finish_failed before s) × (outside.statements.finishes ≡ false)))

-- The row that a run leaves open: a redelivery of the lease takes it up again.
pub record LeavesOpen (outside : Outside) (user_id : Text) (lease_msg_id : ℕ) (exec : Execution)
    (r : Ran) : Type 0 where
  pub before : Execution
  pub cause : IsLeft outside before r
  pub resumable : is_runnable user_id lease_msg_id before ≡ true
  pub counted : before.attempts ≡ suc exec.attempts
  pub same_graph : before.graph ≡ exec.graph

-- The end of a run of a valid graph.
pub record EndsWell (exec : Execution) (r : Ran) : Type 0 where
  pub after : Execution
  pub progress : Progress
  pub graph : WorkflowGraph
  pub ends : r ≡ ended after progress
  pub snapshot : exec.graph ≡ some graph
  pub sound : IsSound graph
  pub status :
      (after.status ≡ WorkflowExecutionStatus.succeeded)
      ↔ (all was_succeeded progress.events ≡ true)
  pub closed : is_open after.status ≡ false
  pub released : after.lease_msg_id ≡ none
  pub never_again : (user_id : Text) (msg_id : ℕ) → is_runnable user_id msg_id after ≡ false
  pub counted : after.attempts ≡ suc exec.attempts

abbrev pub Exits : Outside → Text → ℕ → Execution → Ran → Type 0
Exits outside user_id lease_msg_id exec r =
    ((why : Refusal) × (r ≡ refused why) × IsReason outside user_id lease_msg_id exec why)
    ⊎ (LeavesOpen outside user_id lease_msg_id exec r ⊎ EndsWell exec r)
