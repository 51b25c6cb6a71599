-- ===== src/Workflows/Graph.antt =====
-- crates/shared-types/src/lib.rs, the types of a workflow.
use root_cx.Prelude.{ℕ, List, Text, bytes}
use root_cx.Workflows.Json.{Value}

pub data TriggerKind : Type 0 where
  manual schedule webhook record_change channel : TriggerKind

-- `if`, `loop` and the rest are named for what they do.
pub data ControlKind : Type 0 where
  branch switch merge set loop wait stop : ControlKind

pub data WorkflowNodeKind : Type 0 where
  trigger : TriggerKind → WorkflowNodeKind
  tool : Text → WorkflowNodeKind
  control : ControlKind → WorkflowNodeKind
  code : WorkflowNodeKind
  sub_workflow : Text → WorkflowNodeKind

-- The label and the position of a node are the editor's.
pub record WorkflowNode : Type 0 where
  pub id : Text
  pub kind : WorkflowNodeKind
  pub params : Value

-- Ports are bytes.
pub record WorkflowEdge : Type 0 where
  pub from : Text
  pub to : Text
  pub from_output : ℕ
  pub to_input : ℕ

pub record WorkflowGraph : Type 0 where
  pub nodes : List WorkflowNode
  pub edges : List WorkflowEdge

pub record Item : Type 0 where
  pub json : Value

pub data WorkflowExecutionStatus : Type 0 where
  queued running succeeded failed canceled : WorkflowExecutionStatus

pub data WorkflowNodeRunStatus : Type 0 where
  pending running succeeded failed skipped : WorkflowNodeRunStatus

abbrev pub status_name : WorkflowNodeRunStatus → Text
status_name WorkflowNodeRunStatus.pending = bytes "pending"
status_name WorkflowNodeRunStatus.running = bytes "running"
status_name WorkflowNodeRunStatus.succeeded = bytes "succeeded"
status_name WorkflowNodeRunStatus.failed = bytes "failed"
status_name WorkflowNodeRunStatus.skipped = bytes "skipped"

abbrev pub execution_status_name : WorkflowExecutionStatus → Text
execution_status_name WorkflowExecutionStatus.queued = bytes "queued"
execution_status_name WorkflowExecutionStatus.running = bytes "running"
execution_status_name WorkflowExecutionStatus.succeeded = bytes "succeeded"
execution_status_name WorkflowExecutionStatus.failed = bytes "failed"
execution_status_name WorkflowExecutionStatus.canceled = bytes "canceled"
