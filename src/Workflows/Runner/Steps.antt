-- ===== src/Workflows/Runner/Steps.antt =====
-- core/src/extensions/workflows/runner.rs: the attempts of one node, and what they leave in the rows, the
-- caches and the events.
use root_cx.Prelude.{
  ℕ, zero, suc, ◌≡◌, refl, sym, ap, ◌∙◌, inl, inr, ◌⊎◌, Bool, true, false, Bool-cases, ◌&&◌, none,
  List, [], ◌∷◌, ◌++◌, Text, text_eq, text_eq_sound, all, if◌then◌else◌, arith,
}
use root_cx.Workflows.Json.{Value}
use root_cx.Workflows.Graph.{WorkflowNode, WorkflowNodeRunStatus, status_name}
use root_cx.Workflows.Execute.{NodeExecution}
use root_cx.Workflows.Execute.Total.{execute_node_total}
use root_cx.Workflows.NodeRuns.{NodeRun, upsert}
use root_cx.Workflows.Runner.{
  WorkflowEvent, node, done, Progress, Run, Loop, ends, hangs, persist_node_run, row_for, is_failed,
  unsettled, publish, mark_halted, conclude, with_made, concluded, failed_attempt, attempts_from,
}
use root_cx.Workflows.Runner.Rows.{
  replay, replayed, IsKeyed, Tied, Tied-insert, replayed-upsert, replayed-upsert_other,
  upsert-IsKeyed,
}

abbrev pub was_succeeded : WorkflowEvent → Bool
was_succeeded (node id status output error) =
    text_eq status (status_name WorkflowNodeRunStatus.succeeded)
was_succeeded (done status error) = true

abbrev pub AllStored : Run → Type 0
AllStored run = (n : ℕ) → run.stored n ≡ true

-- The progress at which the loop ends, or hangs because the next execution of a node is not reached or
-- does not return.
abbrev pub Comes : Run → Loop → Progress → Type 0
Comes run o s = (o ≡ ends s) ⊎ ((o ≡ hangs s) × (run.answers s.returned ≡ false))

-- The rows, the caches and the events agree.
pub record Agrees (run : Run) (s : Progress) : Type 0 where
  pub keyed : IsKeyed s.rows
  pub mirrors : AllStored run → (id : Text) → s.run_outputs id ≡ replayed id s.rows
  pub tied : Tied s.active_ports s.run_outputs
  pub succeeds : s.all_succeeded ≡ all was_succeeded s.events

-- A step that concerns one node.
pub record Steps (run : Run) (id : Text) (s s' : Progress) : Type 0 where
  pub agrees : Agrees run s'
  pub others :
      (other : Text) → text_eq id other ≡ false → s'.run_outputs other ≡ s.run_outputs other

pub all-snoc :
    (events : List WorkflowEvent) (e : WorkflowEvent)
    → all was_succeeded (events ++ e ∷ []) ≡ (all was_succeeded events && was_succeeded e)
all-snoc [] e = ground arith
all-snoc (f ∷ events) e = rw (all-snoc events e) (ground arith)

-- What is written of a node that has no output yet is what the rows hold of it.
module _ (run : Run) (id : Text) (s : Progress) (agrees : Agrees run s)
    (absent : s.run_outputs id ≡ none) where
  persisted-IsKeyed : (row : NodeRun) → IsKeyed (persist_node_run run.stored row s).rows
  unfolding persist_node_run
  persisted-IsKeyed row = elim (Bool-cases (run.stored s.written)) [
    | inl t ↦ rw t (upsert-IsKeyed row s.rows agrees.keyed)
    | inr f ↦ rw f agrees.keyed
  ]

  persisted-replayed :
      (row : NodeRun)
      → row.node_id ≡ id
      → AllStored run
      → (other : Text)
      → replayed other (persist_node_run run.stored row s).rows
        ≡ (if text_eq id other then replay row else s.run_outputs other)
  unfolding persist_node_run
  persisted-replayed row here stored other =
      rw (stored s.written) (elim (Bool-cases (text_eq id other)) [
        | inl t ↦ rw t (
            ap (λ (x : Text). replayed x (upsert row s.rows))
              (sym (text_eq_sound id other t) ∙ sym here)
            ∙ replayed-upsert row s.rows agrees.keyed)
        | inr f ↦ rw f (
            replayed-upsert_other row s.rows other (ap (λ (x : Text). text_eq x other) here ∙ f)
            ∙ sym (agrees.mirrors stored other))
      ])

  still_absent :
      (other : Text)
      → s.run_outputs other ≡ (if text_eq id other then none else s.run_outputs other)
  still_absent other = elim (Bool-cases (text_eq id other)) [
    | inl t ↦ rw t (ap (λ (x : Text). s.run_outputs x) (sym (text_eq_sound id other t)) ∙ absent)
    | inr f ↦ rw f
  ]

  failed_attempt-Steps :
      (n : WorkflowNode) (ex : NodeExecution) (attempt : ℕ)
      → Steps run id s (failed_attempt run id n ex attempt s)
  unfolding persist_node_run
  failed_attempt-Steps n ex attempt =
      let row = row_for id WorkflowNodeRunStatus.failed ex ex.output_json attempt in
      record {
        agrees = record {
          keyed = persisted-IsKeyed row;
          mirrors =
              λ stored other. still_absent other ∙ sym (persisted-replayed row refl stored other);
          tied = agrees.tied;
          succeeds = agrees.succeeds;
        };
        others = λ other f. refl;
      }

  -- The statuses with which a run does not succeed.
  unsettled-Steps :
      (status : WorkflowNodeRunStatus) (output : Value) (ex : NodeExecution) (attempt : ℕ)
      → text_eq (status_name status) (status_name WorkflowNodeRunStatus.succeeded) ≡ false
      → Steps run id s (
          mark_halted ex.halt (
            unsettled status ex.error (
              publish
                (node id (status_name status) output ex.error)
                (persist_node_run run.stored (row_for id status ex output attempt) s))))
  unfolding persist_node_run
  unsettled-Steps status output ex attempt f =
      let row = row_for id status ex output attempt in
      record {
        agrees = record {
          keyed = persisted-IsKeyed row;
          mirrors = λ stored other.
              still_absent other ∙ sym (persisted-replayed row refl stored other ∙ rw f);
          tied = agrees.tied;
          succeeds = sym (all-snoc s.events _ ∙ rw f (and_no (all was_succeeded s.events)));
        };
        others = λ other d. refl;
      }
    where
      and_no : (b : Bool) → (b && false) ≡ false
      and_no b = ground arith

  succeeded-Steps :
      (output : Value) (ex : NodeExecution) (attempt : ℕ)
      → Steps run id s (conclude run.stored id WorkflowNodeRunStatus.succeeded output ex attempt s)
  unfolding conclude persist_node_run
  succeeded-Steps output ex attempt =
      let row = row_for id WorkflowNodeRunStatus.succeeded ex output attempt in
      record {
        agrees = record {
          keyed = persisted-IsKeyed row;
          mirrors = λ stored other. sym (persisted-replayed row refl stored other);
          tied = Tied-insert s.active_ports s.run_outputs id output agrees.tied;
          succeeds = agrees.succeeds ∙ sym (all-snoc s.events _ ∙ ground arith);
        };
        others = λ other f. rw f;
      }

  conclude-Steps :
      (status : WorkflowNodeRunStatus) (output : Value) (ex : NodeExecution) (attempt : ℕ)
      → Steps run id s (conclude run.stored id status output ex attempt s)
  unfolding conclude
  conclude-Steps WorkflowNodeRunStatus.pending output ex attempt =
      unsettled-Steps WorkflowNodeRunStatus.pending output ex attempt refl
  conclude-Steps WorkflowNodeRunStatus.running output ex attempt =
      unsettled-Steps WorkflowNodeRunStatus.running output ex attempt refl
  conclude-Steps WorkflowNodeRunStatus.succeeded output ex attempt =
      succeeded-Steps output ex attempt
  conclude-Steps WorkflowNodeRunStatus.failed output ex attempt =
      unsettled-Steps WorkflowNodeRunStatus.failed output ex attempt refl
  conclude-Steps WorkflowNodeRunStatus.skipped output ex attempt =
      unsettled-Steps WorkflowNodeRunStatus.skipped output ex attempt refl

-- A step that starts behind another number of tool calls.
with_made-Agrees :
    (run : Run) (made : ℕ) (s : Progress) → Agrees run s → Agrees run (with_made made s)
with_made-Agrees run made s agrees = record {
  keyed = agrees.keyed;
  mirrors = agrees.mirrors;
  tied = agrees.tied;
  succeeds = agrees.succeeds;
}

module _ (run : Run) (id : Text) (n : WorkflowNode) where
  concluded-Steps :
      (ex : NodeExecution) (attempt : ℕ) (s : Progress)
      → Agrees run s
      → s.run_outputs id ≡ none
      → Steps run id s (concluded run id n ex attempt s)
  concluded-Steps ex attempt s agrees absent =
      let step : Steps run id (with_made ex.made s) (concluded run id n ex attempt s) =
        conclude-Steps run id (with_made ex.made s) (with_made-Agrees run ex.made s agrees) absent _
          _ ex attempt in
      record { agrees = step.agrees; others = step.others }

  abbrev pub Attempted : Progress → Loop → Type 0
  Attempted s o = (s' : Progress) × Comes run o s' × Steps run id s s'

  same-Steps : (s : Progress) → Agrees run s → Steps run id s s
  same-Steps s agrees = record { agrees = agrees; others = λ other f. refl }

  pub attempts_from-Steps :
      (left attempt : ℕ) (s : Progress)
      → Agrees run s
      → s.run_outputs id ≡ none
      → Attempted s (attempts_from run id n left attempt s)
  unfolding attempts_from persist_node_run
  attempts_from-Steps zero attempt s agrees absent =
      let (ex, runs) =
        execute_node_total run.engine run.tools run.exec_id n s.run_outputs run.graph s.made in
      elim (Bool-cases (run.answers s.returned)) [
        | inr f ↦ rw f (s, inr (refl, f), same-Steps s agrees)
        | inl t ↦ rw (t, runs) (_, inl refl, concluded-Steps ex attempt s agrees absent)
      ]
  attempts_from-Steps (suc left) attempt s agrees absent =
      let (ex, runs) =
        execute_node_total run.engine run.tools run.exec_id n s.run_outputs run.graph s.made in
      elim (Bool-cases (run.answers s.returned)) [
        | inr f ↦ rw f (s, inr (refl, f), same-Steps s agrees)
        | inl answered ↦ elim (Bool-cases (is_failed ex.status)) [
          | inr f ↦ (
            concluded run id n ex attempt s,
            inl (rw (answered, runs, f)),
            concluded-Steps ex attempt s agrees absent,
          )
          | inl t ↦
              let first : Steps run id s (failed_attempt run id n ex attempt s) =
                failed_attempt-Steps run id s agrees absent n ex attempt in
              let (s', comes, rest) =
                attempts_from-Steps left (suc attempt) (failed_attempt run id n ex attempt s)
                  first.agrees absent in
              rw (answered, runs, t)
                (
                  s',
                  comes,
                  record {
                    agrees = rest.agrees;
                    others = λ other f. rest.others other f ∙ first.others other f;
                  },
                )
        ]
      ]
