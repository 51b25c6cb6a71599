-- ===== src/Workflows/Runner/Replay.antt =====
-- core/src/extensions/workflows/runner.rs, `run`: the loop over the order, and what its rows tell a
-- resumed run.
use mathlib.Core.Option
use root_cx.Prelude.{
  or_false, ◌-◌, ◌≡◌, refl, sym, ap, ◌∙◌, inl, inr, false, Bool-cases, ◌||◌, none, Option-cases,
  List, [], ◌∷◌, All, Text, text_eq, all,
}
use root_cx.Prelude.Sets.{contains, Distinct}
use root_cx.Prelude.Maps.{empty}
use root_cx.Workflows.Graph.{WorkflowNode}
use root_cx.Workflows.Items.{active_ports}
use root_cx.Workflows.Routing.{should_execute}
use root_cx.Workflows.NodeRuns.{NodeRun, seed_resume}
use root_cx.Workflows.Runner.{Progress, Run, Loop, retry_policy, run_node, node_map, drive, started}
use root_cx.Workflows.Runner.Rows.{
  IsKeyed, seed_resume-outputs, seed_resume-Tied, seed_resume-Undone,
}
use root_cx.Workflows.Runner.Steps.{
  was_succeeded, AllStored, Comes, Agrees, Steps, attempts_from-Steps,
}

-- The nodes of the order that are not done have put out nothing yet.
abbrev Waiting : Run → List Text → Progress → Type 0
Waiting run order s = All (λ id. contains run.done id ≡ false → s.run_outputs id ≡ none) order

module _ (run : Run) where
  Waiting-Steps :
      (id : Text) (order : List Text) (s s' : Progress)
      → contains order id ≡ false
      → Steps run id s s'
      → Waiting run order s
      → Waiting run order s'
  Waiting-Steps id [] s s' absent step waiting = tt
  Waiting-Steps id (x ∷ order) s s' absent step (here, rest) =
      let (differs, later) = or_false (text_eq id x) (contains order id) absent in
      (λ undone. step.others x differs ∙ here undone, Waiting-Steps id order s s' later step rest)

  abbrev Driven : Loop → Type 0
  Driven o = (s' : Progress) × Comes run o s' × Agrees run s'

  run_node-Steps :
      (id : Text) (n : WorkflowNode) (s : Progress)
      → Agrees run s
      → s.run_outputs id ≡ none
      → (s' : Progress) × Comes run (run_node run id n s) s' × Steps run id s s'
  unfolding run_node
  run_node-Steps id n s agrees absent =
      attempts_from-Steps run id n ((retry_policy n).max_attempts - 1) 1 s agrees absent

  drive-Driven :
      (order : List Text) (s : Progress)
      → Distinct order
      → Agrees run s
      → Waiting run order s
      → Driven (drive run order s)
  unfolding drive
  drive-Driven [] s distinct agrees waiting = (s, inl refl, agrees)
  drive-Driven (id ∷ order) s (fresh, distinct) agrees (here, waiting) =
      elim (Option-cases (node_map run.graph.nodes empty id)) [
        | inl missing ↦ rw missing (drive-Driven order s distinct agrees waiting)
        | inr (n, found) ↦ elim (Bool-cases (contains run.done id)) [
          | inl t ↦ rw (found, t) (drive-Driven order s distinct agrees waiting)
          | inr undone ↦ elim (Bool-cases (should_execute id run.graph s.active_ports)) [
            | inr f ↦ rw (found, undone, f) (drive-Driven order s distinct agrees waiting)
            | inl t ↦
                let (s', comes, step) = run_node-Steps id n s agrees (here undone) in
                rw (found, undone, t)
                  (elim comes [
                    | inr (hung, why) ↦ rw hung (s', inr (refl, why), step.agrees)
                    | inl ran ↦ rw ran (elim (Bool-cases (s'.aborted || s'.halted)) [
                      | inl stop ↦ rw stop (s', inl refl, step.agrees)
                      | inr next ↦ rw next (
                          drive-Driven order s' distinct step.agrees
                            (Waiting-Steps id order s s' fresh step waiting))
                    ])
                  ])
          ]
        ]
      ]

-- The loop over the nodes, of which none stands twice in the order, comes to an end, or it hangs before
-- or in an execution of a node that does not return; products of `u64` wrap around. Wherever it stops,
-- and whatever the rows that an earlier attempt left, one for each node at most, if its writes are stored
-- then a run that resumes from the rows starts with the outputs and the active ports that this one had.
-- All has succeeded so far exactly if every node that was published is published as succeeded.
pub drive_replays :
    (run : Run) (order : List Text) (prior : List NodeRun)
    → Distinct order
    → IsKeyed prior
    → run.done ≡ (seed_resume prior).done
    → (s : Progress) × Comes run (drive run order (started prior)) s
      × (s.all_succeeded ≡ all was_succeeded s.events)
      × (AllStored run
          → (id : Text)
          → ((seed_resume s.rows).run_outputs id ≡ s.run_outputs id)
            × ((seed_resume s.rows).active_ports id ≡ s.active_ports id))
drive_replays run order prior distinct keyed seeded =
    let (s, comes, agrees) =
      drive-Driven run order (started prior) distinct (started-Agrees) (waiting order) in
    (
      s,
      comes,
      agrees.succeeds,
      λ stored id.
          let same = seed_resume-outputs s.rows id ∙ sym (agrees.mirrors stored id) in
          (
            same,
            seed_resume-Tied s.rows id ∙ ap (Option.map active_ports) same ∙ sym (agrees.tied id),
          ),
    )
  where
    started-Agrees : Agrees run (started prior)
    started-Agrees = record {
      keyed = keyed;
      mirrors = λ stored id. seed_resume-outputs prior id;
      tied = seed_resume-Tied prior;
      succeeds = refl;
    }

    waiting : (order : List Text) → Waiting run order (started prior)
    waiting [] = tt
    waiting (id ∷ order) = (
      λ undone. seed_resume-Undone prior id (ap (λ set. contains set id) (sym seeded) ∙ undone),
      waiting order,
    )
