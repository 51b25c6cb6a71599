-- ===== src/Workflows/Runner/Rows.antt =====
-- core/src/extensions/workflows/runner.rs, `seed_resume` and the rows: what a resumed run sees of them.
use mathlib.Core.Option
use root_cx.Prelude.{
  or_false, ℕ, ◌≡◌, refl, sym, ap, ◌∙◌, inl, inr, false, Bool-cases, Option, none, some, List, [],
  ◌∷◌, Text, text_eq, text_eq_iff, text_eq_refl, text_eq_sound, any, if◌then◌else◌, arith,
}
use root_cx.Prelude.Sets.{contains}
use root_cx.Prelude.Maps.{Map, insert}
use root_cx.Workflows.Json.{Value}
use root_cx.Workflows.Graph.{WorkflowNodeRunStatus, status_name}
use root_cx.Workflows.Items.{active_ports}
use root_cx.Workflows.Nodes.{first_of}
use root_cx.Workflows.NodeRuns.{
  NodeRun, upsert, Resume, with_output, seed_row, seed_rows, seed_resume,
}

abbrev pub replay : NodeRun → Option Value
replay row =
    if text_eq row.status (status_name WorkflowNodeRunStatus.succeeded) then row.output else none

-- The output of a node that the rows hold as succeeded.
abbrev pub replayed : Text → List NodeRun → Option Value
replayed id [] = none
replayed id (row ∷ rows) =
    first_of (replayed id rows) (if text_eq row.node_id id then replay row else none)

-- The primary key.
abbrev pub IsKeyed : List NodeRun → Type 0
IsKeyed [] = Unit
IsKeyed (row ∷ rows) =
    (any (λ (other : NodeRun). text_eq other.node_id row.node_id) rows ≡ false) × IsKeyed rows

-- The active ports are those of the outputs.
abbrev pub Tied : Map (List ℕ) → Map Value → Type 0
Tied ports outputs = (id : Text) → ports id ≡ Option.map active_ports (outputs id)

pub Tied-insert :
    (ports : Map (List ℕ)) (outputs : Map Value) (id : Text) (out : Value)
    → Tied ports outputs
    → Tied (insert id (active_ports out) ports) (insert id out outputs)
Tied-insert ports outputs id out tied other = elim (Bool-cases (text_eq id other)) [
  | inl t ↦ rw t
  | inr f ↦ rw f (tied other)
]

first_of_assoc : (a b c : Option Value) → first_of a (first_of b c) ≡ first_of (first_of a b) c
first_of_assoc none b c = refl
first_of_assoc (some v) b c = refl

with_output-outputs :
    (node_id : Text) (o : Option Value) (r : Resume) (id : Text)
    → (with_output node_id o r).run_outputs id
      ≡ first_of (if text_eq node_id id then o else none) (r.run_outputs id)
with_output-outputs node_id none r id = ground arith
with_output-outputs node_id (some out) r id = ground arith

seed_row-outputs :
    (row : NodeRun) (r : Resume) (id : Text)
    → (seed_row row r).run_outputs id
      ≡ first_of (if text_eq row.node_id id then replay row else none) (r.run_outputs id)
seed_row-outputs row r id =
    elim (Bool-cases (text_eq row.status (status_name WorkflowNodeRunStatus.succeeded))) [
      | inl t ↦ rw t (with_output-outputs row.node_id row.output r id)
      | inr f ↦ rw f (ground arith)
    ]

seed_rows-outputs :
    (rows : List NodeRun) (r : Resume) (id : Text)
    → (seed_rows rows r).run_outputs id ≡ first_of (replayed id rows) (r.run_outputs id)
unfolding seed_rows
seed_rows-outputs [] r id = refl
seed_rows-outputs (row ∷ rows) r id =
    seed_rows-outputs rows (seed_row row r) id
    ∙ ap (first_of (replayed id rows)) (seed_row-outputs row r id)
    ∙ first_of_assoc (replayed id rows) _ (r.run_outputs id)

first_of-none : (o : Option Value) → first_of o none ≡ o
first_of-none none = refl
first_of-none (some v) = refl

-- What a resumed run takes for the outputs.
pub seed_resume-outputs :
    (rows : List NodeRun) (id : Text) → (seed_resume rows).run_outputs id ≡ replayed id rows
unfolding seed_resume
seed_resume-outputs rows id = seed_rows-outputs rows _ id ∙ first_of-none (replayed id rows)

with_output-Tied :
    (node_id : Text) (o : Option Value) (r : Resume)
    → Tied r.active_ports r.run_outputs
    → Tied (with_output node_id o r).active_ports (with_output node_id o r).run_outputs
with_output-Tied node_id none r tied = tied
with_output-Tied node_id (some out) r tied =
    Tied-insert r.active_ports r.run_outputs node_id out tied

seed_row-Tied :
    (row : NodeRun) (r : Resume)
    → Tied r.active_ports r.run_outputs
    → Tied (seed_row row r).active_ports (seed_row row r).run_outputs
seed_row-Tied row r tied =
    elim (Bool-cases (text_eq row.status (status_name WorkflowNodeRunStatus.succeeded))) [
      | inl t ↦ rw t (with_output-Tied row.node_id row.output r tied)
      | inr f ↦ rw f tied
    ]

seed_rows-Tied :
    (rows : List NodeRun) (r : Resume)
    → Tied r.active_ports r.run_outputs
    → Tied (seed_rows rows r).active_ports (seed_rows rows r).run_outputs
unfolding seed_rows
seed_rows-Tied [] r tied = tied
seed_rows-Tied (row ∷ rows) r tied = seed_rows-Tied rows (seed_row row r) (seed_row-Tied row r tied)

pub seed_resume-Tied :
    (rows : List NodeRun) → Tied (seed_resume rows).active_ports (seed_resume rows).run_outputs
unfolding seed_resume
seed_resume-Tied rows = seed_rows-Tied rows _ (λ id. refl)

-- A node that is not done has no output.
abbrev pub Undone : Resume → Type 0
Undone r = (id : Text) → contains r.done id ≡ false → r.run_outputs id ≡ none

with_output-done :
    (node_id : Text) (o : Option Value) (r : Resume) (id : Text)
    → contains (with_output node_id o r).done id ≡ contains r.done id
with_output-done node_id none r id = refl
with_output-done node_id (some out) r id = refl

swapped : (a b : Text) → text_eq a b ≡ false → text_eq b a ≡ false
swapped a b f = ground (arith, text_eq_iff a b, text_eq_iff b a)

seed_row-Undone : (row : NodeRun) (r : Resume) → Undone r → Undone (seed_row row r)
seed_row-Undone row r undone id =
    elim (Bool-cases (text_eq row.status (status_name WorkflowNodeRunStatus.succeeded))) [
      | inl t ↦ rw t (λ absent.
          let (other, rest) = or_false (text_eq id row.node_id) _ absent in
          with_output-outputs row.node_id row.output r id
          ∙ rw (swapped id row.node_id other)
              (undone id (sym (with_output-done row.node_id row.output r id) ∙ rest)))
      | inr f ↦ rw f (undone id)
    ]

seed_rows-Undone : (rows : List NodeRun) (r : Resume) → Undone r → Undone (seed_rows rows r)
unfolding seed_rows
seed_rows-Undone [] r undone = undone
seed_rows-Undone (row ∷ rows) r undone =
    seed_rows-Undone rows (seed_row row r) (seed_row-Undone row r undone)

pub seed_resume-Undone : (rows : List NodeRun) → Undone (seed_resume rows)
unfolding seed_resume
seed_resume-Undone rows = seed_rows-Undone rows _ (λ id absent. refl)

none_other :
    (id : Text) (rows : List NodeRun)
    → any (λ (other : NodeRun). text_eq other.node_id id) rows ≡ false
    → replayed id rows ≡ none
none_other id [] h = refl
none_other id (row ∷ rows) h =
    let (here, later) = or_false (text_eq row.node_id id) _ h in rw (none_other id rows later, here)

-- The row that is written is the one that is seen, and the others are as they were.
pub replayed-upsert :
    (new : NodeRun) (rows : List NodeRun)
    → IsKeyed rows
    → replayed new.node_id (upsert new rows) ≡ replay new
unfolding upsert
replayed-upsert new [] k = rw (text_eq_refl new.node_id) refl
replayed-upsert new (row ∷ rows) k = elim (Bool-cases (text_eq row.node_id new.node_id)) [
  | inl t ↦
      let same = text_eq_sound row.node_id new.node_id t in
      rw (t, none_other new.node_id rows (rw (← same) k.0), text_eq_refl new.node_id) refl
  | inr f ↦
      rw (f, f)
        (first_of-none (replayed new.node_id (upsert new rows)) ∙ replayed-upsert new rows k.1)
]

pub replayed-upsert_other :
    (new : NodeRun) (rows : List NodeRun) (id : Text)
    → text_eq new.node_id id ≡ false
    → replayed id (upsert new rows) ≡ replayed id rows
unfolding upsert
replayed-upsert_other new [] id f = rw f
replayed-upsert_other new (row ∷ rows) id f = elim (Bool-cases (text_eq row.node_id new.node_id)) [
  | inl t ↦
      let same = text_eq_sound row.node_id new.node_id t in
      rw (t, f, ap (λ (x : Text). text_eq x id) same ∙ f)
  | inr d ↦ rw d (
      ap (λ (o : Option Value). first_of o (if text_eq row.node_id id then replay row else none))
        (replayed-upsert_other new rows id f))
]

any-upsert :
    (new : NodeRun) (id : Text) (rows : List NodeRun)
    → text_eq new.node_id id ≡ false
    → any (λ (other : NodeRun). text_eq other.node_id id) rows ≡ false
    → any (λ (other : NodeRun). text_eq other.node_id id) (upsert new rows) ≡ false
unfolding upsert
any-upsert new id [] f h = rw f
any-upsert new id (row ∷ rows) f h =
    let (here, later) = or_false (text_eq row.node_id id) _ h in
    elim (Bool-cases (text_eq row.node_id new.node_id)) [
      | inl t ↦ rw (t, f, later)
      | inr d ↦ rw (d, here) (any-upsert new id rows f later)
    ]

pub upsert-IsKeyed :
    (new : NodeRun) (rows : List NodeRun) → IsKeyed rows → IsKeyed (upsert new rows)
unfolding upsert
upsert-IsKeyed new [] k = (refl, tt)
upsert-IsKeyed new (row ∷ rows) k = elim (Bool-cases (text_eq row.node_id new.node_id)) [
  | inl t ↦ rw t (rw (← text_eq_sound row.node_id new.node_id t) k.0, k.1)
  | inr f ↦ rw f (
    any-upsert new row.node_id rows (swapped row.node_id new.node_id f) k.0,
    upsert-IsKeyed new rows k.1,
  )
]
