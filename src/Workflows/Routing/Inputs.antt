-- ===== src/Workflows/Routing/Inputs.antt =====
-- core/src/extensions/workflows/executor.rs, `collect_inputs_by_port`.
use root_cx.Prelude.{
  ℕ, zero, suc, ◌≤◌, ◌<◌, ◌≡◌, ◌≢◌, refl, sym, ap, ◌∙◌, Bool-cases, inl, inr, Option, none, some,
  Option-cases, List, [], ◌∷◌, ◌++◌, Memᴰ, Text, append-nil, append_assoc, length, ◌==◌,
  if◌then◌else◌, arith,
}
use root_cx.Prelude.Maps.{Map}
use root_cx.Workflows.Json.{Value}
use root_cx.Workflows.Graph.{WorkflowEdge, WorkflowGraph, Item}
use root_cx.Workflows.Items.RoundTrip.{at_port}
use root_cx.Workflows.Routing.{
  inbound, max_with, max_port, empty_ports, extend_at, over, fill, from_port,
  collect_inputs_by_port,
}

pub record Extended (ports : List (List Item)) (i : ℕ) (items : List Item) : Type 0 where
  pub ports' : List (List Item)
  pub extends : extend_at ports i items ≡ some ports'
  pub as_long : length ports' ≡ length ports
  pub holds :
      (p : ℕ) → at_port ports' p ≡ (if i == p then at_port ports p ++ items else at_port ports p)

pub extend_at-Extended :
    (ports : List (List Item)) (i : ℕ) (items : List Item)
    → i < length ports
    → Extended ports i items
unfolding extend_at
extend_at-Extended [] i items h = absurd (omega arith)
extend_at-Extended (port ∷ ports) zero items h = record {
  ports' = (port ++ items) ∷ ports;
  extends = refl;
  as_long = refl;
  holds = holds;
}
  where
    holds :
        (p : ℕ)
        → at_port ((port ++ items) ∷ ports) p
          ≡ (if 0 == p then at_port (port ∷ ports) p ++ items else at_port (port ∷ ports) p)
    holds zero = refl
    holds (suc p) = ground arith
extend_at-Extended (port ∷ ports) (suc i) items h =
    let rest : Extended ports i items = extend_at-Extended ports i items (omega arith) in
    record {
      ports' = port ∷ rest.ports';
      extends = rw (rest.extends);
      as_long = ap suc rest.as_long;
      holds = holds rest;
    }
  where
    holds :
        (rest : Extended ports i items) (p : ℕ)
        → at_port (port ∷ rest.ports') p
          ≡ (if suc i == p then at_port (port ∷ ports) p ++ items else at_port (port ∷ ports) p)
    holds rest zero = ground arith
    holds rest (suc p) = rest.holds p ∙ ground arith

module _ (run_outputs : Map Value) where
  -- What comes into a port over the edges, in the order of the edges.
  abbrev pub arriving : ℕ → List WorkflowEdge → List Item
  arriving p [] = []
  arriving p (e ∷ edges) = (if e.to_input == p then over run_outputs e else []) ++ arriving p edges

  record Filled (edges : List WorkflowEdge) (ports : List (List Item)) : Type 0 where
    ports' : List (List Item)
    fills : fill run_outputs edges ports ≡ some ports'
    holds : (p : ℕ) → at_port ports' p ≡ at_port ports p ++ arriving p edges

  fill-Filled :
      (edges : List WorkflowEdge) (ports : List (List Item))
      → ((e : WorkflowEdge) → Memᴰ e edges → e.to_input < length ports)
      → Filled edges ports
  unfolding fill
  fill-Filled [] ports within = record {
    ports' = ports;
    fills = refl;
    holds = λ p. sym (append-nil (at_port ports p));
  }
  fill-Filled (e ∷ edges) ports within =
      let first : Extended ports e.to_input (over run_outputs e) =
        extend_at-Extended ports e.to_input (over run_outputs e) (within e (Memᴰ.head refl)) in
      let rest : Filled edges first.ports' =
        fill-Filled edges first.ports'
          (λ f m. omega (arith, within f (Memᴰ.tail m), first.as_long)) in
      record {
        ports' = rest.ports';
        fills = rw (first.extends) rest.fills;
        holds = λ p. rest.holds p ∙ step p first;
      }
    where
      step :
          (p : ℕ) (first : Extended ports e.to_input (over run_outputs e))
          → at_port first.ports' p ++ arriving p edges ≡ at_port ports p ++ arriving p (e ∷ edges)
      step p first = elim (Bool-cases (e.to_input == p)) [
        | inl t ↦
            rw (first.holds p, t)
              (append_assoc (at_port ports p) (over run_outputs e) (arriving p edges))
        | inr f ↦ rw (first.holds p, f)
      ]

pub length-empty_ports : (n : ℕ) → length (empty_ports n) ≡ suc n
length-empty_ports zero = refl
length-empty_ports (suc n) = ap suc (length-empty_ports n)

pub empty-at_port : (n p : ℕ) → at_port (empty_ports n) p ≡ []
empty-at_port zero zero = refl
empty-at_port zero (suc p) = refl
empty-at_port (suc n) zero = refl
empty-at_port (suc n) (suc p) = empty-at_port n p

le-max_with : (i : ℕ) (o : Option ℕ) {m : ℕ} → max_with i o ≡ some m → i ≤ m
le-max_with i none h = ground arith
le-max_with i (some k) h = ground arith

max_with-ge : (i k : ℕ) {m : ℕ} → max_with i (some k) ≡ some m → k ≤ m
max_with-ge i k h = ground arith

max_with-ne-none : (i : ℕ) (o : Option ℕ) → max_with i o ≢ none
max_with-ne-none i none h = cc
max_with-ne-none i (some k) h = cc

some_port : (edges : List WorkflowEdge) {e : WorkflowEdge} → Memᴰ e edges → max_port edges ≢ none
some_port [] m = elim m [ ]
some_port (f ∷ edges) m = max_with-ne-none f.to_input (max_port edges)

le-max_port :
    (edges : List WorkflowEdge) {m : ℕ} {e : WorkflowEdge}
    → max_port edges ≡ some m
    → Memᴰ e edges
    → e.to_input ≤ m
le-max_port [] h at = elim at [ ]
le-max_port (f ∷ edges) h (Memᴰ.head same) =
    let first = le-max_with f.to_input (max_port edges) h in
    omega (arith, first, ap (λ (g : WorkflowEdge). g.to_input) same)
le-max_port (f ∷ edges) {m} h (Memᴰ.tail at) = elim (Option-cases (max_port edges)) [
  | inl missing ↦ absurd (some_port edges at missing)
  | inr (k, found) ↦
      let below : k ≤ m = max_with-ge f.to_input k (rw found at h) in
      omega (arith, le-max_port edges found at, below)
]

module _ (run_outputs : Map Value) (edges : List WorkflowEdge) where
  from_port-holds :
      (last : Option ℕ)
      → max_port edges ≡ last
      → (ports : List (List Item)) × (from_port run_outputs edges last ≡ some ports)
        × ((p : ℕ) → at_port ports p ≡ arriving run_outputs p edges)
  from_port-holds none h = ([], refl, λ p. sym (nothing p edges h))
    where
      nothing :
          (p : ℕ) (edges : List WorkflowEdge)
          → max_port edges ≡ none
          → arriving run_outputs p edges ≡ []
      nothing p [] h = refl
      nothing p (e ∷ edges) h = absurd (max_with-ne-none e.to_input (max_port edges) h)
  from_port-holds (some last) h =
      let filled : Filled run_outputs edges (empty_ports last) =
        fill-Filled run_outputs edges (empty_ports last)
          (λ e m. omega (arith, le-max_port edges h m, length-empty_ports last)) in
      (filled.ports', filled.fills, λ p. filled.holds p ∙ rw (empty-at_port last p))

-- The inputs of a node are always collected: no port is out of range. Each port holds what comes over
-- the edges into it, in the order of the edges, and nothing from a node that has put out nothing.
pub collect_inputs_by_port_lem :
    (id : Text) (graph : WorkflowGraph) (run_outputs : Map Value)
    → (ports : List (List Item)) × (collect_inputs_by_port id graph run_outputs ≡ some ports)
      × ((p : ℕ) → at_port ports p ≡ arriving run_outputs p (inbound id graph))
unfolding collect_inputs_by_port
collect_inputs_by_port_lem id graph run_outputs =
    from_port-holds run_outputs (inbound id graph) (max_port (inbound id graph)) refl
