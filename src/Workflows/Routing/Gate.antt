-- ===== src/Workflows/Routing/Gate.antt =====
-- core/src/extensions/workflows/executor.rs, `should_execute`.
use root_cx.Prelude.{
  ℕ, ◌≡◌, ◌↔◌, ◌≢◌, refl, sym, ap, subst, ◌∙◌, ◌⊎◌, inl, inr, Bool, true, Bool-cases, Option, none,
  some, List, [], ◌∷◌, Memᴰ, Text, text_eq, text_eq_sound, text_eq_refl, keep, any_witness,
  any_of_mem, ◌==◌, ==_iff, ==_refl,
}
use root_cx.Prelude.Maps.{Map}
use root_cx.Workflows.Graph.{WorkflowEdge, WorkflowGraph}
use root_cx.Workflows.Routing.{find_node, is_trigger, inbound, active_at, routed, should_execute}

keep_sound {ℓ} :
    {A : Type ℓ} (p : A → Bool) (xs : List A) {x : A}
    → Memᴰ x (keep p xs)
    → Memᴰ x xs × (p x ≡ true)
keep_sound p [] m = elim m [ ]
keep_sound p (y ∷ xs) m = elim (Bool-cases (p y)) [
  | inr f ↦ let (at, t) = keep_sound p xs (rw f at m) in (Memᴰ.tail at, t)
  | inl t ↦ elim (rw t at m) [
    | Memᴰ.head e ↦ (Memᴰ.head e, ap p e ∙ t)
    | Memᴰ.tail m' ↦ let (at, u) = keep_sound p xs m' in (Memᴰ.tail at, u)
  ]
]

pub keep_of_mem {ℓ} :
    {A : Type ℓ} (p : A → Bool) (xs : List A) {x : A} → Memᴰ x xs → p x ≡ true → Memᴰ x (keep p xs)
keep_of_mem p [] m t = elim m [ ]
keep_of_mem p (y ∷ xs) (Memᴰ.head e) t = rw (ap p (sym e) ∙ t) (Memᴰ.head e)
keep_of_mem p (y ∷ xs) (Memᴰ.tail m) t = elim (Bool-cases (p y)) [
  | inl k ↦ rw k (Memᴰ.tail (keep_of_mem p xs m t))
  | inr d ↦ rw d (keep_of_mem p xs m t)
]

-- An edge into the node whose port is active.
abbrev pub Entered : Text → WorkflowGraph → Map (List ℕ) → Type 0
Entered id graph active_ports =
    (e : WorkflowEdge) × Memᴰ e graph.edges
    × (e.to ≡ id)
    × ((ports : List ℕ) × (active_ports e.from ≡ some ports) × Memᴰ e.from_output ports)

-- A trigger that no edge leads into.
abbrev pub Started : Text → WorkflowGraph → Type 0
Started id graph =
    ((e : WorkflowEdge) → Memᴰ e graph.edges → e.to ≢ id)
    × (is_trigger (find_node id graph.nodes) ≡ true)

active_at-ports :
    (o : Option (List ℕ)) (port : ℕ)
    → active_at o port ≡ true
    → (ports : List ℕ) × (o ≡ some ports) × Memᴰ port ports
active_at-ports none port h = cc
active_at-ports (some ports) port h =
    let (p, m, e) = any_witness (λ p. p == port) ports h in
    (ports, refl, subst (λ (q : ℕ). Memᴰ q ports) ((==_iff p port).0 e) m)

active_of_mem :
    (o : Option (List ℕ)) (port : ℕ) {ports : List ℕ}
    → o ≡ some ports
    → Memᴰ port ports
    → active_at o port ≡ true
active_of_mem o port {ports} e m = rw e (any_of_mem (λ p. p == port) ports m (==_refl port))

module _ (id : Text) (graph : WorkflowGraph) (active_ports : Map (List ℕ)) where
  inbound_to : {e : WorkflowEdge} → Memᴰ e (inbound id graph) → Memᴰ e graph.edges × (e.to ≡ id)
  inbound_to {e} m =
      let (at, t) = keep_sound (λ (e : WorkflowEdge). text_eq e.to id) graph.edges m in
      (at, text_eq_sound e.to id t)

  inbound_of : {e : WorkflowEdge} → Memᴰ e graph.edges → e.to ≡ id → Memᴰ e (inbound id graph)
  inbound_of m same =
      keep_of_mem (λ (e : WorkflowEdge). text_eq e.to id) graph.edges m (rw same (text_eq_refl id))

  routed_sound :
      (edges : List WorkflowEdge) (trigger : Bool)
      → routed edges trigger active_ports ≡ true
      → ((edges ≡ []) × (trigger ≡ true))
        ⊎ ((e : WorkflowEdge) × Memᴰ e edges
            × (active_at (active_ports e.from) e.from_output ≡ true))
  routed_sound [] trigger h = inl (refl, h)
  routed_sound (e ∷ edges) trigger h = inr (any_witness _ (e ∷ edges) h)

  routed_active :
      (edges : List WorkflowEdge) (trigger : Bool) {e : WorkflowEdge}
      → Memᴰ e edges
      → active_at (active_ports e.from) e.from_output ≡ true
      → routed edges trigger active_ports ≡ true
  routed_active [] trigger m t = elim m [ ]
  routed_active (f ∷ edges) trigger m t =
      any_of_mem (λ (e : WorkflowEdge). active_at (active_ports e.from) e.from_output) (f ∷ edges) m
        t

  no_edges : (edges : List WorkflowEdge) → ((e : WorkflowEdge) → ¬ Memᴰ e edges) → edges ≡ []
  no_edges [] h = refl
  no_edges (e ∷ edges) h = absurd (h e (Memᴰ.head refl))

  runs_sound :
      should_execute id graph active_ports ≡ true → Started id graph ⊎ Entered id graph active_ports
  unfolding should_execute
  runs_sound h = elim (routed_sound (inbound id graph) _ h) [
    | inl (empty, trigger) ↦
        inl (
          (λ e m same. elim (subst (λ edges. Memᴰ e edges) empty (inbound_of m same)) [ ]),
          trigger,
        )
    | inr (e, m, t) ↦
        let (at, same) = inbound_to m in
        inr (e, at, same, active_at-ports (active_ports e.from) e.from_output t)
  ]

  runs_complete :
      Started id graph ⊎ Entered id graph active_ports → should_execute id graph active_ports ≡ true
  unfolding should_execute
  runs_complete (inl (no_edge, trigger)) =
      rw (no_edges (inbound id graph) (λ e m. let (at, same) = inbound_to m in no_edge e at same))
        trigger
  runs_complete (inr (e, m, same, (ports, found, port))) =
      routed_active (inbound id graph) _ (inbound_of m same)
        (active_of_mem (active_ports e.from) e.from_output found port)

-- A node runs exactly when it is a trigger into which no edge leads, or when some edge leads into it
-- from an active port.
pub should_execute_iff :
    (id : Text) (graph : WorkflowGraph) (active_ports : Map (List ℕ))
    → (should_execute id graph active_ports ≡ true)
      ↔ (Started id graph ⊎ Entered id graph active_ports)
should_execute_iff id graph active_ports =
    (runs_sound id graph active_ports, runs_complete id graph active_ports)
