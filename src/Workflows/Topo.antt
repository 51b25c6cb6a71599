-- ===== src/Workflows/Topo.antt =====
-- core/src/extensions/workflows/executor.rs, `topo_sort`: Kahn's algorithm. The `HashMap` of in-degrees
-- is a list of entries, one for each key; the order in which it is walked is an argument.
use root_cx.Prelude.{
  ℕ, zero, suc, ◌+◌, Bool, true, false, Option, none, some, List, [], ◌∷◌, ◌++◌, map, Text, text_eq,
  length, ◌==◌, if◌then◌else◌,
}
use root_cx.Workflows.Graph.{WorkflowNode, WorkflowEdge, WorkflowGraph}
pub mod Degrees
pub mod Keys
pub mod Kahn
pub mod Order

abbrev pub Degrees : Type 0
Degrees = List (Text × ℕ)

-- `in_degree.entry(id).or_insert(0)`
unfoldable pub ensure : Text → Degrees → Degrees
ensure id [] = (id, 0) ∷ []
ensure id ((k, d) ∷ m) =
    let later = (k, d) ∷ ensure id m in if text_eq k id then (k, d) ∷ m else later

-- `*in_degree.entry(id).or_insert(0) += 1`
unfoldable pub bump : Text → Degrees → Degrees
bump id [] = (id, 1) ∷ []
bump id ((k, d) ∷ m) =
    let later = (k, d) ∷ bump id m in if text_eq k id then (k, suc d) ∷ m else later

-- `if let Some(d) = in_degree.get_mut(id) { *d -= 1 }`: the new degree, or the overflow at zero.
pub data Lowered : Type 0 where
  absent : Lowered
  overflow : Lowered
  lowered : ℕ → Degrees → Lowered

abbrev pub lower_here : Text → ℕ → Degrees → Lowered
lower_here k zero m = overflow
lower_here k (suc d) m = lowered d ((k, d) ∷ m)

abbrev pub behind : Text → ℕ → Lowered → Lowered
behind k d absent = absent
behind k d overflow = overflow
behind k d (lowered d' m) = lowered d' ((k, d) ∷ m)

unfoldable pub lower : Text → Degrees → Lowered
lower id [] = absent
lower id ((k, d) ∷ m) =
    let later = behind k d (lower id m) in if text_eq k id then lower_here k d m else later

unfoldable pub in_degrees : List WorkflowNode → List WorkflowEdge → Degrees → Degrees
in_degrees [] [] m = m
in_degrees [] (e ∷ edges) m = in_degrees [] edges (bump e.to m)
in_degrees (n ∷ nodes) edges m = in_degrees nodes edges (ensure n.id m)

unfoldable pub zero_keys : Degrees → List Text
zero_keys [] = []
zero_keys ((k, d) ∷ m) = let rest = zero_keys m in if d == 0 then k ∷ rest else rest

-- The degrees and the queue.
abbrev pub Work : Type 0
Work = Degrees × List Text

abbrev pub queued : Text → Degrees → List Text → Lowered → Option Work
queued to degrees queue absent = some (degrees, queue)
queued to degrees queue overflow = none
queued to degrees queue (lowered d m) = some (m, if d == 0 then queue ++ to ∷ [] else queue)

-- The body of the loop over the edges; `none` is the overflow.
unfoldable pub relax_edge : Text → WorkflowEdge → Work → Option Work
relax_edge n e (degrees, queue) =
    if text_eq e.from n
    then queued e.to degrees queue (lower e.to degrees)
    else some (degrees, queue)

abbrev pub and_then : Option Work → (Work → Option Work) → Option Work
and_then none next = none
and_then (some w) next = next w

unfoldable pub relax : Text → List WorkflowEdge → Work → Option Work
relax n [] w = some w
relax n (e ∷ edges) w = and_then (relax_edge n e w) (relax n edges)

pub data Sorted : Type 0 where
  sorted : List Text → Sorted
  overflowed : Sorted
  ran_out : Sorted

abbrev pub onto : List Text → List Text → List Text
onto [] order = order
onto (x ∷ xs) order = onto xs (x ∷ order)

abbrev pub or_overflowed : Option Work → (Work → Sorted) → Sorted
or_overflowed none next = overflowed
or_overflowed (some w) next = next w

-- The `while` loop, with fuel. What is pushed to `order` is held in reverse.
unfoldable pub drain : List WorkflowEdge → ℕ → Work → List Text → Sorted
drain edges zero w taken = ran_out
drain edges (suc fuel) (degrees, []) taken = sorted (onto taken [])
drain edges (suc fuel) (degrees, n ∷ queue) taken =
    or_overflowed (relax n edges (degrees, queue)) (λ w. drain edges fuel w (n ∷ taken))

unfoldable pub topo_sort : (List Text → List Text) → WorkflowGraph → Sorted
topo_sort walk graph =
    let degrees = in_degrees graph.nodes graph.edges [] in
    drain graph.edges (suc (length degrees)) (degrees, walk (zero_keys degrees)) []
