-- ===== src/Workflows/Nodes.antt =====
-- core/src/extensions/workflows/executor.rs: what a node does with its items.
use mathlib.Core.Option
use root_cx.Prelude.{
  ℕ, zero, suc, ◌+◌, Bool, true, false, not, ◌&&◌, ◌||◌, Option, none, some, List, [], ◌∷◌, ◌++◌,
  map, Text, bytes, text_eq, get_elem?, length, keep, ltb, ◌==◌, if◌then◌else◌,
}
use root_cx.Prelude.Maps.{Map}
use root_cx.Rules.Emit.{decimal}
use root_cx.Workflows.Json.{
  Value, null, bool, number, string, array, object, Values, nil, cons, Entries, end, entry, Number,
  unsigned, negative, float, zero_bits, elements, values_of, lookup, insert_entry, get, as_array,
  as_str, value_eq, empty_object, one_entry,
}
use root_cx.Workflows.Graph.{
  ControlKind, WorkflowNodeKind, WorkflowNode, WorkflowGraph, Item, WorkflowNodeRunStatus,
}
use root_cx.Workflows.Expr.{Engine, resolve}
use root_cx.Workflows.Items.{encode, or_value}
use root_cx.Workflows.Routing.{empty_ports, extend_at, and_then}
pub mod Ports
pub mod Objects

-- `is_truthy`; a number is true unless it is zero as a float.
abbrev pub is_truthy : Value → Bool
is_truthy null = false
is_truthy (bool b) = b
is_truthy (number (unsigned n)) = not (n == 0)
is_truthy (number (negative n)) = not (n == 0)
is_truthy (number (float b)) = not (zero_bits b)
is_truthy (string []) = false
is_truthy (string (c ∷ s)) =
    not (text_eq (c ∷ s) (bytes "false")) && not (text_eq (c ∷ s) (bytes "0"))
is_truthy (array nil) = false
is_truthy (array (cons _ _)) = true
is_truthy (object end) = false
is_truthy (object (entry _ _ _)) = true

-- The loop of `overlay`.
unfoldable pub overlay_entries : Entries → Entries → Entries
overlay_entries base end = base
overlay_entries base (entry k v patch) = overlay_entries (insert_entry k v base) patch

abbrev pub overlay : Value → Value → Value
overlay (object base) (object patch) = object (overlay_entries base patch)
overlay base _ = base

abbrev pub if_absent : Option Value → Entries → Entries → Entries
if_absent none entries longer = longer
if_absent (some _) entries longer = entries

-- `entry(k).or_insert_with(..)`
abbrev pub or_insert : Text → Value → Entries → Entries
or_insert k v entries = if_absent (lookup k entries) entries (insert_entry k v entries)

-- The loop of `merge_args`.
unfoldable pub fill_entries : Entries → Entries → Entries
fill_entries base end = base
fill_entries base (entry k v input) = fill_entries (or_insert k v base) input

abbrev pub merge_args : Value → Value → Value
merge_args (object base) (object input) = object (fill_entries base input)
merge_args params _ = params

pub record Outcome : Type 0 where
  pub status : WorkflowNodeRunStatus
  pub ports : List (List Item)
  pub error : Option Text

abbrev pub succeeded : List (List Item) → Outcome
succeeded ports = record { status = WorkflowNodeRunStatus.succeeded; ports = ports; error = none }

abbrev pub not_implemented : Outcome
not_implemented = record {
  status = WorkflowNodeRunStatus.skipped;
  ports = [] ∷ [];
  error = some (bytes "not implemented");
}

abbrev pub failed : Text → Outcome
failed e = record { status = WorkflowNodeRunStatus.failed; ports = [] ∷ []; error = some e }

module _ (engine : Engine) (raw_params : Value) (outputs : Map Value) where
  -- A parameter, resolved for an item.
  abbrev pub param : Text → Value → Option Value
  param name input = get name (resolve engine raw_params input outputs)

  abbrev pub condition : Item → Bool
  condition item = is_truthy (or_value (param (bytes "condition") item.json) null)

  -- The loop of `execute_if`: what it pushes to each side.
  unfoldable pub split_if : List Item → List Item × List Item
  split_if [] = ([], [])
  split_if (item ∷ items) =
      let (yes_items, no_items) = split_if items in
      if condition item then (item ∷ yes_items, no_items) else (yes_items, item ∷ no_items)

  abbrev pub execute_if : List Item → Outcome
  execute_if items =
      let (true_items, false_items) = split_if items in succeeded (true_items ∷ false_items ∷ [])

  abbrev pub position_from : ℕ → Value → List Value → Option ℕ
  position_from i value [] = none
  position_from i value (c ∷ cases) =
      let later = position_from (suc i) value cases in if value_eq c value then some i else later

  abbrev pub or_last : ℕ → Option ℕ → ℕ
  or_last last none = last
  or_last last (some i) = i

  -- The cases are those of the parameters as they are written, not resolved.
  abbrev pub switch_cases : Option (List Value)
  switch_cases = elim (get (bytes "cases") raw_params) [ none ↦ none | some c ↦ as_array c ]

  abbrev pub num_cases : Option (List Value) → ℕ
  num_cases none = 0
  num_cases (some cases) = length cases

  abbrev pub case_index : Option (List Value) → Item → ℕ
  case_index none item = 0
  case_index (some cases) item =
      or_last (length cases)
        (position_from 0 (or_value (param (bytes "value") item.json) null) cases)

  -- The loop of `execute_switch`; `ports[idx].push(item)` panics out of range.
  unfoldable pub switch_items :
      Option (List Value) → List Item → List (List Item) → Option (List (List Item))
  switch_items cases [] ports = some ports
  switch_items cases (item ∷ items) ports =
      and_then (extend_at ports (case_index cases item) (item ∷ [])) (switch_items cases items)

  abbrev pub execute_switch : List Item → Option Outcome
  execute_switch items =
      Option.map succeeded (switch_items switch_cases items (empty_ports (num_cases switch_cases)))

  abbrev pub fields_for : Value → Value
  fields_for input = or_value (param (bytes "fields") input) empty_object

  abbrev pub set_item : Item → Item
  set_item item = record { json = overlay item.json (fields_for item.json) }

  abbrev pub execute_set : List Item → Outcome
  execute_set [] = succeeded ((record { json = fields_for empty_object } ∷ []) ∷ [])
  execute_set (item ∷ items) = succeeded (map set_item (item ∷ items) ∷ [])

-- `ports.iter().map(|p| p.len()).max().unwrap_or(0)`
unfoldable pub longest : List (List Item) → ℕ
longest [] = 0
longest (port ∷ ports) =
    let rest = longest ports in if ltb (length port) rest then rest else length port

-- The inner loop of `merge_by_position`.
unfoldable pub row : ℕ → List (List Item) → Value → Value
row i [] acc = acc
row i (port ∷ ports) acc =
    row i ports (elim (get_elem? port i) [ none ↦ acc | some item ↦ overlay acc item.json ])

-- The rows from `i` on, `left` of them.
unfoldable pub rows_from : ℕ → ℕ → List (List Item) → List Item
rows_from i zero ports = []
rows_from i (suc left) ports =
    record { json = row i ports empty_object } ∷ rows_from (suc i) left ports

abbrev pub merge_by_position : List (List Item) → List Item
merge_by_position ports = rows_from 0 (longest ports) ports

abbrev pub text_or : Option Value → Text → Text
text_or none other = other
text_or (some (string s)) other = s
text_or (some _) other = other

abbrev pub first_of : Option Value → Option Value → Option Value
first_of none other = other
first_of (some v) other = some v

abbrev pub field1_of : Value → Text
field1_of p = text_or (first_of (get (bytes "field1") p) (get (bytes "field") p)) (bytes "id")

abbrev pub field2_of : Value → Text
field2_of p = text_or (get (bytes "field2") p) (field1_of p)

abbrev pub same_key : Value → Option Value → Bool
same_key key none = false
same_key key (some v) = value_eq v key

abbrev pub joined : Text → Value → Item → List Item → List Item
joined f2 key l right =
    map (λ (r : Item). record { json = overlay l.json r.json })
      (keep (λ (r : Item). same_key key (get f2 r.json)) right)

-- The loops of `merge_by_field`.
unfoldable pub join : Text → Text → List Item → List Item → List Item
join f1 f2 [] right = []
join f1 f2 (l ∷ left) right = elim (get f1 l.json) [
  | none ↦ join f1 f2 left right
  | some key ↦ joined f2 key l right ++ join f1 f2 left right
]

abbrev pub port_or_none : Option (List Item) → List Item
port_or_none none = []
port_or_none (some port) = port

abbrev pub merge_by_field : List (List Item) → Value → List Item
merge_by_field ports p =
    join (field1_of p) (field2_of p) (port_or_none (get_elem? ports 0))
      (port_or_none (get_elem? ports 1))

abbrev pub flatten : List (List Item) → List Item
flatten [] = []
flatten (port ∷ ports) = port ++ flatten ports

abbrev pub merged : Text → Value → List (List Item) → List Item
merged mode p ports =
    if text_eq mode (bytes "combineByPosition")
    then merge_by_position ports
    else if text_eq mode (bytes "combineByField")
    then merge_by_field ports p
    else flatten ports

abbrev pub execute_merge : Engine → Value → List (List Item) → Map Value → Outcome
execute_merge engine raw_params input_by_port outputs =
    let p = resolve engine raw_params empty_object outputs in
    succeeded (merged (text_or (get (bytes "mode") p) (bytes "append")) p input_by_port ∷ [])

abbrev pub stop_output : Text → Value
stop_output message =
    object (entry (bytes "message") (string message) (entry (bytes "stopped") (bool true) end))

abbrev pub execute_stop : Engine → Value → Map Value → Outcome
execute_stop engine raw_params outputs =
    let resolved = resolve engine raw_params empty_object outputs in
    let message = text_or (get (bytes "message") resolved) (bytes "workflow stopped") in
    succeeded ((record { json = stop_output message } ∷ []) ∷ [])

unfoldable pub execute_control_node :
    Engine → ControlKind → Value → List Item → List (List Item) → Map Value → Option Outcome
execute_control_node engine ControlKind.branch raw items ports outputs =
    some (execute_if engine raw outputs items)
execute_control_node engine ControlKind.switch raw items ports outputs =
    execute_switch engine raw outputs items
execute_control_node engine ControlKind.set raw items ports outputs =
    some (execute_set engine raw outputs items)
execute_control_node engine ControlKind.merge raw items ports outputs =
    some (execute_merge engine raw ports outputs)
execute_control_node engine ControlKind.stop raw items ports outputs =
    some (execute_stop engine raw outputs)
execute_control_node engine ControlKind.loop raw items ports outputs = some not_implemented
execute_control_node engine ControlKind.wait raw items ports outputs = some not_implemented
