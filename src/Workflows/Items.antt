-- ===== src/Workflows/Items.antt =====
-- core/src/extensions/workflows/items.rs: the output of a node, as items for each port.
use root_cx.Prelude.{
  ℕ, zero, suc, ◌+◌, ◌%◌, Bool, true, false, not, Option, none, some, List, [], ◌∷◌, map, Text,
  bytes, get_elem?, if◌then◌else◌,
}
use root_cx.Workflows.Json.{Value, null, array, nil, cons, elements, values_of, get, one_entry}
use root_cx.Workflows.Graph.{Item}
pub mod RoundTrip

abbrev pub json_key : Text
json_key = bytes "json"

abbrev pub encode_item : Item → Value
encode_item item = one_entry json_key item.json

abbrev pub encode_port : List Item → Value
encode_port items = array (values_of (map encode_item items))

unfoldable pub encode : List (List Item) → Value
encode output = array (values_of (map encode_port output))

abbrev pub or_value : Option Value → Value → Value
or_value none other = other
or_value (some v) other = v

abbrev pub decode_item : Value → Item
decode_item v = record { json = or_value (get json_key v) v }

abbrev pub items_of : Option Value → List Item
items_of none = []
items_of (some (array items)) = map decode_item (elements items)
items_of (some _) = []

-- The legacy format is a single value.
unfoldable pub decode_port : Value → ℕ → List Item
decode_port (array ports) port = items_of (get_elem? (elements ports) port)
decode_port null port = []
decode_port output port = record { json = output } ∷ []

abbrev pub carries : Value → Bool
carries (array nil) = false
carries (array (cons _ _)) = true
carries _ = false

-- `i as u8`
unfoldable pub active_from : ℕ → List Value → List ℕ
active_from i [] = []
active_from i (p ∷ ports) =
    let rest = active_from (suc i) ports in if carries p then i % 256 ∷ rest else rest

unfoldable pub active_ports : Value → List ℕ
active_ports (array ports) = active_from 0 (elements ports)
active_ports _ = []

abbrev pub element_at : ℕ → Option Value → Option Value
element_at i none = none
element_at i (some (array vs)) = get_elem? (elements vs) i
element_at i (some _) = none

abbrev pub json_of : Option Value → Value
json_of none = null
json_of (some item) = or_value (get json_key item) null

unfoldable pub node_item_json : Value → ℕ → ℕ → Value
node_item_json output port index = json_of (element_at index (element_at port (some output)))
