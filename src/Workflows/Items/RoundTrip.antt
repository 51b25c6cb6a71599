-- ===== src/Workflows/Items/RoundTrip.antt =====
-- core/src/extensions/workflows/items.rs: what is encoded is decoded.
use mathlib.Core.Option
use root_cx.Prelude.{
  ℕ, zero, suc, ◌+◌, ◌≤◌, ◌≡◌, ◌↔◌, refl, sym, ap, subst, ◌∙◌, Option, none, some, List, [], ◌∷◌,
  map, Memᴰ, length, get_elem?, arith,
}
use root_cx.Workflows.Json.{Value, elements, values_of}
use root_cx.Workflows.Graph.{Item}
use root_cx.Workflows.Items.{
  encode_item, encode_port, encode, decode_item, items_of, decode_port, active_from, active_ports,
}

pub elements-values_of : (vs : List Value) → elements (values_of vs) ≡ vs
elements-values_of [] = refl
elements-values_of (v ∷ vs) = ap (λ (ws : List Value). v ∷ ws) (elements-values_of vs)

decoded : (items : List Item) → map decode_item (map encode_item items) ≡ items
decoded [] = refl
decoded (i ∷ items) = ap (λ (rest : List Item). i ∷ rest) (decoded items)

get_elem?-map {ℓ κ} :
    {A : Type ℓ} {B : Type κ} (f : A → B) (xs : List A) (i : ℕ)
    → get_elem? (map f xs) i ≡ Option.map f (get_elem? xs i)
get_elem?-map f [] i = refl
get_elem?-map f (x ∷ xs) zero = refl
get_elem?-map f (x ∷ xs) (suc i) = get_elem?-map f xs i

abbrev pub or_nil : Option (List Item) → List Item
or_nil none = []
or_nil (some items) = items

-- The items at a port, none where there is no such port.
abbrev pub at_port : List (List Item) → ℕ → List Item
at_port output port = or_nil (get_elem? output port)

decode_found : (o : Option (List Item)) → items_of (Option.map encode_port o) ≡ or_nil o
decode_found none = refl
decode_found (some items) =
    ap (map decode_item) (elements-values_of (map encode_item items)) ∙ decoded items

decode_port-encode :
    (output : List (List Item)) (port : ℕ) → decode_port (encode output) port ≡ at_port output port
unfolding decode_port encode
decode_port-encode output port =
    rw (elements-values_of (map encode_port output), get_elem?-map encode_port output port)
      (decode_found (get_elem? output port))

-- A port that carries an item.
abbrev pub IsActive : List (List Item) → ℕ → Type 0
IsActive output port =
    (item : Item) × (rest : List Item) × (get_elem? output port ≡ some (item ∷ rest))

IsActive-sound :
    (i : ℕ) (output : List (List Item)) (p : ℕ)
    → i + length output ≤ 256
    → Memᴰ p (active_from i (map encode_port output))
    → (k : ℕ) × (p ≡ i + k) × IsActive output k
unfolding active_from
IsActive-sound i [] p bound m = elim m [ ]
IsActive-sound i ([] ∷ output) p bound m =
    let (k, e, active) = IsActive-sound (suc i) output p (omega arith) m in
    (suc k, omega (arith, e), active)
IsActive-sound i ((item ∷ rest) ∷ output) p bound (Memᴰ.head e) =
    (0, e ∙ omega arith, (item, rest, refl))
IsActive-sound i ((item ∷ rest) ∷ output) p bound (Memᴰ.tail m) =
    let (k, e, active) = IsActive-sound (suc i) output p (omega arith) m in
    (suc k, omega (arith, e), active)

IsActive-complete :
    (i : ℕ) (output : List (List Item)) (k : ℕ)
    → i + length output ≤ 256
    → IsActive output k
    → Memᴰ (i + k) (active_from i (map encode_port output))
unfolding active_from
IsActive-complete i [] k bound (item, rest, h) = cc
IsActive-complete i ([] ∷ output) zero bound (item, rest, h) = cc
IsActive-complete i ([] ∷ output) (suc k) bound active =
    subst (λ p. Memᴰ p (active_from (suc i) (map encode_port output))) (omega arith)
      (IsActive-complete (suc i) output k (omega arith) active)
IsActive-complete i ((x ∷ xs) ∷ output) zero bound active = Memᴰ.head (omega arith)
IsActive-complete i ((x ∷ xs) ∷ output) (suc k) bound active = Memᴰ.tail (
    subst (λ p. Memᴰ p (active_from (suc i) (map encode_port output))) (omega arith)
      (IsActive-complete (suc i) output k (omega arith) active))

-- What a node puts out is what is read back. At each port the items that were encoded are decoded, in
-- their order, none where there is no such port; and where there are at most 256 ports, the active
-- ones are exactly those that carry an item.
pub encode-decode :
    (output : List (List Item)) (port : ℕ)
    → length output ≤ 256
    → (decode_port (encode output) port ≡ at_port output port)
      × (Memᴰ port (active_ports (encode output)) ↔ IsActive output port)
unfolding active_ports encode
encode-decode output port bound = (
  decode_port-encode output port,
  rw (elements-values_of (map encode_port output)) (
    λ m. active_at (IsActive-sound 0 output port (omega arith) m),
    λ active.
        subst (λ p. Memᴰ p (active_from 0 (map encode_port output))) (omega arith)
          (IsActive-complete 0 output port (omega arith) active),
  ),
)
  where
    active_at : (k : ℕ) × (port ≡ 0 + k) × IsActive output k → IsActive output port
    active_at (k, e, active) = subst (IsActive output) (sym (e ∙ omega arith)) active
