-- ===== src/Workflows/Nodes/Objects.antt =====
-- core/src/extensions/workflows/executor.rs, `overlay` and `merge_args`: two objects in one.
use root_cx.Prelude.{
  ◌≡◌, refl, sym, ap, ◌∙◌, Bool-cases, inl, inr, Option, none, some, Option-cases, Text, text_eq,
  text_eq_iff, text_eq_sound, if◌then◌else◌, arith,
}
use root_cx.Workflows.Json.{Value, object, Entries, end, entry, lookup, insert_entry, get}
use root_cx.Workflows.Nodes.{
  overlay_entries, overlay, or_insert, fill_entries, merge_args, first_of,
}

pub lookup-insert_entry :
    (key other : Text) (value : Value) (entries : Entries)
    → lookup other (insert_entry key value entries)
      ≡ (if text_eq key other then some value else lookup other entries)
lookup-insert_entry key other value end = refl
lookup-insert_entry key other value (entry k v rest) = ground (
  arith,
  text_eq_iff k key,
  text_eq_iff k other,
  text_eq_iff key other,
  lookup-insert_entry key other value rest,
)

-- No key of an object stands twice.
abbrev pub IsMap : Entries → Type 0
IsMap end = Unit
IsMap (entry k v rest) = (lookup k rest ≡ none) × IsMap rest

lookup-overlay :
    (base patch : Entries) (key : Text)
    → IsMap patch
    → lookup key (overlay_entries base patch) ≡ first_of (lookup key patch) (lookup key base)
unfolding overlay_entries
lookup-overlay base end key m = refl
lookup-overlay base (entry k v patch) key m =
    lookup-overlay (insert_entry k v base) patch key m.1 ∙ elim (Bool-cases (text_eq k key)) [
      | inl t ↦
          let absent = ap (λ (x : Text). lookup x patch) (sym (text_eq_sound k key t)) ∙ m.0 in
          rw (absent, lookup-insert_entry k key v base, t)
      | inr f ↦ rw (lookup-insert_entry k key v base, f)
    ]

lookup-or_insert :
    (k key : Text) (v : Value) (base : Entries)
    → lookup key (or_insert k v base)
      ≡ first_of (lookup key base) (if text_eq k key then some v else none)
lookup-or_insert k key v base = elim (Option-cases (lookup k base)) [
  | inr (old, found) ↦ rw found (ground (arith, text_eq_iff k key, found))
  | inl absent ↦
      rw absent (ground (arith, text_eq_iff k key, lookup-insert_entry k key v base, absent))
]

first_of_assoc : (a b c : Option Value) → first_of (first_of a b) c ≡ first_of a (first_of b c)
first_of_assoc none b c = refl
first_of_assoc (some v) b c = refl

lookup-fill :
    (base input : Entries) (key : Text)
    → lookup key (fill_entries base input) ≡ first_of (lookup key base) (lookup key input)
unfolding fill_entries
lookup-fill base end key = ground arith
lookup-fill base (entry k v input) key =
    lookup-fill (or_insert k v base) input key
    ∙ ap (λ (o : Option Value). first_of o (lookup key input)) (lookup-or_insert k key v base)
    ∙ first_of_assoc (lookup key base) _ (lookup key input)
    ∙ ap (first_of (lookup key base)) (one_more k v)
  where
    one_more :
        (k : Text) (v : Value)
        → first_of (if text_eq k key then some v else none) (lookup key input)
          ≡ (if text_eq k key then some v else lookup key input)
    one_more k v = ground arith

-- Two objects in one: of a key that both have, `overlay` keeps the value of the second and `merge_args`
-- that of the first, so that an item's data never replaces what the node's parameters say. A key that
-- one of them has alone keeps its value, and there are no others.
pub overlay-merge_args :
    (a b : Entries) (key : Text)
    → IsMap b
    → (get key (overlay (object a) (object b)) ≡ first_of (lookup key b) (lookup key a))
      × (get key (merge_args (object a) (object b)) ≡ first_of (lookup key a) (lookup key b))
overlay-merge_args a b key m = (lookup-overlay a b key m, lookup-fill a b key)
