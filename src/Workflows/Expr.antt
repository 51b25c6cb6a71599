-- ===== src/Workflows/Expr.antt =====
-- core/src/extensions/workflows/expr.rs: the bindings in the parameters of a node. The JavaScript
-- engine, with the context that is built from the input and the outputs, is an argument that gives the
-- value of an expression, null where it fails; so is the text that serde_json prints of a value.
use root_cx.Prelude.{
  ℕ, zero, suc, Bool, true, false, not, ◌&&◌, Option, none, some, List, [], ◌∷◌, ◌++◌, Text, bytes,
  drop, length, starts_with, strip_suffix, has_part, if◌then◌else◌,
}
use root_cx.Prelude.Maps.{Map}
use root_cx.Prelude.Spaces.{trim}
use root_cx.Workflows.Items.{node_item_json}
use root_cx.Workflows.Json.{
  Value, null, bool, number, string, array, object, is_null, Values, nil, cons, Entries, end, entry,
}
pub mod Fuel

abbrev pub opening : Text
opening = bytes "{{"

abbrev pub closing : Text
closing = bytes "}}"

-- `s.strip_prefix(prefix)`
abbrev pub strip_prefix : Text → Text → Option Text
strip_prefix s prefix = if starts_with s prefix then some (drop (length prefix) s) else none

abbrev pub after_char : ℕ → Option (Text × Text) → Option (Text × Text)
after_char c none = none
after_char c (some (before, after)) = some (c ∷ before, after)

-- `s.find(pat)`, as what stands before and behind the part that is found.
unfoldable pub split_once : Text → Text → Option (Text × Text)
split_once [] pat = none
split_once (c ∷ s) pat =
    let later = after_char c (split_once s pat) in
    if starts_with (c ∷ s) pat then some ([], drop (length pat) (c ∷ s)) else later

-- The two branches of `if let Some(..) = text.find(..)`.
abbrev pub on_found : Option (Text × Text) → Text → (Text → Text) → (Text → Text → Text) → Text
on_found none text otherwise found = otherwise text
on_found (some (before, after)) text otherwise found = found before after

module _ (engine : Text → Value) (show : Value → Text) where
  -- `eval_js`
  abbrev pub eval_js : Text → Value
  eval_js [] = null
  eval_js (c ∷ expr) = engine (c ∷ expr)

  abbrev pub shown : Value → Text
  shown (string s) = s
  shown null = bytes "null"
  shown other = show other

  -- The `while` loop; `fuel` is at least the length of `rest`.
  unfoldable pub interpolate : ℕ → Text → Text
  interpolate zero rest = rest
  interpolate (suc fuel) rest =
      on_found (split_once rest opening) rest (λ all. all)
        (λ before after.
          before
          ++ on_found (split_once after closing) after (λ all. opening ++ interpolate fuel all)
              (λ inner tail. shown (eval_js (trim inner)) ++ interpolate fuel tail))

  abbrev pub inner_of : Text → Option Text
  inner_of trimmed = elim (strip_prefix trimmed opening) [
    | none ↦ none
    | some rest ↦ strip_suffix rest closing
  ]

  abbrev pub mixed : Text → Text → Value
  mixed s trimmed =
      if has_part trimmed opening && has_part trimmed closing
      then string (interpolate (length s) s)
      else string s

  unfoldable pub resolve_string : Text → Value
  resolve_string s = elim (inner_of (trim s)) [
    | some expr ↦ eval_js (trim expr)
    | none ↦ mixed s (trim s)
  ]

unfoldable mutual
  unfolding resolve_string

  pub resolve_tree : (Text → Value) → (Value → Text) → Value → Value
  resolve_tree engine show (string s) = resolve_string engine show s
  resolve_tree engine show (object entries) = object (resolve_entries engine show entries)
  resolve_tree engine show (array values) = array (resolve_values engine show values)
  resolve_tree engine show null = null
  resolve_tree engine show (bool b) = bool b
  resolve_tree engine show (number n) = number n

  pub resolve_values : (Text → Value) → (Value → Text) → Values → Values
  resolve_values engine show nil = nil
  resolve_values engine show (cons v vs) =
      cons (resolve_tree engine show v) (resolve_values engine show vs)

  pub resolve_entries : (Text → Value) → (Value → Text) → Entries → Entries
  resolve_entries engine show end = end
  resolve_entries engine show (entry k v rest) =
      entry k (resolve_tree engine show v) (resolve_entries engine show rest)

-- The first item of the first port; a value in the legacy format stands for itself.
abbrev pub has_ports : Value → Bool
has_ports (array (cons (array _) _)) = true
has_ports _ = false

abbrev pub node_value : Value → Value
node_value stored =
    let first = node_item_json stored 0 0 in
    if is_null first && not (has_ports stored) then stored else first

abbrev pub node_json : Map Value → Map Value
node_json outputs id = elim (outputs id) [ none ↦ none | some stored ↦ some (node_value stored) ]

-- The engine sees the input as `$json` and `$input`, and `$node` as the map of what its nodes have
-- under `json`. Its answer to an expression is taken to depend on these alone, and not on what another
-- expression of the same tree has left in the context; a script that does not return is left to
-- `answers` of the run.
pub record Engine : Type 0 where
  pub eval : Value → Map Value → Text → Value
  pub show : Value → Text

unfoldable pub resolve : Engine → Value → Value → Map Value → Value
resolve engine value input outputs =
    resolve_tree (engine.eval input (node_json outputs)) engine.show value
