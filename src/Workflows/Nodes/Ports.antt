-- ===== src/Workflows/Nodes/Ports.antt =====
-- core/src/extensions/workflows/executor.rs, `execute_if` and `execute_switch`: each item goes to one
-- port.
use mathlib.Core.Option
use root_cx.Prelude.{
  ℕ, suc, ◌+◌, ◌≤◌, ◌<◌, ◌≡◌, refl, sym, ap, ◌∙◌, zero, Bool, true, false, ◌&&◌, bytes, not,
  Bool-cases, inl, inr, Option, none, some, List, [], ◌∷◌, ◌++◌, append-nil, append_assoc, keep,
  length, ◌==◌, arith,
}
use root_cx.Prelude.Maps.{Map}
use root_cx.Workflows.Json.{Value, null, value_eq}
use root_cx.Workflows.Graph.{Item}
use root_cx.Workflows.Expr.{Engine}
use root_cx.Workflows.Items.{or_value}
use root_cx.Workflows.Items.RoundTrip.{at_port}
use root_cx.Workflows.Routing.{empty_ports}
use root_cx.Workflows.Routing.Inputs.{
  Extended, extend_at-Extended, length-empty_ports, empty-at_port,
}
use root_cx.Workflows.Nodes.{
  param, condition, split_if, execute_if, succeeded, position_from, or_last, switch_cases,
  num_cases, case_index, switch_items, execute_switch,
}

-- The value equals the case of this index and none before it; behind the last index, it equals no case.
abbrev pub first_fit : ℕ → Value → List Value → Bool
first_fit zero value [] = true
first_fit (suc p) value [] = false
first_fit zero value (c ∷ cases) = value_eq c value
first_fit (suc p) value (c ∷ cases) = not (value_eq c value) && first_fit p value cases

-- Without an array of cases there is the first port alone.
abbrev pub fits : ℕ → Value → Option (List Value) → Bool
fits p value none = p == 0
fits p value (some cases) = first_fit p value cases

keep-ap :
    (p q : Item → Bool) (items : List Item)
    → ((item : Item) → p item ≡ q item)
    → keep p items ≡ keep q items
keep-ap p q [] same = refl
keep-ap p q (item ∷ items) same = rw (same item, keep-ap p q items same)

beyond : (port n : ℕ) → port < n → (n == port) ≡ false
beyond port n h = ground arith

module _ (engine : Engine) (raw_params : Value) (outputs : Map Value) where
  abbrev pub holds : Item → Bool
  holds item = condition engine raw_params outputs item

  split_if-keep :
      (items : List Item)
      → ((split_if engine raw_params outputs items).0 ≡ keep holds items)
        × ((split_if engine raw_params outputs items).1 ≡ keep (λ item. not (holds item)) items)
  unfolding split_if
  split_if-keep [] = (refl, refl)
  split_if-keep (item ∷ items) =
      let (yes_items, no_items) = split_if-keep items in
      elim (Bool-cases (holds item)) [
        | inl t ↦ (rw (t, yes_items), rw (t, no_items))
        | inr f ↦ (rw (f, yes_items), rw (f, no_items))
      ]

  index_bound :
      (value : Value) (cases : List Value) (i : ℕ) {k : ℕ}
      → position_from engine raw_params outputs i value cases ≡ some k
      → k < i + length cases
  index_bound value [] i h = cc
  index_bound value (c ∷ cases) i h = elim (Bool-cases (value_eq c value)) [
    | inl t ↦ let same : some i ≡ some _ = rw t at h in ground arith
    | inr f ↦ omega (arith, index_bound value cases (suc i) (rw f at h))
  ]

  last_bound :
      (value : Value) (cases : List Value) (found : Option ℕ)
      → position_from engine raw_params outputs 0 value cases ≡ found
      → or_last engine raw_params outputs (length cases) found ≤ length cases
  last_bound value cases none h = omega arith
  last_bound value cases (some k) h = omega (arith, index_bound value cases 0 h)

  case_index_bound :
      (cases : Option (List Value)) (item : Item)
      → case_index engine raw_params outputs cases item ≤ num_cases engine raw_params outputs cases
  case_index_bound none item = omega arith
  case_index_bound (some cases) item = last_bound _ cases _ refl

  -- What a switch compares with its cases.
  abbrev pub chosen_value : Item → Value
  chosen_value item = or_value (param engine raw_params outputs (bytes "value") item.json) null

  abbrev pub goes_to : ℕ → Item → Bool
  goes_to p item = fits p (chosen_value item) (switch_cases engine raw_params outputs)

  -- Counted from `j`, a case has the index `j` or a larger one.
  or_last-position_from :
      (i last j : ℕ) (value : Value) (cases : List Value)
      → i < last
      → i < j
      → i
        < or_last engine raw_params outputs last
            (position_from engine raw_params outputs j value cases)
  or_last-position_from i last j value [] under before = under
  or_last-position_from i last j value (c ∷ cases) under before =
      elim (Bool-cases (value_eq c value)) [
        | inl t ↦ rw t before
        | inr f ↦ rw f (or_last-position_from i last (suc j) value cases under (omega arith))
      ]

  position_from-first_fit :
      (value : Value) (cases : List Value) (i p last port : ℕ)
      → last ≡ i + length cases
      → port ≡ i + p
      → (or_last engine raw_params outputs last
            (position_from engine raw_params outputs i value cases)
          == port)
        ≡ first_fit p value cases
  position_from-first_fit value [] i zero last port end at = ground arith
  position_from-first_fit value [] i (suc p) last port end at = ground arith
  position_from-first_fit value (c ∷ cases) i zero last port end at =
      elim (Bool-cases (value_eq c value)) [
        | inl t ↦ rw t (ground arith)
        | inr f ↦ rw f (
            beyond port _ (
              port_before
                (or_last-position_from i last (suc i) value cases (omega arith) (omega arith))))
      ]
    where
      port_before : {n : ℕ} → i < n → port < n
      port_before h = omega (arith, h)
  position_from-first_fit value (c ∷ cases) i (suc p) last port end at =
      elim (Bool-cases (value_eq c value)) [
        | inl t ↦ rw t (ground arith)
        | inr f ↦
            rw f
              (position_from-first_fit value cases (suc i) p last port (omega arith) (omega arith))
      ]

  case_index-fits :
      (cases : Option (List Value)) (p : ℕ) (item : Item)
      → (case_index engine raw_params outputs cases item == p) ≡ fits p (chosen_value item) cases
  case_index-fits none zero item = refl
  case_index-fits none (suc p) item = ground arith
  case_index-fits (some cases) p item =
      position_from-first_fit (chosen_value item) cases 0 p (length cases) p (omega arith)
        (omega arith)

  record Switched (cases : Option (List Value)) (items : List Item) (ports : List (List Item))
      : Type 0 where
    ports' : List (List Item)
    runs : switch_items engine raw_params outputs cases items ports ≡ some ports'
    as_long : length ports' ≡ length ports
    filled :
        (p : ℕ)
        → at_port ports' p
          ≡ at_port ports p
            ++ keep (λ item. case_index engine raw_params outputs cases item == p) items

  switch_items-Switched :
      (cases : Option (List Value)) (items : List Item) (ports : List (List Item))
      → num_cases engine raw_params outputs cases < length ports
      → Switched cases items ports
  unfolding switch_items
  switch_items-Switched cases [] ports bound = record {
    ports' = ports;
    runs = refl;
    as_long = refl;
    filled = λ p. sym (append-nil (at_port ports p));
  }
  switch_items-Switched cases (item ∷ items) ports bound =
      let i = case_index engine raw_params outputs cases item in
      let first : Extended ports i (item ∷ []) =
        extend_at-Extended ports i (item ∷ []) (omega (arith, case_index_bound cases item)) in
      let rest : Switched cases items first.ports' =
        switch_items-Switched cases items first.ports' (omega (arith, first.as_long)) in
      record {
        ports' = rest.ports';
        runs = rw (first.extends) rest.runs;
        as_long = rest.as_long ∙ first.as_long;
        filled = λ p. rest.filled p ∙ step p first;
      }
    where
      step :
          (p : ℕ)
          (first : Extended ports (case_index engine raw_params outputs cases item) (item ∷ []))
          → at_port first.ports' p
              ++ keep (λ item. case_index engine raw_params outputs cases item == p) items
            ≡ at_port ports p
              ++ keep (λ item. case_index engine raw_params outputs cases item == p) (item ∷ items)
      step p first = elim (Bool-cases (case_index engine raw_params outputs cases item == p)) [
        | inl t ↦
            rw (first.holds p, t)
              (append_assoc (at_port ports p) (item ∷ [])
                (keep (λ item. case_index engine raw_params outputs cases item == p) items))
        | inr f ↦ rw (first.holds p, f)
      ]

-- A switch never panics: it has a port for each case and one more. The port of a case holds, in their
-- order, the items whose value equals this case and none before it, and the last port the items whose
-- value equals no case; where the parameters have no array of cases, the only port holds all items.
pub execute_switch_lem :
    (engine : Engine) (raw_params : Value) (outputs : Map Value) (items : List Item)
    → (ports : List (List Item)) × (execute_switch engine raw_params outputs items
        ≡ some (succeeded ports))
      × (length ports
          ≡ suc (num_cases engine raw_params outputs (switch_cases engine raw_params outputs)))
      × ((p : ℕ) → at_port ports p ≡ keep (goes_to engine raw_params outputs p) items)
execute_switch_lem engine raw_params outputs items =
    let cases = switch_cases engine raw_params outputs in
    let n = num_cases engine raw_params outputs cases in
    let switched : Switched engine raw_params outputs cases items (empty_ports n) =
      switch_items-Switched engine raw_params outputs cases items (empty_ports n)
        (omega (arith, length-empty_ports n)) in
    (
      switched.ports',
      ap (λ (o : Option (List (List Item))). Option.map succeeded o) switched.runs,
      switched.as_long ∙ length-empty_ports n,
      λ p.
          switched.filled p
          ∙ rw (empty-at_port n p)
              (keep-ap _ _ items (case_index-fits engine raw_params outputs cases p)),
    )

-- An `if` node splits its items: the first port has those whose condition is true, the second port the
-- others, each in the order of the input.
pub execute_if_lem :
    (engine : Engine) (raw_params : Value) (outputs : Map Value) (items : List Item)
    → execute_if engine raw_params outputs items
      ≡ succeeded (
          keep (holds engine raw_params outputs) items
          ∷ keep (λ item. not (holds engine raw_params outputs item)) items
          ∷ [])
execute_if_lem engine raw_params outputs items =
    let (yes_items, no_items) = split_if-keep engine raw_params outputs items in
    rw (yes_items, no_items)
