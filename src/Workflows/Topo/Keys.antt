-- ===== src/Workflows/Topo/Keys.antt =====
-- core/src/extensions/workflows/executor.rs, `topo_sort`: the keys of the map of in-degrees, and the
-- queue that it starts from.
use root_cx.Prelude.{
  ℕ, ◌+◌, ◌≡◌, refl, sym, ◌∙◌, ◌⊎◌, inl, inr, true, ◌||◌, Bool-cases, or-cases, some, List, [], ◌∷◌,
  map, Memᴰ, Text, text_eq, text_eq_sound, text_eq_iff, length, ◌==◌, arith,
}
use root_cx.Prelude.Sets.{contains, Distinct}
use root_cx.Workflows.Graph.{WorkflowNode, WorkflowEdge}
use root_cx.Workflows.Topo.{Degrees, ensure, bump, in_degrees, zero_keys}
use root_cx.Workflows.Topo.Degrees.{degree, is_some, positives, Named}

abbrev pub names : Degrees → List Text
names m = map (λ (e : Text × ℕ). e.0) m

contains-ensure :
    (id x : Text) (m : Degrees)
    → contains (names (ensure id m)) x ≡ (contains (names m) x || text_eq x id)
unfolding ensure
contains-ensure id x [] = ground arith
contains-ensure id x ((k, d) ∷ m) =
    ground (arith, text_eq_iff k id, text_eq_iff x k, text_eq_iff x id, contains-ensure id x m)

contains-bump :
    (id x : Text) (m : Degrees)
    → contains (names (bump id m)) x ≡ (contains (names m) x || text_eq x id)
unfolding bump
contains-bump id x [] = ground arith
contains-bump id x ((k, d) ∷ m) =
    ground (arith, text_eq_iff k id, text_eq_iff x k, text_eq_iff x id, contains-bump id x m)

Distinct-ensure : (id : Text) (m : Degrees) → Distinct (names m) → Distinct (names (ensure id m))
unfolding ensure
Distinct-ensure id [] h = (refl, tt)
Distinct-ensure id ((k, d) ∷ m) h = elim (Bool-cases (text_eq k id)) [
  | inl t ↦ rw t h
  | inr f ↦ rw f (contains-ensure id k m ∙ rw (h.0, f), Distinct-ensure id m h.1)
]

Distinct-bump : (id : Text) (m : Degrees) → Distinct (names m) → Distinct (names (bump id m))
unfolding bump
Distinct-bump id [] h = (refl, tt)
Distinct-bump id ((k, d) ∷ m) h = elim (Bool-cases (text_eq k id)) [
  | inl t ↦ rw t h
  | inr f ↦ rw f (contains-bump id k m ∙ rw (h.0, f), Distinct-bump id m h.1)
]

pub Distinct-in_degrees :
    (nodes : List WorkflowNode) (edges : List WorkflowEdge) (m : Degrees)
    → Distinct (names m)
    → Distinct (names (in_degrees nodes edges m))
unfolding in_degrees
Distinct-in_degrees [] [] m h = h
Distinct-in_degrees [] (e ∷ edges) m h =
    Distinct-in_degrees [] edges (bump e.to m) (Distinct-bump e.to m h)
Distinct-in_degrees (n ∷ nodes) edges m h =
    Distinct-in_degrees nodes edges (ensure n.id m) (Distinct-ensure n.id m h)

contains-names : (x : Text) (m : Degrees) → contains (names m) x ≡ is_some (degree x m)
unfolding degree
contains-names x [] = refl
contains-names x ((k, d) ∷ m) = ground (arith, text_eq_iff k x, text_eq_iff x k, contains-names x m)

pub only-Named :
    (nodes : List WorkflowNode) (edges : List WorkflowEdge) (m : Degrees) (x : Text)
    → contains (names (in_degrees nodes edges m)) x ≡ true
    → (contains (names m) x ≡ true) ⊎ Named nodes edges x
unfolding in_degrees
only-Named [] [] m x h = inl h
only-Named [] (e ∷ edges) m x h = elim (only-Named [] edges (bump e.to m) x h) [
  | inl before ↦ elim (or-cases _ _ (sym (contains-bump e.to x m) ∙ before)) [
    | inl old ↦ inl old
    | inr new ↦ inr (inr (e, Memᴰ.head refl, sym (text_eq_sound x e.to new)))
  ]
  | inr (inl (n, at, same)) ↦ elim at [ ]
  | inr (inr (f, at, same)) ↦ inr (inr (f, Memᴰ.tail at, same))
]
only-Named (n ∷ nodes) edges m x h = elim (only-Named nodes edges (ensure n.id m) x h) [
  | inl before ↦ elim (or-cases _ _ (sym (contains-ensure n.id x m) ∙ before)) [
    | inl old ↦ inl old
    | inr new ↦ inr (inl (n, Memᴰ.head refl, sym (text_eq_sound x n.id new)))
  ]
  | inr (inl (f, at, same)) ↦ inr (inl (f, Memᴰ.tail at, same))
  | inr (inr (e, at, same)) ↦ inr (inr (e, at, same))
]

pub known-Named :
    (nodes : List WorkflowNode) (edges : List WorkflowEdge) (x : Text)
    → is_some (degree x (in_degrees nodes edges [])) ≡ true
    → Named nodes edges x
known-Named nodes edges x h =
    elim (only-Named nodes edges [] x (contains-names x (in_degrees nodes edges []) ∙ h)) [
      | inl none_before ↦ cc
      | inr named ↦ named
    ]

pub zero_keys_complete : (x : Text) (m : Degrees) → degree x m ≡ some 0 → Memᴰ x (zero_keys m)
unfolding degree zero_keys
zero_keys_complete x [] h = cc
zero_keys_complete x ((k, d) ∷ m) h = elim (Bool-cases (text_eq k x)) [
  | inl t ↦
      let none_in : d ≡ 0 = cc (rw t at h) in rw none_in (Memᴰ.head (sym (text_eq_sound k x t)))
  | inr f ↦ elim (Bool-cases (d == 0)) [
    | inl z ↦ rw z (Memᴰ.tail (zero_keys_complete x m (rw f at h)))
    | inr p ↦ rw p (zero_keys_complete x m (rw f at h))
  ]
]

zero_key_name :
    (x : Text) (m : Degrees) → contains (zero_keys m) x ≡ true → contains (names m) x ≡ true
unfolding zero_keys
zero_key_name x [] h = h
zero_key_name x ((k, d) ∷ m) h = ground (arith, zero_key_name x m)

pub zero_keys_sound :
    (x : Text) (m : Degrees)
    → Distinct (names m)
    → contains (zero_keys m) x ≡ true
    → degree x m ≡ some 0
unfolding degree zero_keys
zero_keys_sound x [] h c = cc
zero_keys_sound x ((k, d) ∷ m) h c =
    ground (arith, zero_keys_sound x m, zero_key_name x m, text_eq_iff k x, text_eq_iff x k)

pub Distinct-zero_keys : (m : Degrees) → Distinct (names m) → Distinct (zero_keys m)
unfolding zero_keys
Distinct-zero_keys [] h = tt
Distinct-zero_keys ((k, d) ∷ m) h = elim (Bool-cases (d == 0)) [
  | inl z ↦ rw z (ground (arith, zero_key_name k m), Distinct-zero_keys m h.1)
  | inr p ↦ rw p (Distinct-zero_keys m h.1)
]

pub length-zero_keys : (m : Degrees) → length (zero_keys m) + positives m ≡ length m
unfolding zero_keys positives
length-zero_keys [] = refl
length-zero_keys ((k, d) ∷ m) = ground (arith, length-zero_keys m)
