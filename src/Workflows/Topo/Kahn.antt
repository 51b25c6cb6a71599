-- ===== src/Workflows/Topo/Kahn.antt =====
-- core/src/extensions/workflows/executor.rs, `topo_sort`: one round of the loop.
use root_cx.Prelude.{
  ℕ, suc, ◌+◌, ◌≡◌, refl, ◌∙◌, inl, inr, Bool, true, false, ◌&&◌, ◌||◌, Bool-cases, Option, none,
  some, List, [], ◌∷◌, ◌++◌, Memᴰ, Text, text_eq, text_eq_refl, text_eq_iff, length, length-append,
  any-append, ◌==◌, if◌then◌else◌, arith,
}
use root_cx.Prelude.Sets.{contains, Distinct}
use root_cx.Workflows.Graph.{WorkflowEdge}
use root_cx.Workflows.Topo.{Degrees, relax_edge, relax}
use root_cx.Workflows.Topo.Degrees.{degree, positives, lower-lowered, waits, pending}

-- The degree of a key.
abbrev pub at : Bool → ℕ → Option ℕ
at true d = some d
at false d = none

module _ (known : Text → Bool) where
  -- The map holds the counts; the keys with none left are the taken ones and, apart from these and
  -- each once, the queued ones.
  pub record Counted (count : Text → ℕ) (taken : List Text) (degrees : Degrees) (queue : List Text)
      : Type 0 where
    pub holds : (x : Text) → degree x degrees ≡ at (known x) (count x)
    pub queue_zero : (x : Text) → contains queue x ≡ true → (known x ≡ true) × (count x ≡ 0)
    pub taken_zero : (x : Text) → contains taken x ≡ true → (known x ≡ true) × (count x ≡ 0)
    pub apart : (x : Text) → contains queue x ≡ true → contains taken x ≡ false
    pub distinct : Distinct queue
    pub ready :
        (x : Text) → known x ≡ true → count x ≡ 0 → (contains taken x || contains queue x) ≡ true

  -- The count after an edge into `to` is lowered to `d`.
  abbrev set_count : (Text → ℕ) → Text → ℕ → Text → ℕ
  set_count count to d x = if text_eq to x then d else count x

  contains-snoc :
      (queue : List Text) (to x : Text)
      → contains (queue ++ to ∷ []) x ≡ (contains queue x || text_eq x to)
  contains-snoc queue to x = any-append (text_eq x) queue (to ∷ []) ∙ ground arith

  Distinct-snoc :
      (queue : List Text) (to : Text)
      → Distinct queue
      → contains queue to ≡ false
      → Distinct (queue ++ to ∷ [])
  Distinct-snoc [] to h new = (refl, tt)
  Distinct-snoc (y ∷ queue) to h new = (
    contains-snoc queue to y ∙ ground (arith, text_eq_iff y to, text_eq_iff to y),
    Distinct-snoc queue to h.1 (ground arith),
  )

  module _ (count : Text → ℕ) (taken : List Text) (degrees : Degrees) (queue : List Text)
      (to : Text) (d : ℕ) (c : Counted count taken degrees queue) (target : known to ≡ true)
      (more : count to ≡ suc d) where
    abbrev queue' : List Text
    queue' = if d == 0 then queue ++ to ∷ [] else queue

    not_queued : contains queue to ≡ false
    not_queued = elim (Bool-cases (contains queue to)) [
      | inl t ↦ absurd (omega (arith, (c.queue_zero to t).1, more))
      | inr f ↦ f
    ]

    not_taken : contains taken to ≡ false
    not_taken = elim (Bool-cases (contains taken to)) [
      | inl t ↦ absurd (omega (arith, (c.taken_zero to t).1, more))
      | inr f ↦ f
    ]

    contains-queue' :
        (x : Text) → contains queue' x ≡ (contains queue x || ((d == 0) && text_eq x to))
    contains-queue' x = elim (Bool-cases (d == 0)) [
      | inl z ↦ rw z (contains-snoc queue to x)
      | inr p ↦ rw p (ground arith)
    ]

    Distinct-queue' : Distinct queue'
    Distinct-queue' = elim (Bool-cases (d == 0)) [
      | inl z ↦ rw z (Distinct-snoc queue to c.distinct not_queued)
      | inr p ↦ rw p c.distinct
    ]

    lowered-Counted :
        (degrees' : Degrees)
        → ((x : Text) → degree x degrees' ≡ (if text_eq to x then some d else degree x degrees))
        → Counted (set_count count to d) taken degrees' queue'
    lowered-Counted degrees' holds' = record {
      holds = λ x. holds' x ∙ ground (arith, c.holds x, text_eq_iff to x);
      queue_zero = λ x m. ground (
        arith,
        contains-queue' x,
        c.queue_zero x,
        text_eq_iff x to,
        text_eq_iff to x,
        not_queued,
      );
      taken_zero = λ x m. ground (arith, c.taken_zero x, text_eq_iff to x, not_taken);
      apart = λ x m. ground (arith, contains-queue' x, c.apart x, text_eq_iff x to, not_taken);
      distinct = Distinct-queue';
      ready =
          λ x k z. ground (arith, contains-queue' x, c.ready x, text_eq_iff x to, text_eq_iff to x);
    }

    length-queue' : length queue' ≡ length queue + (if d == 0 then 1 else 0)
    length-queue' = elim (Bool-cases (d == 0)) [
      | inl z ↦ rw z (length-append queue (to ∷ []))
      | inr p ↦ rw p (omega arith)
    ]

  -- What the loop over the edges leaves when a node `n` is taken; `base` counts what is not in `edges`.
  pub record Relaxed (n : Text) (base : Text → ℕ) (edges : List WorkflowEdge) (taken : List Text)
      (degrees : Degrees) (queue : List Text) : Type 0 where
    pub degrees' : Degrees
    pub queue_after : List Text
    pub count' : Text → ℕ
    pub runs : relax n edges (degrees, queue) ≡ some (degrees', queue_after)
    pub counted : Counted count' (n ∷ taken) degrees' queue_after
    pub counts : (x : Text) → count' x ≡ base x + pending (n ∷ taken) x edges
    pub measure : positives degrees' + length queue_after ≡ positives degrees + length queue

  module _ (n : Text) (taken : List Text) (new : contains taken n ≡ false) where
    waits_new :
        (x : Text) (e : WorkflowEdge) → text_eq e.from n ≡ true → waits taken x e ≡ text_eq e.to x
    waits_new x e t = ground (arith, text_eq_iff e.from n)

    waits_taken :
        (x : Text) (e : WorkflowEdge) → text_eq e.from n ≡ true → waits (n ∷ taken) x e ≡ false
    waits_taken x e t = ground arith

    waits_other :
        (x : Text) (e : WorkflowEdge)
        → text_eq e.from n ≡ false
        → waits (n ∷ taken) x e ≡ waits taken x e
    waits_other x e f = ground arith

    more_left :
        (e : WorkflowEdge) (b p k : ℕ)
        → text_eq e.from n ≡ true
        → k ≡ b + ((if waits taken e.to e then 1 else 0) + p)
        → k ≡ suc (b + p)
    more_left e b p k t h = h ∙ rw (waits_new e.to e t, text_eq_refl e.to) (omega arith)

    set_left :
        (e : WorkflowEdge) (base count rest : Text → ℕ) (x : Text)
        → text_eq e.from n ≡ true
        → count x ≡ base x + ((if waits taken x e then 1 else 0) + rest x)
        → set_count count e.to (base e.to + rest e.to) x ≡ base x + rest x
    set_left e base count rest x t h = ground (arith, waits_new x e t, text_eq_iff e.to x)

    pub relax-Relaxed :
        (edges : List WorkflowEdge) (base count : Text → ℕ) (degrees : Degrees) (queue : List Text)
        → Counted count (n ∷ taken) degrees queue
        → ((e : WorkflowEdge) → Memᴰ e edges → known e.to ≡ true)
        → ((x : Text) → count x ≡ base x + pending taken x edges)
        → Relaxed n base edges taken degrees queue
    unfolding relax relax_edge pending
    relax-Relaxed [] base count degrees queue c targets counts = record {
      degrees' = degrees;
      queue_after = queue;
      count' = count;
      runs = refl;
      counted = c;
      counts = counts;
      measure = refl;
    }
    relax-Relaxed (e ∷ edges) base count degrees queue c targets counts =
        elim (Bool-cases (text_eq e.from n)) [
          | inl t ↦
              let d = base e.to + pending taken e.to edges in
              let more : count e.to ≡ suc d =
                more_left e (base e.to) (pending taken e.to edges) (count e.to) t (counts e.to) in
              let target = targets e (Memᴰ.head refl) in
              let (m, is_lowered, holds, left) =
                lower-lowered e.to d degrees (c.holds e.to ∙ rw (target, more) refl) in
              let rest : Relaxed n base edges taken m
                  (queue' count (n ∷ taken) degrees queue e.to d c target more) =
                relax-Relaxed edges base (set_count count e.to d) m _
                  (lowered-Counted count (n ∷ taken) degrees queue e.to d c target more m holds)
                  (λ f at. targets f (Memᴰ.tail at))
                  (λ x. set_left e base count (λ y. pending taken y edges) x t (counts x)) in
              record {
                degrees' = rest.degrees';
                queue_after = rest.queue_after;
                count' = rest.count';
                runs = rw (t, is_lowered) rest.runs;
                counted = rest.counted;
                counts = λ x. rest.counts x ∙ rw (waits_taken x e t) (omega arith);
                measure = omega (
                  arith,
                  rest.measure,
                  length-queue' count (n ∷ taken) degrees queue e.to d c target more,
                  left,
                );
              }
          | inr f ↦
              let rest : Relaxed n (λ x. base x + (if waits taken x e then 1 else 0)) edges taken
                  degrees queue =
                relax-Relaxed edges _ count degrees queue c (λ g at. targets g (Memᴰ.tail at))
                  (λ x. counts x ∙ omega arith) in
              record {
                degrees' = rest.degrees';
                queue_after = rest.queue_after;
                count' = rest.count';
                runs = rw f rest.runs;
                counted = rest.counted;
                counts = λ x. rest.counts x ∙ rw (waits_other x e f) (omega arith);
                measure = rest.measure;
              }
        ]
