-- ===== src/Agents/Supervision/Approval.antt =====
-- core/src/extensions/agents/supervision.rs, `evaluate`: when a call is let through unasked.
use root_cx.Prelude.{
  ◌≡◌, refl, sym, ◌∙◌, subst, ◌⊎◌, ◌↔◌, inl, inr, Bool, true, false, Bool-cases, ℕ, suc, ◌%◌, ◌^◌,
  Option, none, some, List, [], ◌∷◌, Text, Memᴰ, leb, length,
}
use root_cx.Agents.Supervision.{
  SupervisionMode, SupervisionPolicy, PolicyDecision, allow, requires_approval, RateLimit,
  PolicyEvaluator, asks, check_policies, decide, tool_action, covers_action, recent, parse_window,
  limited, at_policy, check_rate_limits, times_of, after_limits, evaluate,
}
use root_cx.Agents.Supervision.Coverage.{Requires, Requires-sound, Requires-complete}

-- Some policy of the list, wherever it stands, requires an approval of this call.
abbrev pub SomeRequires : Text → Option Text → List SupervisionPolicy → Type 0
SomeRequires action entity policies =
    (policy : SupervisionPolicy) × Memᴰ policy policies × Requires action entity policy

abbrev pub IsRequest : PolicyDecision → Type 0
IsRequest decision = (reason : Text) × (decision ≡ requires_approval reason)

-- A decision that lets the call through, for a reason to, or asks, for a reason to ask.
abbrev Verdict : PolicyDecision → Type 0 → Type 0 → Type 0
Verdict decision Lets Asks =
    ((decision ≡ allow) × Lets × (¬ Asks)) ⊎ (IsRequest decision × Asks × (¬ Lets))

module _ (action : Text) (entity : Option Text) where
  none_required : ¬ SomeRequires action entity []
  none_required (policy, absent, requires) = elim absent [ ]

  none_more :
      (policy : SupervisionPolicy) (policies : List SupervisionPolicy)
      → asks policy action entity ≡ false
      → ¬ SomeRequires action entity policies
      → ¬ SomeRequires action entity (policy ∷ policies)
  none_more policy policies f later (p, Memᴰ.head same, requires) =
      let asked : asks policy action entity ≡ true =
        Requires-complete action entity policy (subst (Requires action entity) same requires) in
      let apart : false ≡ true = sym f ∙ asked in cc (apart)
  none_more policy policies f later (p, Memᴰ.tail at, requires) = later (p, at, requires)

  check_policies-Verdict :
      (policies : List SupervisionPolicy)
      → Verdict
          (check_policies policies action entity)
          (¬ SomeRequires action entity policies)
          (SomeRequires action entity policies)
  unfolding check_policies
  check_policies-Verdict [] = inl (refl, none_required, none_required)
  check_policies-Verdict (policy ∷ policies) = elim (Bool-cases (asks policy action entity)) [
    | inl t ↦
        let found : SomeRequires action entity (policy ∷ policies) =
          (policy, Memᴰ.head refl, Requires-sound action entity policy t) in
        rw t (inr ((_, refl), found, λ h. h found))
    | inr f ↦ rw f (elim (check_policies-Verdict policies) [
      | inl (lets, unasked, _) ↦
          let still = none_more policy policies f unasked in inl (lets, still, still)
      | inr (request, (p, at, requires), _) ↦
          let found : SomeRequires action entity (policy ∷ policies) =
            (p, Memᴰ.tail at, requires) in
          inr (request, found, λ h. h found)
    ])
  ]

-- The configuration lets a call through, or asks about it.
abbrev pub Lets : SupervisionMode → List SupervisionPolicy → Text → Option Text → Type 0
Lets mode policies tool_name entity =
    (mode ≡ SupervisionMode.autonomous)
    ⊎ ((mode ≡ SupervisionMode.supervised)
        × (¬ SomeRequires (tool_action tool_name) entity policies))

abbrev pub Asks : SupervisionMode → List SupervisionPolicy → Text → Option Text → Type 0
Asks mode policies tool_name entity =
    (mode ≡ SupervisionMode.strict)
    ⊎ ((mode ≡ SupervisionMode.supervised) × SomeRequires (tool_action tool_name) entity policies)

module _ (policies : List SupervisionPolicy) (tool_name : Text) (entity : Option Text) where
  decide-Verdict :
      (mode : SupervisionMode)
      → Verdict
          (decide mode policies tool_name entity)
          (Lets mode policies tool_name entity)
          (Asks mode policies tool_name entity)
  decide-Verdict SupervisionMode.autonomous =
      inl (refl, inl refl, λ h. elim h [ inl e ↦ cc (e) | inr (e, _) ↦ cc (e) ])
  decide-Verdict SupervisionMode.strict =
      inr ((_, refl), inl refl, λ h. elim h [ inl e ↦ cc (e) | inr (e, _) ↦ cc (e) ])
  decide-Verdict SupervisionMode.supervised =
      elim (check_policies-Verdict (tool_action tool_name) entity policies) [
        | inl (lets, unasked, _) ↦ inl (
          lets,
          inr (refl, unasked),
          λ h. elim h [ inl e ↦ cc (e) | inr (_, found) ↦ unasked found ],
        )
        | inr (request, found, _) ↦ inr (
          request,
          inr (refl, found),
          λ h. elim h [ inl e ↦ cc (e) | inr (_, unasked) ↦ unasked found ],
        )
      ]

-- A rate limit neither lets a call through nor asks about it.
abbrev IsStop : Option PolicyDecision → Type 0
IsStop none = Unit {0}
IsStop (some decision) = (¬ (decision ≡ allow)) × (¬ IsRequest decision)

limited-IsStop : (now window : ℕ) (times : List ℕ) → IsStop (some (limited now window times))
limited-IsStop now window [] = (λ e. cc (e), λ (reason, e). cc (e))
limited-IsStop now window (t ∷ times) = (λ e. cc (e), λ (reason, e). cc (e))

at_policy-IsStop :
    (limit : Option RateLimit) (covered : Bool) (now : ℕ)
    (later : List ℕ → Option PolicyDecision × List ℕ)
    → ((times : List ℕ) → IsStop (later times).0)
    → (times : List ℕ) → IsStop (at_policy limit covered now later times).0
at_policy-IsStop none covered now later ih times = ih times
at_policy-IsStop (some rl) false now later ih times = ih times
at_policy-IsStop (some rl) true now later ih times =
    let left = recent now (parse_window rl.window) times in
    elim (Bool-cases (leb rl.max (length left % 2 ^ 32))) [
      | inl t ↦ rw t (limited-IsStop now (parse_window rl.window) left)
      | inr f ↦ rw f (ih left)
    ]

check_rate_limits-IsStop :
    (clock : ℕ → ℕ) (action : Text) (i : ℕ) (policies : List SupervisionPolicy) (times : List ℕ)
    → IsStop (check_rate_limits clock action i policies times).0
unfolding check_rate_limits
check_rate_limits-IsStop clock action i [] times = tt
check_rate_limits-IsStop clock action i (policy ∷ policies) times =
    at_policy-IsStop policy.rate_limit (covers_action policy action) (clock i)
      (check_rate_limits clock action (suc i) policies)
      (check_rate_limits-IsStop clock action (suc i) policies) times

module _ (now : ℕ) (tool_name : Text) (entity : Option Text) (ev : PolicyEvaluator) where
  abbrev Settled : Option PolicyDecision × List ℕ → Type 0
  Settled r =
      (((after_limits now tool_name entity ev r).0 ≡ allow)
        ↔ ((r.0 ≡ none) × Lets ev.config.mode ev.config.policies tool_name entity))
      × (IsRequest (after_limits now tool_name entity ev r).0
          ↔ ((r.0 ≡ none) × Asks ev.config.mode ev.config.policies tool_name entity))

  after_limits-Settled : (r : Option PolicyDecision × List ℕ) → IsStop r.0 → Settled r
  after_limits-Settled (some decision, left) (not_let, not_asked) =
      ((λ h. absurd (not_let h), λ (e, _). cc (e)), (λ h. absurd (not_asked h), λ (e, _). cc (e)))
  after_limits-Settled (none, left) stop =
      elim (decide-Verdict ev.config.policies tool_name entity ev.config.mode) [
        | inl (lets, why, unasked) ↦ (
          (λ h. (refl, why), λ h. lets),
          (λ (reason, e). cc (lets, e), λ (_, asked). absurd (unasked asked)),
        )
        | inr ((reason, e), why, not_let) ↦ (
          (λ h. cc (h, e), λ (_, lets). absurd (not_let lets)),
          (λ h. (refl, why), λ h. (reason, e)),
        )
      ]

-- Where no rate limit stops a call, it is let through unasked exactly in autonomous mode, and in
-- supervised mode if no policy of the list requires an approval of it; and an approval is asked exactly
-- in strict mode, and in supervised mode if some policy requires it. A policy requires one if its
-- action is the tool's or `*`, its entity, if it names one, is that of the call, and it says
-- `approval`. A call that a rate limit stops is neither let through nor asked about.
pub evaluate_iff :
    (clock : ℕ → ℕ) (now : ℕ) (tool_name : Text) (entity : Option Text) (ev : PolicyEvaluator)
    → (((evaluate clock now tool_name entity ev).0 ≡ allow) ↔ (
        ((check_rate_limits clock
            (tool_action tool_name)
            0
            ev.config.policies
            (times_of tool_name ev)).0
          ≡ none)
        × Lets ev.config.mode ev.config.policies tool_name entity))
      × (IsRequest (evaluate clock now tool_name entity ev).0 ↔ (
          ((check_rate_limits clock
              (tool_action tool_name)
              0
              ev.config.policies
              (times_of tool_name ev)).0
            ≡ none)
          × Asks ev.config.mode ev.config.policies tool_name entity))
unfolding evaluate
evaluate_iff clock now tool_name entity ev = after_limits-Settled now tool_name entity ev _ (
    check_rate_limits-IsStop clock (tool_action tool_name) 0 ev.config.policies
      (times_of tool_name ev))
