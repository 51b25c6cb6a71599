-- ===== src/Agents/Tests.antt =====
-- Runs of the theorems on supervision at a concrete configuration.
use root_cx.Prelude.{◌≡◌, ◌↔◌, some, none, [], ◌∷◌, bytes}
use root_cx.Agents.Supervision.{
  SupervisionMode, SupervisionPolicy, PolicyEvaluator, recorded, times_of, check_rate_limits,
  evaluate, new, allow, tool_action,
}
use root_cx.Agents.Supervision.Approval.{Lets, Asks, IsRequest, evaluate_iff}

abbrev twice_a_minute : SupervisionPolicy
twice_a_minute = record {
  action = bytes "*";
  entity = none;
  requires = none;
  rate_limit = some (record { max = 2; window = bytes "1m" });
}

abbrev approve_orders : SupervisionPolicy
approve_orders = record {
  action = bytes "mutate";
  entity = some (bytes "order");
  requires = some (bytes "approval");
  rate_limit = none;
}

abbrev evaluator : PolicyEvaluator
evaluator =
    new (record {
      mode = SupervisionMode.supervised;
      policies = twice_a_minute ∷ approve_orders ∷ [];
    })

-- Two calls are recorded, one of them out of the window.
abbrev two_calls : PolicyEvaluator
two_calls = recorded (bytes "mutate_data") (3 ∷ 80000000000 ∷ []) evaluator

evaluate_iff_example :
    (((evaluate (λ i. 5) 7 (bytes "mutate_data") (some (bytes "note")) evaluator).0 ≡ allow) ↔ (
      ((check_rate_limits
          (λ i. 5)
          (tool_action (bytes "mutate_data"))
          0
          evaluator.config.policies
          (times_of (bytes "mutate_data") evaluator)).0
        ≡ none)
      × Lets SupervisionMode.supervised evaluator.config.policies
          (bytes "mutate_data")
          (some (bytes "note"))))
    × (IsRequest (evaluate (λ i. 5) 7 (bytes "mutate_data") (some (bytes "note")) evaluator).0 ↔ (
        ((check_rate_limits
            (λ i. 5)
            (tool_action (bytes "mutate_data"))
            0
            evaluator.config.policies
            (times_of (bytes "mutate_data") evaluator)).0
          ≡ none)
        × Asks SupervisionMode.supervised evaluator.config.policies
            (bytes "mutate_data")
            (some (bytes "note"))))
evaluate_iff_example = evaluate_iff (λ i. 5) 7 (bytes "mutate_data") (some (bytes "note")) evaluator
