-- ===== src/Agents/Supervision.antt =====
-- core/src/extensions/agents/supervision.rs, with `SupervisionConfig` of
-- crates/shared-types/src/lib.rs. An instant is a number of nanoseconds of the monotonic clock.
use root_cx.Prelude.{
  ℕ, zero, suc, ◌+◌, ◌*◌, ◌-◌, ◌/◌, ◌%◌, ◌^◌, Bool, true, false, ◌&&◌, ◌||◌, not, Option, none,
  some, List, [], ◌∷◌, ◌++◌, Text, bytes, text_eq, strip_suffix, length, keep, leb, ltb, ◌==◌,
  if◌then◌else◌,
}
pub mod Coverage
pub mod Kept
pub mod Limits
pub mod Approval
use root_cx.Prelude.Maps.{Map, empty, insert}
use root_cx.Prelude.Spaces.{trim}
use root_cx.Rules.Parser.Interval.{unsigned_value}

pub data SupervisionMode : Type 0 where
  autonomous supervised strict : SupervisionMode

pub record RateLimit : Type 0 where
  pub max : ℕ
  pub window : Text

pub record SupervisionPolicy : Type 0 where
  pub action : Text
  pub entity : Option Text
  pub requires : Option Text
  pub rate_limit : Option RateLimit

pub record SupervisionConfig : Type 0 where
  pub mode : SupervisionMode
  pub policies : List SupervisionPolicy

-- `panic` stands for the `unwrap` of the first call of an empty record.
pub data PolicyDecision : Type 0 where
  allow : PolicyDecision
  requires_approval : (reason : Text) → PolicyDecision
  rate_limited : (retry_after_secs : ℕ) → PolicyDecision
  panic : PolicyDecision

pub record PolicyEvaluator : Type 0 where
  pub config : SupervisionConfig
  pub call_times : Map (List ℕ)

abbrev pub new : SupervisionConfig → PolicyEvaluator
new config = record { config = config; call_times = empty }

unfoldable pub tool_action : Text → Text
tool_action tool_name =
    if text_eq tool_name (bytes "query_data")
    then bytes "query"
    else if text_eq tool_name (bytes "mutate_data")
    then bytes "mutate"
    else tool_name

-- `parse::<u64>().unwrap_or(d)`
pub u64_or : ℕ → Text → ℕ
u64_or d [] = d
u64_or d (c ∷ s) =
    let value = if c == b'+' then unsigned_value s else unsigned_value (c ∷ s) in
    elim value [ none ↦ d | some n ↦ if ltb n (2 ^ 64) then n else d ]

-- The product of two `u64`, as an optimised build computes it.
abbrev pub times_u64 : ℕ → ℕ → ℕ
times_u64 a b = (a * b) % 2 ^ 64

-- The chain of `strip_suffix`, each with the number that stands before the unit.
abbrev pub days_or : Text → ℕ
days_or s = elim (strip_suffix s (bytes "d")) [
  | some n ↦ times_u64 (u64_or 1 n) 86400
  | none ↦ elim (strip_suffix s (bytes "s")) [ some n ↦ u64_or 60 n | none ↦ u64_or 3600 s ]
]

pub parse_window : Text → ℕ
parse_window window =
    let s = trim window in
    elim (strip_suffix s (bytes "h")) [
      | some n ↦ times_u64 (u64_or 1 n) 3600
      | none ↦ elim (strip_suffix s (bytes "m")) [
        | some n ↦ times_u64 (u64_or 1 n) 60
        | none ↦ days_or s
      ]
    ]

-- `now.duration_since(t).as_secs()`, which is zero for a later `t`.
abbrev pub age : ℕ → ℕ → ℕ
age now t = (now - t) / 10 ^ 9

-- `policy.action != "*" && policy.action != action` leaves the policy out.
abbrev pub covers_action : SupervisionPolicy → Text → Bool
covers_action policy action = text_eq policy.action (bytes "*") || text_eq policy.action action

abbrev pub recent : ℕ → ℕ → List ℕ → List ℕ
recent now window_secs times = keep (λ t. ltb (age now t) window_secs) times

abbrev pub limited : ℕ → ℕ → List ℕ → PolicyDecision
limited now window_secs [] = panic
limited now window_secs (t ∷ _) = rate_limited (window_secs - age now t)

abbrev pub at_limit :
    RateLimit
    → ℕ
    → (List ℕ → Option PolicyDecision × List ℕ)
    → List ℕ
    → Option PolicyDecision × List ℕ
at_limit rl now later left =
    if leb rl.max (length left % 2 ^ 32)
    then (some (limited now (parse_window rl.window) left), left)
    else later left

abbrev pub at_policy :
    Option RateLimit
    → Bool
    → ℕ
    → (List ℕ → Option PolicyDecision × List ℕ)
    → List ℕ
    → Option PolicyDecision × List ℕ
at_policy none covered now later times = later times
at_policy (some rl) false now later times = later times
at_policy (some rl) true now later times =
    at_limit rl now later (recent now (parse_window rl.window) times)

-- The loop of `check_rate_limits`, on the record of the tool: the decision, if it ends in one, and the
-- record as it is left. The clock is read at each policy, `clock i` at the one of index `i`.
unfoldable pub check_rate_limits :
    (ℕ → ℕ) → Text → ℕ → List SupervisionPolicy → List ℕ → Option PolicyDecision × List ℕ
check_rate_limits clock action i [] times = (none, times)
check_rate_limits clock action i (policy ∷ policies) times =
    let later = check_rate_limits clock action (suc i) policies in
    at_policy policy.rate_limit (covers_action policy action) (clock i) later times

abbrev pub entity_covered : Option Text → Option Text → Bool
entity_covered none entity = true
entity_covered (some wanted) (some entity) = text_eq entity wanted
entity_covered (some wanted) none = false

abbrev pub needs_approval : Option Text → Bool
needs_approval (some requires) = text_eq requires (bytes "approval")
needs_approval none = false

abbrev pub reason : Text → Option Text → Option Text → Text
reason action (some wanted) (some entity) =
    bytes "policy: "
    ++ action
    ++ bytes " on "
    ++ entity
    ++ bytes " (matched "
    ++ wanted
    ++ bytes ")"
reason action _ _ = bytes "policy: " ++ action ++ bytes " requires approval"

abbrev pub asks : SupervisionPolicy → Text → Option Text → Bool
asks policy action entity =
    covers_action policy action
    && (entity_covered policy.entity entity && needs_approval policy.requires)

-- `check_policies`; `entity` is what serde_json gives for `args.get("entity").and_then(as_str)`.
unfoldable pub check_policies : List SupervisionPolicy → Text → Option Text → PolicyDecision
check_policies [] action entity = allow
check_policies (policy ∷ policies) action entity =
    let rest = check_policies policies action entity in
    if asks policy action entity
    then requires_approval (reason action policy.entity entity)
    else rest

abbrev pub decide : SupervisionMode → List SupervisionPolicy → Text → Option Text → PolicyDecision
decide autonomous policies tool_name entity = allow
decide strict policies tool_name entity =
    requires_approval (bytes "strict mode: " ++ tool_name ++ bytes " requires approval")
decide supervised policies tool_name entity = check_policies policies (tool_action tool_name) entity

-- `entry(..).or_default()`
abbrev pub or_default : Option (List ℕ) → List ℕ
or_default none = []
or_default (some times) = times

abbrev pub times_of : Text → PolicyEvaluator → List ℕ
times_of tool_name ev = or_default (ev.call_times tool_name)

abbrev pub recorded : Text → List ℕ → PolicyEvaluator → PolicyEvaluator
recorded tool_name times ev = record ev { call_times = insert tool_name times ev.call_times }

abbrev pub after_limits :
    ℕ
    → Text
    → Option Text
    → PolicyEvaluator
    → Option PolicyDecision × List ℕ
    → PolicyDecision × PolicyEvaluator
after_limits now tool_name entity ev (some decision, times) =
    (decision, recorded tool_name times ev)
after_limits now tool_name entity ev (none, times) = (
  decide ev.config.mode ev.config.policies tool_name entity,
  recorded tool_name (times ++ now ∷ []) ev,
)

unfoldable pub evaluate :
    (ℕ → ℕ) → ℕ → Text → Option Text → PolicyEvaluator → PolicyDecision × PolicyEvaluator
evaluate clock now tool_name entity ev =
    after_limits now tool_name entity ev
      (check_rate_limits clock (tool_action tool_name) 0 ev.config.policies (times_of tool_name ev))
