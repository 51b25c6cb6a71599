-- ===== src/Agents/Supervision/Limits.antt =====
-- core/src/extensions/agents/supervision.rs, `check_rate_limits`: which calls of a tool are refused for
-- their rate, and which calls stay recorded.
use root_cx.Prelude.{
  ℕ, suc, ◌+◌, ◌-◌, ◌<◌, ◌≤◌, ◌≡◌, ◌⊎◌, false, Option, none, some, List, [], ◌∷◌, ◌++◌, Text,
  text_eq, All, length,
}
use root_cx.Agents.Supervision.{
  RateLimit, SupervisionPolicy, PolicyDecision, rate_limited, PolicyEvaluator, tool_action,
  parse_window, age, decide, times_of,
}
use root_cx.Agents.Supervision.Coverage.{Covers}
use root_cx.Agents.Supervision.Kept.{Kept}

-- A policy that limits the rate of this action has a limit that passes the test.
abbrev pub Limit : (ℕ → Type 0) → Text → SupervisionPolicy → Type 0
Limit P action policy =
    (rl : RateLimit) → policy.rate_limit ≡ some rl → Covers action policy → P rl.max

-- A time that is younger than the window of the policy, if this limits the rate of the action.
abbrev pub InWindow : ℕ → Text → SupervisionPolicy → ℕ → Type 0
InWindow now action policy t =
    (rl : RateLimit)
    → policy.rate_limit ≡ some rl
    → Covers action policy
    → age now t < parse_window rl.window

-- A time that is within the window of each policy, by the clock as it is read at that policy.
abbrev pub Lasts : (ℕ → ℕ) → Text → ℕ → List SupervisionPolicy → ℕ → Type 0
Lasts clock action i [] t = Unit {0}
Lasts clock action i (policy ∷ policies) t =
    InWindow (clock i) action policy t × Lasts clock action (suc i) policies t

-- Why a call is refused: the first policy whose window holds as many calls as it allows, of those that
-- the policies before it have left. The wait is until the first of them leaves the window.
pub record Refused (clock : ℕ → ℕ) (action : Text) (i : ℕ) (policies : List SupervisionPolicy)
    (times : List ℕ) (secs : ℕ) (left : List ℕ) : Type 0 where
  pub before : List SupervisionPolicy
  pub policy : SupervisionPolicy
  pub after : List SupervisionPolicy
  pub rl : RateLimit
  pub at : ℕ
  pub first : ℕ
  pub others : List ℕ
  pub position : policies ≡ before ++ policy ∷ after
  pub index : at ≡ i + length before
  pub limits : policy.rate_limit ≡ some rl
  pub covers : Covers action policy
  pub in_windows : Kept (Lasts clock action i (before ++ policy ∷ [])) times left
  pub passed : All (Limit (λ max. length left < max) action) before
  pub full : rl.max ≤ length left
  pub recorded_first : left ≡ first ∷ others
  pub wait : secs ≡ parse_window rl.window - age (clock at) first

module _ (clock : ℕ → ℕ) (action : Text) where
  -- What the loop comes to.
  data Checked (i : ℕ) (policies : List SupervisionPolicy) (times : List ℕ)
      : Option PolicyDecision × List ℕ → Type 0 where
    passes :
        {left : List ℕ}
        → Kept (Lasts clock action i policies) times left
        → All (Limit (λ max. length left < max) action) policies
        → Checked i policies times (none, left)
    stops :
        {secs : ℕ} {left : List ℕ}
        → Refused clock action i policies times secs left
        → Checked i policies times (some (rate_limited secs), left)

-- A call is refused for its rate; or it is decided by the mode, and its record is then the calls that
-- are within each window, fewer than each limit, with the new one behind them.
abbrev pub Outcome :
    (ℕ → ℕ) → ℕ → Text → Option Text → PolicyEvaluator → PolicyDecision × PolicyEvaluator → Type 0
Outcome clock now tool_name entity ev (decision, after) =
    ((secs : ℕ) × (decision ≡ rate_limited secs)
      × Refused clock (tool_action tool_name) 0 ev.config.policies (times_of tool_name ev) secs
          (times_of tool_name after))
    ⊎ ((left : List ℕ) × (times_of tool_name after ≡ left ++ now ∷ [])
        × Kept (Lasts clock (tool_action tool_name) 0 ev.config.policies) (times_of tool_name ev)
            left
        × All (Limit (λ max. length left < max) (tool_action tool_name)) ev.config.policies
        × (decision ≡ decide ev.config.mode ev.config.policies tool_name entity))

-- The records of the other tools are as they were.
abbrev pub OthersSame : Text → PolicyEvaluator → PolicyEvaluator → Type 0
OthersSame tool_name ev after =
    (other : Text) → text_eq tool_name other ≡ false → times_of other after ≡ times_of other ev
