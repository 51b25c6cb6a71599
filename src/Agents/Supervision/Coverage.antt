-- ===== src/Agents/Supervision/Coverage.antt =====
-- core/src/extensions/agents/supervision.rs: which policies are about a call.
use root_cx.Prelude.{
  ◌≡◌, refl, ◌⊎◌, inl, inr, true, Bool-cases, Option, none, some, Text, bytes, text_eq, text_eq_iff,
  arith,
}
use root_cx.Agents.Supervision.{
  SupervisionPolicy, covers_action, entity_covered, needs_approval, asks,
}

abbrev pub Covers : Text → SupervisionPolicy → Type 0
Covers action policy = (policy.action ≡ bytes "*") ⊎ (policy.action ≡ action)

pub Covers-sound :
    (action : Text) (policy : SupervisionPolicy)
    → covers_action policy action ≡ true
    → Covers action policy
Covers-sound action policy h = elim (Bool-cases (text_eq policy.action (bytes "*"))) [
  | inl t ↦ inl ((text_eq_iff policy.action (bytes "*")).0 t)
  | inr f ↦ inr ((text_eq_iff policy.action action).0 (rw f at h))
]

pub Covers-complete :
    (action : Text) (policy : SupervisionPolicy)
    → Covers action policy
    → covers_action policy action ≡ true
Covers-complete action policy (inl any) =
    ground (arith, (text_eq_iff policy.action (bytes "*")).1 any)
Covers-complete action policy (inr same) = ground (arith, (text_eq_iff policy.action action).1 same)

-- The policy is about this action, and about this entity if it names one, and requires an approval.
abbrev pub Requires : Text → Option Text → SupervisionPolicy → Type 0
Requires action entity policy =
    Covers action policy
    × ((wanted : Text) → policy.entity ≡ some wanted → entity ≡ some wanted)
    × (policy.requires ≡ some (bytes "approval"))

entity_covered_sound :
    (limit entity : Option Text)
    → entity_covered limit entity ≡ true
    → (wanted : Text) → limit ≡ some wanted
    → entity ≡ some wanted
entity_covered_sound none entity h wanted e = cc (e)
entity_covered_sound (some w) none h wanted e = cc (h)
entity_covered_sound (some w) (some x) h wanted e = let same = (text_eq_iff x w).0 h in cc (same, e)

entity_covered_complete :
    (limit entity : Option Text)
    → ((wanted : Text) → limit ≡ some wanted → entity ≡ some wanted)
    → entity_covered limit entity ≡ true
entity_covered_complete none entity h = refl
entity_covered_complete (some w) none h = cc (h w refl)
entity_covered_complete (some w) (some x) h =
    let same : some x ≡ some w = h w refl in (text_eq_iff x w).1 (cc (same))

needs_approval_sound :
    (requires : Option Text) → needs_approval requires ≡ true → requires ≡ some (bytes "approval")
needs_approval_sound none h = cc (h)
needs_approval_sound (some r) h = let same = (text_eq_iff r (bytes "approval")).0 h in cc (same)

pub Requires-sound :
    (action : Text) (entity : Option Text) (policy : SupervisionPolicy)
    → asks policy action entity ≡ true
    → Requires action entity policy
Requires-sound action entity policy h =
    let covers : covers_action policy action ≡ true = ground arith in
    let same : entity_covered policy.entity entity ≡ true = ground arith in
    let needs : needs_approval policy.requires ≡ true = ground arith in
    (
      Covers-sound action policy covers,
      entity_covered_sound policy.entity entity same,
      needs_approval_sound policy.requires needs,
    )

pub Requires-complete :
    (action : Text) (entity : Option Text) (policy : SupervisionPolicy)
    → Requires action entity policy
    → asks policy action entity ≡ true
Requires-complete action entity policy (covers, same, needs) =
    rw (
      Covers-complete action policy covers,
      entity_covered_complete policy.entity entity same,
      needs,
    )
