-- ===== src/Permission/Policy/FastPath.antt =====
-- Which assessments let a call pass without review.
use foxharness.Prelude.{
  String, ◌≡◌, refl, ◌∙◌, ap, Bool, true, false, not, ◌&&◌, ◌||◌, Option, some, none, if◌then◌else◌,
  str_eq, arith, all, any, Bool-cases, inl, inr,
}
use foxharness.Schema.{ToolCall}
use foxharness.Toolpolicy.Assessment.{Behavior, fast_allow, reviewable, Assessment}
use foxharness.Permission.Request.{Platform, Source}
use foxharness.Permission.Policy.Effects.{
  is_delegate, is_execute, is_sound_effect, before_effects_lem, effects_reason_lem,
}
use foxharness.Permission.Policy.{
  classify, assessed, with_arguments, decision_for, normalize_assessment, invalid_assessment_reason,
  effects_reason, no_effects, is_fast, is_human, is_known_risk, is_known_behavior, is_workspace,
  is_declared_scope, is_none, with_action, with_risk, with_reason, with_validity,
  missing_assessment, refused_for, Request,
}

-- The declarations that the policy asks of an assessment, whatever their order.
abbrev pub is_sound : Assessment → Bool
is_sound a =
    not (no_effects a.effects)
    && is_declared_scope a.scope
    && all (is_sound_effect a.read_only) a.effects
    && (not (any is_delegate a.effects) || a.nested_enforcement)
    && (not (any is_execute a.effects) || not (is_none a.commands))

-- An assessment is found valid exactly when its declarations are sound and, if it is to be allowed at
-- once, its scope is the workspace; the order of its effects makes no difference.
pub invalid_assessment_reason_lem :
    (a : Assessment)
    → str_eq (invalid_assessment_reason a) ""
      ≡ (is_sound a && (not (is_fast a.behavior) || is_workspace a.scope))
unfolding invalid_assessment_reason
invalid_assessment_reason_lem a =
    before_effects_lem (no_effects a.effects) (is_declared_scope a.scope)
      (is_fast a.behavior && not (is_workspace a.scope)) (effects_reason a false false a.effects)
    ∙ rw (effects_reason_lem a false false a.effects) (ground arith)

abbrev pub passes : Option Assessment → Bool
passes none = false
passes (some a) =
    is_fast a.behavior && is_known_risk a.risk_hint && is_sound a && is_workspace a.scope

abbrev pub is_reviewable : Behavior → Bool
is_reviewable reviewable = true
is_reviewable _ = false

abbrev pub reviews : Option Assessment → Bool
reviews none = false
reviews (some a) = is_reviewable a.behavior && is_known_risk a.risk_hint && is_sound a

-- What a step of the normalisation keeps.
abbrev Same : Assessment → Assessment → Type 0
Same b a =
    (passes (some b) ≡ passes (some a))
    × (reviews (some b) ≡ reviews (some a))
    × (is_known_risk b.risk_hint ≡ is_known_risk a.risk_hint)

with_action-Same : (p : Platform) (name : String) (a : Assessment) → Same (with_action p name a) a
unfolding with_action
with_action-Same p name a = elim (Bool-cases (str_eq (p.trim_space a.action) "")) [
  | inl h ↦ rw h (refl, refl, refl)
  | inr h ↦ rw h (refl, refl, refl)
]

with_reason-Same : (p : Platform) (a : Assessment) → Same (with_reason p a) a
unfolding with_reason
with_reason-Same p a = elim (Bool-cases (str_eq (p.trim_space a.reason) "")) [
  | inl h ↦ rw h (refl, refl, refl)
  | inr h ↦ rw h (refl, refl, refl)
]

risk_step :
    (known : Bool) (a : Assessment)
    → is_known_risk a.risk_hint ≡ known
    → let b = if known then a else refused_for "tool capability risk is invalid" a in
      (passes (some b) ≡ passes (some a))
      × (reviews (some b) ≡ reviews (some a))
      × (is_known_risk b.risk_hint ≡ true)
risk_step true a h = (refl, refl, h)
risk_step false a h = (ground arith, ground arith, refl)

with_risk_known :
    (a : Assessment)
    → (passes (some (with_risk a)) ≡ passes (some a))
      × (reviews (some (with_risk a)) ≡ reviews (some a))
      × (is_known_risk (with_risk a).risk_hint ≡ true)
unfolding with_risk
with_risk_known a = risk_step (is_known_risk a.risk_hint) a refl

fast_not_human : (b : Behavior) → (is_fast b && not (is_human b)) ≡ is_fast b
fast_not_human fast_allow = refl
fast_not_human _ = refl

reviewable_not_human : (b : Behavior) → (is_reviewable b && not (is_human b)) ≡ is_reviewable b
reviewable_not_human reviewable = refl
reviewable_not_human _ = refl

reviewable_not_fast : (b : Behavior) → (is_reviewable b && not (is_fast b)) ≡ is_reviewable b
reviewable_not_fast reviewable = refl
reviewable_not_fast _ = refl

with_validity_reviewable :
    (a : Assessment)
    → is_known_risk a.risk_hint ≡ true
    → is_reviewable (with_validity a).behavior ≡ reviews (some a)
unfolding with_validity
with_validity_reviewable a h =
    let valid = invalid_assessment_reason_lem a in
    let human = reviewable_not_human a.behavior in
    let fast = reviewable_not_fast a.behavior in
    elim (Bool-cases (not (is_human a.behavior) && not (str_eq (invalid_assessment_reason a) ""))) [
      | inl g ↦ rw g (ground (arith, valid, human, fast))
      | inr g ↦ rw g (ground (arith, valid, human, fast))
    ]

with_validity_fast :
    (a : Assessment)
    → is_known_risk a.risk_hint ≡ true
    → is_fast (with_validity a).behavior ≡ passes (some a)
unfolding with_validity
with_validity_fast a h =
    let valid = invalid_assessment_reason_lem a in
    let fast = fast_not_human a.behavior in
    elim (Bool-cases (not (is_human a.behavior) && not (str_eq (invalid_assessment_reason a) ""))) [
      | inl g ↦ rw g (ground (arith, valid, fast))
      | inr g ↦ rw g (ground (arith, valid, fast))
    ]

unknown_not_fast : (b : Behavior) → is_known_behavior b ≡ false → is_fast b ≡ false
unknown_not_fast fast_allow h = cc
unknown_not_fast _ h = refl

unknown_not_reviewable : (b : Behavior) → is_known_behavior b ≡ false → is_reviewable b ≡ false
unknown_not_reviewable reviewable h = cc
unknown_not_reviewable _ h = refl

-- What of an assessment the behavior of its normal form depends on.
normalize_behavior :
    (p : Platform) (tool_name : String) (a : Assessment)
    → let b = (normalize_assessment p tool_name a).behavior in
      (is_fast b ≡ passes (some a)) × (is_reviewable b ≡ reviews (some a))
unfolding normalize_assessment missing_assessment
normalize_behavior p tool_name a =
    let b = with_action p tool_name a in
    let c = with_reason p (with_risk b) in
    let action = with_action-Same p tool_name a in
    let known = with_risk_known b in
    let reason = with_reason-Same p (with_risk b) in
    let risk : is_known_risk c.risk_hint ≡ true = reason.2 ∙ known.2 in
    elim (Bool-cases (is_known_behavior a.behavior)) [
      | inl h ↦ rw h (
        with_validity_fast c risk ∙ reason.0 ∙ known.0 ∙ action.0,
        with_validity_reviewable c risk ∙ reason.1 ∙ known.1 ∙ action.1,
      )
      | inr h ↦ rw h (
        ground (arith, unknown_not_fast a.behavior h),
        ground (arith, unknown_not_reviewable a.behavior h),
      )
    ]

assessed_behavior :
    (p : Platform) (tool_name : String) (assessment : Option Assessment)
    → let b = (assessed p tool_name assessment).behavior in
      (is_fast b ≡ passes assessment) × (is_reviewable b ≡ reviews assessment)
unfolding assessed missing_assessment
assessed_behavior p tool_name none = (refl, refl)
assessed_behavior p tool_name (some a) = normalize_behavior p tool_name a

arguments_behavior :
    (p : Platform) (call : ToolCall) (a : Assessment)
    → (with_arguments p call a).behavior ≡ a.behavior
unfolding with_arguments
arguments_behavior p call a = ground arith

decision_for_paths :
    (b : Behavior) (request : Request) (reason : String)
    → let d = decision_for b request reason in
      (d.allow_fast_path ≡ is_fast b)
      × (d.requires_review ≡ is_reviewable b)
      × (d.human_only ≡ (not (is_fast b) && not (is_reviewable b)))
unfolding decision_for
decision_for_paths fast_allow request reason = (refl, refl, refl)
decision_for_paths reviewable request reason = (refl, refl, refl)
decision_for_paths _ request reason = (refl, refl, refl)

-- Which of the three paths a call takes: it passes at once exactly if it comes with an assessment that
-- asks for it, has a known risk and sound declarations, and stays in the workspace; it is reviewed
-- exactly if its assessment asks for review, has a known risk and sound declarations; every other call,
-- one without an assessment or with one that is not understood among them, is for a human only.
pub classify-passes :
    (p : Platform) (workspace cwd : String) (origin : Source) (call : ToolCall)
    (assessment : Option Assessment)
    → let d = classify p workspace cwd origin call assessment in
      (d.allow_fast_path ≡ passes assessment)
      × (d.requires_review ≡ reviews assessment)
      × (d.human_only ≡ (not (passes assessment) && not (reviews assessment)))
unfolding classify
classify-passes p workspace cwd origin call assessment =
    let a = with_arguments p call (assessed p call.name assessment) in
    let same = arguments_behavior p call (assessed p call.name assessment) in
    let (passing, reviewing) = assessed_behavior p call.name assessment in
    let fast = ap is_fast same ∙ passing in
    let review = ap is_reviewable same ∙ reviewing in
    let (allow, ask, human) = decision_for_paths a.behavior _ a.reason in
    (
      allow ∙ fast,
      ask ∙ review,
      human
          ∙ ap (λ t. not t && not (is_reviewable a.behavior)) fast
          ∙ ap (λ t. not (passes assessment) && not t) review,
    )
