-- ===== src/Permission/Coordinator/Grounds.antt =====
-- Why the coordinator allows a call, and what it remembers.
use foxharness.Prelude.{
  String, ◌≡◌, refl, Bool, true, false, not, ◌&&◌, Option, some, none, arith, Bool-cases, inl, inr,
  ◌⊎◌,
}
use foxharness.Schema.{ToolCall}
use foxharness.Toolpolicy.Assessment.{Assessment}
use foxharness.Permission.Request.{Request}
use foxharness.Permission.Modes.{State, is_full, matching_grant}
use foxharness.Permission.Policy.{PolicyDecision, classify}
use foxharness.Permission.Coordinator.{
  ReviewResult, no_review, UserDecisionKind, allow_once, allow_session, deny, deny_feedback,
  other_kind, ApprovalRequest, Answer, answered, unanswered, permitted, Coordinator, is_approve,
  approved, is_granted, notify, settle, settle_answer, asked, ask_user, judge, reviewed,
  review_or_ask, decided, authorize, approval_request, review_start, search_grant,
}

abbrev pub allows_kind : UserDecisionKind → Bool
allows_kind allow_once = true
allows_kind allow_session = true
allows_kind _ = false

abbrev pub allows : Answer → Bool
allows (answered d) = allows_kind d.kind
allows (unanswered x) = false

module _ {W E : Type 0} (c : Coordinator W E) where
  -- Why a call may execute, with the answer that a reviewer or the user has given to this very request.
  pub data Grounds (d : PolicyDecision) (s : State) (w : W) : Type 0 where
    by_mode : is_full s.effective ≡ true → Grounds d s w
    by_assessment : d.allow_fast_path ≡ true → Grounds d s w
    by_grant :
        (let t = c.meanwhile s w in
            let u = c.meanwhile t.0 t.1 in
            is_granted (matching_grant (c.grant_key d.request t.1) u.0))
          ≡ true
        → Grounds d s w
    by_reviewer :
        (review : Request → E → State → W → ReviewResult × Option String × State × W) (s' : State)
        (w' : W)
        → c.reviewer ≡ some review
        → is_approve s.effective ≡ true
        → d.human_only ≡ false
        → (let answer = review d.request (c.evidence d.request) s' w' in
            approved answer.0.decision answer.1)
          ≡ true
        → Grounds d s w
    by_user :
        (form : ApprovalRequest → State → W → Answer × State × W) (q : ApprovalRequest) (s' : State)
        (w' : W)
        → c.approver ≡ some form
        → q.request ≡ d.request
        → allows (form q s' w').0 ≡ true
        → Grounds d s w

  settle_allows :
      (r : Request) (k : UserDecisionKind) (f : String) (s : State) (w : W)
      → (settle c r k f s w).0 ≡ permitted
      → allows_kind k ≡ true
  unfolding settle
  settle_allows r allow_once f s w h = refl
  settle_allows r allow_session f s w h = refl
  settle_allows r deny_feedback f s w h = cc
  settle_allows r deny f s w h = cc
  settle_allows r (other_kind k) f s w h = cc

  answer_allows :
      (r : Request) (a : Answer) (s : State) (w : W)
      → (settle_answer c r a s w).0 ≡ permitted
      → allows a ≡ true
  unfolding settle_answer
  answer_allows r (answered d) s w h = settle_allows r d.kind d.feedback s w h
  answer_allows r (unanswered x) s w h = cc

  asked-Grounds :
      (d : PolicyDecision) (form : Option (ApprovalRequest → State → W → Answer × State × W))
      (review : ReviewResult) (failure : Option String) (s t : State) (w v : W)
      → c.approver ≡ form
      → (asked c form d.request review failure s w).0 ≡ permitted
      → Grounds d t v
  unfolding asked
  asked-Grounds d none review failure s t w v e h = cc
  asked-Grounds d (some form) review failure s t w v e h =
      let q = approval_request c d.request review failure in
      let a = form q s w in by_user form q s w e refl (answer_allows d.request a.0 a.1 a.2 h)

  ask_user-Grounds :
      (d : PolicyDecision) (review : ReviewResult) (failure : Option String) (s t : State) (w v : W)
      → (ask_user c d.request review failure s w).0 ≡ permitted
      → Grounds d t v
  unfolding ask_user
  ask_user-Grounds d review failure s t w v h =
      asked-Grounds d c.approver review failure s t w v refl h

  judge_cases :
      (d : PolicyDecision) (result : ReviewResult) (failure : Option String) (s t : State) (w v : W)
      → (judge c d.request result failure s w).0 ≡ permitted
      → (approved result.decision failure ≡ true) ⊎ Grounds d t v
  unfolding judge
  judge_cases d result failure s t w v h = elim (Bool-cases (approved result.decision failure)) [
    | inl a ↦ inl a
    | inr a ↦ inr (ask_user-Grounds d result failure _ t _ v (rw a at h))
  ]

  reviewed-Grounds :
      (d : PolicyDecision)
      (review : Option (Request → E → State → W → ReviewResult × Option String × State × W))
      (s t : State) (w v : W)
      → c.reviewer ≡ review
      → is_approve t.effective ≡ true
      → d.human_only ≡ false
      → (reviewed c review d.request s w).0 ≡ permitted
      → Grounds d t v
  unfolding reviewed
  reviewed-Grounds d none s t w v e m n h = ask_user-Grounds d no_review none s t w v h
  reviewed-Grounds d (some review) s t w v e m n h =
      let (s1, w1) = notify c (review_start d.request) s w in
      let answer = review d.request (c.evidence d.request) s1 w1 in
      elim (judge_cases d answer.0 answer.1 answer.2 t answer.3 v h) [
        | inl a ↦ by_reviewer review s1 w1 e m n a
        | inr g ↦ g
      ]

  decided-Grounds :
      (d : PolicyDecision) (s : State) (w : W) → (decided c d s w).0 ≡ permitted → Grounds d s w
  unfolding decided review_or_ask search_grant
  decided-Grounds d s w h = elim (Bool-cases (is_full s.effective)) [
    | inl f ↦ by_mode f
    | inr f ↦ elim (Bool-cases d.allow_fast_path) [
      | inl a ↦ by_assessment a
      | inr a ↦ elim (Bool-cases (is_granted (search_grant c d.request s w).0)) [
        | inl g ↦ by_grant g
        | inr g ↦ elim (Bool-cases (is_approve s.effective && not d.human_only)) [
          | inl m ↦
              reviewed-Grounds d c.reviewer _ s _ w refl (ground arith) (ground arith)
                (rw (f, a, g, m) at h)
          | inr m ↦ ask_user-Grounds d no_review none _ s _ w (rw (f, a, g, m) at h)
        ]
      ]
    ]
  ]

  -- A call that may execute has its grounds: full access is in effect, or the call's assessment passes at
  -- once, or an earlier grant covers it, or, in the approving mode and for a call that is not reserved
  -- to humans, the reviewer approved this request without an error, or the user allowed this request.
  pub authorize-Grounds :
      (call : ToolCall) (assessment : Option Assessment) (s : State) (w : W)
      → (authorize c call assessment s w).0 ≡ permitted
      → Grounds (classify c.platform c.workspace c.cwd c.origin call assessment) s w
  unfolding authorize
  authorize-Grounds call assessment s w h =
      decided-Grounds (classify c.platform c.workspace c.cwd c.origin call assessment) s w h
