-- ===== src/Permission/Coordinator.antt =====
-- internal/permission/coordinator.go: the order in which a call is allowed by the mode, by its
-- assessment, by a grant, by the reviewer and by the user. The reviewer, the user's form and the sinks
-- work on the permission state, which other coordinators and the terminal share, and on a world of the
-- caller's choice.
pub mod Grounds
pub mod Remembers
use foxharness.Prelude.{
  String, Bool, true, false, not, ◌&&◌, ◌||◌, List, Option, some, none, if◌then◌else◌, str_eq,
}
use foxharness.Schema.{ToolCall}
use foxharness.Toolpolicy.Assessment.{Assessment, Risk, other_risk}
use foxharness.Permission.Request.{
  Platform, Request, Source, no_source, main, grant_for_request, Grant,
}
use foxharness.Permission.Modes.{
  Mode, ask, approve, full_access, other_mode, is_full, State, new_state, add_grant, matching_grant,
}
use foxharness.Permission.Policy.{PolicyDecision, classify}

-- `other_decision ""` is the zero value.
pub data ReviewDecision : Type 0 where
  approves escalates : ReviewDecision
  other_decision : String → ReviewDecision

pub record ReviewResult : Type 0 where
  pub decision : ReviewDecision
  pub risk : Risk
  pub user_authorization : String
  pub rationale : String

abbrev pub no_review : ReviewResult
no_review = record {
  decision = other_decision "";
  risk = other_risk "";
  user_authorization = "";
  rationale = "";
}

pub data UserDecisionKind : Type 0 where
  allow_once allow_session deny deny_feedback : UserDecisionKind
  other_kind : String → UserDecisionKind

pub record UserDecision : Type 0 where
  pub kind : UserDecisionKind
  pub feedback : String

-- `review` is none for a review that was not made.
pub record ApprovalRequest : Type 0 where
  pub request : Request
  pub review : Option ReviewResult
  pub reviewer_failure : String

-- The calls of EventSink.
pub data Event : Type 0 where
  review_start : Request → Event
  auto_approved : Request → ReviewResult → Event
  escalated : Request → ReviewResult → Event

-- The form's answer, or the text of its error.
pub data Answer : Type 0 where
  answered : UserDecision → Answer
  unanswered : String → Answer

-- The four texts of an error of `authorize`.
pub data Denial : Type 0 where
  no_approver : String → Denial
  approver_failed : String → Denial
  denied_with_feedback : String → Denial
  denied_by_user : Denial

pub data Verdict : Type 0 where
  permitted : Verdict
  denied : Denial → Verdict

-- The reviewer of a request with its evidence returns a result and maybe an error. `state_sink` is the
-- sink where it is a StateChangeSink; `evidence` is what the evidence provider, or BuildEvidence
-- without one, makes of a request. `grant_key` is the hash that GrantKeyFor makes of the scope of a
-- request, for which it resolves paths in the world of its call. The state is shared: `meanwhile` is
-- what its other holders do to it, and to the world, between two accesses of the coordinator, and the
-- form, the reviewer and the sinks may change it too.
pub record Coordinator (W E : Type 0) : Type 0 where
  pub platform : Platform
  pub workspace : String
  pub cwd : String
  pub origin : Source
  pub approver : Option (ApprovalRequest → State → W → Answer × State × W)
  pub reviewer : Option (Request → E → State → W → ReviewResult × Option String × State × W)
  pub sink : Option (Event → State → W → State × W)
  pub state_sink : Option (State → W → State × W)
  pub grant_key : Request → W → String
  pub meanwhile : State → W → State × W
  pub evidence : Request → E

abbrev pub or_main : Source → Source
or_main no_source = main
or_main origin = origin

-- NewCoordinator, of a Config with every field but the state, and the state that it takes.
pub new_coordinator : {W E : Type 0} → Coordinator W E → Coordinator W E
new_coordinator config = record config { origin = or_main config.origin }

pub state_of : Option State → State
state_of none = new_state ask false
state_of (some s) = s

-- WithSource, of a coordinator that is not nil.
abbrev pub or_kept : Source → Source → Source
or_kept no_source kept = kept
or_kept origin kept = origin

abbrev pub is_set : ReviewDecision → Bool
is_set (other_decision s) = not (str_eq s "")
is_set _ = true

abbrev pub is_approve : Mode → Bool
is_approve approve = true
is_approve _ = false

abbrev pub approved : ReviewDecision → Option String → Bool
approved approves none = true
approved _ failure = false

abbrev pub is_granted : Option Grant → Bool
is_granted none = false
is_granted (some g) = true

abbrev or_no_text : Option String → String
or_no_text none = ""
or_no_text (some s) = s

module _ {W E : Type 0} (c : Coordinator W E) where
  pub with_source : Source → Coordinator W E
  with_source origin = record c { origin = or_kept origin c.origin }

  pub notify : Event → State → W → State × W
  notify event s w = elim c.sink [ none ↦ (s, w) | some observe ↦ observe event s w ]

  unfoldable pub state_changed : State → W → State × W
  state_changed s w = elim c.state_sink [ none ↦ (s, w) | some changed ↦ changed s w ]

  -- AddGrant of GrantForRequest.
  pub remember : Request → State → W → State × W
  remember request s w =
      let key = c.grant_key request w in
      let (s', w') = c.meanwhile s w in (add_grant (grant_for_request key request) s', w')

  -- MatchingGrant of a request, behind the snapshot of the state.
  unfoldable pub search_grant : Request → State → W → Option Grant × State × W
  search_grant request s w =
      let (s1, w1) = c.meanwhile s w in
      let key = c.grant_key request w1 in
      let (s2, w2) = c.meanwhile s1 w1 in (matching_grant key s2, s2, w2)

  settle : Request → UserDecisionKind → String → State → W → Verdict × State × W
  unfolding state_changed remember
  settle request allow_once feedback s w = (permitted, s, w)
  settle request allow_session feedback s w =
      let (s1, w1) = remember request s w in
      let (s2, w2) = state_changed s1 w1 in (permitted, s2, w2)
  settle request deny_feedback feedback s w = (denied (denied_with_feedback feedback), s, w)
  settle request deny feedback s w = (denied denied_by_user, s, w)
  settle request (other_kind k) feedback s w = (denied denied_by_user, s, w)

  settle_answer : Request → Answer → State → W → Verdict × State × W
  unfolding settle
  settle_answer request (unanswered x) s w = (denied (approver_failed x), s, w)
  settle_answer request (answered d) s w = settle request d.kind d.feedback s w

  -- The form's request; a review that says nothing is left out.
  abbrev pub approval_request : Request → ReviewResult → Option String → ApprovalRequest
  approval_request request review failure = record {
    request = request;
    review = if is_set review.decision then some review else none;
    reviewer_failure = or_no_text failure;
  }

  asked :
      Option (ApprovalRequest → State → W → Answer × State × W)
      → Request
      → ReviewResult
      → Option String
      → State
      → W
      → Verdict × State × W
  unfolding settle_answer
  asked none request review failure s w = (denied (no_approver request.action), s, w)
  asked (some form) request review failure s w =
      let (answer, s', w') = form (approval_request request review failure) s w in
      settle_answer request answer s' w'

  pub ask_user : Request → ReviewResult → Option String → State → W → Verdict × State × W
  unfolding asked
  ask_user request review failure s w = asked c.approver request review failure s w

  -- Behind the reviewer's answer.
  judge : Request → ReviewResult → Option String → State → W → Verdict × State × W
  judge request result failure s w =
      if approved result.decision failure
      then (let (s', w') = notify (auto_approved request result) s w in (permitted, s', w'))
      else (let (s', w') = notify (escalated request result) s w in
          ask_user request result failure s' w')

  reviewed :
      Option (Request → E → State → W → ReviewResult × Option String × State × W)
      → Request
      → State
      → W
      → Verdict × State × W
  unfolding judge
  reviewed none request s w = ask_user request no_review none s w
  reviewed (some review) request s w =
      let (s1, w1) = notify (review_start request) s w in
      let (result, failure, s2, w2) = review request (c.evidence request) s1 w1 in
      judge request result failure s2 w2

  -- The reviewer, where the mode and the call let it decide; else the user.
  pub review_or_ask : Bool → Request → State → W → Verdict × State × W
  unfolding reviewed
  review_or_ask reviewable request s w =
      if reviewable then reviewed c.reviewer request s w else ask_user request no_review none s w

  unfoldable pub decided : PolicyDecision → State → W → Verdict × State × W
  unfolding search_grant
  decided d s w =
      if is_full s.effective || d.allow_fast_path
      then (permitted, s, w)
      else (let (found, s', w') = search_grant d.request s w in
          if is_granted found
          then (permitted, s', w')
          else review_or_ask (is_approve s.effective && not d.human_only) d.request s' w')

  unfoldable pub authorize : ToolCall → Option Assessment → State → W → Verdict × State × W
  unfolding decided
  authorize call assessment s w =
      decided (classify c.platform c.workspace c.cwd c.origin call assessment) s w
