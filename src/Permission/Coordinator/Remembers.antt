-- ===== src/Permission/Coordinator/Remembers.antt =====
-- What an authorization leaves in the state, and when the reviewer has no part in it.
use foxharness.Prelude.{
  String, ◌≡◌, refl, true, false, not, ◌&&◌, ◌||◌, Option, some, none, if◌then◌else◌, arith,
  Bool-cases, inl, inr, eq_refl, ap, ◌∙◌,
}
use foxharness.Dict.{lookup-put}
use foxharness.Schema.{ToolCall}
use foxharness.Toolpolicy.Assessment.{Assessment}
use foxharness.Permission.Request.{Request, grant_for_request}
use foxharness.Permission.Modes.{State, add_grant, matching_grant}
use foxharness.Permission.Policy.{PolicyDecision, classify}
use foxharness.Permission.Coordinator.{
  ReviewResult, no_review, UserDecisionKind, allow_once, allow_session, deny, deny_feedback,
  other_kind, ApprovalRequest, Answer, answered, unanswered, permitted, Coordinator, is_approve,
  is_granted, settle, settle_answer, asked, ask_user, review_or_ask, decided, remember,
  search_grant, authorize, approval_request, state_changed, is_full,
}

abbrev pub Holds : String → State → Type 0
Holds key s = is_granted (matching_grant key s) ≡ true

-- No grant is cleared.
abbrev pub KeepsGrants : {W : Type 0} → (State → W → State × W) → Type 0
KeepsGrants {W} change = (key : String) (s : State) (w : W) → Holds key s → Holds key (change s w).0

add_grant-Holds :
    (key : String) (r : Request) (s : State) → Holds key (add_grant (grant_for_request key r) s)
unfolding matching_grant add_grant grant_for_request
add_grant-Holds key r s =
    rw (lookup-put key key (grant_for_request key r) s.grants) (ground (arith, eq_refl key))

module _ {W E : Type 0} (c : Coordinator W E) where
  -- The coordinator with nobody to ask.
  abbrev pub unasked : Coordinator W E
  unasked = record c { approver = none; reviewer = none }

  -- Where a call goes to the user, in the state and the world that the search for a grant leaves.
  goes_to_user :
      (d : PolicyDecision) (s : State) (w : W)
      → (is_full s.effective || d.allow_fast_path) ≡ false
      → is_granted (search_grant c d.request s w).0 ≡ false
      → (is_approve s.effective && not d.human_only) ≡ false
      → let looked = search_grant c d.request s w in
        decided c d s w ≡ ask_user c d.request no_review none looked.1 looked.2
  unfolding decided review_or_ask
  goes_to_user d s w slow new unreviewed = rw (slow, new, unreviewed) refl

  settles :
      (form : ApprovalRequest → State → W → Answer × State × W) (r : Request) (s : State) (w : W)
      (feedback : String)
      → c.approver ≡ some form
      → let answer = form (approval_request c r no_review none) s w in
        answer.0 ≡ answered (record { kind = allow_session; feedback = feedback })
        → let kept = remember c r answer.1 answer.2 in
          ask_user c r no_review none s w
          ≡ (permitted, (state_changed c kept.0 kept.1).0, (state_changed c kept.0 kept.1).1)
  unfolding ask_user asked settle_answer settle
  settles form r s w feedback e h = rw (e, h) refl

  granted_again :
      KeepsGrants c.meanwhile
      → (d : PolicyDecision) (t : State) (w : W)
      → Holds (c.grant_key d.request (c.meanwhile t w).1) t
      → ((decided c d t w).0 ≡ permitted) × (decided c d t w ≡ decided unasked d t w)
  unfolding decided search_grant
  granted_again keeps d t w h =
      let (t1, w1) = c.meanwhile t w in
      let found = keeps _ t1 w1 (keeps _ t w h) in
      elim (Bool-cases (is_full t.effective || d.allow_fast_path)) [
        | inl now ↦ rw now (refl, refl)
        | inr later ↦ rw (later, found) (refl, refl)
      ]

  -- A user's answer for the session is remembered. Suppose that neither the other holders of the state
  -- nor the sink clear grants; that a call goes to the user, since no mode and no assessment lets it
  -- pass, no grant covers it and it is not for the reviewer; and that the user allows it for the
  -- session. Then it is allowed, and so is the same call later, with no question to the user or the
  -- reviewer, in every state that still has the grants of that authorization and in every world where
  -- the call's key, which depends on the files, is the one that was recorded.
  pub authorize-remembers :
      KeepsGrants c.meanwhile
      → KeepsGrants (state_changed c)
      → (form : ApprovalRequest → State → W → Answer × State × W) (call : ToolCall)
        (assessment : Option Assessment) (s : State) (w : W) (feedback : String) (t : State)
        (w' : W)
      → let d = classify c.platform c.workspace c.cwd c.origin call assessment in
        let looked = search_grant c d.request s w in
        let answer = form (approval_request c d.request no_review none) looked.1 looked.2 in
        c.approver ≡ some form
        → (is_full s.effective || d.allow_fast_path) ≡ false
        → is_granted looked.0 ≡ false
        → (is_approve s.effective && not d.human_only) ≡ false
        → answer.0 ≡ answered (record { kind = allow_session; feedback = feedback })
        → ((key : String) → Holds key (authorize c call assessment s w).1 → Holds key t)
        → c.grant_key d.request (c.meanwhile t w').1 ≡ c.grant_key d.request answer.2
        → ((authorize c call assessment s w).0 ≡ permitted)
          × ((authorize c call assessment t w').0 ≡ permitted)
          × (authorize c call assessment t w' ≡ authorize unasked call assessment t w')
  unfolding authorize remember
  authorize-remembers keeps notified form call assessment s w feedback t w' e slow new unreviewed h
        still same =
      let d = classify c.platform c.workspace c.cwd c.origin call assessment in
      let looked = search_grant c d.request s w in
      let answer = form (approval_request c d.request no_review none) looked.1 looked.2 in
      let key = c.grant_key d.request answer.2 in
      let kept = remember c d.request answer.1 answer.2 in
      let first =
        goes_to_user d s w slow new unreviewed
        ∙ settles form d.request looked.1 looked.2 feedback e h in
      let recorded : Holds key kept.0 =
        add_grant-Holds key d.request (c.meanwhile answer.1 answer.2).0 in
      let held : Holds key (decided c d s w).1 = rw first (notified key kept.0 kept.1 recorded) in
      let again = granted_again keeps d t w' (rw same (still key held)) in
      (ap (λ r. r.0) first, again.0, again.1)

module _ {W E : Type 0} (c : Coordinator W E) where
  abbrev pub alone : Coordinator W E
  alone = record c { reviewer = none }

  settle-alone :
      (r : Request) (k : UserDecisionKind) (f : String) (s : State) (w : W)
      → settle c r k f s w ≡ settle alone r k f s w
  unfolding settle state_changed remember
  settle-alone r allow_session f s w = refl
  settle-alone r allow_once f s w = refl
  settle-alone r deny_feedback f s w = refl
  settle-alone r deny f s w = refl
  settle-alone r (other_kind k) f s w = refl

  answer_alone :
      (r : Request) (a : Answer) (s : State) (w : W)
      → settle_answer c r a s w ≡ settle_answer alone r a s w
  unfolding settle_answer
  answer_alone r (answered d) s w = settle-alone r d.kind d.feedback s w
  answer_alone r (unanswered x) s w = refl

  asked-alone :
      (form : Option (ApprovalRequest → State → W → Answer × State × W)) (r : Request)
      (review : ReviewResult) (failure : Option String) (s : State) (w : W)
      → asked c form r review failure s w ≡ asked alone form r review failure s w
  unfolding asked
  asked-alone none r review failure s w = refl
  asked-alone (some form) r review failure s w =
      let a = form (approval_request c r review failure) s w in answer_alone r a.0 a.1 a.2

  ask_user-alone :
      (r : Request) (review : ReviewResult) (failure : Option String) (s : State) (w : W)
      → ask_user c r review failure s w ≡ ask_user alone r review failure s w
  unfolding ask_user
  ask_user-alone r review failure s w = asked-alone c.approver r review failure s w

  -- A call that is reserved to humans, and any call outside the approving mode, is decided as if there
  -- were no reviewer.
  pub authorize-unreviewed :
      (call : ToolCall) (assessment : Option Assessment) (s : State) (w : W)
      → let d = classify c.platform c.workspace c.cwd c.origin call assessment in
        (is_approve s.effective && not d.human_only) ≡ false
        → authorize c call assessment s w ≡ authorize alone call assessment s w
  unfolding authorize decided review_or_ask search_grant
  authorize-unreviewed call assessment s w h =
      let d = classify c.platform c.workspace c.cwd c.origin call assessment in
      let (found, s', w') = search_grant c d.request s w in
      rw h (
        ap
          (λ result.
            if is_full s.effective || d.allow_fast_path
            then (permitted, s, w)
            else if is_granted found
            then (permitted, s', w')
            else result)
          (ask_user-alone d.request no_review none s' w'))
