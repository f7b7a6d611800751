-- ===== src/Planruntime/Stages.antt =====
-- The way from a proposal to its implementation.
use foxharness.Prelude.{
  ℕ, String, Bool, true, false, List, [], ◌∷◌, Option, some, none, if◌then◌else◌, ◌≡◌, refl, ap,
  ◌∙◌, Bool-cases, inl, inr,
}
use foxharness.Schema.{ToolCall}
use foxharness.Planruntime.{
  Phase, formal, checklist, implementation, Lifecycle, new, set_formal_registry, approve,
  begin_turn, start, finish, initializes, is_checklist, is_formal, is_submission, committed,
}

-- The operations that change a lifecycle; `finishes` bears the phase in which its call was delegated.
pub data Operation : Type 0 where
  sets_formal_registry : Option ℕ → Operation
  approves : String → Operation
  begins : Operation
  starts : ToolCall → Operation
  finishes : Phase → ToolCall → Bool → Operation

unfoldable pub perform : Operation → Lifecycle → Lifecycle
perform (sets_formal_registry r) l = set_formal_registry r l
perform (approves plan) l = (approve plan l).1
perform begins l = begin_turn l
perform (starts call) l = (start call l).1
perform (finishes current call is_error) l = finish current call is_error l

unfoldable pub perform_all : List Operation → Lifecycle → Lifecycle
unfolding perform
perform_all [] l = l
perform_all (e ∷ es) l = perform_all es (perform e l)

-- The stages as an abstract machine, with the event by which each is left.
pub data Stage : Type 0 where
  planning approved_stage listing listed building : Stage

abbrev pub leaves : Stage → Operation → Bool
leaves planning (approves plan) = true
leaves approved_stage begins = true
leaves listing (finishes current call is_error) = initializes current call is_error
leaves listed begins = true
leaves _ _ = false

abbrev pub following : Stage → Stage
following planning = approved_stage
following approved_stage = listing
following listing = listed
following listed = building
following building = building

abbrev pub after : Operation → Stage → Stage
after e stage = if leaves stage e then following stage else stage

abbrev pub after_all : List Operation → Stage → Stage
after_all [] stage = stage
after_all (e ∷ es) stage = after_all es (after e stage)

-- The stage that a lifecycle stands in.
abbrev pub Shows : Stage → Lifecycle → Type 0
Shows planning l = (l.phase ≡ formal) × (l.pending ≡ none) × (l.approved ≡ false)
Shows approved_stage l = (l.phase ≡ formal) × (l.pending ≡ some checklist) × (l.approved ≡ true)
Shows listing l = (l.phase ≡ checklist) × (l.pending ≡ none) × (l.approved ≡ true)
Shows listed l = (l.phase ≡ checklist) × (l.pending ≡ some implementation) × (l.approved ≡ true)
Shows building l = (l.phase ≡ implementation) × (l.pending ≡ none) × (l.approved ≡ true)

-- Lifecycles with one phase, one pending phase and one approval.
abbrev Same : Lifecycle → Lifecycle → Type 0
Same l l' = (l'.phase ≡ l.phase) × (l'.pending ≡ l.pending) × (l'.approved ≡ l.approved)

Same-Shows : (stage : Stage) (l l' : Lifecycle) → Same l l' → Shows stage l → Shows stage l'
Same-Shows planning l l' k h = (k.0 ∙ h.0, k.1 ∙ h.1, k.2 ∙ h.2)
Same-Shows approved_stage l l' k h = (k.0 ∙ h.0, k.1 ∙ h.1, k.2 ∙ h.2)
Same-Shows listing l l' k h = (k.0 ∙ h.0, k.1 ∙ h.1, k.2 ∙ h.2)
Same-Shows listed l l' k h = (k.0 ∙ h.0, k.1 ∙ h.1, k.2 ∙ h.2)
Same-Shows building l l' k h = (k.0 ∙ h.0, k.1 ∙ h.1, k.2 ∙ h.2)

start-Same : (call : ToolCall) (l : Lifecycle) → Same l (start call l).1
unfolding start
start-Same call l = elim (Bool-cases (is_submission l.phase call)) [
  | inl b ↦ rw b (elim (Bool-cases l.submitted_this_turn) [
    | inl c ↦ rw c (refl, refl, refl)
    | inr c ↦ rw c (refl, refl, refl)
  ])
  | inr b ↦ rw b (refl, refl, refl)
]

committed-none : (p : Option Phase) (l : Lifecycle) → p ≡ none → committed p l ≡ l
committed-none none l q = refl
committed-none (some phase) l q = absurd cc

committed-some :
    (p : Option Phase) (phase : Phase) (l : Lifecycle)
    → p ≡ some phase
    → committed p l ≡ record l { phase = phase; pending = none }
committed-some none phase l q = absurd cc
committed-some (some phase') phase l q =
    let same : phase' ≡ phase = cc in ap (λ x. record l { phase = x; pending = none }) same

begin_turn-Shows :
    (stage : Stage) (l : Lifecycle) → Shows stage l → Shows (after begins stage) (begin_turn l)
unfolding begin_turn
begin_turn-Shows planning l h =
    rw (committed-none l.pending (record l { submitted_this_turn = false }) h.1) h
begin_turn-Shows approved_stage l h =
    rw (committed-some l.pending checklist (record l { submitted_this_turn = false }) h.1)
      (refl, refl, h.2)
begin_turn-Shows listing l h =
    rw (committed-none l.pending (record l { submitted_this_turn = false }) h.1) h
begin_turn-Shows listed l h =
    rw (committed-some l.pending implementation (record l { submitted_this_turn = false }) h.1)
      (refl, refl, h.2)
begin_turn-Shows building l h =
    rw (committed-none l.pending (record l { submitted_this_turn = false }) h.1) h

approve-Shows :
    (plan : String) (stage : Stage) (l : Lifecycle)
    → Shows stage l
    → Shows (after (approves plan) stage) (approve plan l).1
unfolding approve
approve-Shows plan planning l h = let b = ap is_formal h.0 in rw b (h.0, refl, refl)
approve-Shows plan approved_stage l h = let b = ap is_formal h.0 in rw b (h.0, refl, refl)
approve-Shows plan listing l h = let b = ap is_formal h.0 in rw b h
approve-Shows plan listed l h = let b = ap is_formal h.0 in rw b h
approve-Shows plan building l h = let b = ap is_formal h.0 in rw b h

initialized :
    (current : Phase) (call : ToolCall) (is_error : Bool)
    → initializes current call is_error ≡ true
    → (stage : Stage) (l : Lifecycle) → Shows stage l
    → Shows (after (finishes current call is_error) stage) (finish current call is_error l)
unfolding finish
initialized current call is_error i planning l h = rw (i, ap is_checklist h.0) h
initialized current call is_error i approved_stage l h = rw (i, ap is_checklist h.0) h
initialized current call is_error i listing l h = rw (i, ap is_checklist h.0) (h.0, refl, h.2)
initialized current call is_error i listed l h = rw (i, ap is_checklist h.0) (h.0, refl, h.2)
initialized current call is_error i building l h = rw (i, ap is_checklist h.0) h

ignored :
    (current : Phase) (call : ToolCall) (is_error : Bool)
    → initializes current call is_error ≡ false
    → (stage : Stage) (l : Lifecycle) → Shows stage l
    → Shows (after (finishes current call is_error) stage) (finish current call is_error l)
unfolding finish
ignored current call is_error i planning l h = rw i h
ignored current call is_error i approved_stage l h = rw i h
ignored current call is_error i listing l h = rw i h
ignored current call is_error i listed l h = rw i h
ignored current call is_error i building l h = rw i h

finish-Shows :
    (current : Phase) (call : ToolCall) (is_error : Bool) (stage : Stage) (l : Lifecycle)
    → Shows stage l
    → Shows (after (finishes current call is_error) stage) (finish current call is_error l)
unfolding finish
finish-Shows current call is_error stage l h =
    elim (Bool-cases (initializes current call is_error)) [
      | inl i ↦ initialized current call is_error i stage l h
      | inr i ↦ ignored current call is_error i stage l h
    ]

-- Events that leave no stage.
stays_set : (r : Option ℕ) (stage : Stage) → leaves stage (sets_formal_registry r) ≡ false
stays_set r planning = refl
stays_set r approved_stage = refl
stays_set r listing = refl
stays_set r listed = refl
stays_set r building = refl

stays_started : (call : ToolCall) (stage : Stage) → leaves stage (starts call) ≡ false
stays_started call planning = refl
stays_started call approved_stage = refl
stays_started call listing = refl
stays_started call listed = refl
stays_started call building = refl

perform-Shows :
    (e : Operation) (stage : Stage) (l : Lifecycle)
    → Shows stage l
    → Shows (after e stage) (perform e l)
unfolding perform set_formal_registry
perform-Shows (sets_formal_registry r) stage l h =
    rw (stays_set r stage) (Same-Shows stage l (set_formal_registry r l) (refl, refl, refl) h)
perform-Shows (approves plan) stage l h = approve-Shows plan stage l h
perform-Shows begins stage l h = begin_turn-Shows stage l h
perform-Shows (starts call) stage l h =
    rw (stays_started call stage) (Same-Shows stage l (start call l).1 (start-Same call l) h)
perform-Shows (finishes current call is_error) stage l h =
    finish-Shows current call is_error stage l h

perform_all-Shows :
    (es : List Operation) (stage : Stage) (l : Lifecycle)
    → Shows stage l
    → Shows (after_all es stage) (perform_all es l)
unfolding perform_all
perform_all-Shows [] stage l h = h
perform_all-Shows (e ∷ es) stage l h =
    perform_all-Shows es (after e stage) (perform e l) (perform-Shows e stage l h)

-- Over any operations, in any order, a new lifecycle stands in the stage that the abstract machine has reached:
-- its phase, its pending phase and its approval are those of the stage.
pub perform_all-new-Shows :
    (es : List Operation) (f c d : Option ℕ) (callback : Bool)
    → Shows (after_all es planning) (perform_all es (new f c d callback))
unfolding new
perform_all-new-Shows es f c d callback =
    perform_all-Shows es planning (new f c d callback) (refl, refl, refl)
