-- ===== src/Compaction/Compactor.antt =====
-- internal/compaction/compactor.go: the compactor of a conversation. The fields that its mutex guards are
-- the state; the provider works on a world `W`; the log lines are left out.
pub mod Kept
pub mod Breaker
use foxharness.Prelude.{
  ℕ, zero, suc, ◌+◌, ◌-◌, ◌/◌, ◌≤◌, ◌<◌, String, Bool, true, false, List, [], ◌∷◌, ◌++◌, Option,
  some, none, if◌then◌else◌, length, take, drop, str_eq, leb, ltb, text_append, ◌||◌, ◌&&◌, not, ℤ,
  pos, ◌-ℤ◌, ltb_ℤ,
}
use foxharness.Go.{GoLib}
use foxharness.Schema.{Message, Role, system, user}
use foxharness.Engine.Types.{Error, failure, wrapped, Result, ok, err}
use foxharness.Compaction.Window.{ThresholdConfig, auto_compact, blocking}
use foxharness.Compaction.Prompt.{
  CompactBoundary, text_message, build_summary_message, build_compact_prompt,
  detect_summary_language,
}
use foxharness.Compaction.Summary.{format_summary}

-- What a compactor is made of, and the packages that it calls: json.Marshal on a boundary with its token
-- count, and the clock's time as text. The provider's answer is none without a message.
pub record Compactor (W : Type 0) : Type 0 where
  pub generate : List Message → W → Result (Option Message) × W
  pub estimate : List Message → ℤ
  pub thresholds : ThresholdConfig
  pub recent_keep : ℕ
  pub transcript_path : String
  pub auto_compact_threshold : ℤ
  pub disabled : Bool
  pub auto_disabled : Bool
  pub go : GoLib
  pub cjk : ℕ → Bool
  pub marshal : ℤ → CompactBoundary → String
  pub now : W → String

pub record State : Type 0 where
  pub compacting : Bool
  pub tool_overhead : ℤ
  pub consecutive_failures : ℕ

unfoldable pub set_tool_overhead : ℤ → State → State
set_tool_overhead tokens s = record s { tool_overhead = tokens }

unfoldable pub reset_circuit_breaker : State → State
reset_circuit_breaker s = record s { consecutive_failures = 0 }

abbrev pub answers_call : List Message → Bool
answers_call [] = false
answers_call (msg ∷ messages) = not (str_eq msg.tool_call_id "")

-- The loop of moveSplitToProtocolBoundary.
unfoldable pub move_back : List Message → ℕ → ℕ → ℕ
move_back messages zero min = zero
move_back messages (suc split) min =
    let further = move_back messages split min in
    if ltb min (suc split) && answers_call (drop (suc split) messages) then further else suc split

unfoldable pub move_split_to_protocol_boundary : List Message → ℕ → ℕ → ℕ
unfolding move_back
move_split_to_protocol_boundary messages split min =
    if leb (length messages) split then split else move_back messages split min

abbrev is_user : Role → Bool
is_user user = true
is_user _ = false

-- The user message behind the system message, which is kept.
unfoldable pub anchors : List Message → List Message
anchors [] = []
anchors (msg ∷ messages) = if is_user msg.role && str_eq msg.tool_call_id "" then msg ∷ [] else []

module _ {W : Type 0} (c : Compactor W) where
  unfoldable pub threshold : State → ℤ
  threshold s =
      (if ltb_ℤ (pos 0) c.auto_compact_threshold
        then c.auto_compact_threshold
        else auto_compact c.thresholds)
      -ℤ s.tool_overhead

  unfoldable pub blocking_threshold : State → ℤ
  blocking_threshold s = blocking c.thresholds -ℤ s.tool_overhead

  abbrev summary_of : Result (Option Message) × W → Result String × W
  summary_of (err e, w) = (err e, w)
  summary_of (ok none, w) = (err (failure "compaction summary provider returned empty response"), w)
  summary_of (ok (some msg), w) = (ok (format_summary c.go msg.content), w)

  unfoldable pub summarize : List Message → List Message → String → W → Result String × W
  summarize full_history to_compact custom_instructions w =
      let language = detect_summary_language c.cjk full_history in
      let prompt = build_compact_prompt c.go to_compact language custom_instructions in
      summary_of (c.generate (text_message user prompt ∷ []) w)

  pub summarize_with_instructions : List Message → String → W → Result String × W
  unfolding summarize
  summarize_with_instructions messages custom_instructions w =
      if c.disabled
      then (err (failure "compaction is disabled (FOXHARNESS_DISABLE_COMPACT is set)"), w)
      else summarize messages messages custom_instructions w

  abbrev pub boundary_message : ℤ → ℕ → W → Message
  boundary_message used count w = text_message system (
      text_append "[compaction-boundary] " (
        c.marshal used
          (record { trigger = "auto"; messages_summarized = count; timestamp = c.now w })))

  abbrev pub spliced :
      List Message → List Message → ℤ → ℕ → Result String × W → Result (Option (List Message)) × W
  spliced front recent used count (err e, w) = (err (wrapped "context compaction 失败: " e), w)
  spliced front recent used count (ok summary, w) = (
    ok (
        some (
          front
          ++ boundary_message used count w
            ∷ build_summary_message c.go summary c.transcript_path
            ∷ recent)),
    w,
  )

  -- doCompact behind its first guard, with the system message apart.
  unfoldable pub compact_at :
      Message → List Message → ℤ → ℕ → W → Result (Option (List Message)) × W
  unfolding anchors move_split_to_protocol_boundary summarize
  compact_at first others used keep w =
      let messages = first ∷ others in
      let keep_start = suc (length (anchors others)) in
      let split = length messages - keep in
      let moved = move_split_to_protocol_boundary messages split keep_start in
      let old = drop keep_start (take moved messages) in
      if ltb split keep_start || leb moved keep_start
      then (ok none, w)
      else spliced (first ∷ anchors others) (drop moved messages) used (length old)
          (summarize messages old "" w)

  abbrev pub compact_first : List Message → ℤ → ℕ → W → Result (Option (List Message)) × W
  unfolding compact_at
  compact_first [] used keep w = (ok none, w)
  compact_first (first ∷ others) used keep w = compact_at first others used keep w

  unfoldable pub do_compact : List Message → ℤ → ℕ → W → Result (Option (List Message)) × W
  unfolding compact_at
  do_compact messages used keep w =
      if leb (length messages) (keep + 2) then (ok none, w) else compact_first messages used keep w

  -- What a call returns: a conversation, and an error if there is one.
  abbrev pub Returned : Type 0
  Returned = (List Message × Option Error) × (State × W)

  abbrev pub kept : List Message → Bool → State → Result (Option (List Message)) × W → Returned
  kept messages counts s (err e, w) = ((messages, some e), (s, w))
  kept messages counts s (ok none, w) = (
    (messages, none),
    (if counts then record s { consecutive_failures = s.consecutive_failures + 1 } else s, w),
  )
  kept messages counts s (ok (some compacted), w) =
      ((compacted, none), (record s { consecutive_failures = 0 }, w))

  abbrev pub released : Returned → Returned
  released (answer, (s, w)) = (answer, (record s { compacting = false }, w))

  unfoldable pub maybe_compact : List Message → State → W → Returned
  unfolding do_compact threshold
  maybe_compact messages s w =
      let busy = record s { compacting = true } in
      let used = c.estimate messages in
      if s.compacting || (c.disabled || c.auto_disabled) || leb 3 s.consecutive_failures
      then ((messages, none), (s, w))
      else released (
          if ltb_ℤ used (threshold s)
          then ((messages, none), (busy, w))
          else kept messages true busy (do_compact messages used c.recent_keep w))

  unfoldable pub force_compact : List Message → State → W → Returned
  unfolding do_compact
  force_compact messages s w =
      let busy = record s { compacting = true } in
      let keep = if ltb (c.recent_keep / 2) 4 then 4 else c.recent_keep / 2 in
      if s.compacting || c.disabled
      then ((messages, none), (s, w))
      else released (kept messages false busy (do_compact messages (c.estimate messages) keep w))
