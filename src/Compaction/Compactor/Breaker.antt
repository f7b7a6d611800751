-- ===== src/Compaction/Compactor/Breaker.antt =====
-- What the two operations that compact return, and what they do to the state.
use foxharness.Prelude.{
  ℕ, ◌/◌, ◌≤◌, ◌<◌, Bool, true, false, List, Option, some, none, if◌then◌else◌, ltb, ltb_ℤ, ◌≡◌,
  refl, arith, inl, inr, ◌⊎◌,
}
use foxharness.Schema.{Message}
use foxharness.Engine.Types.{Error, Result, ok, err}
use foxharness.Compaction.Compactor.{
  Compactor, State, do_compact, maybe_compact, force_compact, kept, released, Returned, threshold,
}
use foxharness.Compaction.Compactor.Kept.{Compacted, do_compact-Compacted}

module _ {W : Type 0} (c : Compactor W) where
  -- The conversation as it was, or compacted and without an error.
  abbrev pub Answers : List Message → ℕ → List Message × Option Error → Type 0
  Answers messages keep (answer, error) =
      (answer ≡ messages) ⊎ (Compacted messages keep answer × (error ≡ none))

  -- No compaction is under way, and the breaker counts to three at most.
  abbrev pub Idle : State → Type 0
  Idle s = (s.compacting ≡ false) × (s.consecutive_failures ≤ 3)

  abbrev Fine : List Message → ℕ → Returned c → Type 0
  Fine messages keep (answer, (s, w)) = Answers messages keep answer × Idle s

  kept-Fine :
      (messages : List Message) (keep : ℕ) (counts : Bool) (s : State)
      (r : Result (Option (List Message)) × W)
      → ((compacted : List Message) → r.0 ≡ ok (some compacted) → Compacted messages keep compacted)
      → s.consecutive_failures ≤ 3
      → (counts ≡ true → s.consecutive_failures < 3)
      → Fine messages keep (released c (kept c messages counts s r))
  kept-Fine messages keep counts s (err e, w) h few fewer = (inl refl, (refl, few))
  kept-Fine messages keep true s (ok none, w) h few fewer =
      (inl refl, (refl, omega (arith, fewer refl)))
  kept-Fine messages keep false s (ok none, w) h few fewer = (inl refl, (refl, few))
  kept-Fine messages keep counts s (ok (some compacted), w) h few fewer =
      (inr (h compacted refl, refl), (refl, omega arith))

  refused_or :
      (messages : List Message) (keep : ℕ) (s : State) (w : W) (b : Bool) (r : Returned c)
      → Idle s
      → (b ≡ false → Fine messages keep r)
      → Fine messages keep (if b then ((messages, none), (s, w)) else r)
  refused_or messages keep s w true r idle h = (inl refl, idle)
  refused_or messages keep s w false r idle h = h refl

  under_threshold :
      (messages : List Message) (keep : ℕ) (s : State) (w : W) (b : Bool) (r : Returned c)
      → s.consecutive_failures ≤ 3
      → Fine messages keep (released c r)
      → Fine messages keep (released c (if b then ((messages, none), (s, w)) else r))
  under_threshold messages keep s w true r few h = (inl refl, (refl, few))
  under_threshold messages keep s w false r few h = h

  -- MaybeCompact, on a state in which no compaction is under way and the breaker has counted to three at
  -- most, returns the conversation as it was or compacted with the recent messages that the configuration
  -- asks for, never both an error and a changed conversation, and leaves such a state.
  pub maybe_compact-Answers :
      (messages : List Message) (s : State) (w : W)
      → Idle s
      → let (answer, (s', w')) = maybe_compact c messages s w in
        Answers messages c.recent_keep answer × Idle s'
  unfolding maybe_compact
  maybe_compact-Answers messages s w (idle, few) =
      let busy = record s { compacting = true } in
      let used = c.estimate messages in
      refused_or messages c.recent_keep s w _ _ (idle, few)
        (λ free. under_threshold messages c.recent_keep busy w (ltb_ℤ used (threshold c s)) _ few (
          kept-Fine messages c.recent_keep true busy (do_compact c messages used c.recent_keep w)
            (λ compacted q. do_compact-Compacted c messages used c.recent_keep w compacted q) few
            (λ q. ground arith)))

  -- ForceCompact, on such a state, does the same with half as many recent messages, four at least.
  pub force_compact-Answers :
      (messages : List Message) (s : State) (w : W)
      → Idle s
      → let (answer, (s', w')) = force_compact c messages s w in
        Answers messages (if ltb (c.recent_keep / 2) 4 then 4 else c.recent_keep / 2) answer
        × Idle s'
  unfolding force_compact
  force_compact-Answers messages s w (idle, few) =
      let busy = record s { compacting = true } in
      let keep = if ltb (c.recent_keep / 2) 4 then 4 else c.recent_keep / 2 in
      refused_or messages keep s w _ _ (idle, few)
        (λ free.
          kept-Fine messages keep false busy (do_compact c messages (c.estimate messages) keep w)
            (λ compacted q.
              do_compact-Compacted c messages (c.estimate messages) keep w compacted q)
            few (λ q. absurd cc))
