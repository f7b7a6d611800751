-- ===== src/Compaction/Compactor/Kept.antt =====
-- What a compaction keeps of a conversation.
use foxharness.Prelude.{
  ℕ, zero, suc, ◌+◌, ◌-◌, ◌≤◌, ◌<◌, String, Bool, true, false, List, [], ◌∷◌, ◌++◌, Option, some,
  none, if◌then◌else◌, length, take, drop, leb, ltb, ◌||◌, ◌&&◌, ℤ, ◌≡◌, refl, ap, sym, ◌∙◌, arith,
  Bool-cases, inl, inr, length-drop, length-take, take-drop, append_assoc, subst,
}
use foxharness.Schema.{Message}
use foxharness.Engine.Types.{Result, ok, err}
use foxharness.Compaction.Prompt.{build_summary_message, tool_call_id-build_summary_message}
use foxharness.Compaction.Compactor.{
  boundary_message, Compactor, anchors, move_back, move_split_to_protocol_boundary, compact_at,
  do_compact, answers_call, spliced,
}

module _ {A : Type 0} where
  drop_all : (n : ℕ) (xs : List A) → length xs ≤ n → drop n xs ≡ []
  drop_all zero [] h = refl
  drop_all (suc n) [] h = refl
  drop_all zero (x ∷ xs) h = absurd (omega arith)
  drop_all (suc n) (x ∷ xs) h = drop_all n xs (omega arith)

  take-take : (n m : ℕ) (xs : List A) → n ≤ m → take n (take m xs) ≡ take n xs
  take-take zero m xs h = refl
  take-take (suc n) zero xs h = absurd (omega arith)
  take-take (suc n) (suc m) [] h = refl
  take-take (suc n) (suc m) (x ∷ xs) h = ap (◌∷◌ x) (take-take n m xs (omega arith))

  -- A list in three parts.
  three_parts :
      (n m : ℕ) (xs : List A) → n ≤ m → take n xs ++ (drop n (take m xs) ++ drop m xs) ≡ xs
  three_parts n m xs h =
      let front = rw (take-take n m xs h) at (take-drop n (take m xs)) in
      sym (append_assoc (take n xs) (drop n (take m xs)) (drop m xs))
      ∙ (ap (λ l. l ++ drop m xs) front ∙ take-drop m xs)

take-anchors : (others : List Message) → take (length (anchors others)) others ≡ anchors others
unfolding anchors
take-anchors [] = refl
take-anchors (msg ∷ others) = ground arith

move_back_bound : (messages : List Message) (split min : ℕ) → move_back messages split min ≤ split
unfolding move_back
move_back_bound messages zero min = omega arith
move_back_bound messages (suc split) min = ground (arith, move_back_bound messages split min)

move_back_protocol :
    (messages : List Message) (split min : ℕ)
    → min < move_back messages split min
    → answers_call (drop (move_back messages split min) messages) ≡ false
unfolding move_back
move_back_protocol messages zero min h = absurd (omega arith)
move_back_protocol messages (suc split) min h =
    elim (Bool-cases (ltb min (suc split) && answers_call (drop (suc split) messages))) [
      | inl b ↦ rw b (move_back_protocol messages split min (rw b at h))
      | inr b ↦ rw b (ground arith)
    ]

moved_bound :
    (messages : List Message) (split min : ℕ)
    → move_split_to_protocol_boundary messages split min ≤ split
unfolding move_split_to_protocol_boundary
moved_bound messages split min = ground (arith, move_back_bound messages split min)

moved_protocol :
    (messages : List Message) (split min : ℕ)
    → min < move_split_to_protocol_boundary messages split min
    → answers_call (drop (move_split_to_protocol_boundary messages split min) messages) ≡ false
unfolding move_split_to_protocol_boundary
moved_protocol messages split min h = elim (Bool-cases (leb (length messages) split)) [
  | inl b ↦ rw (b, drop_all split messages (ground arith)) refl
  | inr b ↦ rw b (move_back_protocol messages split min (rw b at h))
]

-- A conversation that was compacted: the system message, the first user message, some old messages and the
-- newest ones; two messages that answer no call stand for the old ones, of which there is at least one;
-- the newest ones are `keep` or more, and do not begin with the result of a call.
pub record Compacted (messages : List Message) (keep : ℕ) (compacted : List Message) : Type 0 where
  pub first : Message
  pub others : List Message
  pub old : List Message
  pub boundary : Message
  pub summary : Message
  pub recent : List Message
  pub before : messages ≡ first ∷ (anchors others ++ (old ++ recent))
  pub behind : compacted ≡ first ∷ (anchors others ++ (boundary ∷ summary ∷ recent))
  pub some_old : 0 < length old
  pub enough_recent : keep ≤ length recent
  pub protocol : answers_call recent ≡ false
  pub silent : (boundary.tool_call_id ≡ "") × (summary.tool_call_id ≡ "")

module _ {W : Type 0} (c : Compactor W) where
  passed_guard :
      (b : Bool) (r : Result (Option (List Message)) × W) (w : W) {compacted : List Message}
      → (if b then (ok none, w) else r).0 ≡ ok (some compacted)
      → (b ≡ false) × (r.0 ≡ ok (some compacted))
  passed_guard true r w h = absurd cc
  passed_guard false r w h = (refl, h)

  spliced-Compacted :
      (first : Message) (others old recent : List Message) (used : ℤ) (count keep : ℕ)
      (r : Result String × W) (compacted : List Message)
      → (spliced c (first ∷ anchors others) recent used count r).0 ≡ ok (some compacted)
      → 0 < length old
      → keep ≤ length recent
      → answers_call recent ≡ false
      → Compacted (first ∷ (anchors others ++ (old ++ recent))) keep compacted
  spliced-Compacted first others old recent used count keep (err e, w) compacted h o n p = absurd cc
  spliced-Compacted first others old recent used count keep (ok text, w) compacted h o n p =
      let same : (first ∷ anchors others)
            ++ boundary_message c used count w
              ∷ build_summary_message c.go text c.transcript_path
              ∷ recent
          ≡ compacted =
        cc in
      record {
        first = first;
        others = others;
        old = old;
        boundary = boundary_message c used count w;
        summary = build_summary_message c.go text c.transcript_path;
        recent = recent;
        before = refl;
        behind = sym same;
        some_old = o;
        enough_recent = n;
        protocol = p;
        silent = (refl, tool_call_id-build_summary_message c.go text c.transcript_path);
      }

  compact_at-Compacted :
      (first : Message) (others : List Message) (used : ℤ) (keep : ℕ) (w : W)
      (compacted : List Message)
      → keep + 2 < length (first ∷ others)
      → (compact_at c first others used keep w).0 ≡ ok (some compacted)
      → Compacted (first ∷ others) keep compacted
  unfolding compact_at
  compact_at-Compacted first others used keep w compacted long h =
      let messages = first ∷ others in
      let keep_start = suc (length (anchors others)) in
      let split = length messages - keep in
      let moved = move_split_to_protocol_boundary messages split keep_start in
      let old = drop keep_start (take moved messages) in
      let recent = drop moved messages in
      let low = moved_bound messages split keep_start in
      let (go_on, passed) = passed_guard (ltb split keep_start || leb moved keep_start) _ w h in
      let above : keep_start < moved = ground arith in
      let inside : moved ≤ length messages = omega (arith, low) in
      let parts : first ∷ (anchors others ++ (old ++ recent)) ≡ messages =
        rw (take-anchors others) at
          (three_parts keep_start moved messages (omega (arith, above))) in
      subst (λ l. Compacted l keep compacted) parts
        (spliced-Compacted first others old recent used (length old) keep _ compacted passed
          (omega (
            arith,
            length-drop keep_start (take moved messages),
            length-take moved messages inside,
          ))
          (omega (arith, low, length-drop moved messages))
          (moved_protocol messages split keep_start above))

  -- If doCompact gives a conversation, it is the given one with at least one old message replaced by a
  -- boundary and a summary: the system message, the anchor and `keep` or more of the newest messages stand
  -- as they did, and these do not begin with the result of a call.
  pub do_compact-Compacted :
      (messages : List Message) (used : ℤ) (keep : ℕ) (w : W) (compacted : List Message)
      → (do_compact c messages used keep w).0 ≡ ok (some compacted)
      → Compacted messages keep compacted
  unfolding do_compact
  do_compact-Compacted [] used keep w compacted h = elim (Bool-cases (leb 0 (keep + 2))) [
    | inl b ↦ let q : ok none ≡ ok (some compacted) = rw b at h in absurd cc
    | inr b ↦ let q : ok none ≡ ok (some compacted) = rw b at h in absurd cc
  ]
  do_compact-Compacted (first ∷ others) used keep w compacted h =
      elim (Bool-cases (leb (length (first ∷ others)) (keep + 2))) [
        | inl b ↦ let q : ok none ≡ ok (some compacted) = rw b at h in absurd cc
        | inr b ↦ compact_at-Compacted first others used keep w compacted (ground arith) (rw b at h)
      ]
