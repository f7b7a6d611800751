-- ===== src/Compaction/Tests.antt =====
-- A compactor of a short conversation, and the texts and models of small examples.
use foxharness.Prelude.{
  ℕ, ◌+◌, String, false, List, [], ◌∷◌, ◌++◌, some, none, length, codes, ◌≡◌, refl, arith, ℤ, pos,
  ◌⊎◌,
}
use foxharness.Go.{GoLib}
use foxharness.Dict.{lookup}
use foxharness.Schema.{Message, system, user, assistant}
use foxharness.Engine.Types.{ok}
use foxharness.Compaction.Prompt.{text_message, build_summary_message}
use foxharness.Compaction.Summary.{
  format_summary, index, extract_tag, open_tag, close_tag, strip_tag,
}
use foxharness.Compaction.Summary.Tags.{extract_tag-append, index-strip_tag}
use foxharness.Compaction.Window.{ModelRegistry, lookup_window, default_threshold_config}
use foxharness.Compaction.Window.Longest.{Has, Matches, NoLonger, lookup_window-NoLonger}
use foxharness.Compaction.Compactor.{
  Compactor, State, do_compact, maybe_compact, compact_at, summarize, anchors,
  move_split_to_protocol_boundary, move_back,
}
use foxharness.Compaction.Compactor.Kept.{Compacted, do_compact-Compacted}
use foxharness.Compaction.Compactor.Breaker.{Answers, Idle, maybe_compact-Answers}

abbrev a_go : GoLib
a_go = record {
  bytes = codes;
  text = λ b. "";
  sha1_hex = λ b. "da39";
  trim_space = λ s. s;
  decimal = λ n. "1";
  quoted = λ s. s;
  range_order = λ m. m;
}

abbrev a_compactor : Compactor ℕ
a_compactor = record {
  generate = λ messages w. (ok (some (text_message assistant "<summary>short</summary>")), w + 1);
  estimate = λ messages. pos 100;
  thresholds = default_threshold_config (pos 128000);
  recent_keep = 1;
  transcript_path = "";
  auto_compact_threshold = pos 50;
  disabled = false;
  auto_disabled = false;
  go = a_go;
  cjk = λ c. false;
  marshal = λ used b. "{}";
  now = λ w. "2026";
}

abbrev a_conversation : List Message
a_conversation =
    text_message system "you are"
    ∷ text_message user "do it"
    ∷ text_message assistant "done"
    ∷ text_message user "more"
    ∷ []

abbrev an_idle_state : State
an_idle_state = record { compacting = false; tool_overhead = pos 0; consecutive_failures = 2 }

maybe_compact-Answers_example :
    let (answer, (s', w')) = maybe_compact a_compactor a_conversation an_idle_state 0 in
    Answers a_compactor a_conversation 1 answer × Idle a_compactor s'
maybe_compact-Answers_example =
    maybe_compact-Answers a_compactor a_conversation an_idle_state 0 (refl, omega arith)

abbrev a_summary : List Message
a_summary =
    text_message system "you are"
    ∷ text_message user "do it"
    ∷ text_message system "[compaction-boundary] {}"
    ∷ build_summary_message a_go (format_summary a_go "<summary>short</summary>") ""
    ∷ text_message user "more"
    ∷ []

do_compact-Compacted_example : Compacted a_conversation 1 a_summary
unfolding do_compact compact_at anchors move_split_to_protocol_boundary move_back summarize
do_compact-Compacted_example =
    do_compact-Compacted a_compactor a_conversation (pos 100) 1 0 a_summary refl

index-strip_tag_example : index (strip_tag (codes "a<t>b</t>c<t>d") "t") (open_tag "t") ≡ none
index-strip_tag_example = index-strip_tag (codes "a<t>b</t>c<t>d") "t"

extract_tag-append_example :
    extract_tag ((codes "a" ++ open_tag "t") ++ ((codes "b" ++ close_tag "t") ++ codes "c")) "t"
    ≡ some (codes "b")
unfolding index
extract_tag-append_example = extract_tag-append "t" (codes "a") (codes "b") (codes "c") refl refl

abbrev a_registry : ModelRegistry
a_registry = record {
  entries = ("glm-4", pos 128000) ∷ ("glm-4-plus", pos 200000) ∷ [];
  config = [];
}

lookup_window-NoLonger_example :
    (NoLonger "glm-4-plus-2" 0 a_registry.entries
      × (lookup_window (λ s. s) (λ m. m) "glm-4-plus-2" a_registry ≡ pos 128000))
    ⊎ ((e : String × ℤ) × Has e a_registry.entries
        × Matches "glm-4-plus-2" e
        × NoLonger "glm-4-plus-2" (length (codes e.0)) a_registry.entries
        × (lookup_window (λ s. s) (λ m. m) "glm-4-plus-2" a_registry ≡ e.1))
unfolding lookup
lookup_window-NoLonger_example =
    lookup_window-NoLonger (λ s. s) (λ m. m) "glm-4-plus-2" a_registry refl refl
