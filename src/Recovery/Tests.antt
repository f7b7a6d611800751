-- ===== src/Recovery/Tests.antt =====
-- A concrete history of the tracker.
use foxharness.Prelude.{◌≡◌, ◌≤◌, true, false, List, [], ◌∷◌, length}
use foxharness.Go.{GoLib}
use foxharness.Dict.{lookup, or_zero}
use foxharness.Schema.{ToolCall}
use foxharness.Recovery.{new_tracker, should_inject}
use foxharness.Recovery.History.{Call, records, marks, perform, failures, unreported, perform_lem}

abbrev a_hashing : GoLib
a_hashing = record {
  bytes = λ s. [];
  text = λ b. "";
  sha1_hex = λ b. "da39";
  trim_space = λ s. s;
  decimal = λ n. "1";
  quoted = λ s. s;
  range_order = λ m. m;
}

abbrev a_call : ToolCall
a_call = record { id = "1"; name = "bash"; arguments = "{}" }

abbrev a_history : List Call
a_history =
    records a_call (record { is_error = true; output = [] })
    ∷ marks
    ∷ records a_call (record { is_error = true; output = [] })
    ∷ []

perform_lem_example :
    let t = perform a_hashing new_tracker a_history in
    (should_inject t ≡ unreported a_hashing false a_history)
    × (length t.recent ≤ 5)
    × (or_zero (lookup "da39" t.counts) ≡ failures a_hashing "da39" a_history)
perform_lem_example = perform_lem a_hashing a_history "da39"
