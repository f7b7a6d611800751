-- ===== src/Toolresult.antt =====
-- internal/toolresult/truncate.go: the cap on the size of a tool result, in bytes.
use foxharness.Prelude.{ℕ, ◌/◌, List, ◌++◌, if◌then◌else◌, leb, length, take, joined, [], ◌∷◌}
use foxharness.Go.{GoLib}

pub truncate_to_cap : GoLib → List ℕ → List ℕ
truncate_to_cap go content =
    if leb (length content) 400000
    then content
    else take 400000 content
      ++ go.bytes (
          joined (
            "\n...[truncated at 400KB, original size: "
            ∷ go.decimal (length content / 1024)
            ∷ " KB]"
            ∷ []))
