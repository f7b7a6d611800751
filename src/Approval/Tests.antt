-- ===== src/Approval/Tests.antt =====
-- A decision that comes before a timeout.
use foxharness.Prelude.{true, false, List, [], ◌∷◌, none, ◌≡◌, refl}
use foxharness.Dict.{lookup}
use foxharness.Approval.{Decision, decided, new_store, register, finish}
use foxharness.Approval.Outcome.{
  Step, registers, resolves, finishes, perform_all, finish-first_decision,
}

abbrev yes : Decision
yes = record { approved = true; reason = "" }

abbrev timed_out : Decision
timed_out = record { approved = false; reason = "审批超时" }

abbrev some_steps : List Step
some_steps =
    registers "b"
    ∷ resolves "a" yes
    ∷ resolves "a" timed_out
    ∷ finishes "b" 1 (decided timed_out)
    ∷ []

finish-first_decision_example :
    let (answer, s') =
      finish "a" 0 (decided timed_out) (perform_all some_steps (register "a" new_store).1) in
    (answer ≡ decided yes) × (lookup "a" s'.waiting ≡ none)
unfolding new_store register lookup
finish-first_decision_example =
    finish-first_decision "a" new_store some_steps (decided timed_out) refl (refl, tt)
