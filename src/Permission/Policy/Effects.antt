-- ===== src/Permission/Policy/Effects.antt =====
-- When the effects that an assessment declares are in order.
use foxharness.Prelude.{
  String, ◌≡◌, refl, ◌∙◌, Bool, true, false, not, ◌&&◌, ◌||◌, List, [], ◌∷◌, if◌then◌else◌, str_eq,
  arith, all, any,
}
use foxharness.Toolpolicy.Assessment.{
  Effect, observe, mutate, execute, network, delegate, workflow, interact, unknown_effect,
  other_effect, Assessment,
}
use foxharness.Permission.Policy.{effects_reason, after_effects, is_none}

abbrev pub is_delegate : Effect → Bool
is_delegate delegate = true
is_delegate _ = false

abbrev pub is_execute : Effect → Bool
is_execute execute = true
is_execute _ = false

-- An effect of the known kinds, and no mutation where the assessment claims to be read-only.
abbrev pub is_sound_effect : Bool → Effect → Bool
is_sound_effect read_only unknown_effect = false
is_sound_effect read_only (other_effect s) = false
is_sound_effect read_only mutate = not read_only
is_sound_effect read_only _ = true

after_effects_lem :
    (d n x e : Bool)
    → str_eq
        (if d && not n
          then "delegating capability lacks nested permission enforcement"
          else if x && e
          then "executing capability does not identify commands"
          else "")
        ""
      ≡ ((not d || n) && (not x || not e))
after_effects_lem true false x e = refl
after_effects_lem true true true true = refl
after_effects_lem true true true false = refl
after_effects_lem true true false e = refl
after_effects_lem false n true true = refl
after_effects_lem false n true false = refl
after_effects_lem false n false e = refl

pub before_effects_lem :
    (empty scope outside : Bool) (r : String)
    → str_eq
        (if empty
          then "tool capability effects are missing"
          else if not scope
          then "tool capability scope is invalid"
          else if outside
          then "fast-allow capability is not workspace-scoped"
          else r)
        ""
      ≡ (not empty && scope && not outside && str_eq r "")
before_effects_lem true scope outside r = refl
before_effects_lem false false outside r = refl
before_effects_lem false true true r = refl
before_effects_lem false true false r = refl

mutate_lem :
    (read_only : Bool) (r : String)
    → str_eq (if read_only then "read-only capability declares mutation" else r) ""
      ≡ (not read_only && str_eq r "")
mutate_lem true r = refl
mutate_lem false r = refl

pub effects_reason_lem :
    (a : Assessment) (d x : Bool) (es : List Effect)
    → str_eq (effects_reason a d x es) "" ≡ (
        all (is_sound_effect a.read_only) es
        && (not (any is_delegate es || d) || a.nested_enforcement)
        && (not (any is_execute es || x) || not (is_none a.commands)))
unfolding effects_reason after_effects
effects_reason_lem a d x [] = after_effects_lem d a.nested_enforcement x (is_none a.commands)
effects_reason_lem a d x (unknown_effect ∷ es) = refl
effects_reason_lem a d x (other_effect s ∷ es) = refl
effects_reason_lem a d x (delegate ∷ es) = ground (arith, effects_reason_lem a true x es)
effects_reason_lem a d x (execute ∷ es) = ground (arith, effects_reason_lem a d true es)
effects_reason_lem a d x (mutate ∷ es) =
    mutate_lem a.read_only (effects_reason a d x es)
    ∙ rw (effects_reason_lem a d x es) (ground arith)
effects_reason_lem a d x (observe ∷ es) = effects_reason_lem a d x es
effects_reason_lem a d x (network ∷ es) = effects_reason_lem a d x es
effects_reason_lem a d x (workflow ∷ es) = effects_reason_lem a d x es
effects_reason_lem a d x (interact ∷ es) = effects_reason_lem a d x es
