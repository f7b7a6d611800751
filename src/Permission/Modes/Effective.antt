-- ===== src/Permission/Modes/Effective.antt =====
-- When full access is in effect.
use foxharness.Prelude.{
  ◌≡◌, refl, Bool, true, false, not, ◌&&◌, ◌||◌, List, [], ◌∷◌, if◌then◌else◌, arith,
}
use foxharness.Permission.Request.{Grant}
use foxharness.Permission.Modes.{
  Mode, ask, full_access, is_full, normalize_mode, State, new_state, set_selected,
  activate_full_access, add_grant, clear_grants, snapshot,
}

-- The calls that change the state.
pub data Change : Type 0 where
  selects : Mode → Bool → Change
  activates : Bool → Change
  grants : Grant → Change
  clears : Change

apply : Change → State → State
apply (selects mode remembered) s = set_selected mode remembered s
apply (activates remember) s = activate_full_access remember s
apply (grants grant) s = add_grant grant s
apply clears s = (clear_grants s).1

pub apply_all : List Change → State → State
unfolding apply
apply_all [] s = s
apply_all (c ∷ cs) s = apply_all cs (apply c s)

-- Has full access been activated since the last selection of a mode?
pub activated : Bool → List Change → Bool
activated so_far [] = so_far
activated so_far (selects mode remembered ∷ cs) = activated false cs
activated so_far (activates remember ∷ cs) = activated true cs
activated so_far (grants grant ∷ cs) = activated so_far cs
activated so_far (clears ∷ cs) = activated so_far cs

-- The mode in effect, from what was selected, remembered and activated.
abbrev pub mode_in_effect : Mode → Bool → Bool → Mode
mode_in_effect selected remembered active =
    if is_full selected && not (remembered || active) then ask else selected

abbrev Agrees : Bool → State → Type 0
Agrees active s = s.effective ≡ mode_in_effect s.selected s.full_remembered active

selected-Agrees :
    (mode : Mode) (remembered : Bool)
    → (if is_full mode && not remembered then ask else mode) ≡ mode_in_effect mode remembered false
selected-Agrees mode true = refl
selected-Agrees mode false = refl

apply_all-Agrees :
    (active : Bool) (cs : List Change) (s : State)
    → Agrees active s
    → Agrees (activated active cs) (apply_all cs s)
unfolding apply_all activated set_selected activate_full_access add_grant clear_grants
apply_all-Agrees active [] s h = h
apply_all-Agrees active (selects mode remembered ∷ cs) s h =
    apply_all-Agrees false cs (set_selected mode remembered s)
      (selected-Agrees (normalize_mode mode) remembered)
apply_all-Agrees active (activates remember ∷ cs) s h =
    apply_all-Agrees true cs (activate_full_access remember s) (ground arith)
apply_all-Agrees active (grants grant ∷ cs) s h = apply_all-Agrees active cs (add_grant grant s) h
apply_all-Agrees active (clears ∷ cs) s h = apply_all-Agrees active cs (clear_grants s).1 h

warned :
    (m : Mode) (b : Bool)
    → (is_full m && not (is_full (if is_full m && not b then ask else m))) ≡ (is_full m && not b)
warned full_access true = refl
warned full_access false = refl
warned _ b = refl

-- After any calls on a new state the mode in effect is the selected one, except that a selected full
-- access which is neither remembered nor was activated since the last selection is in effect as ask,
-- and exactly then the snapshot asks for the warning.
pub apply_all-mode_in_effect :
    (mode : Mode) (remembered : Bool) (cs : List Change)
    → let s = apply_all cs (new_state mode remembered) in
      (s.effective ≡ mode_in_effect s.selected s.full_remembered (activated false cs))
      × ((snapshot s).full_access_needs_warning
          ≡ (is_full s.selected && not (s.full_remembered || activated false cs)))
unfolding new_state snapshot
apply_all-mode_in_effect mode remembered cs =
    let s = apply_all cs (new_state mode remembered) in
    let h =
      apply_all-Agrees false cs (new_state mode remembered)
        (selected-Agrees (normalize_mode mode) remembered) in
    (h, rw h (warned s.selected (s.full_remembered || activated false cs)))
