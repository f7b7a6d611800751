-- ===== src/Reminder/Actions.antt =====
-- What the manager of internal/reminder/reminder.go keeps of many actions that are recorded in a row.
use foxharness.Prelude.{
  ℕ, zero, suc, ◌+◌, ◌-◌, ◌≤◌, ◌≡◌, refl, ◌∙◌, ap, sym, List, [], ◌∷◌, ◌++◌, ltb, length, drop,
  arith, Bool-cases, inl, inr, length-append, length-drop, append_assoc,
}
use foxharness.Reminder.{ToolAction, newest}

newest-drop : (n : ℕ) (l : List ToolAction) → newest n l ≡ drop (length l - n) l
unfolding newest
newest-drop n l = elim (Bool-cases (ltb n (length l))) [
  | inl more ↦ rw more refl
  | inr all ↦ let none_left : length l - n ≡ 0 = ground arith in rw (all, none_left) refl
]

drop_front : (k : ℕ) (xs ys : List ToolAction) → k ≤ length xs → drop k (xs ++ ys) ≡ drop k xs ++ ys
drop_front zero xs ys h = refl
drop_front (suc k) [] ys h = absurd (omega arith)
drop_front (suc k) (x ∷ xs) ys h = drop_front k xs ys (omega arith)

drop_twice : (j k m : ℕ) (l : List ToolAction) → m ≡ k + j → drop j (drop k l) ≡ drop m l
drop_twice j zero m l h = ap (λ n. drop n l) (omega arith)
drop_twice j (suc k) zero l h = absurd (omega arith)
drop_twice zero (suc k) (suc m) [] h = refl
drop_twice (suc j) (suc k) (suc m) [] h = refl
drop_twice j (suc k) (suc m) (x ∷ l) h = drop_twice j k m l (omega arith)

-- What has been forgotten once makes no difference to what is kept later.
pub newest-append :
    (n : ℕ) (xs ys : List ToolAction) → newest n (newest n xs ++ ys) ≡ newest n (xs ++ ys)
newest-append n xs ys =
    let k = length xs - n in
    let kept = drop k xs in
    let j = length (kept ++ ys) - n in
    let front = drop_front k xs ys (omega arith) in
    let count : length (xs ++ ys) - n ≡ k + j =
      omega (arith, length-append xs ys, length-append kept ys, length-drop k xs) in
    ap (λ l. newest n (l ++ ys)) (newest-drop n xs)
    ∙ newest-drop n (kept ++ ys)
    ∙ ap (drop j) (sym front)
    ∙ drop_twice j k (length (xs ++ ys) - n) (xs ++ ys) count
    ∙ sym (newest-drop n (xs ++ ys))

-- The actions that are kept once those of a list have been recorded too.
abbrev pub kept_actions : List ToolAction → List ToolAction → List ToolAction
kept_actions actions [] = actions
kept_actions actions (a ∷ more) = newest 30 (actions ++ a ∷ more)

pub kept_actions_step :
    (actions : List ToolAction) (a : ToolAction) (more : List ToolAction)
    → kept_actions (newest 30 (actions ++ a ∷ [])) more ≡ kept_actions actions (a ∷ more)
kept_actions_step actions a [] = refl
kept_actions_step actions a (b ∷ more) =
    newest-append 30 (actions ++ a ∷ []) (b ∷ more)
    ∙ ap (newest 30) (append_assoc actions (a ∷ []) (b ∷ more))
