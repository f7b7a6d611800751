-- ===== src/Todopolicy.antt =====
-- internal/todopolicy/completion.go: the reminder of the TODO list. Texts are lists of code points; the file, and
-- strings.TrimSpace and the test strings.EqualFold against "not recorded", are parameters.
use foxharness.Prelude.{
  List, [], ◌∷◌, ◌++◌, Bool, true, false, not, ◌||◌, ◌&&◌, Option, some, none, Text, codes,
  has_prefix, drop, if◌then◌else◌, ◌==◌,
}

-- strings.Split at line feeds, with the current line so far.
lines : Text → Text → List Text
lines current [] = current ∷ []
lines current (c ∷ s) = if c == 10 then current ∷ lines [] s else lines (current ++ c ∷ []) s

-- strings.Trim with the cutset ".".
trim_left : Text → Text
trim_left [] = []
trim_left (c ∷ s) = let rest = trim_left s in if c == 0x2e then rest else c ∷ s

is_dots : Text → Bool
is_dots [] = true
is_dots (c ∷ s) = c == 0x2e && is_dots s

trim_right : Text → Text
unfolding is_dots
trim_right [] = []
trim_right (c ∷ s) = let rest = trim_right s in if is_dots (c ∷ s) then [] else c ∷ rest

is_empty : Text → Bool
is_empty [] = true
is_empty (c ∷ s) = false

module _ (trim_space : Text → Text) (is_not_recorded : Text → Bool) where
  -- The loop over the lines.
  open_items : List Text → List Text
  unfolding trim_left trim_right is_empty
  open_items [] = []
  open_items (line ∷ rest) =
      let items = open_items rest in
      let trimmed = trim_space line in
      let item = trim_space (drop 5 trimmed) in
      if not (has_prefix trimmed (codes "- [ ]"))
      then items
      else if is_empty item || is_not_recorded (trim_right (trim_left item))
      then items
      else item ∷ items

  pub incomplete_items : Text → List Text
  unfolding lines open_items
  incomplete_items content = open_items (lines [] content)

  bullets : List Text → Text
  bullets [] = []
  bullets (item ∷ items) = codes "\n- " ++ item ++ bullets items

  with_items : List Text → Text
  unfolding bullets
  with_items [] = []
  with_items (item ∷ items) =
      codes
        "TODO.md still has incomplete checklist items. Before giving the final answer, call update_todo with the complete TODO.md content and mark completed items as [x]. If an item is genuinely not complete, keep it unchecked and explain why in the final answer.\n\nIncomplete items:"
      ++ bullets (item ∷ items)

  abbrev reminder_of : Option Text → Text
  unfolding with_items incomplete_items
  reminder_of none = []
  reminder_of (some content) = with_items (incomplete_items content)

  -- CompletionReminder; the file is none if it cannot be read.
  pub completion_reminder : Option Text → Bool → Text
  unfolding with_items incomplete_items
  completion_reminder file update_available = if not update_available then [] else reminder_of file
