-- ===== src/Slash/Arguments/Quoted.antt =====
-- Arguments that are quoted come back as they are.
use foxharness.Prelude.{
  true, false, List, [], ◌∷◌, ◌++◌, Text, ◌==◌, ◌≡◌, refl, ap, sym, ◌∙◌, arith, append_assoc,
  append-nil, any, All,
}
use foxharness.Slash.Arguments.{parse_from, parse_arguments, flush}

-- Words in double quotes, with blanks between them.
pub quoted : List Text → Text
quoted [] = []
quoted (w ∷ []) = 0x22 ∷ w ++ 0x22 ∷ []
quoted (w ∷ v ∷ ws) = 0x22 ∷ w ++ 0x22 ∷ 0x20 ∷ quoted (v ∷ ws)

-- A word that quotes can hold: it is not empty and has no quote.
abbrev pub Quotable : Text → Type 0
Quotable [] = ⊥
Quotable (c ∷ w) = any (λ d. d == 0x22) (c ∷ w) ≡ false

inside_quotes :
    (out : List Text) (current w rest : Text)
    → any (λ d. d == 0x22) w ≡ false
    → parse_from out current true (w ++ 0x22 ∷ rest) ≡ parse_from out (current ++ w) false rest
unfolding parse_from
inside_quotes out current [] rest h =
    ap (λ t. parse_from out t false rest) (sym (append-nil current))
inside_quotes out current (c ∷ w) rest h =
    let plain : (c == 0x22) ≡ false = ground arith in
    let others : any (λ d. d == 0x22) w ≡ false = ground arith in
    rw plain (
      inside_quotes out (current ++ c ∷ []) w rest others
      ∙ ap (λ t. parse_from out t false rest) (append_assoc current (c ∷ []) w))

flush_word : (w : Text) (out : List Text) → Quotable w → flush w out ≡ out ++ w ∷ []
unfolding flush
flush_word [] out h = absurd h
flush_word (c ∷ w) out h = refl

free_of_quotes : (w : Text) → Quotable w → any (λ d. d == 0x22) w ≡ false
free_of_quotes [] h = absurd h
free_of_quotes (c ∷ w) h = h

parse_from-quoted :
    (out ws : List Text) → All Quotable ws → parse_from out [] false (quoted ws) ≡ out ++ ws
unfolding parse_from quoted flush
parse_from-quoted out [] h = sym (append-nil out)
parse_from-quoted out (w ∷ []) h =
    inside_quotes out [] w [] (free_of_quotes w h.0) ∙ flush_word w out h.0
parse_from-quoted out (w ∷ v ∷ ws) h =
    inside_quotes out [] w (0x20 ∷ quoted (v ∷ ws)) (free_of_quotes w h.0)
    ∙ (ap (λ o. parse_from o [] false (quoted (v ∷ ws))) (flush_word w out h.0)
        ∙ (parse_from-quoted (out ++ w ∷ []) (v ∷ ws) h.1 ∙ append_assoc out (w ∷ []) (v ∷ ws)))

-- Words that are not empty and have no quote come back from ParseArguments when they are written in double
-- quotes with blanks between them, if TrimSpace leaves this text as it is.
pub parse_arguments-quoted :
    (trim_space : Text → Text) (ws : List Text)
    → trim_space (quoted ws) ≡ quoted ws
    → All Quotable ws
    → parse_arguments trim_space (quoted ws) ≡ ws
unfolding parse_arguments
parse_arguments-quoted trim_space ws h q = rw h (parse_from-quoted [] ws q)
