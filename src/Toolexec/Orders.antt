-- ===== src/Toolexec/Orders.antt =====
-- Orders of steps, steps with different slots, and the writes to slots.
use foxharness.Prelude.{
  ℕ, zero, suc, ◌+◌, ◌<◌, false, List, [], ◌∷◌, ◌++◌, length, All, ◌==◌, ◌≡◌, refl, ap, ◌∙◌, arith,
}
use foxharness.Schema.{ToolCall}
use foxharness.Engine.Types.{ToolExecutionResult}
use foxharness.Toolexec.{Slots, write, Step, numbered}

-- An order in which steps can come: any of them first, then the rest in some order.
pub data Ordering : List Step → List Step → Type 0 where
  done : Ordering [] []
  pick :
      (a : List Step) (x : Step) (b rest : List Step)
      → Ordering (a ++ b) rest
      → Ordering (a ++ x ∷ b) (x ∷ rest)

abbrev pub Elsewhere : ℕ → List Step → Type 0
Elsewhere i l = All (λ y. (i == y.0) ≡ false) l

-- Steps with different slots.
abbrev pub Apart : List Step → Type 0
Apart [] = Unit
Apart (x ∷ l) = Elsewhere x.0 l × Apart l

pub numbered-Elsewhere : (i k : ℕ) (calls : List ToolCall) → i < k → Elsewhere i (numbered k calls)
numbered-Elsewhere i k [] h = tt
numbered-Elsewhere i k (call ∷ calls) h =
    (ground arith, numbered-Elsewhere i (k + 1) calls (omega arith))

pub numbered-Apart : (k : ℕ) (calls : List ToolCall) → Apart (numbered k calls)
numbered-Apart k [] = tt
numbered-Apart k (call ∷ calls) =
    (numbered-Elsewhere k (k + 1) calls (omega arith), numbered-Apart (k + 1) calls)

module _ (P : Step → Type 0) where
  pub All-remove :
      (a : List Step) (x : Step) (b : List Step) → All P (a ++ x ∷ b) → P x × All P (a ++ b)
  All-remove [] x b h = h
  All-remove (y ∷ a) x b h = let (p, rest) = All-remove a x b h.1 in (p, (h.0, rest))

  pub All-front : (a b : List Step) → All P (a ++ b) → All P a
  All-front [] b h = tt
  All-front (y ∷ a) b h = (h.0, All-front a b h.1)

pub Apart-remove :
    (a : List Step) (x : Step) (b : List Step)
    → Apart (a ++ x ∷ b)
    → Apart (a ++ b) × Elsewhere x.0 a
Apart-remove [] x b h = (h.1, tt)
Apart-remove (y ∷ a) x b h =
    let (apart, elsewhere) = Apart-remove a x b h.1 in
    let (other, rest) = All-remove (λ z. (y.0 == z.0) ≡ false) a x b h.0 in
    ((rest, apart), (ground arith, elsewhere))

pub write-write :
    (i j : ℕ) (r q : ToolExecutionResult) (slots : Slots)
    → (i == j) ≡ false
    → write i r (write j q slots) ≡ write j q (write i r slots)
write-write i j r q [] h = refl
write-write zero zero r q (old ∷ slots) h = absurd (ground arith)
write-write zero (suc j) r q (old ∷ slots) h = refl
write-write (suc i) zero r q (old ∷ slots) h = refl
write-write (suc i) (suc j) r q (old ∷ slots) h =
    ap (◌∷◌ old) (write-write i j r q slots (ground arith))

pub numbered-append :
    (k : ℕ) (a b : List ToolCall) → numbered k (a ++ b) ≡ numbered k a ++ numbered (k + length a) b
numbered-append k [] b = let q : k ≡ k + 0 = omega arith in ap (λ n. numbered n b) q
numbered-append k (call ∷ a) b =
    let q : k + 1 + length a ≡ k + suc (length a) = omega arith in
    ap (λ l. (k, call) ∷ l)
      (numbered-append (k + 1) a b ∙ ap (λ n. numbered (k + 1) a ++ numbered n b) q)

-- The slots that a prefix of the calls has filled.
pub write-append :
    (filled : Slots) (r old : ToolExecutionResult) (slots : Slots)
    → write (length filled) r (filled ++ old ∷ slots) ≡ filled ++ r ∷ slots
write-append [] r old slots = refl
write-append (q ∷ filled) r old slots = ap (◌∷◌ q) (write-append filled r old slots)
