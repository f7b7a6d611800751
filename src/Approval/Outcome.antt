-- ===== src/Approval/Outcome.antt =====
-- What a waiter is told.
use foxharness.Prelude.{
  subst, ℕ, String, Bool, true, false, List, [], ◌∷◌, Option, some, none, if◌then◌else◌, ◌==◌,
  str_eq, eq_iff, eq_refl, ◌≡◌, refl, ap, sym, ◌∙◌, arith, Bool-cases, inl, inr,
}
use foxharness.Dict.{lookup, lookup-put, lookup-delete}
use foxharness.Approval.{
  Decision, Answer, Pending, Store, register, register_in, resolve, resolve_in, finish, finish_in,
  or_fallback,
}

-- The steps of others.
pub data Step : Type 0 where
  registers : String → Step
  resolves : String → Decision → Step
  finishes : String → ℕ → Answer → Step

unfoldable pub perform : Step → Store → Store
perform (registers id) s = (register id s).1
perform (resolves id d) s = (resolve id d s).1
perform (finishes id identity fallback) s = (finish id identity fallback s).1

unfoldable pub perform_all : List Step → Store → Store
unfolding perform
perform_all [] s = s
perform_all (x ∷ xs) s = perform_all xs (perform x s)

-- The first decision on an approval among some steps.
abbrev pub first_decision : String → List Step → Option Decision
first_decision id [] = none
first_decision id (resolves j d ∷ xs) =
    let later = first_decision id xs in if str_eq j id then some d else later
first_decision id (registers j ∷ xs) = first_decision id xs
first_decision id (finishes j i fallback ∷ xs) = first_decision id xs

abbrev pub or_later : Option Decision → Option Decision → Option Decision
or_later (some d) later = some d
or_later none later = later

-- Steps none of which is the end of the given waiter.
abbrev pub Others : ℕ → List Step → Type 0
Others identity [] = Unit
Others identity (finishes j i fallback ∷ xs) = ((i == identity) ≡ false) × Others identity xs
Others identity (registers j ∷ xs) = Others identity xs
Others identity (resolves j d ∷ xs) = Others identity xs

abbrev Holds : String → ℕ → Option Decision → Store → Type 0
Holds id identity found s =
    lookup id s.waiting ≡ some (record { identity = identity; result = found })

register-Holds :
    (id j : String) (identity : ℕ) (found : Option Decision) (s : Store)
    → Holds id identity found s
    → Holds id identity found (register j s).1
unfolding register
register-Holds id j identity found s h = in_case (lookup j s.waiting) refl
  where
    in_case :
        (p : Option Pending)
        → lookup j s.waiting ≡ p
        → Holds id identity found (register_in j s p).1
    in_case (some p) q = h
    in_case none q = elim (Bool-cases (str_eq j id)) [
      | inl b ↦
          let same : j ≡ id = ground (arith, eq_iff j id) in
          let absent : lookup id s.waiting ≡ none = rw same at q in absurd cc
      | inr b ↦ rw (lookup-put j id (record { identity = s.issued; result = none }) s.waiting, b) h
    ]

or_later-none : (found : Option Decision) → or_later found none ≡ found
or_later-none (some d) = refl
or_later-none none = refl

resolve-other :
    (id j : String) (d : Decision) (identity : ℕ) (found : Option Decision) (s : Store)
    → str_eq j id ≡ false
    → Holds id identity found s
    → (p : Option Pending) → Holds id identity found (resolve_in j d s p).1
resolve-other id j d identity found s b h none = h
resolve-other id j d identity found s b h (some p) = in_case p.result
  where
    in_case :
        (r : Option Decision)
        → Holds id identity found (resolve_in j d s (some (record p { result = r }))).1
    in_case (some earlier) = h
    in_case none = rw (lookup-put j id (record p { result = some d }) s.waiting, b) h

resolve-own :
    (id : String) (d : Decision) (identity : ℕ) (found : Option Decision) (s : Store)
    → Holds id identity found s
    → Holds id identity (or_later found (some d)) (resolve id d s).1
unfolding resolve
resolve-own id d identity (some e) s h = rw h h
resolve-own id d identity none s h =
    rw (h, lookup-put id id (record { identity = identity; result = some d }) s.waiting, eq_refl id)
      refl

resolve-Holds :
    (id j : String) (d : Decision) (identity : ℕ) (found : Option Decision) (s : Store)
    → Holds id identity found s
    → Holds id identity (or_later found (if str_eq j id then some d else none)) (resolve j d s).1
unfolding resolve
resolve-Holds id j d identity found s h = elim (Bool-cases (str_eq j id)) [
  | inl b ↦
      let same : j ≡ id = ground (arith, eq_iff j id) in
      rw (b, same) (resolve-own id d identity found s h)
  | inr b ↦
      rw (b, or_later-none found) (resolve-other id j d identity found s b h (lookup j s.waiting))
]

finish-Holds :
    (id j : String) (i identity : ℕ) (fallback : Answer) (found : Option Decision) (s : Store)
    → (i == identity) ≡ false
    → Holds id identity found s
    → Holds id identity found (finish j i fallback s).1
unfolding finish
finish-Holds id j i identity fallback found s n h = in_case (lookup j s.waiting) refl
  where
    in_case :
        (p : Option Pending)
        → lookup j s.waiting ≡ p
        → Holds id identity found (finish_in j i fallback s p).1
    in_case none q = h
    in_case (some p) q = elim (Bool-cases (p.identity == i)) [
      | inr e ↦ rw e h
      | inl e ↦ rw e (elim (Bool-cases (str_eq j id)) [
        | inr b ↦ rw (lookup-delete j id s.waiting, b) h
        | inl b ↦
            let same : j ≡ id = ground (arith, eq_iff j id) in
            let mine : lookup id s.waiting ≡ some p = rw same at q in
            let whole : some (record { identity = identity; result = found }) ≡ some p =
              sym h ∙ mine in
            let one : record { identity = identity; result = found } ≡ p = cc in
            let number : identity ≡ p.identity = ap (λ x. x.identity) one in absurd (ground arith)
      ])
    ]

or_later-if :
    (found : Option Decision) (b : Bool) (d : Decision) (later : Option Decision)
    → or_later (or_later found (if b then some d else none)) later
      ≡ or_later found (if b then some d else later)
or_later-if (some e) b d later = refl
or_later-if none true d later = refl
or_later-if none false d later = refl

perform_all-Holds :
    (xs : List Step) (id : String) (identity : ℕ) (found : Option Decision) (s : Store)
    → Others identity xs
    → Holds id identity found s
    → Holds id identity (or_later found (first_decision id xs)) (perform_all xs s)
unfolding perform_all perform
perform_all-Holds [] id identity found s o h = rw (or_later-none found) h
perform_all-Holds (registers j ∷ xs) id identity found s o h =
    perform_all-Holds xs id identity found _ o (register-Holds id j identity found s h)
perform_all-Holds (finishes j i fallback ∷ xs) id identity found s o h =
    perform_all-Holds xs id identity found _ o.1
      (finish-Holds id j i identity fallback found s o.0 h)
perform_all-Holds (resolves j d ∷ xs) id identity found s o h =
    subst (λ r. Holds id identity r (perform_all xs (resolve j d s).1))
      (or_later-if found (str_eq j id) d (first_decision id xs))
      (perform_all-Holds xs id identity _ _ o (resolve-Holds id j d identity found s h))

registered_new :
    (id : String) (s : Store) (p : Option Pending)
    → (register_in id s p).0 ≡ none
    → Holds id s.issued none (register_in id s p).1
registered_new id s (some p) h = absurd cc
registered_new id s none h =
    rw (lookup-put id id (record { identity = s.issued; result = none }) s.waiting, eq_refl id) refl

finish-own :
    (id : String) (identity : ℕ) (fallback : Answer) (found : Option Decision) (s : Store)
    → Holds id identity found s
    → let (answer, s') = finish id identity fallback s in
      (answer ≡ or_fallback fallback found) × (lookup id s'.waiting ≡ none)
unfolding finish
finish-own id identity fallback found s h =
    let own : (identity == identity) ≡ true = ground arith in
    rw (h, own) (refl, rw (lookup-delete id id s.waiting, eq_refl id) refl)

-- A waiter whose approval was registered is told the first decision that is made on it, whatever else is
-- registered, decided or finished in between, and even if its select fell back to a timeout or an error; only
-- without a decision it gets what it fell back to. Its record is gone afterwards.
pub finish-first_decision :
    (id : String) (s : Store) (xs : List Step) (fallback : Answer)
    → (register id s).0 ≡ none
    → Others s.issued xs
    → let (answer, s') = finish id s.issued fallback (perform_all xs (register id s).1) in
      (answer ≡ or_fallback fallback (first_decision id xs)) × (lookup id s'.waiting ≡ none)
unfolding register
finish-first_decision id s xs fallback r o =
    finish-own id s.issued fallback (first_decision id xs) (perform_all xs (register id s).1) (
      perform_all-Holds xs id s.issued none (register id s).1 o
        (registered_new id s (lookup id s.waiting) r))
