-- ===== src/Effort/Legal.antt =====
-- Which values can reach a provider.
use foxharness.Prelude.{
  String, Bool, true, false, List, Option, some, none, if◌then◌else◌, str_eq, any, ◌≡◌, refl, ◌∙◌,
  Bool-cases, inl, inr,
}
use foxharness.Effort.{
  Checked, value, unsupported, invalid, options_for_protocol, validate, among, explicit,
  explicit_for_provider,
}

module _ (normalize : String → String) (is_blank : String → Bool) where
  -- A value that stands among the options of a protocol.
  abbrev pub Offered : String → String → Type 0
  Offered protocol v =
      (options : List String) × (options_for_protocol normalize is_blank protocol ≡ some options)
      × (any (λ option. str_eq v option) options ≡ true)

  among-Offered :
      (protocol p v w : String) (found : Option (List String))
      → options_for_protocol normalize is_blank protocol ≡ found
      → among normalize is_blank p v found ≡ value w
      → Offered protocol w
  among-Offered protocol p v w none q h = absurd cc
  among-Offered protocol p v w (some options) q h =
      by_test (any (λ option. str_eq v option) options) refl h
    where
      by_test :
          (b : Bool)
          → any (λ option. str_eq v option) options ≡ b
          → (if b then value v else invalid v p) ≡ value w
          → Offered protocol w
      by_test true t e = let same : v ≡ w = cc in rw (← same) (options, q, t)
      by_test false t e = absurd cc

  validate-Offered :
      (protocol v w : String)
      → validate normalize is_blank protocol v ≡ value w
      → Offered protocol w
  unfolding validate options_for_protocol
  validate-Offered protocol v w h = among-Offered protocol _ _ w _ refl h

  -- A value that ExplicitForProvider gives and that is not empty is one of the options of the protocol, and
  -- not "auto".
  pub explicit_for_provider-Offered :
      (protocol v w : String)
      → explicit_for_provider normalize is_blank protocol v ≡ value w
      → str_eq w "" ≡ false
      → Offered protocol w × (str_eq w "auto" ≡ false)
  unfolding explicit_for_provider
  explicit_for_provider-Offered protocol v w h n =
      checked (validate normalize is_blank protocol v) refl h
    where
      checked :
          (r : Checked)
          → validate normalize is_blank protocol v ≡ r
          → explicit normalize is_blank r ≡ value w
          → Offered protocol w × (str_eq w "auto" ≡ false)
      checked (value x) q e = elim (Bool-cases (str_eq x "auto")) [
        | inl b ↦
            let blank : value "" ≡ value w = rw b at e in
            let same : "" ≡ w = cc in let no : str_eq "" "" ≡ false = rw (← same) at n in absurd cc
        | inr b ↦
            let whole : value x ≡ value w = rw b at e in
            let same : x ≡ w = cc in (validate-Offered protocol v w (q ∙ whole), rw (← same) b)
      ]
      checked (unsupported p) q e = absurd cc
      checked (invalid x p) q e = absurd cc
