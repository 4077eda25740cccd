-- ===== src/Common/Dict/Sweep.antt =====
-- Deleting the entries that satisfy a test, one by one or by a new dict.
use mathlib.Core.Path.{◌≡◌, refl, ap, sym, ◌∙◌}
use mathlib.Core.Bool.{Bool, true, false, not}
use mathlib.Core.List.{List, [], ◌∷◌}
use mathlib.Core.Logic.{◌≢◌, inl, inr, if_neg}
use mathlib.Core.Option.{none}
use native.Mathlib.Omega.{arith}
use fail2ban.Common.Tests.{if◌then◌else◌, Bool-cases}
use fail2ban.Common.Lists.{keep, length, length-keep-le}
use fail2ban.Common.Dict.{
  Key, Dict, keys, contains, lookup, erase, erase-Distinct, erase_all, Distinct,
}

module _ {K : Type 0} where
  abbrev pub IsAbsent : K → List K → Type 0
  IsAbsent k [] = Unit {0}
  IsAbsent k (j ∷ js) = (j ≢ k) × IsAbsent k js

module _ {κ} {K : Type 0} {V : Type κ} ⦃key : Key K⦄ where
  pub lookup-keep-none :
      (k : K) (p : K × V → Bool) (d : Dict K V) → lookup k d ≡ none → lookup k (keep p d) ≡ none
  lookup-keep-none k p [] h = refl
  lookup-keep-none k p (e ∷ d) h = ground (arith, lookup-keep-none k p d)

  pub keep-Distinct : (p : K × V → Bool) (d : Dict K V) → Distinct d → Distinct (keep p d)
  keep-Distinct p [] h = tt
  keep-Distinct p (e ∷ d) h = ground (arith, keep-Distinct p d h.1, lookup-keep-none e.0 p d)

  pub erase_all-nil : (ks : List K) → erase_all {V = V} ks [] ≡ []
  erase_all-nil [] = refl
  erase_all-nil (k ∷ ks) = erase_all-nil ks

  pub erase-head : (e : K × V) (d : Dict K V) → erase e.0 (e ∷ d) ≡ d
  erase-head e d = ground arith

  erase_all-cons :
      (ks : List K) (e : K × V) (d : Dict K V)
      → IsAbsent e.0 ks
      → erase_all ks (e ∷ d) ≡ e ∷ erase_all ks d
  erase_all-cons [] e d h = refl
  erase_all-cons (k ∷ ks) e d h = elim (key.same k e.0) [
    | yes found ↦ absurd (h.0 found)
    | no other ↦ rw (if_neg _ other) (erase_all-cons ks e (erase k d) h.1)
  ]

  pub IsAbsent-keys-keep :
      (k : K) (p : K × V → Bool) (d : Dict K V) → lookup k d ≡ none → IsAbsent k (keys (keep p d))
  IsAbsent-keys-keep k p [] h = tt
  IsAbsent-keys-keep k p (e ∷ d) h =
      let other : e.0 ≢ k = ground arith in
      let rest : lookup k d ≡ none = ground arith in
      elim (p e) as (λ b. IsAbsent k (keys (if b then e ∷ keep p d else keep p d))) [
        | true ↦ (other, IsAbsent-keys-keep k p d rest)
        | false ↦ IsAbsent-keys-keep k p d rest
      ]

  module _ (p q : K × V → Bool) (opposite : (e : K × V) → q e ≡ not (p e)) where
    -- Deleting the chosen keys one by one leaves what a new dict of the others holds.
    pub erase_all-keep : (d : Dict K V) → Distinct d → erase_all (keys (keep p d)) d ≡ keep q d
    erase_all-keep [] h = refl
    erase_all-keep (e ∷ d) h = elim (Bool-cases (p e)) [
      | inl chosen ↦
          rw (opposite, chosen)
            (ap (erase_all (keys (keep p d))) (erase-head e d) ∙ erase_all-keep d h.1)
      | inr kept ↦
          rw (opposite, kept)
            (erase_all-cons (keys (keep p d)) e d (IsAbsent-keys-keep e.0 p d h.0)
              ∙ ap (◌∷◌ e) (erase_all-keep d h.1))
    ]

    pub keep_all : (d : Dict K V) → length (keep p d) ≡ length d → keep q d ≡ []
    keep_all [] h = refl
    keep_all (e ∷ d) h = ground (arith, opposite e, keep_all d, length-keep-le p d)

    pub keep_nothing : (d : Dict K V) → length (keep p d) ≡ 0 → keep q d ≡ d
    keep_nothing [] h = refl
    keep_nothing (e ∷ d) h = ground (arith, opposite e, keep_nothing d)

module _ {κ} {K : Type 0} {V : Type κ} ⦃key : Key K⦄ where
  keep_out_absent :
      (u : K × V) (us d : Dict K V)
      → lookup u.0 d ≡ none
      → keep (λ e. not (contains e.0 us)) d ≡ keep (λ e. not (contains e.0 (u ∷ us))) d
  keep_out_absent u us [] h = refl
  keep_out_absent u us (e ∷ d) h = ground (arith, keep_out_absent u us d)

  keep_out-erase :
      (u : K × V) (us d : Dict K V)
      → Distinct d
      → keep (λ e. not (contains e.0 us)) (erase u.0 d) ≡ keep (λ e. not (contains e.0 (u ∷ us))) d
  keep_out-erase u us [] h = refl
  keep_out-erase u us (e ∷ d) h = ground (arith, keep_out-erase u us d h.1, keep_out_absent u us d)

  pub keep-true : (d : Dict K V) → keep (λ e. true) d ≡ d
  keep-true [] = refl
  keep-true (e ∷ d) = ap (◌∷◌ e) (keep-true d)

  -- Deleting the keys of a dict one by one leaves what a new dict of the other keys holds.
  pub erase_all-keys :
      (us d : Dict K V) → Distinct d → erase_all (keys us) d ≡ keep (λ e. not (contains e.0 us)) d
  erase_all-keys [] d h = sym (keep-true d)
  erase_all-keys (u ∷ us) d h =
      erase_all-keys us (erase u.0 d) (erase-Distinct u.0 d h) ∙ keep_out-erase u us d h

module _ {κ μ} {K : Type 0} {V : Type κ} {W : Type μ} ⦃key : Key K⦄ where
  -- A dict without the ids of another
  pub contains-keep :
      (j : K) (gone : Dict K W) (d : Dict K V)
      → contains j (keep (λ e. not (contains e.0 gone)) d)
        ≡ (if contains j gone then false else contains j d)
  contains-keep j gone [] = ground arith
  contains-keep j gone (e ∷ d) = elim (key.same j e.0) [
    | yes same ↦ elim (Bool-cases (contains e.0 gone)) [
      | inl out ↦ rw same (ground (arith, out, contains-keep e.0 gone d))
      | inr stays ↦ rw same (ground (arith, stays))
    ]
    | no other ↦ ground (arith, contains-keep j gone d)
  ]
