-- ===== src/Common/Dict/Entries.antt =====
-- A property of every entry of a dict, under reads and writes.
use mathlib.Core.Path.{◌≡◌}
use mathlib.Core.Bool.{Bool, true, false}
use mathlib.Core.Logic.{ite}
use mathlib.Core.List.{[], ◌∷◌}
use mathlib.Core.Option.{some}
use native.Mathlib.Omega.{arith}
use fail2ban.Common.Tests.{if◌then◌else◌}
use fail2ban.Common.Lists.{keep}
use fail2ban.Common.Dict.{Key, Dict, lookup, insert, erase, Distinct}

module _ {κ μ} {K : Type 0} {V : Type κ} where
  abbrev pub Entries : (K → V → Type μ) → Dict K V → Type μ
  Entries P [] = Unit
  Entries P (e ∷ d) = P e.0 e.1 × Entries P d

  pub Entries-map :
      (P : K → V → Type μ) (Q : K → V → Type μ) (f : (k : K) (v : V) → P k v → Q k v) (d : Dict K V)
      → Entries P d
      → Entries Q d
  Entries-map P Q f [] h = tt
  Entries-map P Q f (e ∷ d) h = (f e.0 e.1 h.0, Entries-map P Q f d h.1)

  -- Two properties of all entries are one.
  pub Entries-× :
      (P : K → V → Type μ) (Q : K → V → Type μ) (d : Dict K V)
      → Entries P d
      → Entries Q d
      → Entries (λ k v. P k v × Q k v) d
  Entries-× P Q [] h g = tt
  Entries-× P Q (e ∷ d) h g = ((h.0, g.0), Entries-× P Q d h.1 g.1)

module _ {κ μ} {K : Type 0} {V : Type κ} ⦃key : Key K⦄ (P : K → V → Type μ) where
  pub lookup-Entries : (k : K) (v : V) (d : Dict K V) → Entries P d → lookup k d ≡ some v → P k v
  lookup-Entries k v [] h found = absurd (cc)
  lookup-Entries k v (e ∷ d) h found = elim (key.same k e.0) [
    | yes here ↦ let value : e.1 ≡ v = ground arith in rw (here, ← value) h.0
    | no other ↦ lookup-Entries k v d h.1 (ground arith)
  ]

  pub insert-Entries :
      (k : K) (v : V) (d : Dict K V) → P k v → Entries P d → Entries P (insert k v d)
  insert-Entries k v [] p h = (p, tt)
  insert-Entries k v (e ∷ d) p h =
      elim (key.same k e.0) as (λ b. Entries P (ite b ((k, v) ∷ d) (e ∷ insert k v d))) [
        | yes same ↦ (p, h.1)
        | no other ↦ (h.0, insert-Entries k v d p h.1)
      ]

  pub erase-Entries : (k : K) (d : Dict K V) → Entries P d → Entries P (erase k d)
  erase-Entries k [] h = tt
  erase-Entries k (e ∷ d) h = elim (key.same k e.0) as (λ b. Entries P (ite b d (e ∷ erase k d))) [
    | yes same ↦ h.1
    | no other ↦ (h.0, erase-Entries k d h.1)
  ]

  pub keep-Entries : (p : K × V → Bool) (d : Dict K V) → Entries P d → Entries P (keep p d)
  keep-Entries p [] h = tt
  keep-Entries p (e ∷ d) h = elim (p e) as (λ b. Entries P (if b then e ∷ keep p d else keep p d)) [
    | true ↦ (h.0, keep-Entries p d h.1)
    | false ↦ keep-Entries p d h.1
  ]

module _ {κ} {K : Type 0} {V : Type κ} ⦃key : Key K⦄ where
  -- Each entry of a dict is what its key finds.
  pub lookup-own : (d : Dict K V) → Distinct d → Entries (λ k v. lookup k d ≡ some v) d
  lookup-own [] h = tt
  lookup-own (e ∷ d) h = (
    ground arith,
    Entries-map (λ k v. lookup k d ≡ some v) (λ k v. lookup k (e ∷ d) ≡ some v)
        (λ k v found. ground arith) d (lookup-own d h.1),
  )
