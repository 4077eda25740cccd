-- ===== src/Common/Dict.antt =====
-- A Python dict in insertion order, over keys with a decidable equality (`__eq__` with `__hash__`).
pub mod Entries
pub mod Sweep
use mathlib.Core.Path.{◌≡◌, refl}
use mathlib.Core.Bool.{Bool, true, false}
use mathlib.Core.List.{List, [], ◌∷◌, map}
use mathlib.Core.Logic.{◌≢◌, ite}
use mathlib.Core.Option.{Option, none, some}
use native.Mathlib.Omega.{arith}

-- What a dict asks of its keys.
pub record Key (K : Type 0) : Type 0 where
  pub same : Discrete K

abbrev pub Dict {κ} : Type 0 → Type κ → Type κ
Dict K V = List (K × V)

module _ {κ} {K : Type 0} {V : Type κ} where
  -- `d.values()`
  abbrev pub values : Dict K V → List V
  values = map (λ e. e.1)

  -- `d.keys()`
  abbrev pub keys : Dict K V → List K
  keys = map (λ e. e.0)

module _ {κ} {K : Type 0} {V : Type κ} ⦃key : Key K⦄ where
  -- `m.get(k)`
  abbrev pub lookup : K → Dict K V → Option V
  lookup k [] = none
  lookup k (e ∷ m) = ite (key.same k e.0) (some e.1) (lookup k m)

  -- `k in m`
  abbrev pub contains : K → Dict K V → Bool
  contains k m = elim (lookup k m) [ none ↦ false | some _ ↦ true ]

  -- `m[k] = v`
  abbrev pub insert : K → V → Dict K V → Dict K V
  insert k v [] = (k, v) ∷ []
  insert k v (e ∷ m) = ite (key.same k e.0) ((k, v) ∷ m) (e ∷ insert k v m)

  -- `del m[k]` of a key that is there, `m.pop(k, None)` otherwise
  abbrev pub erase : K → Dict K V → Dict K V
  erase k [] = []
  erase k (e ∷ m) = ite (key.same k e.0) m (e ∷ erase k m)

  -- `for k in ks: del m[k]`
  abbrev pub erase_all : List K → Dict K V → Dict K V
  erase_all [] m = m
  erase_all (k ∷ ks) m = erase_all ks (erase k m)

  -- No key stands twice.
  abbrev pub Distinct : Dict K V → Type κ
  Distinct [] = Unit
  Distinct (e ∷ m) = (lookup e.0 m ≡ none) × Distinct m

  pub lookup-erase_ne : (j k : K) (m : Dict K V) → j ≢ k → lookup j (erase k m) ≡ lookup j m
  lookup-erase_ne j k [] p = refl
  lookup-erase_ne j k (e ∷ m) p = ground (arith, lookup-erase_ne j k m p)

  pub lookup-erase-none : (j k : K) (m : Dict K V) → lookup j m ≡ none → lookup j (erase k m) ≡ none
  lookup-erase-none j k [] p = refl
  lookup-erase-none j k (e ∷ m) p = ground (arith, lookup-erase-none j k m)

  pub erase-Distinct : (k : K) (m : Dict K V) → Distinct m → Distinct (erase k m)
  erase-Distinct k [] p = tt
  erase-Distinct k (e ∷ m) p = ground (arith, erase-Distinct k m p.1, lookup-erase-none e.0 k m)

  pub lookup-erase_self : (k : K) (m : Dict K V) → Distinct m → lookup k (erase k m) ≡ none
  lookup-erase_self k [] p = refl
  lookup-erase_self k (e ∷ m) p = ground (arith, lookup-erase_self k m p.1)

  pub lookup-insert_self : (k : K) (v : V) (m : Dict K V) → lookup k (insert k v m) ≡ some v
  lookup-insert_self k v [] = ground arith
  lookup-insert_self k v (e ∷ m) = ground (arith, lookup-insert_self k v m)

  pub lookup-insert_ne :
      (j k : K) (v : V) (m : Dict K V) → j ≢ k → lookup j (insert k v m) ≡ lookup j m
  lookup-insert_ne j k v [] p = ground arith
  lookup-insert_ne j k v (e ∷ m) p = ground (arith, lookup-insert_ne j k v m p)

  pub insert-Distinct : (k : K) (v : V) (m : Dict K V) → Distinct m → Distinct (insert k v m)
  insert-Distinct k v [] p = (refl, tt)
  insert-Distinct k v (e ∷ m) p =
      ground (arith, insert-Distinct k v m p.1, lookup-insert_ne e.0 k v m)
