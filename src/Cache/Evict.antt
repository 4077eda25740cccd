-- ===== src/Cache/Evict.antt =====
-- The size limit of `Utils.Cache` of fail2ban/server/utils.py.
use mathlib.Core.Path.{subst}
use fail2ban.Common.{
  ℕ, ◌+◌, ◌-◌, sym, ◌≤◌, ◌<◌, ◌≡◌, refl, ap, true, false, List, [], ◌∷◌, ◌++◌, ltb, leb,
  if◌then◌else◌, length, arith, All, ◌==◌, inl, inr, Bool-cases, Option-cases, ltb→lt, ◌⊎◌,
}
use fail2ban.Common.Dict.{
  Key, Dict, lookup, insert, erase, Distinct, insert-Distinct, erase-Distinct,
}
use fail2ban.Cache.{Entry, Cache, evict, set, get, unset, clear, set_options}

module _ {ℓ} {K : Type 0} {V : Type ℓ} where
  length-evict :
      (now max_count : ℕ) (d : Dict K (Entry V)) → length (evict now max_count d) ≤ max_count - 1
  unfolding evict
  length-evict now n [] = omega arith
  length-evict now n (e ∷ d) = ground (arith, length-evict now n d)

  evict_stop :
      (now max_count : ℕ) (e : K × Entry V) (d : Dict K (Entry V))
      → now < e.1.expires
      → length d < max_count
      → evict now max_count (e ∷ d) ≡ d
  unfolding evict
  evict_stop now n e d h g = ground arith

  evict_go :
      (now max_count : ℕ) (e : K × Entry V) (d : Dict K (Entry V))
      → e.1.expires ≤ now
      → evict now max_count (e ∷ d) ≡ evict now max_count d
  unfolding evict
  evict_go now n e d h = ground arith

  -- What a cache within its limit loses: its oldest entries, all but the last of them over.
  abbrev pub Removed : ℕ → Dict K (Entry V) → Dict K (Entry V) → Type ℓ
  Removed now d d' =
      (old : Dict K (Entry V)) × (last : K × Entry V) × (d ≡ old ++ (last ∷ d'))
      × All (λ (x : K × Entry V). x.1.expires ≤ now) old

  Removed-head :
      (now : ℕ) (e : K × Entry V) (d d' : Dict K (Entry V)) → d' ≡ d → Removed now (e ∷ d) d'
  Removed-head now e d d' h = ([], e, ap (◌∷◌ e) (sym h), tt)

  pub evict-Removed :
      (now max_count : ℕ) (e : K × Entry V) (d : Dict K (Entry V))
      → length (e ∷ d) ≤ max_count
      → Removed now (e ∷ d) (evict now max_count (e ∷ d))
  unfolding evict
  evict-Removed now n e [] h = Removed-head now e [] _ (ground arith)
  evict-Removed now n e (e' ∷ d) h = elim (Bool-cases (ltb now e.1.expires)) [
    | inl live ↦ Removed-head now e (e' ∷ d) _ (evict_stop now n e (e' ∷ d) (ltb→lt now _ live) h)
    | inr over ↦
        let (old, last, parts, all) = evict-Removed now n e' d (omega arith) in
        subst (Removed now (e ∷ e' ∷ d)) (sym (evict_go now n e (e' ∷ d) (ground arith)))
          (e ∷ old, last, ap (◌∷◌ e) parts, (ground arith, all))
  ]

module _ {ℓ} {K : Type 0} {V : Type ℓ} ⦃key : Key K⦄ where
  length-insert : (k : K) (v : V) (d : Dict K V) → length (insert k v d) ≤ length d + 1
  length-insert k v [] = omega arith
  length-insert k v (e ∷ d) = ground (arith, length-insert k v d)

module _ {ℓ} {K : Type 0} {V : Type ℓ} ⦃key : Key K⦄ where
  -- After any `set` a cache holds at most `max_count` entries, or one where `max_count` is 0,
  -- whatever it held before.
  pub length-set :
      (now : ℕ) (k : K) (v : V) (c : Cache K V)
      → length (set now k v c).entries ≤ (if c.max_count == 0 then 1 else c.max_count)
  unfolding set
  length-set now k v c =
      let e : Entry V = record { value = v; expires = now + c.max_time } in
      ground (
        arith,
        length-evict now c.max_count c.entries,
        length-insert k e c.entries,
        length-insert k e (evict now c.max_count c.entries),
      )

module _ {ℓ} {K : Type 0} {V : Type ℓ} ⦃key : Key K⦄ where
  evict-Distinct :
      (now max_count : ℕ) (d : Dict K (Entry V)) → Distinct d → Distinct (evict now max_count d)
  unfolding evict
  evict-Distinct now n [] h = tt
  evict-Distinct now n (e ∷ d) h = ground (arith, evict-Distinct now n d h.1, h)

  set-Distinct :
      (now : ℕ) (k : K) (v : V) (c : Cache K V)
      → Distinct c.entries
      → Distinct (set now k v c).entries
  unfolding set
  set-Distinct now k v c h =
      let e : Entry V = record { value = v; expires = now + c.max_time } in
      insert-Distinct k e _
        (elim (leb c.max_count (length c.entries))
          as (λ b. Distinct (if b then evict now c.max_count c.entries else c.entries)) [
            | true ↦ evict-Distinct now c.max_count c.entries h
            | false ↦ h
          ])

  length-erase : (k : K) (d : Dict K (Entry V)) → length (erase k d) ≤ length d
  length-erase k [] = omega arith
  length-erase k (e ∷ d) = ground (arith, length-erase k d)

-- A call of a cache, with the time at which it is made
pub data Call {ℓ} (K : Type 0) (V : Type ℓ) : Type ℓ where
  set_call : ℕ → K → V → Call K V
  get_call : ℕ → K → Call K V
  unset_call : K → Call K V
  clear_call : Call K V
  options_call : ℕ → ℕ → Call K V

module _ {ℓ} {K : Type 0} {V : Type ℓ} where
  -- A call that sets no limit of 0, and none above `n`
  abbrev pub IsAllowed : ℕ → Call K V → Type 0
  IsAllowed n (options_call max_count max_time) = (0 < max_count) × (max_count ≤ n)
  IsAllowed n (set_call now k v) = Unit
  IsAllowed n (get_call now k) = Unit
  IsAllowed n (unset_call k) = Unit
  IsAllowed n clear_call = Unit

module _ {ℓ} {K : Type 0} {V : Type ℓ} ⦃key : Key K⦄ where
  abbrev pub call : Call K V → Cache K V → Cache K V
  call (set_call now k v) c = set now k v c
  call (get_call now k) c = (get now k c).1
  call (unset_call k) c = unset k c
  call clear_call c = clear c
  call (options_call max_count max_time) c = set_options max_count max_time c

  abbrev pub calls : List (Call K V) → Cache K V → Cache K V
  calls [] c = c
  calls (x ∷ xs) c = calls xs (call x c)

  pub record IsWithin (n : ℕ) (c : Cache K V) : Type ℓ where
    pub positive : 0 < c.max_count
    pub limited : c.max_count ≤ n
    pub distinct : Distinct c.entries
    pub small : length c.entries ≤ n

  get-unset :
      (now : ℕ) (k : K) (c : Cache K V) → ((get now k c).1 ≡ c) ⊎ ((get now k c).1 ≡ unset k c)
  unfolding get
  get-unset now k c = elim (Option-cases (lookup k c.entries)) [
    | inl missing ↦ inl (rw (get, missing) refl)
    | inr (e, found) ↦ elim (Bool-cases (ltb now e.expires)) [
      | inl valid ↦ inl (rw (get, found, valid) refl)
      | inr over ↦ inr (rw (get, found, over) refl)
    ]
  ]

  unset-IsWithin : (n : ℕ) (k : K) (c : Cache K V) → IsWithin n c → IsWithin n (unset k c)
  unfolding unset
  unset-IsWithin n k c h = record {
    positive = h.positive;
    limited = h.limited;
    distinct = erase-Distinct k c.entries h.distinct;
    small = omega (arith, length-erase k c.entries, h.small);
  }

  -- A `set` brings a cache within the limit that it has then.
  set_small :
      (now : ℕ) (k : K) (v : V) (c : Cache K V)
      → 0 < c.max_count
      → length (set now k v c).entries ≤ c.max_count
  set_small now k v c h = ground (arith, length-set now k v c, h)

  call-IsWithin :
      (n : ℕ) (x : Call K V) (c : Cache K V) → IsAllowed n x → IsWithin n c → IsWithin n (call x c)
  unfolding set clear set_options
  call-IsWithin n (set_call now k v) c p h = record {
    positive = h.positive;
    limited = h.limited;
    distinct = set-Distinct now k v c h.distinct;
    small = omega (arith, set_small now k v c h.positive, h.limited);
  }
  call-IsWithin n (get_call now k) c p h = elim (get-unset now k c) [
    | inl same ↦ subst (IsWithin n) (sym same) h
    | inr less ↦ subst (IsWithin n) (sym less) (unset-IsWithin n k c h)
  ]
  call-IsWithin n (unset_call k) c p h = unset-IsWithin n k c h
  call-IsWithin n clear_call c p h = record {
    positive = h.positive;
    limited = h.limited;
    distinct = tt;
    small = omega arith;
  }
  call-IsWithin n (options_call max_count max_time) c p h = record {
    positive = p.0;
    limited = p.1;
    distinct = h.distinct;
    small = h.small;
  }

  calls_kept :
      (n : ℕ) (xs : List (Call K V)) (c : Cache K V)
      → All (IsAllowed n) xs
      → IsWithin n c
      → IsWithin n (calls xs c)
  calls_kept n [] c p h = h
  calls_kept n (x ∷ xs) c p h = calls_kept n xs (call x c) p.1 (call-IsWithin n x c p.0 h)

  -- Whatever is called, `setOptions` with limits above 0 and at most `n` included: a cache that begins
  -- with such a limit and within `n` never holds more than `n` entries, and no key twice, and the next
  -- `set` brings it within the limit that it has then.
  pub calls-IsWithin :
      (n : ℕ) (xs : List (Call K V)) (c : Cache K V) (now : ℕ) (k : K) (v : V)
      → All (IsAllowed n) xs
      → IsWithin n c
      → IsWithin n (calls xs c)
        × (length (set now k v (calls xs c)).entries ≤ (calls xs c).max_count)
  calls-IsWithin n xs c now k v p h =
      let within = calls_kept n xs c p h in (within, set_small now k v (calls xs c) within.positive)
