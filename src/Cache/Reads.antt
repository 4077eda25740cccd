-- ===== src/Cache/Reads.antt =====
-- What `get` of fail2ban/server/utils.py returns from a cache after `set`.
use mathlib.Core.Path.{subst}
use fail2ban.Common.{
  ℕ, ◌+◌, ◌≤◌, ◌<◌, ◌≡◌, refl, ap, sym, ◌∙◌, Option, none, some, [], ◌∷◌, ◌++◌, ltb, leb,
  if◌then◌else◌, length, arith, All, ◌≢◌, inl, inr, Bool-cases, Option-cases, ◌⊎◌,
}
use fail2ban.Common.Dict.{Key, Dict, lookup, Distinct, lookup-insert_self, lookup-insert_ne}
use fail2ban.Cache.{Entry, Cache, evict, set, get}
use fail2ban.Cache.Evict.{Removed, evict-Removed}

module _ {ℓ} {V : Type ℓ} where
  -- The entry that a read finds valid
  live : ℕ → Option (Entry V) → Option V
  live now none = none
  live now (some e) = if ltb now e.expires then some e.value else none

  live-some :
      (now : ℕ) (v : V) (o : Option (Entry V))
      → live now o ≡ some v
      → (e : Entry V) × (o ≡ some e) × (now < e.expires) × (e.value ≡ v)
  unfolding live
  live-some now v none h = absurd (cc)
  live-some now v (some e) h = (e, refl, ground arith, ground arith)

module _ {ℓ} {K : Type 0} {V : Type ℓ} ⦃key : Key K⦄ where
  get-live : (now : ℕ) (k : K) (c : Cache K V) → (get now k c).0 ≡ live now (lookup k c.entries)
  unfolding get live
  get-live now k c = ground arith

  -- A value is read back until its time to live is over, and not from then on.
  pub get-set :
      (now now' : ℕ) (k : K) (v : V) (c : Cache K V)
      → (get now' k (set now k v c)).0 ≡ (if ltb now' (now + c.max_time) then some v else none)
  unfolding set live
  get-set now now' k v c =
      let e : Entry V = record { value = v; expires = now + c.max_time } in
      get-live now' k (set now k v c) ∙ ap (live now') (lookup-insert_self k e _)

  lost_last :
      (now : ℕ) (j : K) (old rest : Dict K (Entry V)) (last : K × Entry V) (e : Entry V)
      → All (λ (x : K × Entry V). x.1.expires ≤ now) old
      → lookup j (old ++ (last ∷ rest)) ≡ some e
      → now < e.expires
      → lookup j rest ≡ none
      → j ≡ last.0
  lost_last now j [] rest last e all found live lost = ground arith
  lost_last now j (x ∷ old) rest last e all found live lost =
      let found' : lookup j (old ++ (last ∷ rest)) ≡ some e = ground arith in
      ground (arith, lost_last now j old rest last e all.1 found' live lost)

  get-some :
      (now : ℕ) (k : K) (c : Cache K V) (v : V)
      → (get now k c).0 ≡ some v
      → (e : Entry V) × (lookup k c.entries ≡ some e) × (now < e.expires) × (e.value ≡ v)
  get-some now k c v h = live-some now v (lookup k c.entries) (sym (get-live now k c) ∙ h)

  lookup_after :
      (j : K) (old : Dict K (Entry V)) (last : K × Entry V) (rest : Dict K (Entry V)) (e : Entry V)
      → Distinct (old ++ (last ∷ rest))
      → lookup j rest ≡ some e
      → lookup j (old ++ (last ∷ rest)) ≡ some e
  lookup_after j [] last rest e h found = ground arith
  lookup_after j (x ∷ old) last rest e h found =
      ground (arith, lookup_after j old last rest e h.1 found)

  -- What a key loses when the cache is cleaned: its valid entry is kept, or is the one at `last`.
  kept_or_last :
      (now : ℕ) (d d' : Dict K (Entry V)) (r : Removed now d d') (j : K) (e : Entry V)
      → Distinct d
      → lookup j d ≡ some e
      → now < e.expires
      → (lookup j d' ≡ some e) ⊎ (j ≡ r.1.0)
  kept_or_last now d d' (old, last, parts, all) j e h found valid =
      elim (Option-cases (lookup j d')) [
        | inl lost ↦
            inr (lost_last now j old d' last e all (ap (lookup j) (sym parts) ∙ found) valid lost)
        | inr (e', there) ↦
            let back : lookup j (old ++ (last ∷ d')) ≡ some e' =
              lookup_after j old last d' e' (subst Distinct parts h) there in
            inl (there ∙ sym back ∙ ap (lookup j) (sym parts) ∙ found)
      ]

  get_valid :
      (now : ℕ) (k : K) (c : Cache K V) (e : Entry V)
      → lookup k c.entries ≡ some e
      → now < e.expires
      → (get now k c).0 ≡ some e.value
  unfolding live
  get_valid now k c e found valid = get-live now k c ∙ ap (live now) found ∙ (ground arith)

  -- The first entries that `set` leaves in place: all, or what the removal leaves.
  cleaned : ℕ → Cache K V → Dict K (Entry V)
  cleaned now c =
      if leb c.max_count (length c.entries) then evict now c.max_count c.entries else c.entries

  kept_read :
      (now now' : ℕ) (j k : K) (v : V) (c : Cache K V) (e : Entry V)
      → j ≢ k
      → lookup j (cleaned now c) ≡ some e
      → now' < e.expires
      → (get now' j (set now k v c)).0 ≡ some e.value
  unfolding set cleaned
  kept_read now now' j k v c e ne found valid =
      get_valid now' j (set now k v c) e (lookup-insert_ne j k _ (cleaned now c) ne ∙ found) valid

  module _ (now now' : ℕ) (k : K) (v : V) (c : Cache K V) (distinct : Distinct c.entries)
      (later : now ≤ now') where
    lost_is_last :
        (j : K) (x : V) (r : Removed now c.entries (cleaned now c))
        → j ≢ k
        → (get now' j c).0 ≡ some x
        → (get now' j (set now k v c)).0 ≡ none
        → j ≡ r.1.0
    lost_is_last j x r ne read lost =
        let (e, found, valid, value) = get-some now' j c x read in
        elim (kept_or_last now c.entries (cleaned now c) r j e distinct found (omega arith)) [
          | inl kept ↦ let still = kept_read now now' j k v c e ne kept valid in absurd (cc)
          | inr same ↦ same
        ]

    kept_all :
        (j : K) (x : V)
        → cleaned now c ≡ c.entries
        → j ≢ k
        → (get now' j c).0 ≡ some x
        → (get now' j (set now k v c)).0 ≡ some x
    kept_all j x same ne read =
        let (e, found, valid, value) = get-some now' j c x read in
        kept_read now now' j k v c e ne (ap (lookup j) same ∙ found) valid ∙ ap some value

  evict-cases :
      (now n : ℕ) (d : Dict K (Entry V))
      → length d ≤ n
      → (evict now n d ≡ d) ⊎ Removed now d (evict now n d)
  unfolding evict
  evict-cases now n [] h = inl refl
  evict-cases now n (e ∷ d) h = inr (evict-Removed now n e d h)

  cleaned-cases :
      (now : ℕ) (c : Cache K V)
      → length c.entries ≤ c.max_count
      → (cleaned now c ≡ c.entries) ⊎ Removed now c.entries (cleaned now c)
  unfolding cleaned
  cleaned-cases now c h = elim (Bool-cases (leb c.max_count (length c.entries))) [
    | inl full ↦ rw (full) (evict-cases now c.max_count c.entries h)
    | inr free ↦ inl (rw (free) refl)
  ]

  -- A `set` takes at most one valid entry of another key from a cache that is within its limit: of two
  -- keys that were read before it, at times at which the entries were valid, and are not found after
  -- it, both are the same.
  pub set_loses_one :
      (now now' : ℕ) (i j k : K) (v x y : V) (c : Cache K V)
      → Distinct c.entries
      → length c.entries ≤ c.max_count
      → now ≤ now'
      → i ≢ k
      → j ≢ k
      → (get now' i c).0 ≡ some x
      → (get now' j c).0 ≡ some y
      → (get now' i (set now k v c)).0 ≡ none
      → (get now' j (set now k v c)).0 ≡ none
      → i ≡ j
  set_loses_one now now' i j k v x y c distinct limit later ne ne' read read' lost lost' =
      elim (cleaned-cases now c limit) [
        | inl same ↦
            let still = kept_all now now' k v c distinct later i x same ne read in absurd (cc)
        | inr r ↦
            lost_is_last now now' k v c distinct later i x r ne read lost
            ∙ sym (lost_is_last now now' k v c distinct later j y r ne' read' lost')
      ]

  -- With a free slot, a `set` of one key changes no read of another, at any time.
  pub get-set_other :
      (now now' : ℕ) (j k : K) (v : V) (c : Cache K V)
      → length c.entries < c.max_count
      → j ≢ k
      → (get now' j (set now k v c)).0 ≡ (get now' j c).0
  unfolding set cleaned
  get-set_other now now' j k v c free ne =
      let same : cleaned now c ≡ c.entries = ground arith in
      get-live now' j (set now k v c)
      ∙ ap (live now') (lookup-insert_ne j k _ (cleaned now c) ne ∙ ap (lookup j) same)
      ∙ sym (get-live now' j c)
