-- ===== src/Cache.antt =====
-- `Utils.Cache` of fail2ban/server/utils.py: a dict with a time to live and a limit on its size. The
-- lock makes each operation one step; `now` is what `time.time()` returns in it.
pub mod Evict
pub mod Reads
use fail2ban.Common.{
  ℕ, ◌+◌, Bool, true, false, ◌&&◌, Option, none, some, List, [], ◌∷◌, ltb, leb, if◌then◌else◌,
  length,
}
use fail2ban.Common.Dict.{Key, Dict, lookup, insert, erase}

-- A cached value, and the time until which it is valid.
pub record Entry {ℓ} (V : Type ℓ) : Type ℓ where
  pub value : V
  pub expires : ℕ

pub record Cache {ℓ} (K : Type 0) (V : Type ℓ) : Type ℓ where
  pub entries : Dict K (Entry V)
  pub max_count : ℕ
  pub max_time : ℕ

module _ {ℓ} {K : Type 0} {V : Type ℓ} where
  -- `Cache(maxCount, maxTime)`
  unfoldable pub new_cache : ℕ → ℕ → Cache K V
  new_cache max_count max_time = record { entries = []; max_count = max_count; max_time = max_time }

  -- `setOptions` of a cache in use
  unfoldable pub set_options : ℕ → ℕ → Cache K V → Cache K V
  set_options max_count max_time c = record c { max_count = max_count; max_time = max_time }

  -- The loop of `set` that removes from ahead
  unfoldable pub evict : ℕ → ℕ → Dict K (Entry V) → Dict K (Entry V)
  evict now max_count [] = []
  evict now max_count (e ∷ d) =
      if ltb now e.1.expires && ltb (length d) max_count then d else evict now max_count d

  unfoldable pub clear : Cache K V → Cache K V
  clear c = record c { entries = [] }

module _ {ℓ} {K : Type 0} {V : Type ℓ} ⦃key : Key K⦄ where
  unfoldable pub unset : K → Cache K V → Cache K V
  unset k c = record c { entries = erase k c.entries }

  -- `get`; `none` is the default of the caller.
  unfoldable pub get : ℕ → K → Cache K V → Option V × Cache K V
  unfolding unset
  get now k c = elim (lookup k c.entries) [
    | none ↦ (none, c)
    | some e ↦ if ltb now e.expires then (some e.value, c) else (none, unset k c)
  ]

  unfoldable pub set : ℕ → K → V → Cache K V → Cache K V
  unfolding evict
  set now k v c =
      let cleaned =
        if leb c.max_count (length c.entries) then evict now c.max_count c.entries else c.entries in
      record c { entries = insert k (record { value = v; expires = now + c.max_time }) cleaned }
