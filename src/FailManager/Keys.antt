-- ===== src/FailManager/Keys.antt =====
-- The invariant of the failure list of fail2ban/server/failmanager.py.
use fail2ban.Common.{
  ℕ, ◌≡◌, refl, Bool, Option, none, some, List, [], ◌∷◌, inl, inr, arith, Option-cases, Bool-cases,
  if◌then◌else◌, ltb, All, map, drop, length, ◌-◌,
}
use fail2ban.Common.Int.{ℤ, pos, ◌-ℤ◌, ltb_ℤ, ◌≤ℤ◌}
use fail2ban.Common.Dict.{Key, Distinct, lookup, insert, erase, insert-Distinct, erase-Distinct}
use fail2ban.Common.Dict.Entries.{
  Entries, lookup-Entries, insert-Entries, erase-Entries, keep-Entries,
}
use fail2ban.Common.Dict.Sweep.{keep-Distinct}
use fail2ban.Ticket.{
  Ticket, Line, text, adjust_time, inc, get_matches, set_matches, set_retry, Inc, done, key_error,
}
use fail2ban.Ticket.Rate.{adjust_time_window}
use fail2ban.FailManager.{
  FailManager, add_failure, add_missing, add_known, end_known, count_failure, truncate_matches,
  new_matches, new_attempt, cleanup, del_failure, to_ban, first_to_ban, ban_candidates,
}
use fail2ban.FailManager.Cleanup.{cleanup-keep}
use Prim.Native.String.{String}

-- A ticket under its own id, with its first failure no later than its last.
abbrev pub Owns : {K : Type 0} → K → Ticket K → Type 0
Owns k t = (t.id ≡ k) × (t.first_time ≤ℤ t.time)

-- No id stands twice, and each ticket stands under its own id, with ordered times.
pub record IsValid {K : Type 0} ⦃key : Key K⦄ (m : FailManager K) : Type 0 where
  pub distinct : Distinct m.fail_list
  pub owned : Entries Owns m.fail_list

module _ {K : Type 0} (k : K) where
  Owns-adjust_time : (time : ℤ) (n : ℕ) (t : Ticket K) → Owns k t → Owns k (adjust_time time n t)
  Owns-adjust_time time n t h = elim (Bool-cases (ltb_ℤ t.time time)) [
    | inl later ↦ ground (arith, adjust_time_window time n t h.1)
    | inr same ↦ unfold adjust_time in rw same h
  ]

  -- the ticket that `inc` has written, however it ends
  abbrev ticket_of : Inc K → Ticket K
  ticket_of (done t) = t
  ticket_of (key_error t) = t

  Owns-inc :
      (ms : List String) (a n : ℕ) (t : Ticket K) → Owns k t → Owns k (ticket_of (inc ms a n t))
  unfolding inc
  Owns-inc [] a n t h = h
  Owns-inc (m ∷ ms) a n t h = elim (Option-cases t.matches) [
    | inl missing ↦ rw (missing, inc) h
    | inr (old, found) ↦ rw (found, inc) h
  ]

  Owns-set_matches : (ls : List Line) (t : Ticket K) → Owns k t → Owns k (set_matches ls t)
  unfolding set_matches
  Owns-set_matches [] t h = h
  Owns-set_matches (l ∷ ls) t h = h

  Owns-truncate_matches : (n : ℕ) (t : Ticket K) → Owns k t → Owns k (truncate_matches n t)
  unfolding truncate_matches
  Owns-truncate_matches n t h =
      let ms = get_matches t in
      ground
        (arith, Owns-set_matches [] t h, Owns-set_matches (map text (drop (length ms - n) ms)) t h)

  Owns-set_retry : (n : ℕ) (t : Ticket K) → Owns k t → Owns k (set_retry n t)
  unfolding set_retry
  Owns-set_retry n t h = ground arith

module _ {K : Type 0} ⦃key : Key K⦄ (m : FailManager K) (valid : IsValid m) where
  count_failure-IsValid : (fid : K) (t : Ticket K) → Owns fid t → IsValid (count_failure fid t m).0
  unfolding count_failure
  count_failure-IsValid fid t h = record {
    distinct = insert-Distinct fid t m.fail_list valid.distinct;
    owned = insert-Entries Owns fid t m.fail_list h valid.owned;
  }

module _ {K : Type 0} ⦃key : Key K⦄ where
  add_missing-IsValid :
      (m : FailManager K) (t : Ticket K) (n : ℕ) (b : Bool)
      → IsValid m
      → t.first_time ≤ℤ t.time
      → IsValid (add_missing m t n b).0
  unfolding add_missing
  add_missing-IsValid m t n b valid h =
      let f : Ticket K = if ltb t.failures n then set_retry n t else t in
      let own : Owns t.id f = ground (arith, Owns-set_retry t.id n t (refl, h)) in
      ground (arith, count_failure-IsValid m valid t.id f own)

  end_known-IsValid :
      (m : FailManager K) (t : Ticket K) (n : ℕ) (b : Bool) (r : Inc K)
      → IsValid m
      → t.first_time ≤ℤ t.time
      → Owns t.id (ticket_of t.id r)
      → IsValid (end_known m t n b r).0
  unfolding end_known
  end_known-IsValid m t n b (done f) valid h own =
      count_failure-IsValid m valid t.id (truncate_matches m.max_matches f)
        (Owns-truncate_matches t.id m.max_matches f own)
  end_known-IsValid m t n b (key_error f) valid h own =
      add_missing-IsValid (record m { fail_list = insert t.id f m.fail_list }) t n b
        (record {
          distinct = insert-Distinct t.id f m.fail_list valid.distinct;
          owned = insert-Entries Owns t.id f m.fail_list own valid.owned;
        })
        h

  -- A failure keeps the failure list valid, on every branch of `addFailure`, if the times of its
  -- ticket are ordered.
  pub add_failure-IsValid :
      (m : FailManager K) (t : Ticket K) (n : ℕ) (b : Bool)
      → IsValid m
      → t.first_time ≤ℤ t.time
      → IsValid (add_failure m t n b).0
  unfolding add_failure add_known
  add_failure-IsValid m t n b valid h = elim (Option-cases (lookup t.id m.fail_list)) [
    | inl missing ↦ rw (missing, add_failure) (add_missing-IsValid m t n b valid h)
    | inr (f, found) ↦
        let adjusted = adjust_time t.time m.max_time f in
        let own =
          Owns-adjust_time t.id t.time m.max_time f
            (lookup-Entries Owns t.id f m.fail_list valid.owned found) in
        let ms = new_matches m.max_matches f t in
        let r = inc ms (new_attempt f t) n adjusted in
        rw (found, add_failure)
          (end_known-IsValid m t n b r valid h (Owns-inc t.id ms (new_attempt f t) n adjusted own))
  ]

  erase_fail_list-IsValid :
      (m : FailManager K) (fid : K)
      → IsValid m
      → IsValid (record m { fail_list = erase fid m.fail_list })
  erase_fail_list-IsValid m fid valid = record {
    distinct = erase-Distinct fid m.fail_list valid.distinct;
    owned = erase-Entries Owns fid m.fail_list valid.owned;
  }

  cleanup-IsValid : (time : ℤ) (m : FailManager K) → IsValid m → IsValid (cleanup time m)
  cleanup-IsValid time m valid =
      let recent : K × Ticket K → Bool = λ e. ltb_ℤ (time -ℤ pos m.max_time) e.1.time in
      rw (cleanup-keep time m valid.distinct) (record {
        distinct = keep-Distinct recent m.fail_list valid.distinct;
        owned = keep-Entries Owns recent m.fail_list valid.owned;
      })

  to_ban-IsValid :
      (who : Option K) (m : FailManager K) (t : Ticket K) (m' : FailManager K)
      → IsValid m
      → to_ban who m ≡ some (t, m')
      → IsValid m'
  unfolding to_ban
  to_ban-IsValid who m t m' valid e =
      elim (Option-cases (first_to_ban m.max_retry (ban_candidates who m.fail_list))) [
        | inl nobody ↦ absurd (cc)
        | inr (f, found) ↦
            let same : record m { fail_list = erase f.0 m.fail_list } ≡ m' = ground arith in
            rw (← same) (erase_fail_list-IsValid m f.0 valid)
      ]

-- A call on the failure list.
pub data Call (K : Type 0) : Type 0 where
  failure : Ticket K → ℕ → Bool → Call K
  clean : ℤ → Call K
  delete : K → Call K
  ban : Option K → Call K

-- The times of the ticket of a failure are ordered, as its constructor sets them.
abbrev pub IsOrdered : {K : Type 0} → Call K → Type 0
IsOrdered (failure t n b) = t.first_time ≤ℤ t.time
IsOrdered _ = Unit

module _ {K : Type 0} ⦃key : Key K⦄ where
  -- `toBan` that raises changes nothing.
  unfoldable pub call : Call K → FailManager K → FailManager K
  call (failure t n b) m = (add_failure m t n b).0
  call (clean time) m = cleanup time m
  call (delete fid) m = del_failure fid m
  call (ban who) m = elim (to_ban who m) [ none ↦ m | some r ↦ r.1 ]

  unfoldable pub calls : List (Call K) → FailManager K → FailManager K
  unfolding call
  calls [] m = m
  calls (c ∷ cs) m = calls cs (call c m)

  call-IsValid : (c : Call K) (m : FailManager K) → IsOrdered c → IsValid m → IsValid (call c m)
  unfolding call del_failure
  call-IsValid (failure t n b) m h valid = add_failure-IsValid m t n b valid h
  call-IsValid (clean time) m h valid = cleanup-IsValid time m valid
  call-IsValid (delete fid) m h valid = erase_fail_list-IsValid m fid valid
  call-IsValid (ban who) m h valid = elim (Option-cases (to_ban who m)) [
    | inl nobody ↦ rw (nobody, call) valid
    | inr (r, found) ↦ rw (found, call) (to_ban-IsValid who m r.0 r.1 valid found)
  ]

  -- Any sequence of failures, cleanups, deletions and bans keeps the failure list valid: no id
  -- stands twice, each ticket stands under its own id and its first failure is no later than its
  -- last, if the tickets that come in have ordered times.
  pub calls-IsValid :
      (cs : List (Call K)) (m : FailManager K) → All IsOrdered cs → IsValid m → IsValid (calls cs m)
  unfolding calls
  calls-IsValid [] m h valid = valid
  calls-IsValid (c ∷ cs) m h valid = calls-IsValid cs (call c m) h.1 (call-IsValid c m h.0 valid)
