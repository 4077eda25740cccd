-- ===== src/FailManager.antt =====
-- The failure list of a jail, `FailManager` of fail2ban/server/failmanager.py. The lock makes each
-- operation one step; the log lines and the garbage collection of `BgService` are left out. The
-- find time is a natural number, so the rate of `adjustTime` never divides by zero. A ticket of
-- another class than `FailTicket` and `BanTicket` is not made by the server.
pub mod Keys
pub mod Cleanup
pub mod Attempts
pub mod Bans
pub mod Limits
use fail2ban.Common.{
  ℕ, suc, ◌+◌, ◌-◌, ◌*◌, ◌≤◌, Bool, true, false, not, ◌||◌, Option, none, some, List, [], ◌∷◌, map,
  arith, ltb, leb, ◌==◌, if◌then◌else◌, length, drop, keep,
}
use fail2ban.Common.Int.{ℤ, pos, ◌-ℤ◌, ltb_ℤ, leb_ℤ}
use fail2ban.Common.Dict.{Key, Dict, keys, values, lookup, contains, insert, erase, erase_all}
use fail2ban.Ticket.{
  Ticket, Line, text, get_matches, set_matches, set_retry, adjust_time, inc, Inc, done, key_error,
  is_ban_ticket,
}
use Prim.Native.String.{String}

pub record FailManager (K : Type 0) : Type 0 where
  pub fail_list : Dict K (Ticket K)
  pub max_retry : ℕ
  pub max_time : ℕ
  pub fail_total : ℕ
  pub max_matches : ℕ

-- `FailManager()`
abbrev pub new_fail_manager : {K : Type 0} → FailManager K
new_fail_manager = record {
  fail_list = [];
  max_retry = 3;
  max_time = 600;
  fail_total = 0;
  max_matches = 5;
}

module _ {K : Type 0} where
  -- `getFailCount`
  unfoldable pub sum_retry : List (Ticket K) → ℕ
  sum_retry [] = 0
  sum_retry (t ∷ ts) = t.retry + sum_retry ts

  unfoldable pub get_fail_count : FailManager K → ℕ × ℕ
  unfolding sum_retry
  get_fail_count m = (length m.fail_list, sum_retry (values m.fail_list))

  -- `fData is ticket`
  unfoldable pub is_same : Ticket K → Ticket K → Bool
  is_same f t = f.oid == t.oid

  -- The matches and the attempts that a failure adds to the ticket of its id.
  unfoldable pub new_matches : ℕ → Ticket K → Ticket K → List String
  unfolding is_same
  new_matches max_matches f t =
      if is_same f t then [] else if max_matches == 0 then [] else get_matches t

  unfoldable pub new_attempt : Ticket K → Ticket K → ℕ
  unfolding is_same
  new_attempt f t =
      if is_same f t then 1 else if t.failures == 0 then t.failures + 1 else t.failures

  -- `matches[-max_matches:]` of a longer list, or no matches
  unfoldable pub truncate_matches : ℕ → Ticket K → Ticket K
  truncate_matches max_matches f =
      let ms = get_matches f in
      if max_matches == 0
      then set_matches [] f
      else if ltb max_matches (length ms)
      then set_matches (map text (drop (length ms - max_matches) ms)) f
      else f

module _ {K : Type 0} ⦃key : Key K⦄ where
  -- The end of `addFailure`: `self.__failList[fid] = fData`, the returned attempts and the total.
  unfoldable pub count_failure : K → Ticket K → FailManager K → FailManager K × ℕ
  count_failure fid f m =
      (record m { fail_list = insert fid f m.fail_list; fail_total = m.fail_total + 1 }, f.retry)

  -- The handler of `KeyError` in `addFailure`.
  unfoldable pub add_missing : FailManager K → Ticket K → ℕ → Bool → FailManager K × ℕ
  unfolding count_failure
  add_missing m t count observed =
      if observed || is_ban_ticket t
      then (m, t.retry)
      else count_failure t.id (if ltb t.failures count then set_retry count t else t) m

  -- The end of the `try` block, or its `KeyError` out of `inc` with the ticket written so far.
  unfoldable pub end_known : FailManager K → Ticket K → ℕ → Bool → Inc K → FailManager K × ℕ
  unfolding count_failure truncate_matches add_missing
  end_known m t count observed (done f) = count_failure t.id (truncate_matches m.max_matches f) m
  end_known m t count observed (key_error f) =
      add_missing (record m { fail_list = insert t.id f m.fail_list }) t count observed

  unfoldable pub add_known : FailManager K → Ticket K → Ticket K → ℕ → Bool → FailManager K × ℕ
  unfolding end_known new_matches new_attempt
  add_known m f t count observed = end_known m t count observed (
      inc (new_matches m.max_matches f t) (new_attempt f t) count (adjust_time t.time m.max_time f))

  unfoldable pub add_failure : FailManager K → Ticket K → ℕ → Bool → FailManager K × ℕ
  unfolding add_known add_missing
  add_failure m t count observed = elim (lookup t.id m.fail_list) [
    | none ↦ add_missing m t count observed
    | some f ↦ add_known m f t count observed
  ]

  -- `cleanup`: the ids of `todelete`
  unfoldable pub outdated : ℤ → Dict K (Ticket K) → List K
  outdated limit d = keys (keep (λ e. leb_ℤ e.1.time limit) d)

  -- `len(todelete) / 2.0 <= len(failList) / 3.0`, or a new dict
  unfoldable pub sweep : ℤ → List K → Dict K (Ticket K) → Dict K (Ticket K)
  sweep limit todelete d =
      if leb (3 * length todelete) (2 * length d)
      then erase_all todelete d
      else keep (λ e. ltb_ℤ limit e.1.time) d

  unfoldable pub cleanup : ℤ → FailManager K → FailManager K
  unfolding outdated sweep
  cleanup time m =
      let limit = time -ℤ pos m.max_time in
      let todelete = outdated limit m.fail_list in
      if length todelete == length m.fail_list
      then record m { fail_list = sweep limit todelete [] }
      else if length todelete == 0
      then m
      else record m { fail_list = sweep limit todelete m.fail_list }

  unfoldable pub del_failure : K → FailManager K → FailManager K
  del_failure fid m = record m { fail_list = erase fid m.fail_list }

  -- The loop of `toBan`: the first ticket that has reached the limit.
  unfoldable pub first_to_ban : ℕ → Dict K (Ticket K) → Option (K × Ticket K)
  first_to_ban max_retry [] = none
  first_to_ban max_retry (e ∷ d) =
      if leb max_retry e.1.retry then some e else first_to_ban max_retry d

  -- the ids that `toBan` looks at, with their tickets
  unfoldable pub ban_candidates : Option K → Dict K (Ticket K) → Dict K (Ticket K)
  ban_candidates none d = d
  ban_candidates (some fid) d = elim (lookup fid d) [ none ↦ d | some t ↦ (fid, t) ∷ [] ]

  -- `toBan`; `none` is the exception `FailManagerEmpty`.
  unfoldable pub to_ban : Option K → FailManager K → Option (Ticket K × FailManager K)
  unfolding first_to_ban ban_candidates
  to_ban fid m = elim (first_to_ban m.max_retry (ban_candidates fid m.fail_list)) [
    | none ↦ none
    | some e ↦ some (e.1, record m { fail_list = erase e.0 m.fail_list })
  ]
