-- ===== src/FailManager/Cleanup.antt =====
-- `FailManager.cleanup` of fail2ban/server/failmanager.py against a plain filter.
use fail2ban.Common.{◌≡◌, List, [], Bool, not, arith, keep, length, length-map}
use fail2ban.Common.Int.{ℤ, pos, ◌-ℤ◌, ltb_ℤ, leb_ℤ}
use fail2ban.Common.Dict.{Key, Dict, Distinct}
use fail2ban.Common.Dict.Sweep.{erase_all-keep, erase_all-nil, keep_all, keep_nothing}
use fail2ban.Ticket.{Ticket}
use fail2ban.FailManager.{FailManager, cleanup, sweep, outdated}

module _ {K : Type 0} ⦃key : Key K⦄ (limit : ℤ) where
  abbrev is_old : K × Ticket K → Bool
  is_old e = leb_ℤ e.1.time limit

  abbrev is_recent : K × Ticket K → Bool
  is_recent e = ltb_ℤ limit e.1.time

  is_recent-is_old : (e : K × Ticket K) → is_recent e ≡ not (is_old e)
  is_recent-is_old e = ground arith

  sweep-keep :
      (d : Dict K (Ticket K)) → Distinct d → sweep limit (outdated limit d) d ≡ keep is_recent d
  unfolding sweep outdated
  sweep-keep d h = ground (arith, erase_all-keep is_old is_recent is_recent-is_old d h)

  length-outdated : (d : Dict K (Ticket K)) → length (outdated limit d) ≡ length (keep is_old d)
  unfolding outdated
  length-outdated d = length-map (λ e. e.0) (keep is_old d)

  all_outdated :
      (d : Dict K (Ticket K)) → length (outdated limit d) ≡ length d → keep is_recent d ≡ []
  all_outdated d h = keep_all is_old is_recent is_recent-is_old d (omega (arith, length-outdated d))

  none_outdated : (d : Dict K (Ticket K)) → length (outdated limit d) ≡ 0 → keep is_recent d ≡ d
  none_outdated d h =
      keep_nothing is_old is_recent is_recent-is_old d (omega (arith, length-outdated d))

  sweep-nil : (todelete : List K) → sweep limit todelete [] ≡ []
  unfolding sweep
  sweep-nil todelete = ground (arith, erase_all-nil {V = Ticket K} todelete)

-- Whichever way the list is swept, `cleanup` keeps exactly the failures whose last time lies within
-- the find time before the given time, in their order, and nothing else changes.
pub cleanup-keep :
    {K : Type 0} ⦃key : Key K⦄ (time : ℤ) (m : FailManager K)
    → Distinct m.fail_list
    → cleanup time m
      ≡ record m { fail_list = keep (λ e. ltb_ℤ (time -ℤ pos m.max_time) e.1.time) m.fail_list }
unfolding cleanup
cleanup-keep time m h =
    let limit = time -ℤ pos m.max_time in
    let todelete = outdated limit m.fail_list in
    ground (
      arith,
      sweep-nil limit todelete,
      all_outdated limit m.fail_list,
      none_outdated limit m.fail_list,
      sweep-keep limit m.fail_list h,
    )
