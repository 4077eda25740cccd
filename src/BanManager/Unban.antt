-- ===== src/BanManager/Unban.antt =====
-- `BanManager.unBanList` of fail2ban/server/banmanager.py: which bans it ends.
use fail2ban.Common.{
  ℕ, ◌+◌, ◌≤◌, ◌<◌, ◌≡◌, refl, ap, ◌∙◌, sym, not, Bool, some, [], ◌∷◌, inl, inr, arith, Bool-cases,
  if◌then◌else◌, length, keep,
}
use fail2ban.Common.Int.{ℤ, ◌≤ℤ◌, ◌<ℤ◌, ltb_ℤ}
use fail2ban.Common.Dict.{Key, Dict, Distinct, values, contains, lookup}
use fail2ban.Common.Dict.Entries.{Entries, Entries-×, lookup-own}
use fail2ban.Common.Dict.Sweep.{erase_all-keep, erase_all-keys, keep-true}
use fail2ban.Ticket.{Ticket, max_ticket_time}
use fail2ban.BanManager.{BanManager, end_of_ban, unban_scan, remove_unbanned, un_ban_list}

-- Whether a listed ticket is over.
abbrev pub is_over : {K : Type 0} → (Ticket K → ℤ) → ℤ → K × Ticket K → Bool
is_over ends time e = ltb_ℤ (ends e.1) time

module _ {K : Type 0} (ends : Ticket K → ℤ) (time stop : ℤ) (max_count : ℕ) where
  -- Every ticket that is taken is over.
  unban_scan-over :
      (taken : ℕ) (next : ℤ) (d : Dict K (Ticket K))
      → Entries (λ _ t. ends t <ℤ time) (unban_scan ends time stop max_count taken next d).0
  unfolding unban_scan
  unban_scan-over taken next [] = tt
  unban_scan-over taken next (e ∷ d) =
      let next' = if ltb_ℤ (ends e.1) next then ends e.1 else next in
      ground (arith, unban_scan-over (taken + 1) next d, unban_scan-over taken next' d)

  -- With room for all of them, exactly the tickets that are over are taken, in order.
  unban_scan-keep :
      (taken : ℕ) (next : ℤ) (d : Dict K (Ticket K))
      → taken + length (keep (is_over ends time) d) < max_count
      → (unban_scan ends time stop max_count taken next d).0 ≡ keep (is_over ends time) d
  unfolding unban_scan
  unban_scan-keep taken next [] h = refl
  unban_scan-keep taken next (e ∷ d) h =
      let next' = if ltb_ℤ (ends e.1) next then ends e.1 else next in
      ground (arith, unban_scan-keep (taken + 1) next d, unban_scan-keep taken next' d)

  -- At most `max_count` are taken, or one.
  length-unban_scan :
      (taken : ℕ) (next : ℤ) (d : Dict K (Ticket K))
      → taken < max_count
      → taken + length (unban_scan ends time stop max_count taken next d).0 ≤ max_count
  unfolding unban_scan
  length-unban_scan taken next [] h = omega arith
  length-unban_scan taken next (e ∷ d) h =
      let next' = if ltb_ℤ (ends e.1) next then ends e.1 else next in
      ground (arith, length-unban_scan (taken + 1) next d, length-unban_scan taken next' d)

  -- Whatever holds of all listed tickets holds of those that are taken.
  unban_scan-Entries :
      (P : K → Ticket K → Type 0) (taken : ℕ) (next : ℤ) (d : Dict K (Ticket K))
      → Entries P d
      → Entries P (unban_scan ends time stop max_count taken next d).0
  unfolding unban_scan
  unban_scan-Entries P taken next [] h = tt
  unban_scan-Entries P taken next (e ∷ d) h =
      let next' = if ltb_ℤ (ends e.1) next then ends e.1 else next in
      ground
        (arith, unban_scan-Entries P (taken + 1) next d h.1, unban_scan-Entries P taken next' d h.1)

module _ {K : Type 0} (ends : Ticket K → ℤ) (time next : ℤ) where
  -- Before the next time to check no ban is over.
  none_over :
      (d : Dict K (Ticket K))
      → time <ℤ next
      → Entries (λ _ t. next ≤ℤ ends t) d
      → (keep (is_over ends time) d ≡ []) × (keep (λ e. not (is_over ends time e)) d ≡ d)
  none_over [] early due = (refl, refl)
  none_over (e ∷ d) early due = ground (arith, none_over d early due.1)

module _ {K : Type 0} ⦃key : Key K⦄ where
  -- Both ways to remove the tickets leave the same ban list.
  pub remove_unbanned-keep :
      (unban d : Dict K (Ticket K))
      → Distinct d
      → remove_unbanned unban d ≡ keep (λ e. not (contains e.0 unban)) d
  unfolding remove_unbanned
  remove_unbanned-keep [] d h = sym (keep-true d)
  remove_unbanned-keep (u ∷ us) d h = ground (arith, erase_all-keys (u ∷ us) d h)

  -- The tickets that `unBanList` ends, whatever the limit
  pub un_ban_list_gone :
      (time : ℤ) (max_count : ℕ) (m : BanManager K)
      → Distinct m.ban_list
      → let (m', out) = un_ban_list time max_count m in
        (gone : Dict K (Ticket K)) × (out ≡ values gone)
        × Entries (λ k t. (lookup k m.ban_list ≡ some t) × (end_of_ban m t <ℤ time)) gone
        × (0 < max_count → length gone ≤ max_count)
        × (m'.ban_list ≡ keep (λ e. not (contains e.0 gone)) m.ban_list)
  unfolding un_ban_list
  un_ban_list_gone time max_count m h = elim (Bool-cases (ltb_ℤ time m.next_unban_time)) [
    | inl early ↦ (
      [],
      ground arith,
      tt,
      (λ room. ground arith),
      rw (early, un_ban_list) (sym (keep-true m.ban_list)),
    )
    | inr due ↦
        let ends = end_of_ban m in
        let next = m.next_unban_time in
        let gone = (unban_scan ends time next max_count 0 max_ticket_time m.ban_list).0 in
        (
          gone,
          rw (due, un_ban_list) refl,
          Entries-× (λ k t. lookup k m.ban_list ≡ some t) (λ _ t. ends t <ℤ time) gone
              (unban_scan-Entries ends time next max_count (λ k t. lookup k m.ban_list ≡ some t) 0
                max_ticket_time m.ban_list (lookup-own m.ban_list h))
              (unban_scan-over ends time next max_count 0 max_ticket_time m.ban_list),
          λ room.
              omega
                (arith, length-unban_scan ends time next max_count 0 max_ticket_time m.ban_list),
          rw (due, un_ban_list) (remove_unbanned-keep gone m.ban_list h),
        )
  ]

  -- `unBanList` returns tickets of the ban list that are over at the given time, at most `maxCount`
  -- of them, and leaves exactly the tickets of the other ids listed, in their order.
  pub un_ban_list_takes :
      (time : ℤ) (max_count : ℕ) (m : BanManager K)
      → Distinct m.ban_list
      → 0 < max_count
      → let (m', out) = un_ban_list time max_count m in
        (gone : Dict K (Ticket K)) × (out ≡ values gone)
        × Entries (λ k t. (lookup k m.ban_list ≡ some t) × (end_of_ban m t <ℤ time)) gone
        × (length gone ≤ max_count)
        × (m'.ban_list ≡ keep (λ e. not (contains e.0 gone)) m.ban_list)
  un_ban_list_takes time max_count m h room =
      let (gone, out, over, few, rest) = un_ban_list_gone time max_count m h in
      (gone, out, over, few room, rest)

  -- With room for all of them, and if no listed ban ends before the next time to check, `unBanList`
  -- returns exactly the tickets that are over at the given time, in the order of the ban list, and
  -- leaves exactly the others.
  pub un_ban_list_all :
      (time : ℤ) (max_count : ℕ) (m : BanManager K)
      → Distinct m.ban_list
      → Entries (λ _ t. m.next_unban_time ≤ℤ end_of_ban m t) m.ban_list
      → length (keep (is_over (end_of_ban m) time) m.ban_list) < max_count
      → let (m', out) = un_ban_list time max_count m in
        (out ≡ values (keep (λ e. ltb_ℤ (end_of_ban m e.1) time) m.ban_list))
        × (m'.ban_list ≡ keep (λ e. not (ltb_ℤ (end_of_ban m e.1) time)) m.ban_list)
  unfolding un_ban_list
  un_ban_list_all time max_count m h due room = elim (Bool-cases (ltb_ℤ time m.next_unban_time)) [
    | inl early ↦
        let nothing =
          none_over (end_of_ban m) time m.next_unban_time m.ban_list (ground arith) due in
        (rw (early, un_ban_list, nothing.0) refl, rw (early, un_ban_list, nothing.1) refl)
    | inr later ↦
        let over = is_over (end_of_ban m) time in
        let d = m.ban_list in
        let gone =
          (unban_scan (end_of_ban m) time m.next_unban_time max_count 0 max_ticket_time d).0 in
        let exactly : gone ≡ keep over d =
          unban_scan-keep (end_of_ban m) time m.next_unban_time max_count 0 max_ticket_time d
            (omega arith) in
        (
          rw (later, un_ban_list) (ap values exactly),
          rw (later, un_ban_list)
              (remove_unbanned-keep gone d h
                ∙ ap (λ us. keep (λ e. not (contains e.0 us)) d) exactly
                ∙ sym (erase_all-keys (keep over d) d h)
                ∙ erase_all-keep over (λ e. not (over e)) (λ e. refl) d h),
        )
  ]
