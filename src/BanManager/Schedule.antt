-- ===== src/BanManager/Schedule.antt =====
-- The next time to check of fail2ban/server/banmanager.py, and the invariant of the ban list.
use fail2ban.Common.{
  ℕ, ◌+◌, ◌≡◌, refl, sym, ap, ◌∙◌, true, not, ◌⊎◌, none, [], ◌∷◌, inl, inr, arith, Option-cases,
  Bool-cases, if◌then◌else◌, keep, leb,
}
use mathlib.Core.Path.{subst}
use fail2ban.Common.Int.{ℤ, ◌≤ℤ◌, ltb_ℤ}
use fail2ban.Common.Dict.{
  Key, Dict, Distinct, values, lookup-erase_self, lookup, contains, insert, insert-Distinct,
  erase-Distinct,
}
use fail2ban.Common.Dict.Entries.{
  Entries, lookup-Entries, insert-Entries, erase-Entries, keep-Entries, Entries-map,
}
use fail2ban.Common.Dict.Sweep.{keep-Distinct}
use fail2ban.Ticket.{Ticket, permanent, max_ticket_time, get_ban_time, set_ban_time, incr_ban_count}
use fail2ban.BanManager.{
  BanManager, end_of_ban, prolonged, add_listed, add_unlisted, add_ban_ticket, unban_scan,
  un_ban_list, flush_ban_list, get_ticket_by_id,
}
use fail2ban.BanManager.Add.{prolonged_end, end_of_ban-incr_ban_count}
use fail2ban.BanManager.Unban.{remove_unbanned-keep}

-- No id stands twice, each ticket stands under its own id, and no listed ban ends before the next
-- time to check.
pub record IsValid {K : Type 0} ⦃key : Key K⦄ (m : BanManager K) : Type 0 where
  pub distinct : Distinct m.ban_list
  pub owned : Entries (λ k t. t.id ≡ k) m.ban_list
  pub due : Entries (λ _ t. m.next_unban_time ≤ℤ end_of_ban m t) m.ban_list

module _ {K : Type 0} ⦃key : Key K⦄ (ends : Ticket K → ℤ) (time stop : ℤ) (max_count : ℕ) where
  abbrev scan : ℕ → ℤ → Dict K (Ticket K) → Dict K (Ticket K) × ℤ
  scan = unban_scan ends time stop max_count

  -- The time that a scan leaves is at most the time it starts with, or is `stop`.
  scan-le :
      (taken : ℕ) (next : ℤ) (d : Dict K (Ticket K))
      → let s = (unban_scan ends time stop max_count taken next d).1 in (s ≤ℤ next) ⊎ (s ≡ stop)
  unfolding unban_scan
  scan-le taken next [] = inl (omega arith)
  scan-le taken next (e ∷ d) =
      let next' = if ltb_ℤ (ends e.1) next then ends e.1 else next in
      ground (arith, scan-le (taken + 1) next d, scan-le taken next' d)

  -- Every ticket is taken, or does not end before the time that the scan leaves.
  abbrev IsSeen : Dict K (Ticket K) × ℤ → K → Ticket K → Type 0
  IsSeen s k t = (contains k s.0 ≡ true) ⊎ (s.1 ≤ℤ ends t)

  IsSeen-cons :
      (e : K × Ticket K) (s : Dict K (Ticket K) × ℤ) (k : K) (t : Ticket K)
      → IsSeen s k t
      → IsSeen (e ∷ s.0, s.1) k t
  IsSeen-cons e s k t (inl there) = inl (ground arith)
  IsSeen-cons e s k t (inr late) = inr late

  IsSeen-stop :
      (e : K × Ticket K) (k : K) (t : Ticket K) → stop ≤ℤ ends t → IsSeen (e ∷ [], stop) k t
  IsSeen-stop e k t late = inr late

  scan-IsSeen :
      (taken : ℕ) (next : ℤ) (d : Dict K (Ticket K))
      → Entries (λ _ t. stop ≤ℤ ends t) d
      → Entries (IsSeen (unban_scan ends time stop max_count taken next d)) d
  unfolding unban_scan
  scan-IsSeen taken next [] h = tt
  scan-IsSeen taken next (e ∷ d) h = elim (Bool-cases (ltb_ℤ (ends e.1) time)) [
    | inl over ↦ elim (Bool-cases (leb max_count (taken + 1))) [
      | inl full ↦
          let step : scan taken next (e ∷ d) ≡ (e ∷ [], stop) = rw (over, full) in
          subst (λ s. Entries (IsSeen s) (e ∷ d)) (sym step)
            (
              inl (ground arith),
              Entries-map (λ _ t. stop ≤ℤ ends t) (IsSeen (e ∷ [], stop)) (IsSeen-stop e) d h.1,
            )
      | inr room ↦
          let s = scan (taken + 1) next d in
          let step : scan taken next (e ∷ d) ≡ (e ∷ s.0, s.1) = rw (over, room) in
          subst (λ s. Entries (IsSeen s) (e ∷ d)) (sym step)
            (
              inl (ground arith),
              Entries-map (IsSeen s) (IsSeen (e ∷ s.0, s.1)) (IsSeen-cons e s) d
                  (scan-IsSeen (taken + 1) next d h.1),
            )
    ]
    | inr lasting ↦
        let next' = if ltb_ℤ (ends e.1) next then ends e.1 else next in
        let step : scan taken next (e ∷ d) ≡ scan taken next' d = rw lasting in
        subst (λ s. Entries (IsSeen s) (e ∷ d)) (sym step)
          (inr (ground (arith, scan-le taken next' d)), scan-IsSeen taken next' d h.1)
  ]

  -- What is not taken does not end before the time that the scan leaves.
  seen-keep :
      (s : Dict K (Ticket K) × ℤ) (d : Dict K (Ticket K))
      → Entries (IsSeen s) d
      → Entries (λ _ t. s.1 ≤ℤ ends t) (keep (λ e. not (contains e.0 s.0)) d)
  seen-keep s [] h = tt
  seen-keep s (e ∷ d) h = ground (arith, seen-keep s d h.1)

module _ {K : Type 0} ⦃key : Key K⦄ where
  -- A ticket is written under an id, and the time to check does not move on.
  write-IsValid :
      (m : BanManager K) (fid : K) (new : Ticket K) (total : ℕ) (next : ℤ)
      → new.id ≡ fid
      → next ≤ℤ m.next_unban_time
      → next ≤ℤ end_of_ban m new
      → IsValid m
      → IsValid (record m {
        ban_list = insert fid new m.ban_list;
        ban_total = total;
        next_unban_time = next;
      })
  unfolding end_of_ban
  write-IsValid m fid new total next own sooner lasts valid = record {
    distinct = insert-Distinct fid new m.ban_list valid.distinct;
    owned = insert-Entries (λ k t. t.id ≡ k) fid new m.ban_list own valid.owned;
    due =
        insert-Entries (λ _ t. next ≤ℤ end_of_ban m t) fid new m.ban_list lasts
          (Entries-map (λ _ t. m.next_unban_time ≤ℤ end_of_ban m t) (λ _ t. next ≤ℤ end_of_ban m t)
            (λ k t h. omega arith) m.ban_list valid.due);
  }

  id-prolonged : (m : BanManager K) (t old : Ticket K) → (prolonged m t old).id ≡ old.id
  unfolding prolonged set_ban_time
  id-prolonged m t old = refl

  -- `addBanTicket` keeps the ban list valid; a ban time below -1 is excluded.
  pub add_ban_ticket-IsValid :
      (now : ℤ) (t : Ticket K) (m : BanManager K)
      → permanent ≤ℤ get_ban_time t m.ban_time
      → IsValid m
      → IsValid (add_ban_ticket now t m).0
  unfolding add_ban_ticket add_listed add_unlisted incr_ban_count
  add_ban_ticket-IsValid now t m proper valid = elim (Bool-cases (ltb_ℤ (end_of_ban m t) now)) [
    | inl over ↦ rw (over, add_ban_ticket) valid
    | inr lasting ↦ elim (Option-cases (lookup t.id m.ban_list)) [
      | inl unlisted ↦
          let eob = end_of_ban m t in
          rw (lasting, add_ban_ticket, unlisted)
            (write-IsValid m t.id (incr_ban_count 1 t) (m.ban_total + 1)
              (if ltb_ℤ eob m.next_unban_time then eob else m.next_unban_time) refl (ground arith)
              (ground (arith, end_of_ban-incr_ban_count m t t 1)) valid)
      | inr (old, listed) ↦ elim (Bool-cases (ltb_ℤ (end_of_ban m old) (end_of_ban m t))) [
        | inl longer ↦
            let new = prolonged m t old in
            let own = lookup-Entries (λ k t. t.id ≡ k) t.id old m.ban_list valid.owned listed in
            let late =
              lookup-Entries (λ _ t. m.next_unban_time ≤ℤ end_of_ban m t) t.id old m.ban_list
                valid.due listed in
            rw (lasting, add_ban_ticket, listed, longer)
              (write-IsValid m t.id new m.ban_total m.next_unban_time (id-prolonged m t old ∙ own)
                (omega arith) (ground (arith, prolonged_end m t old proper)) valid)
        | inr shorter ↦ rw (lasting, add_ban_ticket, listed, shorter) valid
      ]
    ]
  ]

  -- `unBanList` keeps the ban list valid: no ban that it leaves ends before the next time to check.
  pub un_ban_list-IsValid :
      (time : ℤ) (max_count : ℕ) (m : BanManager K)
      → IsValid m
      → IsValid (un_ban_list time max_count m).0
  unfolding un_ban_list end_of_ban
  un_ban_list-IsValid time max_count m valid = elim (Bool-cases (ltb_ℤ time m.next_unban_time)) [
    | inl early ↦ rw (early, un_ban_list) valid
    | inr due ↦
        let d = m.ban_list in
        let next = m.next_unban_time in
        let s = unban_scan (end_of_ban m) time next max_count 0 max_ticket_time d in
        let kept = λ (e : K × Ticket K). not (contains e.0 s.0) in
        let step : (un_ban_list time max_count m).0
            ≡ record m { ban_list = keep kept d; next_unban_time = s.1 } =
          rw (due, un_ban_list)
            (ap (λ l. record m { ban_list = l; next_unban_time = s.1 })
              (remove_unbanned-keep s.0 d valid.distinct)) in
        subst IsValid (sym step) (record {
          distinct = keep-Distinct kept d valid.distinct;
          owned = keep-Entries (λ k t. t.id ≡ k) kept d valid.owned;
          due =
              seen-keep (end_of_ban m) time next max_count s d
                (scan-IsSeen (end_of_ban m) time next max_count 0 max_ticket_time d valid.due);
        })
  ]

  -- `flushBanList` returns every listed ticket and leaves an empty, valid ban list; taking the
  -- ticket of an id off the list returns it, unlists that id and keeps the list valid.
  pub removal-IsValid :
      (fid : K) (m : BanManager K)
      → IsValid m
      → let (flushed, all) = flush_ban_list m in
        let (m', t) = get_ticket_by_id fid m in
        IsValid flushed
        × (all ≡ values m.ban_list)
        × IsValid m'
        × (t ≡ lookup fid m.ban_list)
        × (lookup fid m'.ban_list ≡ none)
  unfolding flush_ban_list get_ticket_by_id end_of_ban
  removal-IsValid fid m valid = (
    record { distinct = tt; owned = tt; due = tt },
    refl,
    record {
      distinct = erase-Distinct fid m.ban_list valid.distinct;
      owned = erase-Entries (λ k t. t.id ≡ k) fid m.ban_list valid.owned;
      due = erase-Entries (λ _ t. m.next_unban_time ≤ℤ end_of_ban m t) fid m.ban_list valid.due;
    },
    refl,
    lookup-erase_self fid m.ban_list valid.distinct,
  )
