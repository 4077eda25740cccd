-- ===== src/Actions/Told/Check.antt =====
-- `__checkBan` of fail2ban/server/actions.py, with its loops, keeps the actions in step with the
-- ban list.
use fail2ban.Common.{
  ℕ, zero, suc, ◌+◌, ◌≡◌, refl, sym, ap, ◌∙◌, true, not, ◌&&◌, some, List, [], ◌∷◌, arith, inl, inr,
  Bool-cases, Option-cases, List-cases, ltb, ◌==◌, length, ◌⊎◌,
}
use mathlib.Core.Path.{subst}
use fail2ban.Common.Int.{ℤ, pos, ◌-ℤ◌, ◌+ℤ◌, ltb_ℤ}
use fail2ban.Common.Dict.{Key, Dict, lookup, contains, insert, lookup-insert_self}
use fail2ban.Common.Dict.Entries.{Entries, lookup-Entries}
use fail2ban.Ticket.{Ticket, banned, wrap_ban, incr_ban_count, set_ban_time, get_ban_time}
use fail2ban.BanManager.{
  in_ban_list, BanManager, Added, added, expired, already, add_ban_ticket, add_listed, add_unlisted,
  end_of_ban, prolonged,
}
use fail2ban.Actions.{Actions, Action, Answer, Call, prolong, check, left_by, Outcome-cases}
use fail2ban.Actions.Bans.{
  ban_added, check_consistency, ban_again, ban_reported, ban_ticket, check_tickets, check_queue,
  prolong_ban,
}
use fail2ban.Actions.Told.Keep.{InStep, call_all-InStep, call_each-InStepAt, InStepAt}
use fail2ban.Actions.Told.Ban.{
  IsListed, new_ban-InStep, mark_banned-InStep, re_ban-InStep, write_listed,
}

module _ {N K : Type 0} ⦃name_key : Key N⦄ ⦃ban_key : Key K⦄
    (answer : List (N × Call K) → N → Call K → Answer) (name : N) where
  ban_added-InStep :
      (t : Ticket K) (btime : ℤ) (m : BanManager K) (s : Actions N K)
      → m.ban_list ≡ insert t.id t s.ban_manager.ban_list
      → InStep name s
      → InStep name (ban_added answer t btime (record s { ban_manager = m }))
  unfolding ban_added
  ban_added-InStep t btime m s put h =
      let (called, manager) = new_ban-InStep answer name t btime m s put h in
      let listed : IsListed answer name t.id m =
        ground (arith, put, lookup-insert_self t.id t s.ban_manager.ban_list) in
      mark_banned-InStep answer name t _ (subst (IsListed answer name t.id) (sym manager) listed)
        called

  check_consistency-InStepAt :
      (now diftm : ℤ) (old : Ticket K) (d : Dict N Action) (s : Actions N K)
      → InStep name s
      → InStepAt answer name s.ban_manager (left_by (check_consistency answer now diftm old d s))
  unfolding check_consistency left_by
  check_consistency-InStepAt now diftm old d s h =
      elim (Bool-cases (
        (old.ban_epoch == s.ban_epoch)
        && ltb_ℤ (pos 3) diftm
        && (length d == 0)
        && ltb_ℤ (s.last_check_tm +ℤ pos 3) now)) [
          | inl due ↦ rw (due) (
              call_each-InStepAt answer name (λ a. not a.can_check) check s.actions s.ban_manager
                (record s { last_check_tm = now }) (λ id. refl)
                (
                  record {
                    plain = h.plain;
                    unique = h.unique;
                    distinct = h.distinct;
                    owned = h.owned;
                    told = h.told;
                  },
                  refl,
                ))
          | inr early ↦ rw (early) (h, refl)
        ]

  -- A listed ticket, perhaps prolonged
  ban_again-InStep :
      (now diftm : ℤ) (old : Ticket K) (d : Dict N Action) (s : Actions N K)
      → IsListed answer name old.id s.ban_manager
      → InStep name s
      → InStep name (left_by (ban_again answer now diftm old d s))
  unfolding ban_again left_by
  ban_again-InStep now diftm old d s listed h = elim (Bool-cases (banned old)) [
    | inl done ↦
        let kept = check_consistency-InStepAt now diftm old d s h in
        elim (Outcome-cases (check_consistency answer now diftm old d s)) [
          | inr (s', e) ↦ rw (ban_again, done, e) (rw (e, left_by) at kept).0
          | inl (u, s', e) ↦
              let kept' : InStepAt answer name s.ban_manager s' = rw (e, left_by) at kept in
              elim (Bool-cases (ltb old.ban_epoch s'.ban_epoch)) [
                | inl behind ↦
                    rw (ban_again, done, e, behind)
                      (re_ban-InStep answer name old _ s'
                        (subst (IsListed answer name old.id) (sym kept'.1) listed) kept'.0)
                | inr current ↦ rw (ban_again, done, e, current) kept'.0
              ]
        ]
    | inr pending ↦ rw (ban_again, pending) (re_ban-InStep answer name old [] s listed h)
  ]

  -- What `addBanTicket` leaves: the ticket in the list, or a list with the same ids, where the
  -- ticket that is reported is listed.
  Reported : BanManager K → Ticket K → BanManager K × Added K → Type 0
  Reported m t (m', added new) = m'.ban_list ≡ insert new.id new m.ban_list
  Reported m t (m', expired) = m' ≡ m
  Reported m t (m', already old b) =
      (m' ≡ m) × IsListed answer name old.id m
      ⊎ ((m' ≡ record m { ban_list = insert old.id old m.ban_list })
          × IsListed answer name old.id m)

  add_listed-Reported :
      (m : BanManager K) (t old : Ticket K)
      → old.id ≡ t.id
      → lookup t.id m.ban_list ≡ some old
      → Reported m t (add_listed m t old)
  unfolding Reported add_listed prolonged set_ban_time
  add_listed-Reported m t old same found =
      let listed : IsListed answer name old.id m = rw same (ground arith) in
      elim (Bool-cases (ltb_ℤ (end_of_ban m old) (end_of_ban m t))) [
        | inl longer ↦ rw (longer) (
            inr (
              ap (λ k. record m { ban_list = insert k (prolonged m t old) m.ban_list }) (sym same),
              listed,
            ))
        | inr shorter ↦ rw (shorter) (inl (refl, listed))
      ]

  add_ban_ticket-Reported :
      (now : ℤ) (t : Ticket K) (m : BanManager K)
      → Entries (λ k t. t.id ≡ k) m.ban_list
      → Reported m t (add_ban_ticket now t m)
  unfolding Reported add_ban_ticket add_unlisted incr_ban_count
  add_ban_ticket-Reported now t m owned = elim (Bool-cases (ltb_ℤ (end_of_ban m t) now)) [
    | inl over ↦ rw (add_ban_ticket, over) refl
    | inr open' ↦ elim (Option-cases (lookup t.id m.ban_list)) [
      | inl missing ↦ rw (add_ban_ticket, open', missing) refl
      | inr (old, found) ↦
          rw (add_ban_ticket, open', found)
            (add_listed-Reported m t old
              (lookup-Entries (λ k t. t.id ≡ k) t.id old m.ban_list owned found) found)
    ]
  ]

  is_listed_new :
      (t : Ticket K) (m : BanManager K) → contains t.id (insert t.id t m.ban_list) ≡ true
  is_listed_new t m = ground (arith, lookup-insert_self t.id t m.ban_list)

  -- What follows the answer of `addBanTicket`
  after :
      (now btime : ℤ) (t : Ticket K) (d : Dict N Action) (s : Actions N K)
      (r : BanManager K × Added K)
      → InStep name s
      → Reported s.ban_manager t r
      → InStep name (left_by (ban_reported answer now btime t d r s))
  unfolding ban_reported left_by Reported
  after now btime t d s (m', added new) h put = ban_added-InStep new btime m' s put h
  after now btime t d s (m', expired) h same = rw same h
  after now btime t d s (m', already old b) h (inl (same, listed)) =
      ban_again-InStep now (t.time -ℤ old.time) old d (record s { ban_manager = m' })
        (rw same listed) (rw same h)
  after now btime t d s (m', already old b) h (inr (same, listed)) =
      let written = write_listed answer name old old s listed refl h in
      ban_again-InStep now (t.time -ℤ old.time) old d (record s { ban_manager = m' })
        (ap (λ (m : BanManager K). contains old.id m.ban_list) same
          ∙ is_listed_new old s.ban_manager)
        (subst (λ m. InStep name (record s { ban_manager = m })) (sym same) written)

  -- One ticket keeps the action in step.
  ban_ticket-InStep :
      (now : ℤ) (ticket : Ticket K) (d : Dict N Action) (s : Actions N K)
      → InStep name s
      → InStep name (left_by (ban_ticket answer now ticket d s))
  unfolding ban_ticket left_by
  ban_ticket-InStep now ticket d s h =
      after now (get_ban_time (wrap_ban ticket) s.ban_manager.ban_time) (wrap_ban ticket) d s
        (add_ban_ticket now (wrap_ban ticket) s.ban_manager) h
        (add_ban_ticket-Reported now (wrap_ban ticket) s.ban_manager h.owned)

  pub check_tickets-InStep :
      (now : ℤ) (ts : List (Ticket K)) (cnt : ℕ) (d : Dict N Action) (s : Actions N K)
      → InStep name s
      → InStep name (left_by (check_tickets answer now ts cnt d s))
  unfolding check_tickets left_by
  check_tickets-InStep now [] cnt d s h = h
  check_tickets-InStep now (t ∷ ts) cnt d s h =
      let next = ban_ticket-InStep now t d s h in
      elim (Outcome-cases (ban_ticket answer now t d s)) [
        | inl (r, s', e) ↦
            rw (check_tickets, e)
              (check_tickets-InStep now ts (cnt + r.0) r.1 s' (rw (e, left_by) at next))
        | inr (s', e) ↦ rw (check_tickets, e) (rw (e, left_by) at next)
      ]

  -- Taking tickets off the queue concerns no action.
  with_queue :
      (q : List (Ticket K)) (s : Actions N K) → InStep name s → InStep name (record s { queue = q })
  with_queue q s h = record {
    plain = h.plain;
    unique = h.unique;
    distinct = h.distinct;
    owned = h.owned;
    told = h.told;
  }

  pub check_queue-InStep :
      (now : ℤ) (count cnt : ℕ) (d : Dict N Action) (s : Actions N K)
      → InStep name s
      → InStep name (left_by (check_queue answer now count cnt d s))
  unfolding check_queue left_by
  check_queue-InStep now zero cnt d s h = h
  check_queue-InStep now (suc count) cnt d s h = elim (List-cases s.queue) [
    | inl empty ↦ rw (check_queue, empty) h
    | inr (t, ts, e) ↦
        let next = ban_ticket-InStep now t d (record s { queue = ts }) (with_queue ts s h) in
        elim (Outcome-cases (ban_ticket answer now t d (record s { queue = ts }))) [
          | inl (r, s', e') ↦
              rw (check_queue, e, e')
                (check_queue-InStep now count (cnt + r.0) r.1 s' (rw (e', left_by) at next))
          | inr (s', e') ↦ rw (check_queue, e, e') (rw (e', left_by) at next)
        ]
  ]

  pub prolong_ban-InStep :
      (t : Ticket K) (s : Actions N K) → InStep name s → InStep name (prolong_ban answer t s)
  unfolding prolong_ban
  prolong_ban-InStep t s h = elim (Bool-cases (in_ban_list s.ban_manager t)) [
    | inl there ↦ rw (there) (call_all-InStep answer name _ (prolong t) s.actions s (λ id. refl) h)
    | inr gone ↦ rw (gone) h
  ]
