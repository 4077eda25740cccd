-- ===== src/Actions/Bans.antt =====
-- Banning: `__checkBan`, `__reBan` and `_prolongBan` of fail2ban/server/actions.py.
use fail2ban.Common.{
  ℕ, zero, suc, ◌+◌, Bool, true, false, not, ◌&&◌, none, some, List, [], ◌∷◌, ◌++◌, ltb, ◌==◌,
  if◌then◌else◌, keep, length,
}
use fail2ban.Common.Int.{ℤ, pos, ◌+ℤ◌, ◌-ℤ◌, ltb_ℤ}
use fail2ban.Common.Dict.{Key, Dict, insert}
use fail2ban.Ticket.{Ticket, wrap_ban, get_ban_time, restored, banned, set_banned}
use fail2ban.BanManager.{BanManager, Added, added, expired, already, add_ban_ticket, in_ban_list}
use fail2ban.Actions.{
  Actions, Action, Answer, Call, ban, reban, prolong, check, Outcome, returned, raised, call_action,
  call_all, call_each,
}

module _ {N K : Type 0} where
  -- `Observers.Main.add('banFound', ...)`
  unfoldable pub observe_ban : Ticket K → ℤ → Actions N K → Actions N K
  observe_ban t btime s = elim s.observed [
    | none ↦ s
    | some ts ↦ if restored t then s else record s { observed = some (ts ++ ((t, btime) ∷ [])) }
  ]

module _ {N : Type 0} where
  -- `actions or self._actions`
  abbrev pub actions_or : Dict N Action → Dict N Action → Dict N Action
  actions_or [] others = others
  actions_or (e ∷ d) others = e ∷ d

module _ {N K : Type 0} ⦃ban_key : Key K⦄ where
  -- `ticket.banned = True`, and the ban epoch of the jail, unless that is 0
  unfoldable pub mark_banned : Ticket K → Actions N K → Actions N K
  mark_banned t s =
      let epoch = if s.ban_epoch == 0 then t.ban_epoch else s.ban_epoch in
      record s {
        ban_manager = record s.ban_manager {
          ban_list =
              insert t.id (record (set_banned true t) { ban_epoch = epoch }) s.ban_manager.ban_list;
        };
      }

module _ {N K : Type 0} ⦃name_key : Key N⦄ ⦃ban_key : Key K⦄
    (answer : List (N × Call K) → N → Call K → Answer) where
  -- The loop of `__reBan`: the first action that fails ends it.
  unfoldable pub reban_each : Ticket K → Dict N Action → Actions N K → Bool × Actions N K
  reban_each t [] s = (true, s)
  reban_each t (e ∷ d) s =
      let rest = reban_each t d (call_action answer e.0 (reban t) s) in
      if (answer s.calls e.0 (reban t)).ok
      then rest
      else (false, call_action answer e.0 (reban t) s)

  -- `__reBan`
  unfoldable pub re_ban : Ticket K → Dict N Action → Actions N K → ℕ × Actions N K
  re_ban t acts s =
      let r = reban_each t (actions_or acts s.actions) s in
      if r.0 then (1, mark_banned t r.1) else (0, r.1)

  -- `__checkBan` for a ticket that was added to the ban list
  unfoldable pub ban_added : Ticket K → ℤ → Actions N K → Actions N K
  ban_added t btime s =
      mark_banned t (
        call_all answer (λ a. restored t && a.no_restored) (ban t) s.actions
          (observe_ban t btime s))

  -- The consistency check of an already banned ticket. Where `__checkBan` has chosen actions to
  -- reban before, or the last check is not 3 seconds ago, it is left out.
  unfoldable pub check_consistency :
      ℤ → ℤ → Ticket K → Dict N Action → Actions N K → Outcome N K (Unit {0})
  check_consistency now diftm old rebanacts s =
      if (old.ban_epoch == s.ban_epoch)
        && ltb_ℤ (pos 3) diftm
        && (length rebanacts == 0)
        && ltb_ℤ (s.last_check_tm +ℤ pos 3) now
      then call_each answer (λ a. not a.can_check) check s.actions
          (record s { last_check_tm = now })
      else returned tt s

  -- A ticket that is listed: `old` is the listed ticket. The result is the number of bans, with the
  -- actions chosen to reban.
  unfoldable pub ban_again :
      ℤ → ℤ → Ticket K → Dict N Action → Actions N K → Outcome N K (ℕ × Dict N Action)
  ban_again now diftm old rebanacts s =
      if banned old
      then elim (check_consistency now diftm old rebanacts s) [
        | raised s' ↦ raised s'
        | returned _ s' ↦
            if ltb old.ban_epoch s'.ban_epoch
            then (let acts =
                  actions_or rebanacts (keep (λ e. ltb old.ban_epoch e.1.ban_epoch) s'.actions) in
                let r = re_ban old acts s' in returned (r.0, acts) r.1)
            else returned (0, rebanacts) s'
      ]
      else let r = re_ban old [] s in returned (r.0, rebanacts) r.1

  -- What `__checkBan` does with the answer of `addBanTicket`
  unfoldable pub ban_reported :
      ℤ
      → ℤ
      → Ticket K
      → Dict N Action
      → BanManager K × Added K
      → Actions N K
      → Outcome N K (ℕ × Dict N Action)
  ban_reported now btime t rebanacts (m, added new) s =
      returned (1, rebanacts) (ban_added new btime (record s { ban_manager = m }))
  ban_reported now btime t rebanacts (m, expired) s =
      returned (0, rebanacts) (record s { ban_manager = m })
  ban_reported now btime t rebanacts (m, already old prolonged) s =
      ban_again now (t.time -ℤ old.time) old rebanacts (record s { ban_manager = m })

  -- A round of the loop of `__checkBan`
  unfoldable pub ban_ticket :
      ℤ → Ticket K → Dict N Action → Actions N K → Outcome N K (ℕ × Dict N Action)
  ban_ticket now ticket rebanacts s =
      let t = wrap_ban ticket in
      ban_reported now (get_ban_time t s.ban_manager.ban_time) t rebanacts
        (add_ban_ticket now t s.ban_manager) s

  -- `__checkBan` with tickets, after `cnt` bans
  unfoldable pub check_tickets :
      ℤ → List (Ticket K) → ℕ → Dict N Action → Actions N K → Outcome N K ℕ
  check_tickets now [] cnt rebanacts s = returned cnt s
  check_tickets now (t ∷ ts) cnt rebanacts s = elim (ban_ticket now t rebanacts s) [
    | raised s' ↦ raised s'
    | returned r s' ↦ check_tickets now ts (cnt + r.0) r.1 s'
  ]

  -- `__checkBan` with the tickets of the queue, of which `__getFailTickets` takes at most `count`
  unfoldable pub check_queue : ℤ → ℕ → ℕ → Dict N Action → Actions N K → Outcome N K ℕ
  check_queue now zero cnt rebanacts s = returned cnt s
  check_queue now (suc count) cnt rebanacts s = elim s.queue [
    | [] ↦ returned cnt s
    | t ∷ ts ↦ elim (ban_ticket now t rebanacts (record s { queue = ts })) [
      | raised s' ↦ raised s'
      | returned r s' ↦ check_queue now count (cnt + r.0) r.1 s'
    ]
  ]

  -- `__checkBan()`
  unfoldable pub check_ban : ℤ → Actions N K → Outcome N K ℕ
  check_ban now s = check_queue now s.ban_precedence 0 [] s

  -- The loop of `_prolongBan`
  unfoldable pub prolong_ban : Ticket K → Actions N K → Actions N K
  prolong_ban t s =
      if in_ban_list s.ban_manager t
      then call_all answer (λ a. if restored t && a.no_restored then true else not a.is_prolongable)
          (prolong t) s.actions s
      else s
