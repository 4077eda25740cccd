-- ===== src/Actions/Unbans.antt =====
-- Ending bans: `__unBan`, `__checkUnBan`, `__flushBan`, `removeBannedIP` and `reload` of
-- fail2ban/server/actions.py.
use Prim.Native.String.{String}
use fail2ban.Common.{
  ℕ, zero, suc, ◌+◌, Bool, true, false, not, Option, none, some, List, [], ◌∷◌, ◌++◌, ◌==◌,
  if◌then◌else◌, keep, length,
}
use fail2ban.Common.Int.{ℤ}
use fail2ban.Common.Dict.{Key, Dict, keys, contains}
use fail2ban.Ticket.{Ticket}
use fail2ban.BanManager.{un_ban_list, flush_ban_list, get_ticket_by_id}
use fail2ban.Actions.{
  Actions, Action, Answer, Call, unban, flush, check, reload, Outcome, returned, raised,
  call_action, call_all, stop_actions,
}

module _ {N K : Type 0} where
  -- `database.delBan`, of an id or of the jail
  unfoldable pub delete_ban : Bool → Option K → Actions N K → Actions N K
  delete_ban db id s = elim s.deleted [
    | none ↦ s
    | some ids ↦ if db then record s { deleted = some (ids ++ (id ∷ [])) } else s
  ]

module _ {N K : Type 0} ⦃name_key : Key N⦄ ⦃ban_key : Key K⦄
    (answer : List (N × Call K) → N → Call K → Answer) where
  -- `__unBan`
  unfoldable pub un_ban : Dict N Action → Ticket K → Actions N K → Actions N K
  un_ban acts t s = call_all answer (λ a. false) (unban t) acts s

  -- `for ticket in lst: self.__unBan(ticket, ...)`
  unfoldable pub un_ban_all : Dict N Action → List (Ticket K) → Actions N K → Actions N K
  un_ban_all acts [] s = s
  un_ban_all acts (t ∷ ts) s = un_ban_all acts ts (un_ban acts t s)

  -- `__checkUnBan`: the tickets are unbanned by all actions, which no unban adds or removes.
  unfoldable pub check_un_ban : ℤ → ℕ → Actions N K → ℕ × Actions N K
  check_un_ban now max_count s =
      let r = un_ban_list now max_count s.ban_manager in
      (length r.1, un_ban_all s.actions r.1 (record s { ban_manager = r.0 }))

  -- One action in `__flushBan`: whether it still is to unban each ticket singly
  unfoldable pub flush_one : N × Action → Actions N K → Outcome N K Bool
  flush_one e s =
      let called = call_action answer e.0 flush s in
      let checked = call_action answer e.0 check called in
      if not e.1.can_flush
      then returned true s
      else if (answer s.calls e.0 flush).ok
      then returned (not (answer s.calls e.0 flush).value) called
      else if e.1.can_check
      then (if (answer called.calls e.0 check).ok then returned false checked else raised checked)
      else returned true called

  -- The loop of `__flushBan` over the actions, with the actions for single unbans so far
  unfoldable pub flush_each :
      Dict N Action → Dict N Action → Actions N K → Outcome N K (Dict N Action)
  flush_each [] singles s = returned singles s
  flush_each (e ∷ d) singles s = elim (flush_one e s) [
    | raised s' ↦ raised s'
    | returned single s' ↦ flush_each d (if single then singles ++ (e ∷ []) else singles) s'
  ]

  -- `__flushBan`; `none` stands for all actions, and flushes the ban list too.
  unfoldable pub flush_ban : Bool → Option (Dict N Action) → Actions N K → Outcome N K ℕ
  flush_ban db only s =
      let lst = (flush_ban_list s.ban_manager).1 in
      let s' : Actions N K = elim only [
        | none ↦ record s { ban_manager = (flush_ban_list s.ban_manager).0 }
        | some _ ↦ s
      ] in
      let acts : Dict N Action = elim only [ none ↦ s.actions | some d ↦ d ] in
      elim (flush_each acts [] s') [
        | raised s'' ↦ raised s''
        | returned singles s'' ↦
            returned (length lst) (un_ban_all singles lst (delete_ban db none s''))
      ]

  -- `reload(begin=True)`
  unfoldable pub begin_reload : Actions N K → Actions N K
  begin_reload s = record s { reloading = some [] }

  -- `reload(begin=False)`: the loop over the actions to reload
  unfoldable pub reload_each :
      Dict N (List (String × String)) → Actions N K → Outcome N K (Unit {0})
  reload_each [] s = returned tt s
  reload_each (e ∷ d) s =
      let rest = reload_each d (call_action answer e.0 (reload e.1) s) in
      let missing = reload_each d s in
      if contains e.0 s.actions
      then (if (answer s.calls e.0 (reload e.1)).ok
          then rest
          else raised (call_action answer e.0 (reload e.1) s))
      else missing

  -- The removal of the actions that were not named again
  unfoldable pub remove_obsolete :
      Dict N (List (String × String)) → Actions N K → Outcome N K (Unit {0})
  remove_obsolete touched s =
      let obsolete = keep (λ e. not (contains e.0 touched)) s.actions in
      if length obsolete == 0
      then returned tt (record s { reloading = none })
      else elim (flush_ban false (some obsolete) s) [
        | raised s' ↦ raised s'
        | returned _ s' ↦
            returned tt (record (stop_actions answer obsolete s') { reloading = none })
      ]

  unfoldable pub end_reload : Actions N K → Outcome N K (Unit {0})
  end_reload s = elim s.reloading [
    | none ↦ returned tt s
    | some touched ↦ elim (reload_each touched s) [
      | raised s' ↦ raised s'
      | returned _ s' ↦ remove_obsolete touched s'
    ]
  ]

  -- `removeBannedIP` of one id; `covers` is `none` for an `IPAddr` or the text of a single address,
  -- and else tells which ids the network or name contains. `none` is the `ValueError`. The ids of
  -- the second call are in the ban list, so `depth` 1 is enough.
  module _ (covers : K → Option (K → Bool)) (db if_exists : Bool) where
    -- The loop over several ids, by a function for one id
    unfoldable pub remove_each :
        (K → Actions N K → Option ℕ × Actions N K)
        → List K
        → ℕ
        → Bool
        → Actions N K
        → Option ℕ × Actions N K
    remove_each remove [] cnt missed s = (if missed then none else some cnt, s)
    remove_each remove (id ∷ ids) cnt missed s =
        let r = remove id s in
        elim r.0 [
          | none ↦ remove_each remove ids cnt (if if_exists then missed else true) r.1
          | some n ↦ remove_each remove ids (cnt + n) missed r.1
        ]

    -- One id, by a function for the ids that a network or name stands for
    unfoldable pub remove_one :
        (List K → Actions N K → Option ℕ × Actions N K) → K → Actions N K → Option ℕ × Actions N K
    remove_one several id s =
        let s' = delete_ban db (some id) s in
        let r = get_ticket_by_id id s'.ban_manager in
        let s'' = record s' { ban_manager = r.0 } in
        let missing : Option ℕ = if if_exists then some 0 else none in
        elim r.1 [
          | some t ↦ (some 1, un_ban s''.actions t s'')
          | none ↦ elim (covers id) [
            | none ↦ (missing, s'')
            | some p ↦
                let ids = keep p (keys s''.ban_manager.ban_list) in
                if length ids == 0 then (missing, s'') else several ids s''
          ]
        ]

    unfoldable pub remove_banned : ℕ → K → Actions N K → Option ℕ × Actions N K
    remove_banned zero id s = remove_one (λ ids s'. (if if_exists then some 0 else none, s')) id s
    remove_banned (suc n) id s =
        remove_one (λ ids s'. remove_each (remove_banned n) ids 0 false s') id s
