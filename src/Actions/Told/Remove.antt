-- ===== src/Actions/Told/Remove.antt =====
-- `removeBannedIP` and `__flushBan` of fail2ban/server/actions.py keep the actions in step with the
-- ban list.
use fail2ban.Common.{
  ℕ, zero, suc, ◌+◌, ◌≡◌, refl, ap, Bool, false, Option, none, some, List, [], ◌∷◌, arith, inl, inr,
  Bool-cases, Option-cases, keep, length, ◌==◌,
}
use fail2ban.Common.Dict.{
  Key, Dict, lookup, keys, erase, erase-Distinct, lookup-erase_self, lookup-erase_ne,
}
use fail2ban.Common.Dict.Entries.{erase-Entries, lookup-Entries}
use fail2ban.Ticket.{Ticket}
use fail2ban.BanManager.{BanManager, get_ticket_by_id}
use fail2ban.Actions.{Actions, Answer, Call}
use fail2ban.Actions.Unbans.{un_ban, un_ban_all, delete_ban, remove_each, remove_one, remove_banned}
use fail2ban.Actions.Told.Keep.{InStep}
use fail2ban.Actions.Told.Unban.{un_ban_all-InStep}

module _ {N K : Type 0} where
  pub delete_ban_keeps :
      (db : Bool) (id : Option K) (s : Actions N K)
      → ((delete_ban db id s).actions ≡ s.actions)
        × ((delete_ban db id s).calls ≡ s.calls)
        × ((delete_ban db id s).ban_manager ≡ s.ban_manager)
  unfolding delete_ban
  delete_ban_keeps db id s = elim (Option-cases s.deleted) [
    | inl nobody ↦ rw (delete_ban, nobody) (refl, refl, refl)
    | inr (ids, there) ↦ elim (Bool-cases db) [
      | inl asked ↦ rw (delete_ban, there, asked) (refl, refl, refl)
      | inr not_asked ↦ rw (delete_ban, there, not_asked) (refl, refl, refl)
    ]
  ]

module _ {N K : Type 0} ⦃name_key : Key N⦄ ⦃ban_key : Key K⦄
    (answer : List (N × Call K) → N → Call K → Answer) (name : N) where
  -- The invariant reads the actions, the calls and the ban list.
  same-InStep :
      (s s' : Actions N K)
      → s'.actions ≡ s.actions
      → s'.calls ≡ s.calls
      → s'.ban_manager ≡ s.ban_manager
      → InStep name s
      → InStep name s'
  same-InStep s s' actions calls manager h = record {
    plain = rw actions h.plain;
    unique = rw actions h.unique;
    distinct = rw manager h.distinct;
    owned = rw manager h.owned;
    told = λ id. rw (calls, manager) (h.told id);
  }

  delete_ban-InStep :
      (db : Bool) (id : Option K) (s : Actions N K)
      → InStep name s
      → InStep name (delete_ban db id s)
  delete_ban-InStep db id s h =
      let kept = delete_ban_keeps db id s in
      same-InStep s (delete_ban db id s) kept.0 kept.1 kept.2 h

  -- Taking one ticket off the list, and unbanning it
  un_ban_one-InStep :
      (id : K) (t : Ticket K) (s : Actions N K)
      → lookup id s.ban_manager.ban_list ≡ some t
      → InStep name s
      → InStep name (
          un_ban answer s.actions t (record s {
            ban_manager = record s.ban_manager { ban_list = erase id s.ban_manager.ban_list };
          }))
  unfolding un_ban_all
  un_ban_one-InStep id t s there h =
      let (a, found, all, single) = h.plain in
      let d = s.ban_manager.ban_list in
      let own : t.id ≡ id = lookup-Entries (λ k t. t.id ≡ k) id t d h.owned there in
      let m : BanManager K = record s.ban_manager { ban_list = erase id d } in
      un_ban_all-InStep answer name s.actions a ((id, t) ∷ []) (record s { ban_manager = m })
        h.plain h.unique (erase-Distinct id d h.distinct)
        (erase-Entries (λ k t. t.id ≡ k) id d h.owned) h.unique found (own, tt)
        (λ j. elim (ban_key.same j id) [
          | yes same ↦ rw same (ground (arith, lookup-erase_self id d h.distinct))
          | no other ↦ ground (arith, lookup-erase_ne j id d other, h.told j)
        ])

  erase_missing : (id : K) (d : Dict K (Ticket K)) → lookup id d ≡ none → erase id d ≡ d
  erase_missing id [] h = refl
  erase_missing id (e ∷ d) h = ground (arith, erase_missing id d)

  module _ (covers : K → Option (K → Bool)) (db if_exists : Bool) where
    remove_each-InStep :
        (remove : K → Actions N K → Option ℕ × Actions N K)
        → ((id : K) (s : Actions N K) → InStep name s → InStep name (remove id s).1)
        → (ids : List K) (cnt : ℕ) (missed : Bool) (s : Actions N K) → InStep name s
        → InStep name (remove_each answer covers db if_exists remove ids cnt missed s).1
    unfolding remove_each
    remove_each-InStep remove each [] cnt missed s h = h
    remove_each-InStep remove each (id ∷ ids) cnt missed s h =
        let r = remove id s in
        elim (Option-cases r.0) [
          | inl failed ↦
              rw (remove_each, failed) (remove_each-InStep remove each ids cnt _ r.1 (each id s h))
          | inr (n, found) ↦
              rw (remove_each, found)
                (remove_each-InStep remove each ids (cnt + n) missed r.1 (each id s h))
        ]

    remove_one-InStep :
        (several : List K → Actions N K → Option ℕ × Actions N K)
        → ((ids : List K) (s : Actions N K) → InStep name s → InStep name (several ids s).1)
        → (id : K) (s : Actions N K) → InStep name s
        → InStep name (remove_one answer covers db if_exists several id s).1
    unfolding remove_one get_ticket_by_id
    remove_one-InStep several all id s h =
        let s' = delete_ban db (some id) s in
        let d = s'.ban_manager.ban_list in
        let h' = delete_ban-InStep db (some id) s h in
        let missed = λ (e : lookup id d ≡ none).
          same-InStep s'
            (record s' { ban_manager = record s'.ban_manager { ban_list = erase id d } }) refl refl
            (ap (λ (l : Dict K (Ticket K)). record s'.ban_manager { ban_list = l })
              (erase_missing id d e))
            h' in
        elim (Option-cases (lookup id d)) [
          | inr (t, found) ↦ rw (remove_one, found) (un_ban_one-InStep id t s' found h')
          | inl missing ↦ elim (Option-cases (covers id)) [
            | inl single ↦ rw (remove_one, missing, single) (missed missing)
            | inr (p, wide) ↦ elim (Bool-cases (length (keep p (keys (erase id d))) == 0)) [
              | inl nothing ↦ rw (remove_one, missing, wide, nothing) (missed missing)
              | inr some_ids ↦ rw (remove_one, missing, wide, some_ids) (all _ _ (missed missing))
            ]
          ]
        ]

    pub remove_banned-InStep :
        (depth : ℕ) (id : K) (s : Actions N K)
        → InStep name s
        → InStep name (remove_banned answer covers db if_exists depth id s).1
    unfolding remove_banned
    remove_banned-InStep zero id s h = remove_one-InStep _ (λ ids s h. h) id s h
    remove_banned-InStep (suc n) id s h =
        remove_one-InStep _
          (λ ids s h.
            remove_each-InStep _ (λ id s h. remove_banned-InStep n id s h) ids 0 false s h)
          id s h
