-- ===== src/Actions/Told/Unban.antt =====
-- `__unBan` and `__checkUnBan` of fail2ban/server/actions.py keep the actions in step with the ban
-- list.
use fail2ban.Common.{ℕ, ◌≡◌, refl, sym, ap, ◌∙◌, false, some, List, [], ◌∷◌, arith, if◌then◌else◌}
use mathlib.Core.Path.{subst}
use fail2ban.Common.Int.{ℤ}
use fail2ban.Common.Dict.{Key, Dict, lookup, contains, values, Distinct}
use fail2ban.Common.Dict.Entries.{Entries, Entries-map, lookup-Entries, keep-Entries}
use fail2ban.Common.Dict.Sweep.{contains-keep, keep-Distinct}
use fail2ban.Ticket.{Ticket}
use fail2ban.BanManager.{BanManager, un_ban_list}
use fail2ban.BanManager.Unban.{un_ban_list_gone}
use fail2ban.Actions.{Actions, Action, Answer, Call, unban, call_action}
use fail2ban.Actions.Unbans.{un_ban, un_ban_all, check_un_ban}
use fail2ban.Actions.Told.{
  banned_by, IsPlain, call_all_inv, call_all_told, call_action_keeps, call_action-IsPlain,
  call_action-Distinct,
}
use fail2ban.Actions.Told.Keep.{InStep}

module _ {N K : Type 0} ⦃name_key : Key N⦄ ⦃ban_key : Key K⦄
    (answer : List (N × Call K) → N → Call K → Answer) where
  -- What every unban keeps, all unbans keep.
  pub un_ban_all_inv :
      (P : Actions N K → Type 0) (acts : Dict N Action) (ts : List (Ticket K)) (s : Actions N K)
      → ((n : N) (t : Ticket K) (s : Actions N K) → P s → P (call_action answer n (unban t) s))
      → P s
      → P (un_ban_all answer acts ts s)
  unfolding un_ban_all un_ban
  un_ban_all_inv P acts [] s each h = h
  un_ban_all_inv P acts (t ∷ ts) s each h =
      un_ban_all_inv P acts ts (un_ban answer acts t s) each
        (call_all_inv answer P (λ a. false) (unban t) acts s (λ n. each n t) h)

  pub un_ban_all_told :
      (name : N) (id : K) (a : Action) (acts : Dict N Action) (gone : Dict K (Ticket K))
      (s : Actions N K)
      → Distinct acts
      → lookup name acts ≡ some a
      → Entries (λ k t. t.id ≡ k) gone
      → banned_by name id (un_ban_all answer acts (values gone) s).calls
        ≡ (if contains id gone then false else banned_by name id s.calls)
  unfolding un_ban_all un_ban
  un_ban_all_told name id a acts [] s unique found owned = refl
  un_ban_all_told name id a acts (e ∷ gone) s unique found owned =
      let one = call_all_told answer name id (λ a. false) (unban e.1) a acts s unique found refl in
      let rest =
        un_ban_all_told name id a acts gone (un_ban answer acts e.1 s) unique found owned.1 in
      let own : e.1.id ≡ e.0 = owned.0 in ground (arith, rest, one, own)

  -- All that a list of unbans needs to end in step: the ids that the ban list holds are those
  -- the action was told, without those to unban.
  pub un_ban_all-InStep :
      (name : N) (acts : Dict N Action) (a : Action) (gone : Dict K (Ticket K)) (s : Actions N K)
      → IsPlain name s.actions
      → Distinct s.actions
      → Distinct s.ban_manager.ban_list
      → Entries (λ k t. t.id ≡ k) s.ban_manager.ban_list
      → Distinct acts
      → lookup name acts ≡ some a
      → Entries (λ k t. t.id ≡ k) gone
      → ((id : K)
          → contains id s.ban_manager.ban_list
            ≡ (if contains id gone then false else banned_by name id s.calls))
      → InStep name (un_ban_all answer acts (values gone) s)
  un_ban_all-InStep name acts a gone s plain unique distinct owned single found known left =
      let inv =
        λ (P : Actions N K → Type 0)
            (keeps : (n : N) (t : Ticket K) (s : Actions N K)
              → P s
              → P (call_action answer n (unban t) s))
            (h : P s).
          un_ban_all_inv P acts (values gone) s keeps h in
      let manager : (un_ban_all answer acts (values gone) s).ban_manager ≡ s.ban_manager =
        inv (λ x. x.ban_manager ≡ s.ban_manager)
          (λ n t x e. (call_action_keeps answer n (unban t) x).0 ∙ e) refl in
      record {
        plain =
            inv (λ x. IsPlain name x.actions)
              (λ n t x e. call_action-IsPlain answer name n (unban t) x e) plain;
        unique =
            inv (λ x. Distinct x.actions) (λ n t x e. call_action-Distinct answer n (unban t) x e)
              unique;
        distinct = rw manager distinct;
        owned = rw manager owned;
        told = λ id.
            un_ban_all_told name id a acts gone s single found known
            ∙ sym (ap (λ (m : BanManager K). contains id m.ban_list) manager ∙ left id);
      }

  pub check_un_ban-InStep :
      (name : N) (now : ℤ) (max_count : ℕ) (s : Actions N K)
      → InStep name s
      → InStep name (check_un_ban answer now max_count s).1
  unfolding check_un_ban
  check_un_ban-InStep name now max_count s h =
      let r = un_ban_list now max_count s.ban_manager in
      let d = s.ban_manager.ban_list in
      let owns = λ (k : K) (t : Ticket K). t.id ≡ k in
      let (gone, out, from, few, rest) = un_ban_list_gone now max_count s.ban_manager h.distinct in
      let (a, found, all, single) = h.plain in
      subst (λ ts. InStep name (un_ban_all answer s.actions ts (record s { ban_manager = r.0 })))
        (sym out)
        (un_ban_all-InStep name s.actions a gone (record s { ban_manager = r.0 }) h.plain h.unique
          (rw rest (keep-Distinct _ d h.distinct)) (rw rest (keep-Entries owns _ d h.owned))
          h.unique found
          (Entries-map _ owns (λ k t e. lookup-Entries owns k t d h.owned e.0) gone from)
          (λ id.
            ap (contains id) rest
            ∙ contains-keep id gone d
            ∙ ap (λ b. if contains id gone then false else b) (sym (h.told id))))
