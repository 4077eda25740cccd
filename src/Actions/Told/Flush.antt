-- ===== src/Actions/Told/Flush.antt =====
-- `__flushBan` of fail2ban/server/actions.py keeps an action that cannot flush in step with the ban
-- list.
use fail2ban.Common.{
  ℕ, ◌≡◌, ◌≢◌, refl, ap, ◌∙◌, Bool, true, false, none, some, List, [], ◌∷◌, ◌++◌, ite, arith, inl,
  inr, Bool-cases, if◌then◌else◌,
}
use mathlib.Core.Path.{subst}
use fail2ban.Common.Dict.{
  Key, Dict, lookup, contains, values, erase, Distinct, erase-Distinct, lookup-erase_ne,
}
use fail2ban.Common.Dict.Entries.{Entries}
use fail2ban.Ticket.{Ticket}
use fail2ban.BanManager.{BanManager, flush_ban_list}
use fail2ban.Actions.{
  Actions, Action, Answer, Call, unban, flush, check, call_action, Outcome, Outcome-cases, returned,
  raised, left_by,
}
use fail2ban.Actions.Unbans.{un_ban_all, delete_ban, flush_one, flush_each, flush_ban}
use fail2ban.Actions.Told.{
  effect, banned_by, IsPlain, call_action_keeps, call_action-IsPlain, call_action-Distinct,
}
use fail2ban.Actions.Told.Keep.{InStep, ite_same}
use fail2ban.Actions.Told.Unban.{un_ban_all-InStep, un_ban_all_inv}
use fail2ban.Actions.Told.Remove.{delete_ban_keeps}

module _ {κ} {K : Type 0} {V : Type κ} ⦃key : Key K⦄ where
  lookup-middle :
      (d : Dict K V) (e : K × V) (d' : Dict K V)
      → Distinct (d ++ (e ∷ d'))
      → lookup e.0 (d ++ (e ∷ d')) ≡ some e.1
  lookup-middle [] e d' h = ground arith
  lookup-middle (f ∷ d) e d' h = ground (arith, lookup-middle d e d' h.1)

  erase-middle :
      (d : Dict K V) (e : K × V) (d' : Dict K V)
      → Distinct (d ++ (e ∷ d'))
      → erase e.0 (d ++ (e ∷ d')) ≡ d ++ d'
  erase-middle [] e d' h = ground arith
  erase-middle (f ∷ d) e d' h = ground (arith, erase-middle d e d' h.1, lookup-middle d e d' h.1)

  append-nil : (d : Dict K V) → d ++ [] ≡ d
  append-nil [] = refl
  append-nil (e ∷ d) = ap (◌∷◌ e) (append-nil d)

  append-snoc : (d : Dict K V) (e : K × V) (d' : Dict K V) → d ++ (e ∷ d') ≡ (d ++ (e ∷ [])) ++ d'
  append-snoc [] e d' = refl
  append-snoc (f ∷ d) e d' = ap (◌∷◌ f) (append-snoc d e d')

no_more : (b b' : Bool) → b' ≡ b → false ≡ (if b then false else b')
no_more b b' h = ground arith

module _ {N K : Type 0} ⦃name_key : Key N⦄ ⦃ban_key : Key K⦄
    (answer : List (N × Call K) → N → Call K → Answer) (name : N) (a : Action) where
  -- The action stands in a dict of actions for single unbans, which names none twice.
  abbrev IsSingle : Dict N Action → Type 0
  IsSingle d = Distinct d × (lookup name d ≡ some a)

  -- An action that can flush is another one.
  drop-IsSingle :
      (singles : Dict N Action) (e : N × Action) (d : Dict N Action)
      → a.can_flush ≡ false
      → e.1.can_flush ≡ true
      → IsSingle (singles ++ (e ∷ d))
      → IsSingle (singles ++ d)
  drop-IsSingle singles e d no_flush flushes (unique, found) =
      let there = lookup-middle singles e d unique in
      let gone = erase-middle singles e d unique in
      let other : name ≢ e.0 = λ same. absurd (cc) in
      (
        subst Distinct gone (erase-Distinct e.0 (singles ++ (e ∷ d)) unique),
        subst (λ d. lookup name d ≡ some a) gone
            (lookup-erase_ne name e.0 (singles ++ (e ∷ d)) other ∙ found),
      )

  -- A property that flushing and checking keep
  module _ (P : Actions N K → Type 0)
      (on_flush : (n : N) (s : Actions N K) → P s → P (call_action answer n flush s))
      (on_check : (n : N) (s : Actions N K) → P s → P (call_action answer n check s)) where
    -- What the loop leaves, where it does not fail
    Flushed : Outcome N K (Dict N Action) → Type 0
    Flushed (returned singles s) = IsSingle singles × P s
    Flushed (raised s) = Unit

    -- What one action leaves; only an action that can flush is done.
    FlushedOne : N × Action → Outcome N K Bool → Type 0
    FlushedOne e (returned single s) = (single ≡ false → e.1.can_flush ≡ true) × P s
    FlushedOne e (raised s) = Unit

    flush_one-FlushedOne :
        (e : N × Action) (s : Actions N K) → P s → FlushedOne e (flush_one answer e s)
    unfolding FlushedOne flush_one
    flush_one-FlushedOne e s h =
        let called = call_action answer e.0 flush s in
        let checked = call_action answer e.0 check called in
        let h' = on_flush e.0 s h in
        let h'' = on_check e.0 called h' in
        elim (Bool-cases e.1.can_flush) [
          | inr never ↦ rw (flush_one, never) ((λ b. absurd (cc)), h)
          | inl flushes ↦ elim (Bool-cases (answer s.calls e.0 flush).ok) [
            | inl fine ↦ rw (flush_one, flushes, fine) ((λ b. refl), h')
            | inr failed ↦ elim (Bool-cases e.1.can_check) [
              | inl checks ↦ elim (Bool-cases (answer called.calls e.0 check).ok) [
                | inl sane ↦ rw (flush_one, flushes, failed, checks, sane) ((λ b. refl), h'')
                | inr broken ↦ rw (flush_one, flushes, failed, checks, broken) tt
              ]
              | inr no_check ↦ rw (flush_one, flushes, failed, no_check) ((λ b. refl), h')
            ]
          ]
        ]

    flush_each-Flushed :
        (d singles : Dict N Action) (s : Actions N K)
        → a.can_flush ≡ false
        → IsSingle (singles ++ d)
        → P s
        → Flushed (flush_each answer d singles s)
    unfolding Flushed flush_each FlushedOne
    flush_each-Flushed [] singles s no_flush single h =
        (subst IsSingle (append-nil singles) single, h)
    flush_each-Flushed (e ∷ d) singles s no_flush single h =
        let one = flush_one-FlushedOne e s h in
        elim (Outcome-cases (flush_one answer e s)) [
          | inr (s', failed) ↦ rw (flush_each, failed) tt
          | inl (true, s', called) ↦
              rw (flush_each, called)
                (flush_each-Flushed d (singles ++ (e ∷ [])) s' no_flush
                  (subst IsSingle (append-snoc singles e d) single)
                  (rw (called, FlushedOne) at one).1)
          | inl (false, s', called) ↦
              rw (flush_each, called)
                (flush_each-Flushed d singles s' no_flush
                  (drop-IsSingle singles e d no_flush ((rw (called, FlushedOne) at one).0 refl)
                    single)
                  (rw (called, FlushedOne) at one).1)
        ]

  -- The flushed list is empty, and the action is as before.
  Emptied : Dict K (Ticket K) → Actions N K → Type 0
  Emptied d s =
      IsPlain name s.actions
      × Distinct s.actions
      × (s.ban_manager.ban_list ≡ [])
      × ((id : K) → banned_by name id s.calls ≡ contains id d)

  call_action-Emptied :
      (d : Dict K (Ticket K)) (c : Call K) (n : N) (s : Actions N K)
      → ((id : K) (b : Bool) → effect id c b ≡ b)
      → Emptied d s
      → Emptied d (call_action answer n c s)
  unfolding Emptied
  call_action-Emptied d c n s neutral (plain, unique, empty, told) =
      let kept = call_action_keeps answer n c s in
      (
        call_action-IsPlain answer name n c s plain,
        call_action-Distinct answer n c s unique,
        ap (λ (m : BanManager K). m.ban_list) kept.0 ∙ empty,
        λ id.
            ap (banned_by name id) kept.1
            ∙ ap (λ b. ite (name_key.same name n) b (banned_by name id s.calls))
                (neutral id (banned_by name id s.calls))
            ∙ ite_same (name_key.same name n) _ _ refl
            ∙ told id,
      )

  after_loop :
      (db : Bool) (d : Dict K (Ticket K)) (singles : Dict N Action) (s : Actions N K)
      → Entries (λ k t. t.id ≡ k) d
      → IsSingle singles
      → Emptied d s
      → let s' = un_ban_all answer singles (values d) (delete_ban db none s) in
        InStep name s' × (s'.ban_manager.ban_list ≡ [])
  unfolding Emptied
  after_loop db d singles s owned single (plain, unique, empty, told) =
      let s' = delete_ban db none s in
      let (actions, calls, manager) = delete_ban_keeps db none s in
      let empty' : s'.ban_manager.ban_list ≡ [] = rw manager empty in
      (
        un_ban_all-InStep answer name singles a d s' (rw actions plain) (rw actions unique)
            (rw empty' tt) (rw empty' tt) single.0 single.1 owned
            (λ id.
              ap (contains id) empty'
              ∙ no_more (contains id d) _ (ap (banned_by name id) calls ∙ told id)),
        un_ban_all_inv answer (λ x. x.ban_manager.ban_list ≡ []) singles (values d) s'
            (λ n t x e.
              ap (λ (m : BanManager K). m.ban_list) (call_action_keeps answer n (unban t) x).0 ∙ e)
            empty',
      )

  -- `__flushBan` of all bans, unless a check fails that follows a failed flush
  pub flush_ban-InStep :
      (db : Bool) (s : Actions N K) (cnt : ℕ) (s' : Actions N K)
      → lookup name s.actions ≡ some a
      → a.can_flush ≡ false
      → InStep name s
      → flush_ban answer db none s ≡ returned cnt s'
      → InStep name s' × (s'.ban_manager.ban_list ≡ [])
  unfolding flush_ban flush_ban_list Flushed Emptied left_by
  flush_ban-InStep db s cnt s' found no_flush h e =
      let d = s.ban_manager.ban_list in
      let start' = record s { ban_manager = record s.ban_manager { ban_list = [] } } in
      let loop =
        flush_each-Flushed (Emptied d) (λ n s. call_action-Emptied d flush n s (λ id b. refl))
          (λ n s. call_action-Emptied d check n s (λ id b. refl)) s.actions [] start' no_flush
          (h.unique, found) (h.plain, h.unique, refl, h.told) in
      elim (Outcome-cases (flush_each answer s.actions [] start')) [
        | inr (s'', failed) ↦ absurd (cc)
        | inl (singles, s'', done) ↦
            let ends =
              after_loop db d singles s'' h.owned (rw (done, Flushed) at loop).0
                (rw (done, Flushed) at loop).1 in
            let same = ap left_by (rw (flush_ban, done) at e) in
            subst (λ s. InStep name s × (s.ban_manager.ban_list ≡ [])) same ends
      ]
