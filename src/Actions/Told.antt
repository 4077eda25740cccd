-- ===== src/Actions/Told.antt =====
-- What the actions of fail2ban/server/actions.py have been told: the ids that an action was last
-- called to ban, read off the calls.
pub mod Keep
pub mod Ban
pub mod Check
pub mod Unban
pub mod Remove
pub mod Flush
pub mod History
pub mod Stop
use fail2ban.Common.{
  ℕ, zero, suc, ◌+◌, ◌≡◌, ◌≢◌, refl, sym, ap, ◌∙◌, Bool, true, false, not, ◌&&◌, Option, none, some,
  List, [], ◌∷◌, ite, arith, inl, inr, Bool-cases, Option-cases, if◌then◌else◌,
}
use mathlib.Core.Path.{subst}
use mathlib.Core.Logic.{if_pos, if_neg}
use fail2ban.Common.Dict.{
  Key, Dict, lookup, contains, insert, Distinct, insert-Distinct, lookup-insert_self,
  lookup-insert_ne,
}
use fail2ban.Ticket.{Ticket}
use fail2ban.Actions.{
  Actions, Action, Answer, Call, start, stop, flush, check, clear_params, ban, reban, unban,
  prolong, reload, invalidate_ban_epoch, invalidate_times, call_action, call_unless, call_all,
  call_each, left_by, Outcome, returned, raised,
}

module _ {K : Type 0} ⦃ban_key : Key K⦄ where
  -- What a call makes of whether an id is banned
  abbrev pub effect : K → Call K → Bool → Bool
  effect id (ban t) b = ite (ban_key.same id t.id) true b
  effect id (reban t) b = ite (ban_key.same id t.id) true b
  effect id (unban t) b = ite (ban_key.same id t.id) false b
  effect id (prolong t) b = b
  effect id (reload opts) b = b
  effect id start b = b
  effect id stop b = b
  effect id flush b = b
  effect id check b = b
  effect id clear_params b = b

module _ {N K : Type 0} ⦃name_key : Key N⦄ ⦃ban_key : Key K⦄ where
  -- Whether the last call of an action about an id bans it; the newest call stands first.
  abbrev pub banned_by : N → K → List (N × Call K) → Bool
  banned_by name id [] = false
  banned_by name id (x ∷ log) =
      ite (name_key.same name x.0) (effect id x.1 (banned_by name id log)) (banned_by name id log)

module _ {N : Type 0} ⦃name_key : Key N⦄ where
  -- An action that is called for every ban and for every unban: it takes restored tickets too, and
  -- cannot flush all its bans at once.
  abbrev pub IsPlain : N → Dict N Action → Type 0
  IsPlain name d =
      (a : Action) × (lookup name d ≡ some a) × (a.no_restored ≡ false) × (a.can_flush ≡ false)

module _ {N K : Type 0} ⦃name_key : Key N⦄ ⦃ban_key : Key K⦄
    (answer : List (N × Call K) → N → Call K → Answer) where
  set_epoch-IsPlain :
      (name n : N) (epoch : ℕ) (b : Action) (d : Dict N Action)
      → lookup n d ≡ some b
      → IsPlain name d
      → IsPlain name (insert n (record b { ban_epoch = epoch }) d)
  set_epoch-IsPlain name n epoch b d there (a, found, all, single) = elim (name_key.same name n) [
    | yes same ↦
        let one : b ≡ a = ground arith in
        (
          record b { ban_epoch = epoch },
          rw same (lookup-insert_self n _ d),
          ground arith,
          ground arith,
        )
    | no other ↦ (a, lookup-insert_ne name n _ d other ∙ found, all, single)
  ]

  -- What a change of an epoch keeps, a call keeps.
  invalidate_times-actions :
      (P : Dict N Action → Type 0) (n : N) (count : ℕ) (s : Actions N K)
      → ((epoch : ℕ) (b : Action) (d : Dict N Action)
          → lookup n d ≡ some b
          → P d
          → P (insert n (record b { ban_epoch = epoch }) d))
      → P s.actions
      → P (invalidate_times n count s).actions
  unfolding invalidate_times invalidate_ban_epoch
  invalidate_times-actions P n zero s changed h = h
  invalidate_times-actions P n (suc count) s changed h =
      invalidate_times-actions P n count (invalidate_ban_epoch n s) changed
        (elim (Option-cases (lookup n s.actions)) [
          | inl missing ↦ rw (invalidate_ban_epoch, missing) h
          | inr (b, found) ↦ rw (invalidate_ban_epoch, found) (changed _ b s.actions found h)
        ])

  invalidate_times_keeps :
      (n : N) (count : ℕ) (s : Actions N K)
      → ((invalidate_times n count s).ban_manager ≡ s.ban_manager)
        × ((invalidate_times n count s).calls ≡ s.calls)
  unfolding invalidate_times invalidate_ban_epoch
  invalidate_times_keeps n zero s = (refl, refl)
  invalidate_times_keeps n (suc count) s = invalidate_times_keeps n count (invalidate_ban_epoch n s)

  pub call_action-actions :
      (P : Dict N Action → Type 0) (n : N) (c : Call K) (s : Actions N K)
      → ((epoch : ℕ) (b : Action) (d : Dict N Action)
          → lookup n d ≡ some b
          → P d
          → P (insert n (record b { ban_epoch = epoch }) d))
      → P s.actions
      → P (call_action answer n c s).actions
  unfolding call_action
  call_action-actions P n c s changed h = invalidate_times-actions P n _ _ changed h

  pub call_action-IsPlain :
      (name n : N) (c : Call K) (s : Actions N K)
      → IsPlain name s.actions
      → IsPlain name (call_action answer n c s).actions
  call_action-IsPlain name n c s h =
      call_action-actions (IsPlain name) n c s
        (λ epoch b d found h'. set_epoch-IsPlain name n epoch b d found h') h

  pub call_action-Distinct :
      (n : N) (c : Call K) (s : Actions N K)
      → Distinct s.actions
      → Distinct (call_action answer n c s).actions
  call_action-Distinct n c s h =
      call_action-actions Distinct n c s (λ epoch b d found h'. insert-Distinct n _ d h') h

  pub call_action_keeps :
      (n : N) (c : Call K) (s : Actions N K)
      → ((call_action answer n c s).ban_manager ≡ s.ban_manager)
        × ((call_action answer n c s).calls ≡ (n, c) ∷ s.calls)
  unfolding call_action
  call_action_keeps n c s = invalidate_times_keeps n _ _

  -- What every call keeps, a loop keeps.
  pub call_all_inv :
      (P : Actions N K → Type 0) (skip : Action → Bool) (c : Call K) (d : Dict N Action)
      (s : Actions N K)
      → ((n : N) (s : Actions N K) → P s → P (call_action answer n c s))
      → P s
      → P (call_all answer skip c d s)
  unfolding call_all call_unless
  call_all_inv P skip c [] s keep h = h
  call_all_inv P skip c (e ∷ d) s keep h =
      call_all_inv P skip c d (call_unless answer skip c e s) keep
        (elim (skip e.1) as (λ b. P (if b then s else call_action answer e.0 c s)) [
          | true ↦ h
          | false ↦ keep e.0 s h
        ])

  call_unless_other :
      (name : N) (id : K) (skip : Action → Bool) (c : Call K) (e : N × Action) (s : Actions N K)
      → name ≢ e.0
      → banned_by name id (call_unless answer skip c e s).calls ≡ banned_by name id s.calls
  unfolding call_unless
  call_unless_other name id skip c e s other = elim (Bool-cases (skip e.1)) [
    | inl skipped ↦ rw (skipped) refl
    | inr called ↦ rw (called) (
        ap (banned_by name id) (call_action_keeps e.0 c s).1
        ∙ if_neg (name_key.same name e.0) other _ _)
  ]

  call_unless_called :
      (name : N) (id : K) (skip : Action → Bool) (c : Call K) (e : N × Action) (s : Actions N K)
      → name ≡ e.0
      → skip e.1 ≡ false
      → banned_by name id (call_unless answer skip c e s).calls
        ≡ effect id c (banned_by name id s.calls)
  unfolding call_unless
  call_unless_called name id skip c e s same called = rw (called) (
      ap (banned_by name id) (call_action_keeps e.0 c s).1
      ∙ if_pos (name_key.same name e.0) same _ _)

  -- A loop calls no action that is not one of its own.
  pub call_all_others :
      (name : N) (id : K) (skip : Action → Bool) (c : Call K) (d : Dict N Action) (s : Actions N K)
      → lookup name d ≡ none
      → banned_by name id (call_all answer skip c d s).calls ≡ banned_by name id s.calls
  unfolding call_all
  call_all_others name id skip c [] s h = refl
  call_all_others name id skip c (e ∷ d) s h =
      let other : name ≢ e.0 = ground arith in
      call_all_others name id skip c d (call_unless answer skip c e s) (ground arith)
      ∙ call_unless_other name id skip c e s other

  -- A loop over actions calls an action once, if the action is one of them and is not skipped.
  pub call_all_told :
      (name : N) (id : K) (skip : Action → Bool) (c : Call K) (a : Action) (d : Dict N Action)
      (s : Actions N K)
      → Distinct d
      → lookup name d ≡ some a
      → skip a ≡ false
      → banned_by name id (call_all answer skip c d s).calls
        ≡ effect id c (banned_by name id s.calls)
  unfolding call_all
  call_all_told name id skip c a [] s unique found called = absurd (cc)
  call_all_told name id skip c a (e ∷ d) s unique found called = elim (name_key.same name e.0) [
    | yes same ↦
        let one : skip e.1 ≡ false = ground arith in
        let rest : lookup name d ≡ none = rw same unique.0 in
        call_all_others name id skip c d (call_unless answer skip c e s) rest
        ∙ call_unless_called name id skip c e s same one
    | no other ↦
        call_all_told name id skip c a d (call_unless answer skip c e s) unique.1 (ground arith)
          called
        ∙ ap (effect id c) (call_unless_other name id skip c e s other)
  ]
