-- ===== src/Actions/Told/Keep.antt =====
-- The invariant that ties what an action of fail2ban/server/actions.py was told to the ban list.
use fail2ban.Common.{
  ◌≡◌, refl, sym, ap, ◌∙◌, Bool, true, some, List, [], ◌∷◌, ite, arith, inl, inr, Bool-cases,
}
use mathlib.Core.Path.{subst}
use fail2ban.Common.Dict.{
  Key, Dict, lookup, contains, insert, Distinct, lookup-insert_self, lookup-insert_ne,
}
use fail2ban.Common.Dict.Entries.{Entries}
use fail2ban.BanManager.{BanManager}
use fail2ban.Actions.{Actions, Action, Answer, Call, call_action, call_all, call_each, left_by}
use fail2ban.Actions.Told.{
  effect, banned_by, IsPlain, call_action-IsPlain, call_action-Distinct, call_action_keeps,
  call_all_inv,
}

-- An action and the ban list agree on which ids are banned.
pub record InStep {N K : Type 0} ⦃name_key : Key N⦄ ⦃ban_key : Key K⦄ (name : N) (s : Actions N K)
    : Type 0 where
  pub plain : IsPlain name s.actions
  pub unique : Distinct s.actions
  pub distinct : Distinct s.ban_manager.ban_list
  pub owned : Entries (λ k t. t.id ≡ k) s.ban_manager.ban_list
  pub told : (id : K) → banned_by name id s.calls ≡ contains id s.ban_manager.ban_list

module _ {K V : Type 0} ⦃key : Key K⦄ where
  pub contains-insert :
      (j k : K) (v : V) (d : Dict K V)
      → contains j (insert k v d) ≡ ite (key.same j k) true (contains j d)
  contains-insert j k v d =
      elim (key.same j k) as (λ x. contains j (insert k v d) ≡ ite x true (contains j d)) [
        | yes same ↦
            let found : lookup j (insert k v d) ≡ some v = rw same (lookup-insert_self k v d) in
            ground arith
        | no other ↦ ground (arith, lookup-insert_ne j k v d other)
      ]

pub ite_same : {P A : Type 0} (d : Dec P) (x y : A) → x ≡ y → ite d x y ≡ y
ite_same (yes p) x y h = h
ite_same (no p) x y h = refl

module _ {N K : Type 0} ⦃name_key : Key N⦄ ⦃ban_key : Key K⦄
    (answer : List (N × Call K) → N → Call K → Answer) (name : N) where
  -- A call that changes nothing about the listed ids
  abbrev pub IsNeutral : Call K → BanManager K → Type 0
  IsNeutral c m = (id : K) → effect id c (contains id m.ban_list) ≡ contains id m.ban_list

  pub call_action-InStep :
      (n : N) (c : Call K) (s : Actions N K)
      → IsNeutral c s.ban_manager
      → InStep name s
      → InStep name (call_action answer n c s)
  call_action-InStep n c s neutral h =
      let kept = call_action_keeps answer n c s in
      record {
        plain = call_action-IsPlain answer name n c s h.plain;
        unique = call_action-Distinct answer n c s h.unique;
        distinct = rw kept.0 h.distinct;
        owned = rw kept.0 h.owned;
        told = λ id.
            ap (banned_by name id) kept.1
            ∙ ap (λ b. ite (name_key.same name n) (effect id c b) b) (h.told id)
            ∙ ite_same (name_key.same name n) _ _ (neutral id)
            ∙ sym (ap (λ (m : BanManager K). contains id m.ban_list) kept.0);
      }

  -- The invariant, with the ban list fixed
  abbrev pub InStepAt : BanManager K → Actions N K → Type 0
  InStepAt m s = InStep name s × (s.ban_manager ≡ m)

  pub call_action-InStepAt :
      (n : N) (c : Call K) (m : BanManager K) (s : Actions N K)
      → IsNeutral c m
      → InStepAt m s
      → InStepAt m (call_action answer n c s)
  call_action-InStepAt n c m s neutral h = (
    call_action-InStep n c s (subst (IsNeutral c) (sym h.1) neutral) h.0,
    (call_action_keeps answer n c s).0 ∙ h.1,
  )

  pub call_all-InStep :
      (skip : Action → Bool) (c : Call K) (d : Dict N Action) (s : Actions N K)
      → IsNeutral c s.ban_manager
      → InStep name s
      → InStep name (call_all answer skip c d s)
  call_all-InStep skip c d s neutral h =
      (call_all_inv answer (InStepAt s.ban_manager) skip c d s
        (λ n s' h'. call_action-InStepAt n c s.ban_manager s' neutral h') (h, refl)).0

  pub call_each-InStepAt :
      (skip : Action → Bool) (c : Call K) (d : Dict N Action) (m : BanManager K) (s : Actions N K)
      → IsNeutral c m
      → InStepAt m s
      → InStepAt m (left_by (call_each answer skip c d s))
  unfolding call_each left_by
  call_each-InStepAt skip c [] m s neutral h = h
  call_each-InStepAt skip c (e ∷ d) m s neutral h =
      let next = call_action-InStepAt e.0 c m s neutral h in
      elim (Bool-cases (skip e.1)) [
        | inl skipped ↦ rw (skipped) (call_each-InStepAt skip c d m s neutral h)
        | inr called ↦ elim (Bool-cases (answer s.calls e.0 c).ok) [
          | inl fine ↦
              rw (called, fine)
                (call_each-InStepAt skip c d m (call_action answer e.0 c s) neutral next)
          | inr failed ↦ rw (called, failed) next
        ]
      ]
