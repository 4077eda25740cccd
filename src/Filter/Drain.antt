-- ===== src/Filter/Drain.antt =====
-- `performBan` of fail2ban/server/filter.py without an id: the loop over the failure list.
use mathlib.Core.List.{append_assoc, append-nil}
use mathlib.Core.Logic.{if_neg, if_pos}
use fail2ban.Common.{
  ℕ, zero, suc, ◌≤◌, ◌<◌, ◌≡◌, refl, sym, ap, ◌∙◌, true, false, Option, none, some, List, [], ◌∷◌,
  ◌++◌, length, arith, ltb, leb, keep, inl, inr, Bool-cases, ◌≢◌, Option-cases,
}
use fail2ban.Common.Dict.{Key, Dict, values, lookup, erase, Distinct, lookup-erase-none}
use fail2ban.Ticket.{Ticket}
use fail2ban.FailManager.{to_ban, first_to_ban, ban_candidates}
use fail2ban.Filter.{Filter, ban_loop, put_fail_ticket}

module _ {K : Type 0} ⦃key : Key K⦄ where
  -- The tickets that the loop takes out of a list, and what it leaves.
  drain : ℕ → ℕ → Dict K (Ticket K) → List (Ticket K) × Dict K (Ticket K)
  drain max_retry zero d = ([], d)
  drain max_retry (suc n) d = elim (first_to_ban max_retry d) [
    | none ↦ ([], d)
    | some e ↦ let r = drain max_retry n (erase e.0 d) in (e.1 ∷ r.0, r.1)
  ]

  drain-none :
      (max_retry n : ℕ) (d : Dict K (Ticket K))
      → first_to_ban max_retry d ≡ none
      → drain max_retry (suc n) d ≡ ([], d)
  unfolding drain
  drain-none m n d h = rw (drain, h) refl

  drain-some :
      (max_retry n : ℕ) (d : Dict K (Ticket K)) (e : K × Ticket K)
      → first_to_ban max_retry d ≡ some e
      → drain max_retry (suc n) d
        ≡ (e.1 ∷ (drain max_retry n (erase e.0 d)).0, (drain max_retry n (erase e.0 d)).1)
  unfolding drain
  drain-some m n d e h = rw (drain, h) refl

  -- What the loop makes of a filter, given what is taken out and what is left.
  drained : List (Ticket K) × Dict K (Ticket K) → Filter K → Filter K
  drained r f = record f {
    queue = f.queue ++ r.0;
    fail_manager = record f.fail_manager { fail_list = r.1 };
  }

  first : Filter K → Option (K × Ticket K)
  first f = first_to_ban f.fail_manager.max_retry f.fail_manager.fail_list

  loop_none : (n : ℕ) (f : Filter K) → first f ≡ none → ban_loop (suc n) f ≡ f
  unfolding ban_loop to_ban ban_candidates first
  loop_none n f h = rw (ban_loop, to_ban, ban_candidates, h) refl

  loop_some :
      (n : ℕ) (f : Filter K) (e : K × Ticket K)
      → first f ≡ some e
      → ban_loop (suc n) f ≡ ban_loop n (drained (e.1 ∷ [], erase e.0 f.fail_manager.fail_list) f)
  unfolding ban_loop to_ban ban_candidates put_fail_ticket first drained
  loop_some n f e h = rw (ban_loop, to_ban, ban_candidates, h) refl

  ban_loop-drain :
      (n : ℕ) (f : Filter K)
      → ban_loop n f ≡ drained (drain f.fail_manager.max_retry n f.fail_manager.fail_list) f
  unfolding drained first drain ban_loop
  ban_loop-drain zero f = ap (λ q. record f { queue = q }) (sym (append-nil f.queue))
  ban_loop-drain (suc n) f = elim (Option-cases (first f)) [
    | inl over ↦
        loop_none n f over
        ∙ ap (λ q. record f { queue = q }) (sym (append-nil f.queue))
        ∙ ap (λ r. drained r f)
            (sym (drain-none f.fail_manager.max_retry n f.fail_manager.fail_list over))
    | inr (e, found) ↦
        let f' = drained (e.1 ∷ [], erase e.0 f.fail_manager.fail_list) f in
        let r = drain f.fail_manager.max_retry n (erase e.0 f.fail_manager.fail_list) in
        loop_some n f e found
        ∙ ban_loop-drain n f'
        ∙ ap (λ q. record f { queue = q; fail_manager = record f.fail_manager { fail_list = r.1 } })
            (append_assoc f.queue (e.1 ∷ []) r.0)
        ∙ ap (λ r. drained r f)
            (sym (drain-some f.fail_manager.max_retry n f.fail_manager.fail_list e found))
  ]

  first_to_ban_other :
      (max_retry : ℕ) (k : K) (e : K × Ticket K) (d : Dict K (Ticket K))
      → first_to_ban max_retry d ≡ some e
      → lookup k d ≡ none
      → e.0 ≢ k
  unfolding first_to_ban
  first_to_ban_other m k e [] h g = absurd (cc)
  first_to_ban_other m k e (x ∷ d) h g = ground (arith, first_to_ban_other m k e d)

  first_to_ban_below :
      (max_retry : ℕ) (e : K × Ticket K) (d : Dict K (Ticket K))
      → e.1.retry < max_retry
      → first_to_ban max_retry (e ∷ d) ≡ first_to_ban max_retry d
  unfolding first_to_ban
  first_to_ban_below m e d h = ground arith

  drain-cons :
      (max_retry n : ℕ) (e : K × Ticket K) (d : Dict K (Ticket K))
      → e.1.retry < max_retry
      → lookup e.0 d ≡ none
      → drain max_retry n (e ∷ d) ≡ ((drain max_retry n d).0, e ∷ (drain max_retry n d).1)
  unfolding drain
  drain-cons m zero e d h g = refl
  drain-cons m (suc n) e d h g =
      let skip : first_to_ban m (e ∷ d) ≡ first_to_ban m d = first_to_ban_below m e d h in
      elim (Option-cases (first_to_ban m d)) [
        | inl over ↦
            drain-none m n (e ∷ d) (skip ∙ over)
            ∙ ap (λ r. (r.0, e ∷ r.1)) (sym (drain-none m n d over))
        | inr (x, found) ↦
            drain-some m n (e ∷ d) x (skip ∙ found)
            ∙ ap (λ d'. (x.1 ∷ (drain m n d').0, (drain m n d').1))
                (if_neg (key.same x.0 e.0) (first_to_ban_other m e.0 x d found g) d
                  (e ∷ erase x.0 d))
            ∙ ap (λ r. (x.1 ∷ r.0, r.1))
                (drain-cons m n e (erase x.0 d) h (lookup-erase-none e.0 x.0 d g))
            ∙ ap (λ r. (r.0, e ∷ r.1)) (sym (drain-some m n d x found))
      ]

  -- The two parts that a list is split into: the tickets that have reached the limit, and the others.
  split : ℕ → Dict K (Ticket K) → List (Ticket K) × Dict K (Ticket K)
  split max_retry d =
      (values (keep (λ e. leb max_retry e.1.retry) d), keep (λ e. ltb e.1.retry max_retry) d)

  split_reached :
      (max_retry : ℕ) (e : K × Ticket K) (d : Dict K (Ticket K))
      → leb max_retry e.1.retry ≡ true
      → (e.1 ∷ (split max_retry d).0, (split max_retry d).1) ≡ split max_retry (e ∷ d)
  unfolding split
  split_reached m e d h = let other : ltb e.1.retry m ≡ false = ground arith in rw (h, other) refl

  split_below :
      (max_retry : ℕ) (e : K × Ticket K) (d : Dict K (Ticket K))
      → leb max_retry e.1.retry ≡ false
      → ((split max_retry d).0, e ∷ (split max_retry d).1) ≡ split max_retry (e ∷ d)
  unfolding split
  split_below m e d h = let other : ltb e.1.retry m ≡ true = ground arith in rw (h, other) refl

  drain-split :
      (max_retry n : ℕ) (d : Dict K (Ticket K))
      → Distinct d
      → length d ≤ n
      → drain max_retry n d ≡ split max_retry d
  unfolding split drain first_to_ban
  drain-split m zero [] h g = refl
  drain-split m (suc n) [] h g = refl
  drain-split m zero (e ∷ d) h g = absurd (omega arith)
  drain-split m (suc n) (e ∷ d) h g = elim (Bool-cases (leb m e.1.retry)) [
    | inl reached ↦
        let here : first_to_ban m (e ∷ d) ≡ some e = ground arith in
        drain-some m n (e ∷ d) e here
        ∙ ap (λ d'. (e.1 ∷ (drain m n d').0, (drain m n d').1))
            (if_pos (key.same e.0 e.0) refl d (e ∷ erase e.0 d))
        ∙ ap (λ r. (e.1 ∷ r.0, r.1)) (drain-split m n d h.1 (omega arith))
        ∙ split_reached m e d reached
    | inr below ↦
        drain-cons m (suc n) e d (ground arith) h.0
        ∙ ap (λ r. (r.0, e ∷ r.1)) (drain-split m (suc n) d h.1 (omega arith))
        ∙ split_below m e d below
  ]

  -- Without an id, the loop of `performBan` moves exactly the tickets that have reached the limit from
  -- a failure list without duplicate ids into the queue, in the order of the list and behind what was
  -- in the queue, and leaves the others in their order. Any number of rounds that is at least the
  -- number of tickets gives this same result.
  pub ban_loop_moves :
      (rounds : ℕ) (f : Filter K)
      → Distinct f.fail_manager.fail_list
      → length f.fail_manager.fail_list ≤ rounds
      → ban_loop rounds f ≡ record f {
        queue =
            f.queue
            ++ values (keep (λ e. leb f.fail_manager.max_retry e.1.retry) f.fail_manager.fail_list);
        fail_manager = record f.fail_manager {
          fail_list = keep (λ e. ltb e.1.retry f.fail_manager.max_retry) f.fail_manager.fail_list;
        };
      }
  unfolding drained split
  ban_loop_moves rounds f h enough =
      ban_loop-drain rounds f
      ∙ ap (λ r. drained r f)
          (drain-split f.fail_manager.max_retry rounds f.fail_manager.fail_list h enough)
