-- ===== src/Filter/Attempt.antt =====
-- What one counted attempt does in fail2ban/server/filter.py: `addAttempt` and the loop of
-- `processLineAndAdd`.
use fail2ban.Common.{
  ℕ, ◌≤◌, ◌<◌, ◌≡◌, refl, ap, ◌∙◌, true, false, none, some, [], ◌∷◌, ◌++◌, arith, ltb, leb,
  if◌then◌else◌, inl, inr, Option-cases,
}
use fail2ban.Common.Int.{ℤ, pos, ◌≤ℤ◌, ◌-ℤ◌, ltb_ℤ}
use fail2ban.Common.Dict.{
  Key, lookup, insert, erase, Distinct, erase-Distinct, lookup-erase_self, lookup-insert_self,
}
use fail2ban.Common.Dict.Sweep.{lookup-keep-none}
use fail2ban.Ticket.{Ticket, is_ban_ticket, Inc, done, key_error, set_retry}
use fail2ban.FailManager.{
  FailManager, add_failure, add_missing, add_known, end_known, count_failure, to_ban, first_to_ban,
  ban_candidates, cleanup,
}
use fail2ban.FailManager.Keys.{IsValid, add_failure-IsValid}
use fail2ban.FailManager.Cleanup.{cleanup-keep}
use fail2ban.Filter.{
  Filter, count_attempt, perform_ban, perform_svc, ban_one, observe, put_fail_ticket,
}

module _ {K : Type 0} ⦃key : Key K⦄ where
  -- The ticket of an id that was counted, with the attempts that were returned
  abbrev pub Counted : K → ℕ → FailManager K × ℕ → Type 0
  Counted k n r =
      (g : Ticket K) × (lookup k r.0.fail_list ≡ some g) × (g.retry ≡ r.1) × (r.0.max_retry ≡ n)

  count_failure-Counted :
      (k : K) (g : Ticket K) (m : FailManager K) → Counted k m.max_retry (count_failure k g m)
  unfolding count_failure
  count_failure-Counted k g m = (g, lookup-insert_self k g m.fail_list, refl, refl)

  add_missing-Counted :
      (m : FailManager K) (t : Ticket K) (count : ℕ)
      → is_ban_ticket t ≡ false
      → Counted t.id m.max_retry (add_missing m t count false)
  unfolding add_missing
  add_missing-Counted m t count h =
      rw (h, add_missing)
        (count_failure-Counted t.id (if ltb t.failures count then set_retry count t else t) m)

  end_known-Counted :
      (m : FailManager K) (t : Ticket K) (count : ℕ) (r : Inc K)
      → is_ban_ticket t ≡ false
      → Counted t.id m.max_retry (end_known m t count false r)
  unfolding end_known
  end_known-Counted m t count (done g) h = count_failure-Counted t.id _ m
  end_known-Counted m t count (key_error g) h =
      add_missing-Counted (record m { fail_list = insert t.id g m.fail_list }) t count h

  add_failure-Counted :
      (m : FailManager K) (t : Ticket K) (count : ℕ)
      → is_ban_ticket t ≡ false
      → Counted t.id m.max_retry (add_failure m t count false)
  unfolding add_failure add_known
  add_failure-Counted m t count h = elim (Option-cases (lookup t.id m.fail_list)) [
    | inl missing ↦ rw (missing, add_failure) (add_missing-Counted m t count h)
    | inr (g, known) ↦ rw (known, add_failure) (end_known-Counted m t count _ h)
  ]

  to_ban_listed :
      (k : K) (g : Ticket K) (m : FailManager K)
      → lookup k m.fail_list ≡ some g
      → m.max_retry ≤ g.retry
      → to_ban (some k) m ≡ some (g, record m { fail_list = erase k m.fail_list })
  unfolding to_ban ban_candidates first_to_ban
  to_ban_listed k g m listed reached =
      let test : leb m.max_retry g.retry ≡ true = ground arith in
      rw (to_ban, ban_candidates, listed, test) refl

  cleanup-lookup-none :
      (now : ℤ) (m : FailManager K) (k : K)
      → Distinct m.fail_list
      → lookup k m.fail_list ≡ none
      → lookup k (cleanup now m).fail_list ≡ none
  cleanup-lookup-none now m k h absent =
      ap (λ (m' : FailManager K). lookup k m'.fail_list) (cleanup-keep now m h)
      ∙ lookup-keep-none k (λ e. ltb_ℤ (now -ℤ pos m.max_time) e.1.time) m.fail_list absent

  -- The service run and the report to the observer, seen from the queue and the failure list.
  perform_svc_keeps :
      (now : ℤ) (k : K) (f : Filter K)
      → Distinct f.fail_manager.fail_list
      → lookup k f.fail_manager.fail_list ≡ none
      → let f' = perform_svc now false f in
        (f'.queue ≡ f.queue) × (lookup k f'.fail_manager.fail_list ≡ none)
  unfolding perform_svc
  perform_svc_keeps now k f h absent =
      ground (arith, cleanup-lookup-none now f.fail_manager k h absent)

  observe_keeps :
      (t : Ticket K) (f : Filter K)
      → ((observe t f).queue ≡ f.queue) × ((observe t f).fail_manager ≡ f.fail_manager)
  unfolding observe
  observe_keeps t f = elim (Option-cases f.observed) [
    | inl nobody ↦ rw (nobody, observe) (refl, refl)
    | inr (ts, there) ↦ rw (there, observe) (refl, refl)
  ]

  ban_one_listed :
      (k : K) (g : Ticket K) (f : Filter K)
      → lookup k f.fail_manager.fail_list ≡ some g
      → f.fail_manager.max_retry ≤ g.retry
      → ban_one k f ≡ record f {
        queue = f.queue ++ (g ∷ []);
        fail_manager = record f.fail_manager { fail_list = erase k f.fail_manager.fail_list };
      }
  unfolding ban_one put_fail_ticket
  ban_one_listed k g f listed reached =
      rw (ban_one, to_ban_listed k g f.fail_manager listed reached) refl

  pub perform_ban_listed :
      (now : ℤ) (k : K) (g : Ticket K) (f : Filter K)
      → Distinct f.fail_manager.fail_list
      → lookup k f.fail_manager.fail_list ≡ some g
      → f.fail_manager.max_retry ≤ g.retry
      → let f' = perform_ban now (some k) f in
        (f'.queue ≡ f.queue ++ (g ∷ [])) × (lookup k f'.fail_manager.fail_list ≡ none)
  unfolding perform_ban
  perform_ban_listed now k g f h listed reached =
      let d = f.fail_manager.fail_list in
      rw (ban_one_listed k g f listed reached)
        (perform_svc_keeps now k _ (erase-Distinct k d h) (lookup-erase_self k d h))

  count_attempt-eq :
      (now : ℤ) (count : ℕ) (t : Ticket K) (f : Filter K)
      → let r = add_failure f.fail_manager t count false in
        let counted = record f { fail_manager = r.0 } in
        count_attempt now count t f
        ≡ observe t (if leb r.0.max_retry r.1 then perform_ban now (some t.id) counted else counted)
  unfolding count_attempt
  count_attempt-eq now count t f = refl

  -- An attempt of a `FailTicket` that reaches the limit, on a valid failure list: the ticket that is
  -- counted under its id, with the attempts that `addFailure` returned, is put behind the queue, one
  -- ticket and no other, and the id is no longer on the failure list, whether or not the service run
  -- cleans it up.
  pub count_attempt_bans :
      (now : ℤ) (count : ℕ) (t : Ticket K) (f : Filter K)
      → IsValid f.fail_manager
      → t.first_time ≤ℤ t.time
      → is_ban_ticket t ≡ false
      → f.fail_manager.max_retry ≤ (add_failure f.fail_manager t count false).1
      → let r = add_failure f.fail_manager t count false in
        let f' = count_attempt now count t f in
        (g : Ticket K) × (lookup t.id r.0.fail_list ≡ some g)
        × (g.retry ≡ r.1)
        × (f'.queue ≡ f.queue ++ (g ∷ []))
        × (lookup t.id f'.fail_manager.fail_list ≡ none)
  count_attempt_bans now count t f valid ordered class reached =
      let r = add_failure f.fail_manager t count false in
      let (g, listed, attempts, limit) = add_failure-Counted f.fail_manager t count class in
      let counted = record f { fail_manager = r.0 } in
      let still = (add_failure-IsValid f.fail_manager t count false valid ordered).distinct in
      let result = perform_ban_listed now t.id g counted still listed (omega arith) in
      let test : leb r.0.max_retry r.1 ≡ true = ground arith in
      let kept = observe_keeps t (perform_ban now (some t.id) counted) in
      let step : count_attempt now count t f ≡ observe t (perform_ban now (some t.id) counted) =
        count_attempt-eq now count t f
        ∙ ap (λ b. observe t (if b then perform_ban now (some t.id) counted else counted)) test in
      (
        g,
        listed,
        attempts,
        ap (λ (x : Filter K). x.queue) step ∙ kept.0 ∙ result.0,
        ap (λ (x : Filter K). lookup t.id x.fail_manager.fail_list) step
            ∙ ap (λ (m : FailManager K). lookup t.id m.fail_list) kept.1
            ∙ result.1,
      )

  -- An attempt of a `FailTicket` that stays below the limit puts nothing into the queue, and of the
  -- failure list it changes only what `addFailure` changes.
  pub count_attempt_waits :
      (now : ℤ) (count : ℕ) (t : Ticket K) (f : Filter K)
      → is_ban_ticket t ≡ false
      → (add_failure f.fail_manager t count false).1 < f.fail_manager.max_retry
      → let f' = count_attempt now count t f in
        (f'.queue ≡ f.queue) × (f'.fail_manager ≡ (add_failure f.fail_manager t count false).0)
  count_attempt_waits now count t f class below =
      let r = add_failure f.fail_manager t count false in
      let (g, listed, attempts, limit) = add_failure-Counted f.fail_manager t count class in
      let counted = record f { fail_manager = r.0 } in
      let test : leb r.0.max_retry r.1 ≡ false = ground arith in
      let kept = observe_keeps t counted in
      let step : count_attempt now count t f ≡ observe t counted =
        count_attempt-eq now count t f
        ∙ ap (λ b. observe t (if b then perform_ban now (some t.id) counted else counted)) test in
      (
        ap (λ (x : Filter K). x.queue) step ∙ kept.0,
        ap (λ (x : Filter K). x.fail_manager) step ∙ kept.1,
      )
