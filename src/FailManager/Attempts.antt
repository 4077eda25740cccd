-- ===== src/FailManager/Attempts.antt =====
-- What `FailManager.addFailure` of fail2ban/server/failmanager.py counts and returns.
use fail2ban.Common.{
  ℕ, ◌+◌, ◌≡◌, ◌≢◌, refl, Bool, false, none, some, List, [], ◌∷◌, inl, inr, arith, Option-cases,
  ltb, if◌then◌else◌, ◌||◌, ◌∙◌,
}
use fail2ban.Common.Dict.{Key, lookup, insert, lookup-insert_self, lookup-insert_ne}
use fail2ban.Ticket.{
  Ticket, Line, adjust_time, inc, get_matches, set_matches, set_retry, Inc, done, key_error,
  is_ban_ticket, extend_matches,
}
use fail2ban.FailManager.{
  FailManager, add_failure, add_missing, add_known, end_known, count_failure, truncate_matches,
  new_matches, new_attempt, is_same,
}
use mathlib.Core.Option
use fail2ban.Common.Int.{ℤ}
use Prim.Native.String.{String}

module _ {K : Type 0} where
  retry-set_matches : (ls : List Line) (t : Ticket K) → (set_matches ls t).retry ≡ t.retry
  unfolding set_matches
  retry-set_matches [] t = refl
  retry-set_matches (l ∷ ls) t = refl

  retry-truncate_matches : (n : ℕ) (t : Ticket K) → (truncate_matches n t).retry ≡ t.retry
  unfolding truncate_matches
  retry-truncate_matches n t = grind (arith, retry-set_matches)

  retry-set_retry : (n : ℕ) (t : Ticket K) → (set_retry n t).retry ≡ n
  unfolding set_retry
  retry-set_retry n t = ground arith

  -- With matches to extend, or none to add, `inc` ends and adds the count.
  inc-done :
      (ms : List String) (a n : ℕ) (t : Ticket K) (old : List Line)
      → t.matches ≡ some old
      → (f : Ticket K) × (inc ms a n t ≡ done f) × (f.retry ≡ t.retry + n)
  unfolding inc
  inc-done [] a n t old h =
      (record t { retry = t.retry + n; failures = t.failures + a }, refl, refl)
  inc-done (m ∷ ms) a n t old h = (
    record t {
      retry = t.retry + n;
      failures = t.failures + a;
      matches = some (extend_matches old (m ∷ ms));
    },
    rw (h, inc),
    refl,
  )

  pub matches-adjust_time :
      (time : ℤ) (n : ℕ) (t : Ticket K) → (adjust_time time n t).matches ≡ t.matches
  unfolding adjust_time
  matches-adjust_time time n t = ground arith

module _ {K : Type 0} ⦃key : Key K⦄ where
  -- A further failure of a listed id, whose ticket has its matches: the count is added to what the
  -- rate gives, stored under the id and returned, and the total grows by one.
  pub add_failure_known :
      (m : FailManager K) (t f : Ticket K) (old : List Line) (n : ℕ) (b : Bool)
      → lookup t.id m.fail_list ≡ some f
      → f.matches ≡ some old
      → let (m', attempts) = add_failure m t n b in
        (attempts ≡ (adjust_time t.time m.max_time f).retry + n)
        × (Option.map (λ g. g.retry) (lookup t.id m'.fail_list) ≡ some attempts)
        × (m'.fail_total ≡ m.fail_total + 1)
  unfolding add_failure add_known end_known count_failure
  add_failure_known m t f old n b found has =
      let ms = new_matches m.max_matches f t in
      let a = new_attempt f t in
      let adjusted = adjust_time t.time m.max_time f in
      let (g, ends, counted) =
        inc-done ms a n adjusted old (matches-adjust_time t.time m.max_time f ∙ has) in
      let h = truncate_matches m.max_matches g in
      ground (arith, lookup-insert_self t.id h m.fail_list, retry-truncate_matches m.max_matches g)

  -- The first failure of an id that is not listed: unless it comes from the observer or carries a
  -- ban ticket, it is listed with the larger of its own count and the given one, as `setRetry`
  -- stores it; otherwise the manager stays as it was and the ticket's own count is returned.
  pub add_failure_new :
      (m : FailManager K) (t : Ticket K) (n : ℕ) (b : Bool)
      → lookup t.id m.fail_list ≡ none
      → let (m', attempts) = add_failure m t n b in
        let skip = b || is_ban_ticket t in
        (attempts ≡ (if skip then t.retry else if ltb t.failures n then n else t.retry))
        × (m'.fail_total ≡ (if skip then m.fail_total else m.fail_total + 1))
        × (Option.map (λ g. g.retry) (lookup t.id m'.fail_list)
            ≡ (if skip then none else some attempts))
  unfolding add_failure add_missing count_failure
  add_failure_new m t n b missing = ground (
    arith,
    retry-set_retry n t,
    lookup-insert_self t.id t m.fail_list,
    lookup-insert_self t.id (set_retry n t) m.fail_list,
  )

  add_missing-others :
      (m : FailManager K) (t : Ticket K) (n : ℕ) (b : Bool) (j : K)
      → j ≢ t.id
      → lookup j (add_missing m t n b).0.fail_list ≡ lookup j m.fail_list
  unfolding add_missing count_failure
  add_missing-others m t n b j other = grind (arith, lookup-insert_ne)

  end_known-others :
      (m : FailManager K) (t : Ticket K) (n : ℕ) (b : Bool) (r : Inc K) (j : K)
      → j ≢ t.id
      → lookup j (end_known m t n b r).0.fail_list ≡ lookup j m.fail_list
  unfolding end_known count_failure
  end_known-others m t n b (done f) j other =
      lookup-insert_ne j t.id (truncate_matches m.max_matches f) m.fail_list other
  end_known-others m t n b (key_error f) j other =
      let m' = record m { fail_list = insert t.id f m.fail_list } in
      add_missing-others m' t n b j other ∙ lookup-insert_ne j t.id f m.fail_list other

  -- A failure touches the ticket of no other id.
  pub add_failure-others :
      (m : FailManager K) (t : Ticket K) (n : ℕ) (b : Bool) (j : K)
      → j ≢ t.id
      → lookup j (add_failure m t n b).0.fail_list ≡ lookup j m.fail_list
  unfolding add_failure add_known
  add_failure-others m t n b j other = elim (Option-cases (lookup t.id m.fail_list)) [
    | inl missing ↦ rw (missing, add_failure) (add_missing-others m t n b j other)
    | inr (f, found) ↦
        let adjusted = adjust_time t.time m.max_time f in
        rw (found, add_failure)
          (end_known-others m t n b
            (inc (new_matches m.max_matches f t) (new_attempt f t) n adjusted) j other)
  ]

  -- A listed ticket that has lost its matches (as it does while `maxmatches` is 0) is not counted on
  -- once a failure of another ticket object brings matches again: the `KeyError` of `inc` is taken
  -- for a missing id, so the count starts anew from the new ticket alone.
  pub add_failure_forgets :
      (m : FailManager K) (t f : Ticket K) (n : ℕ) (l : String) (ls : List String)
      → lookup t.id m.fail_list ≡ some f
      → f.matches ≡ none
      → is_same f t ≡ false
      → m.max_matches ≢ 0
      → get_matches t ≡ l ∷ ls
      → is_ban_ticket t ≡ false
      → (add_failure m t n false).1 ≡ (if ltb t.failures n then n else t.retry)
  unfolding add_failure add_known end_known add_missing count_failure new_matches inc
  add_failure_forgets m t f n l ls found lost other positive brings plain =
      ground (arith, matches-adjust_time t.time m.max_time f, retry-set_retry n t)
