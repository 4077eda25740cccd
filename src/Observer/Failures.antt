-- ===== src/Observer/Failures.antt =====
-- How often `failureFound` of fail2ban/server/observer.py counts a failure of an id that was banned
-- before.
use fail2ban.Common.{
  ℕ, ◌+◌, ◌^◌, ◌*◌, ◌/◌, ◌-◌, ◌≤◌, ◌<◌, ◌≡◌, refl, ap, ◌∙◌, Bool, true, false, none, some, List,
  ◌∷◌, ltb, leb, if◌then◌else◌, arith, inl, inr, Bool-cases, Option-cases, length, length-append,
  length-map,
}
use mathlib.Core.Option
use mathlib.Core.Path.{subst}
use native.Mathlib.Nat.{pow-suc, pow-le-pow_right}
use fail2ban.Common.Int.{ℤ, ◌<ℤ◌, ◌≤ℤ◌, leb_ℤ}
use fail2ban.Common.Dict.{Key, Distinct, lookup, insert, insert-Distinct, lookup-insert_self}
use fail2ban.Ticket.{Ticket, Line, adjust_time, set_ban_count}
use fail2ban.FailManager.{
  FailManager, add_failure, add_known, add_missing, end_known, count_failure,
}
use fail2ban.FailManager.Attempts.{add_failure_known}
use fail2ban.FailManager.Keys.{IsValid, add_failure-IsValid}
use fail2ban.Ticket.{Inc, done, key_error}
use fail2ban.BanTime.{BanTimeExtra, BanRow, smaller, larger}
use fail2ban.Filter.{Filter, perform_ban}
use fail2ban.Filter.Attempt.{perform_ban_listed}
use fail2ban.Observer.{
  Known, known_bans, is_before, write_count, mark_bad, count_bad, failure_found,
}

-- Half of the next power of two
half_pow : (n : ℕ) → (2 ^ (n + 1)) / 2 ≡ 2 ^ n
half_pow n =
    let twice : 2 ^ (n + 1) ≡ 2 ^ n * 2 = ap (◌^◌ 2) (omega arith) ∙ pow-suc 2 n in omega arith

-- The branch that is taken where all checks pass
pick :
    {A : Type 0} (a b c : Bool) (x y : A)
    → a ≡ true
    → b ≡ false
    → c ≡ false
    → (if a then (if b then x else if c then x else y) else x) ≡ y
pick a b c x y h g k = rw (h, g, k) refl

module _ {K : Type 0} where
  retry-write_count : (n : ℕ) (t q : Ticket K) → (write_count n t q).retry ≡ q.retry
  unfolding write_count set_ban_count
  retry-write_count n t q = ground arith

module _ {K : Type 0} ⦃key : Key K⦄ where
  -- The ticket of an id, with what the write of the ban count leaves of the rest
  mark_bad_listed :
      (n : ℕ) (t g : Ticket K) (f : Filter K)
      → lookup t.id f.fail_manager.fail_list ≡ some g
      → let f' = mark_bad n t f in
        (lookup t.id f'.fail_manager.fail_list ≡ some (write_count n t g))
        × (f'.fail_manager.max_retry ≡ f.fail_manager.max_retry)
        × (length f'.queue ≡ length f.queue)
  unfolding mark_bad
  mark_bad_listed n t g f found =
      rw (mark_bad, found)
        (
          lookup-insert_self t.id (write_count n t g) f.fail_manager.fail_list,
          refl,
          length-map (write_count n t) f.queue,
        )

  mark_bad-Distinct :
      (n : ℕ) (t g : Ticket K) (f : Filter K)
      → lookup t.id f.fail_manager.fail_list ≡ some g
      → Distinct f.fail_manager.fail_list
      → Distinct (mark_bad n t f).fail_manager.fail_list
  unfolding mark_bad
  mark_bad-Distinct n t g f found h =
      rw (mark_bad, found) (insert-Distinct t.id (write_count n t g) f.fail_manager.fail_list h)

  add_missing-max_retry :
      (m : FailManager K) (t : Ticket K) (n : ℕ) (b : Bool)
      → (add_missing m t n b).0.max_retry ≡ m.max_retry
  unfolding add_missing count_failure
  add_missing-max_retry m t n b = ground arith

  end_known-max_retry :
      (m : FailManager K) (t : Ticket K) (n : ℕ) (b : Bool) (r : Inc K)
      → (end_known m t n b r).0.max_retry ≡ m.max_retry
  unfolding end_known count_failure
  end_known-max_retry m t n b (done f) = refl
  end_known-max_retry m t n b (key_error f) =
      add_missing-max_retry (record m { fail_list = insert t.id f m.fail_list }) t n b

  -- Counting a failure leaves the limit of attempts.
  add_failure-max_retry :
      (m : FailManager K) (t : Ticket K) (n : ℕ) (b : Bool)
      → (add_failure m t n b).0.max_retry ≡ m.max_retry
  unfolding add_failure add_known
  add_failure-max_retry m t n b = elim (Option-cases (lookup t.id m.fail_list)) [
    | inl missing ↦ rw (add_failure, missing) (add_missing-max_retry m t n b)
    | inr (g, known) ↦ rw (add_failure, known) (end_known-max_retry m t n b _)
  ]

  -- With so many attempts, a ticket stays on the list, or goes behind the queue.
  abbrev pub Recounted : K → Filter K → Filter K → ℕ → Type 0
  Recounted id f f' attempts =
      let reached = leb f.fail_manager.max_retry attempts in
      (Option.map (λ (x : Ticket K). x.retry) (lookup id f'.fail_manager.fail_list)
        ≡ (if reached then none else some attempts))
      × (length f'.queue ≡ (if reached then length f.queue + 1 else length f.queue))

  count_bad_known :
      (now : ℤ) (k : Known) (t g : Ticket K) (old : List Line) (f : Filter K)
      → IsValid f.fail_manager
      → t.first_time ≤ℤ t.time
      → lookup t.id f.fail_manager.fail_list ≡ some g
      → g.matches ≡ some old
      → Recounted t.id f
          (count_bad now k t f)
          ((adjust_time t.time f.fail_manager.max_time g).retry + (k.retry_count - 1))
  unfolding count_bad
  count_bad_known now k t g old f valid ordered listed has =
      let m = f.fail_manager in
      let r = add_failure m t (k.retry_count - 1) true in
      let (counts, holds, total) =
        add_failure_known m t g old (k.retry_count - 1) true listed has in
      let f' = mark_bad k.ban_count t (record f { fail_manager = r.0 }) in
      elim (Option-cases (lookup t.id r.0.fail_list)) [
        | inl missing ↦ absurd (cc)
        | inr (g', found) ↦
            let marked = mark_bad_listed k.ban_count t g' (record f { fail_manager = r.0 }) found in
            let retried : g'.retry ≡ r.1 = cc in
            let count = retry-write_count k.ban_count t g' in
            subst (Recounted t.id f (count_bad now k t f)) counts
              (elim (Bool-cases (leb m.max_retry r.1)) [
                | inl reached ↦
                    let limit : f'.fail_manager.max_retry ≡ m.max_retry =
                      marked.1 ∙ add_failure-max_retry m t (k.retry_count - 1) true in
                    let enough : m.max_retry ≤ r.1 = ground (arith, reached) in
                    let banned =
                      perform_ban_listed now t.id (write_count k.ban_count t g') f'
                        (mark_bad-Distinct k.ban_count t g' (record f { fail_manager = r.0 }) found
                          (add_failure-IsValid m t (k.retry_count - 1) true valid ordered).distinct)
                        marked.0 (omega arith) in
                    let step : count_bad now k t f ≡ perform_ban now (some t.id) f' =
                      rw (count_bad, reached) refl in
                    rw (step, reached)
                      (
                        ap (Option.map (λ (x : Ticket K). x.retry)) banned.1,
                        ap length banned.0 ∙ length-append f'.queue _ ∙ ap (λ n. n + 1) marked.2,
                      )
                | inr below ↦
                    let step : count_bad now k t f ≡ f' = rw (count_bad, below) refl in
                    rw (step, below)
                      (
                        ap (Option.map (λ (x : Ticket K). x.retry)) marked.0
                            ∙ ap some (count ∙ retried),
                        marked.2,
                      )
              ])
      ]

  -- A failure of an id that is on the failure list with its matches, in a living jail with growing ban
  -- times. If the database knows `n + 1` bans of the id, more than the ticket and fewer than 21, all of them before the
  -- failure, and the limit of attempts is more than 1: the observer counts the failure `2 ^ n` times
  -- more, or up to the limit. The ticket then stays on the list with these attempts, or, where they
  -- reach the limit, goes behind the queue, and the list has no ticket of the id.
  pub failure_found_counts :
      (now : ℤ) (be : BanTimeExtra) (row : BanRow) (rows : List BanRow) (n : ℕ) (t g : Ticket K)
      (old : List Line) (f : Filter K)
      → be.increment ≡ true
      → IsValid f.fail_manager
      → t.first_time ≤ℤ t.time
      → lookup t.id f.fail_manager.fail_list ≡ some g
      → g.matches ≡ some old
      → row.time_of_ban <ℤ t.time
      → row.ban_count ≡ n + 1
      → t.ban_count ≤ n
      → n < 20
      → 1 < f.fail_manager.max_retry
      → Recounted t.id f (failure_found now true be (some (row ∷ rows)) t f) (
          (adjust_time t.time f.fail_manager.max_time g).retry
          + (smaller (2 ^ n + 1) f.fail_manager.max_retry - 1))
  unfolding failure_found known_bans is_before
  failure_found_counts now be row rows n t g old f grows valid ordered listed has new count fewer
        few limit =
      let k = known_bans (some (row ∷ rows)) f.fail_manager.max_retry t in
      let bans : larger row.ban_count t.ban_count ≡ n + 1 = ground arith in
      let shift : (if ltb (n + 1) 20 then n + 1 else 20) ≡ n + 1 = ground arith in
      let times : k.retry_count ≡ smaller (2 ^ n + 1) f.fail_manager.max_retry =
        rw (bans, shift, half_pow n) refl in
      let later : leb_ℤ t.time row.time_of_ban ≡ false = ground arith in
      let positive : 1 ≤ 2 ^ n = pow-le-pow_right (omega arith) {i = 0} {j = n} (omega arith) in
      let many : leb k.retry_count 1 ≡ false = rw times (ground (arith, positive)) in
      let step : failure_found now true be (some (row ∷ rows)) t f ≡ count_bad now k t f =
        pick be.increment (leb_ℤ t.time row.time_of_ban) (leb k.retry_count 1) f
          (count_bad now k t f) grows later many in
      rw step (
        subst
          (λ c.
            Recounted t.id f (count_bad now k t f)
              ((adjust_time t.time f.fail_manager.max_time g).retry + (c - 1)))
          times (count_bad_known now k t g old f valid ordered listed has))
