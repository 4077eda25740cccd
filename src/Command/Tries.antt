-- ===== src/Command/Tries.antt =====
-- How often `_processCmd` of fail2ban/server/action.py tries a command, and what its success means.
use fail2ban.Common.{
  ◌≡◌, refl, sym, ap, ◌≢◌, ℕ, zero, suc, ◌+◌, ◌≤◌, Bool, true, false, ◌||◌, Option, some, List, [],
  ◌∷◌, ◌++◌, Bool-cases, Option-cases, inl, inr, ltb, arith,
}
use fail2ban.Common.Dict.{Key}
use fail2ban.Command.{
  Tag, tag_key, Run, Setup, Command, Exit, returns, runtime_error, value_error, state_of, and_then,
  set_flags, same, execute_cmd,
}
use fail2ban.Command.Calls.{
  Check, sane, not_repaired, broken, check_round, process_round, process_loop, process_cmd,
}
use fail2ban.Command.Kept.{Kept}
use fail2ban.Command.Methods.{Repairs, check_round-Kept}

module _ {S A B : Type 0} where
  and_then-cong :
      (x : Exit S A) (k k' : A → S → Exit S B)
      → ((a : A) (s : S) → k a s ≡ k' a s)
      → and_then x k ≡ and_then x k'
  unfolding and_then
  and_then-cong (returns a s) k k' h = h a s
  and_then-cong (runtime_error s) k k' h = refl
  and_then-cong (value_error s) k k' h = refl

module _ {K : Type 0} ⦃key : Key K⦄ where
  pub same_ne : (a b : K) → b ≢ a → same a b ≡ false
  unfolding same
  same_ne a b h = elim (key.same a b) as (λ d. (elim d [ yes _ ↦ true | no _ ↦ false ]) ≡ false) [
    | yes e ↦ absurd (h (sym e))
    | no _ ↦ refl
  ]

module _ {S A B : Type 0} (P Q : S → Type 0) (weaker : (s : S) → P s → Q s) where
  and_then-leads :
      (x : Exit S A) (k : A → S → Exit S B)
      → P (state_of x)
      → ((a : A) (s : S) → P s → Q (state_of (k a s)))
      → Q (state_of (and_then x k))
  unfolding and_then state_of
  and_then-leads (returns a s) k h leads = leads a s h
  and_then-leads (runtime_error s) k h leads = weaker s h
  and_then-leads (value_error s) k h leads = weaker s h

abbrev one_if : Bool → ℕ
one_if true = 1
one_if false = 0

module _ {F C I : Type 0} where
  -- The number of runs of a command
  abbrev pub count_runs : Tag → List (Run F C I) → ℕ
  count_runs tag [] = 0
  count_runs tag (r ∷ rs) = one_if (same tag r.tag) + count_runs tag rs

  count_runs-append :
      (tag : Tag) (rs : List (Run F C I)) (r : Run F C I)
      → count_runs tag (rs ++ (r ∷ [])) ≡ count_runs tag rs + one_if (same tag r.tag)
  count_runs-append tag [] r = omega arith
  count_runs-append tag (x ∷ rs) r = omega (arith, count_runs-append tag rs r)

module _ {F C I : Type 0} ⦃family_key : Key F⦄ ⦃command_key : Key C⦄ (setup : Setup F C I)
    (answer : List (Run F C I) → Run F C I → Bool) where
  process_round-cong :
      (next next' : Command F C I → Exit (Command F C I) Bool) (repcnt : ℕ) (tag : Tag) (i : I)
      (c : Check) (s : Command F C I)
      → ((s' : Command F C I) → ltb 1 (repcnt + 1) ≡ false → next s' ≡ next' s')
      → process_round setup answer next repcnt tag i c s
        ≡ process_round setup answer next' repcnt tag i c s
  unfolding process_round
  process_round-cong next next' repcnt tag i not_repaired s h = refl
  process_round-cong next next' repcnt tag i broken s h = refl
  process_round-cong next next' repcnt tag i sane s h =
      elim (Option-cases (setup.replace_tag tag (setup.family_of i))) [
        | inl e ↦ rw (process_round, e) refl
        | inr (c, e) ↦
            let r = execute_cmd setup answer tag (setup.family_of i) (some i) c s in
            rw (process_round, e) (ground (arith, h r.1))
      ]

  -- The loop of `_processCmd` ends after at most two rounds: with more fuel, or with another result
  -- for a loop that uses up its fuel, its result is the same.
  pub process_loop_ends :
      (out out' : Exit (Command F C I) Bool) (n : ℕ) (tag : Tag) (i : I) (s : Command F C I)
      → process_loop setup answer out (suc (suc n)) 0 tag i s
        ≡ process_loop setup answer out' 2 0 tag i s
  unfolding process_loop
  process_loop_ends out out' n tag i s =
      and_then-cong (check_round setup answer 0 tag (setup.family_of i) s) _ _ (λ c s'.
        process_round-cong _ _ 0 tag i c s' (λ s'' more.
          and_then-cong (check_round setup answer 1 tag (setup.family_of i) s'') _ _
            (λ c' s'''. process_round-cong _ _ 1 tag i c' s''' (λ x again. absurd (cc)))))

  module _ (tag : Tag) (repairs : Repairs (λ t. t ≢ tag)) where
    abbrev AtMost : ℕ → Command F C I → Type 0
    AtMost n s = count_runs tag s.runs ≤ n

    AtMost-Kept : (n : ℕ) → Kept (λ t. t ≢ tag) (AtMost n)
    unfolding set_flags
    AtMost-Kept n = record {
      ran = record {
        runs = λ r s other h.
            let zero' : one_if (same tag r.tag) ≡ 0 = ap one_if (same_ne tag r.tag other) in
            omega (arith, count_runs-append tag s.runs r, zero', h);
        memory = λ m s h. h;
      };
      flags = λ f v s ok h. h;
      reset = λ s h. h;
      epochs = λ a b s h. h;
    }

    execute_cmd-AtMost :
        (n : ℕ) (f : F) (info : Option I) (c : C) (s : Command F C I)
        → AtMost n s
        → AtMost (n + 1) (execute_cmd setup answer tag f info c s).1
    unfolding execute_cmd
    execute_cmd-AtMost n f info c s h = elim (Bool-cases (setup.is_empty c)) [
      | inl e ↦ rw (execute_cmd, e) (omega (arith, h))
      | inr e ↦
          let r : Run F C I = record { tag = tag; family = f; info = info; command = c } in
          rw (execute_cmd, e) (ground (arith, count_runs-append tag s.runs r, h))
    ]

    process_round-AtMost :
        (n m : ℕ) (next : Command F C I → Exit (Command F C I) Bool)
        → ((s : Command F C I) → AtMost (n + 1) s → AtMost m (state_of (next s)))
        → n + 1 ≤ m
        → (repcnt : ℕ) (i : I) (c : Check) (s : Command F C I) → AtMost n s
        → AtMost m (state_of (process_round setup answer next repcnt tag i c s))
    unfolding process_round state_of
    process_round-AtMost n m next keeps le repcnt i not_repaired s h = omega arith
    process_round-AtMost n m next keeps le repcnt i broken s h = omega arith
    process_round-AtMost n m next keeps le repcnt i sane s h =
        elim (Option-cases (setup.replace_tag tag (setup.family_of i))) [
          | inl e ↦ rw (process_round, e) (omega (arith, h))
          | inr (c, e) ↦
              let r = execute_cmd setup answer tag (setup.family_of i) (some i) c s in
              let ran = execute_cmd-AtMost n (setup.family_of i) (some i) c s h in
              elim (Bool-cases (r.0 || ltb 1 (repcnt + 1))) [
                | inl last ↦ rw (process_round, e, last) (omega (arith, ran))
                | inr more ↦ rw (process_round, e, more) (keeps r.1 ran)
              ]
        ]

    process_loop-AtMost :
        (out : Exit (Command F C I) Bool) (i : I) (fuel n m repcnt : ℕ) (s : Command F C I)
        → AtMost m (state_of out)
        → n + fuel ≤ m
        → AtMost n s
        → AtMost m (state_of (process_loop setup answer out fuel repcnt tag i s))
    unfolding process_loop
    process_loop-AtMost out i zero n m repcnt s o le h = o
    process_loop-AtMost out i (suc fuel) n m repcnt s o le h =
        let f = setup.family_of i in
        let checked = check_round-Kept (AtMost-Kept n) setup answer repairs repcnt tag f s h in
        and_then-leads (AtMost n) (AtMost m) (λ s' h'. omega (arith, h'))
          (check_round setup answer repcnt tag f s) _ checked
          (λ c s' h'.
            process_round-AtMost n m _
              (λ s'' h''.
                process_loop-AtMost out i fuel (n + 1) m (repcnt + 1) s'' o (omega arith) h'')
              (omega arith) repcnt i c s' h')

  -- `_processCmd` runs its command at most twice, and so often only if this is none of the commands
  -- of checks, repairs, starts and stops.
  pub process_cmd_twice :
      (tag : Tag) (i : I) (s : Command F C I)
      → Repairs (λ t. t ≢ tag)
      → count_runs tag (state_of (process_cmd setup answer tag i s)).runs
        ≤ count_runs tag s.runs + 2
  unfolding process_cmd state_of
  process_cmd_twice tag i s repairs =
      rw (process_loop_ends (returns false s) (returns false s) 8 tag i s) (
        process_loop-AtMost tag repairs (returns false s) i 2 (count_runs tag s.runs)
          (count_runs tag s.runs + 2) 0 s (omega arith) (omega arith) (omega arith))
