-- ===== src/Command/Success.antt =====
-- What it means that `_processCmd`, `ban`, `prolong` or `unban` of fail2ban/server/action.py succeeds.
use fail2ban.Common.{
  ◌≡◌, refl, ap, ℕ, zero, suc, ◌+◌, Bool, true, false, ◌||◌, none, some, List, [], ◌∷◌, ◌++◌,
  if◌then◌else◌, Bool-cases, Option-cases, inl, inr, ltb, ◌⊎◌,
}
use fail2ban.Common.Dict.{Key, lookup-insert_self}
use fail2ban.Command.{
  Tag, tag_key, Run, Setup, Command, Exit, returns, runtime_error, Flags, no_flags, value_error,
  and_then, with_items, flags_of, set_flags, execute_cmd,
}
use fail2ban.Command.Calls.{
  Check, sane, not_repaired, broken, check_round, process_round, process_loop, process_cmd, ban_by,
}

module _ {S A : Type 0} where
  abbrev pub OnReturn : (A → S → Type 0) → Exit S A → Type 0
  OnReturn P (returns a s) = P a s
  OnReturn P (runtime_error s) = Unit {0}
  OnReturn P (value_error s) = Unit {0}

module _ {S A B : Type 0} where
  and_then-OnReturn :
      (P : B → S → Type 0) (x : Exit S A) (k : A → S → Exit S B)
      → ((a : A) (s : S) → OnReturn P (k a s))
      → OnReturn P (and_then x k)
  unfolding and_then
  and_then-OnReturn P (returns a s) k h = h a s
  and_then-OnReturn P (runtime_error s) k h = tt
  and_then-OnReturn P (value_error s) k h = tt

  and_then-then :
      (R : A → S → Type 0) (P : B → S → Type 0) (x : Exit S A) (k : A → S → Exit S B)
      → OnReturn R x
      → ((a : A) (s : S) → R a s → OnReturn P (k a s))
      → OnReturn P (and_then x k)
  unfolding and_then
  and_then-then R P (returns a s) k r h = h a s r
  and_then-then R P (runtime_error s) k r h = tt
  and_then-then R P (value_error s) k r h = tt

module _ {F C I : Type 0} (setup : Setup F C I) (answer : List (Run F C I) → Run F C I → Bool) where
  abbrev run_of : Tag → I → C → Run F C I
  run_of tag i c = record { tag = tag; family = setup.family_of i; info = some i; command = c }

  -- The command of `tag` for a ban is empty, or it is the last that was run, and it succeeded.
  abbrev pub Done : Tag → I → List (Run F C I) → Type 0
  Done tag i rs =
      (c : C) × (setup.replace_tag tag (setup.family_of i) ≡ some c)
      × ((setup.is_empty c ≡ true)
          ⊎ ((before : List (Run F C I)) × (rs ≡ before ++ (run_of tag i c ∷ []))
              × (answer before (run_of tag i c) ≡ true)))

module _ {F C I : Type 0} ⦃family_key : Key F⦄ ⦃command_key : Key C⦄ (setup : Setup F C I)
    (answer : List (Run F C I) → Run F C I → Bool) (tag : Tag) (i : I) where
  abbrev Succeeds : Bool → Command F C I → Type 0
  Succeeds ok s = ok ≡ true → Done setup answer tag i s.runs

  execute_cmd-Succeeds :
      (c : C) (s : Command F C I)
      → setup.replace_tag tag (setup.family_of i) ≡ some c
      → (let r = execute_cmd setup answer tag (setup.family_of i) (some i) c s in Succeeds r.0 r.1)
  unfolding execute_cmd
  execute_cmd-Succeeds c s found = elim (Bool-cases (setup.is_empty c)) [
    | inl e ↦ λ ok. (c, found, inl e)
    | inr e ↦ rw (execute_cmd, e) (λ ok. (c, found, inr (s.runs, refl, ok)))
  ]

  process_round-Succeeds :
      (next : Command F C I → Exit (Command F C I) Bool)
      → ((s : Command F C I) → OnReturn Succeeds (next s))
      → (repcnt : ℕ) (c : Check) (s : Command F C I)
      → OnReturn Succeeds (process_round setup answer next repcnt tag i c s)
  unfolding process_round
  process_round-Succeeds next h repcnt not_repaired s = λ (x : false ≡ true). absurd (cc)
  process_round-Succeeds next h repcnt broken s = λ (x : false ≡ true). absurd (cc)
  process_round-Succeeds next h repcnt sane s =
      elim (Option-cases (setup.replace_tag tag (setup.family_of i))) [
        | inl e ↦ rw (process_round, e) tt
        | inr (c, e) ↦
            let r = execute_cmd setup answer tag (setup.family_of i) (some i) c s in
            elim (Bool-cases (r.0 || ltb 1 (repcnt + 1))) [
              | inl last ↦ rw (process_round, e, last) (execute_cmd-Succeeds c s e)
              | inr more ↦ rw (process_round, e, more) (h r.1)
            ]
      ]

  process_loop-Succeeds :
      (out : Exit (Command F C I) Bool)
      → OnReturn Succeeds out
      → (fuel repcnt : ℕ) (s : Command F C I)
      → OnReturn Succeeds (process_loop setup answer out fuel repcnt tag i s)
  unfolding process_loop
  process_loop-Succeeds out o zero repcnt s = o
  process_loop-Succeeds out o (suc fuel) repcnt s =
      and_then-OnReturn Succeeds (check_round setup answer repcnt tag (setup.family_of i) s) _
        (λ c s'.
          process_round-Succeeds _ (process_loop-Succeeds out o fuel (repcnt + 1)) repcnt c s')

  process_cmd-Succeeds : (s : Command F C I) → OnReturn Succeeds (process_cmd setup answer tag i s)
  unfolding process_cmd
  process_cmd-Succeeds s =
      process_loop-Succeeds (returns false s) (λ (x : false ≡ true). absurd (cc)) 10 0 s

  abbrev Banned : Bool → Command F C I → Type 0
  Banned ok s = (flags_of (setup.family_of i) s ≡ with_items) × Done setup answer tag i s.runs

  ban_by-Banned : (s : Command F C I) → OnReturn Banned (ban_by setup answer tag i s)
  unfolding ban_by flags_of set_flags
  ban_by-Banned s = and_then-OnReturn Banned _ _ (λ _ s'.
      and_then-then Succeeds Banned (process_cmd setup answer tag i s') _ (process_cmd-Succeeds s')
        (λ ok s'' done.
          elim ok
              as (λ b.
                (b ≡ true → Done setup answer tag i s''.runs)
                → OnReturn Banned (
                    if b
                    then returns true (set_flags (setup.family_of i) with_items s'')
                    else runtime_error s'')) [
                      | true ↦ λ d. (
                        ap (λ o. elim o as (λ _. Flags) [ none ↦ no_flags | some v ↦ v ])
                            (lookup-insert_self (setup.family_of i) with_items s''.flags),
                        d refl,
                      )
                      | false ↦ λ d. tt
                    ]
            done))

  -- A ban that raises no exception leaves its family started with items, and has run the command of
  -- the ban last, with success, unless this command is empty.
  pub ban_by-Done :
      (ok : Bool) (s s' : Command F C I)
      → ban_by setup answer tag i s ≡ returns ok s'
      → (flags_of (setup.family_of i) s' ≡ with_items) × Done setup answer tag i s'.runs
  ban_by-Done ok s s' e = rw e at (ban_by-Banned s)
