-- ===== src/Database/Merged.antt =====
-- What the merged tickets of `getBansMerged` of fail2ban/server/database.py hold.
use fail2ban.Common.{
  ℕ, zero, suc, ◌+◌, ◌-◌, ◌≤◌, ◌≡◌, ◌≢◌, refl, sym, ap, ◌∙◌, true, false, Option, some, get_or,
  List, [], ◌∷◌, ◌++◌, length, length-append, length-drop, drop, map, ltb, leb, Bool-cases, inl,
  inr, arith,
}
use mathlib.Core.List.{append_assoc, append-nil}
use fail2ban.Common.Int.{ℤ}
use fail2ban.Common.Dict.{Key}
use fail2ban.Ticket.{Ticket, Line, new_ticket}
use fail2ban.Database.{
  BanRow, newest, add_matches, middle_ticket, last_ticket, same_id, merge_loop, get_bans_merged,
}

module _ {ℓ} {A : Type ℓ} where
  drop-append_le : (k : ℕ) (m r : List A) → k ≤ length m → drop k (m ++ r) ≡ drop k m ++ r
  drop-append_le zero m r h = refl
  drop-append_le (suc k) [] r h = absurd (omega arith)
  drop-append_le (suc k) (x ∷ m) r h = drop-append_le k m r (omega arith)

  drop-append : (j k : ℕ) (m r : List A) → j ≡ length m + k → drop j (m ++ r) ≡ drop k r
  drop-append j k [] r h = let e : j ≡ k = omega arith in rw e refl
  drop-append zero k (x ∷ m) r h = absurd (omega arith)
  drop-append (suc j) k (x ∷ m) r h = drop-append j k m r (omega arith)

  newest_short : (n : ℕ) (xs : List A) → length xs ≤ n → newest n xs ≡ xs
  unfolding newest
  newest_short n xs h = let none' : length xs - n ≡ 0 = omega arith in rw none' refl

  length-newest : (n : ℕ) (xs : List A) → n ≤ length xs → length (newest n xs) ≡ n
  unfolding newest
  length-newest n xs h = omega (arith, length-drop (length xs - n) xs)

-- With the newest matches of later rows, the matches of a row are the newest of all.
add_matches-newest : (n : ℕ) (m r : List Line) → add_matches n m (newest n r) ≡ newest n (m ++ r)
unfolding add_matches newest
add_matches-newest n m r = elim (Bool-cases (leb n (length r))) [
  | inl full ↦
      let e : ltb 0 (n - length (newest n r)) ≡ false = ground (arith, length-newest n r) in
      rw (add_matches, e)
        (sym (
          drop-append (length (m ++ r) - n) (length r - n) m r
            (ground (arith, length-append m r, full))))
  | inr room ↦
      let short : newest n r ≡ r = newest_short n r (ground arith) in
      let e : ltb 0 (n - length r) ≡ true = ground arith in
      ap (add_matches n m) short ∙ elim (Bool-cases (leb (length m) (n - length r))) [
        | inl fits ↦
            rw (add_matches, e, fits)
              (sym (newest_short n (m ++ r) (ground (arith, length-append m r, fits, room))))
        | inr long ↦
            let cut : length (m ++ r) - n ≡ length m - (n - length r) =
              ground (arith, length-append m r, long, room) in
            rw (add_matches, e, long)
              (sym (
                ap (λ k. drop k (m ++ r)) cut
                ∙ drop-append_le (length m - (n - length r)) m r (omega arith)))
      ]
]

module _ {K : Type 0} where
  -- The matches of rows, which come from the last to the first, in the order of time
  abbrev pub all_matches : List (BanRow K) → List Line
  all_matches [] = []
  all_matches (r ∷ rs) = all_matches rs ++ get_or r.matches []

  abbrev pub all_failures : List (BanRow K) → ℕ
  all_failures [] = 0
  all_failures (r ∷ rs) = get_or r.failures 1 + all_failures rs

  -- The time of the last row, which is the first time
  abbrev pub first_time : ℤ → List (BanRow K) → ℤ
  first_time t [] = t
  first_time t (r ∷ rs) = first_time r.time rs

  abbrev pub AreOf : K → List (BanRow K) → Type 0
  AreOf k [] = Unit {0}
  AreOf k (r ∷ rs) = (r.id ≡ k) × AreOf k rs

  -- The rows begin with another id, or there are none.
  abbrev pub IsApart : K → List (BanRow K) → Type 0
  IsApart k [] = Unit {0}
  IsApart k (r ∷ rs) = r.id ≢ k

-- What a merged ticket holds
pub record Merged (K : Type 0) : Type 0 where
  pub id : K
  pub time : ℤ
  pub matches : Option (List Line)
  pub failures : ℕ

module _ {K : Type 0} where
  abbrev pub view : Ticket K → Merged K
  view t = record { id = t.id; time = t.time; matches = t.matches; failures = t.failures }

module _ {K : Type 0} ⦃key : Key K⦄ where
  same_id_refl : (a b : K) → a ≡ b → same_id a b ≡ true
  unfolding same_id
  same_id_refl a b h =
      elim (key.same a b) as (λ d. (elim d [ yes _ ↦ true | no _ ↦ false ]) ≡ true) [
        | yes _ ↦ refl
        | no other ↦ absurd (other h)
      ]

  same_id_ne : (a b : K) → a ≢ b → same_id a b ≡ false
  unfolding same_id
  same_id_ne a b h =
      elim (key.same a b) as (λ d. (elim d [ yes _ ↦ true | no _ ↦ false ]) ≡ false) [
        | yes e ↦ absurd (h e)
        | no _ ↦ refl
      ]

  merge_loop_same :
      (n : ℕ) (now : ℤ) (p : K) (a b : List (BanRow K)) (t : ℤ) (old : List Line) (count : ℕ)
      → AreOf p a
      → merge_loop n now p t (newest n old) count (a ++ b)
        ≡ merge_loop n now p
            (first_time t a)
            (newest n (all_matches a ++ old))
            (count + all_failures a)
            b
  unfolding merge_loop
  merge_loop_same n now p [] b t old count h =
      ap (λ c. merge_loop n now p t (newest n old) c b) (omega arith)
  merge_loop_same n now p (r ∷ a) b t old count h =
      let m = get_or r.matches [] in
      let f = get_or r.failures 1 in
      let step : merge_loop n now p t (newest n old) count ((r ∷ a) ++ b)
          ≡ merge_loop n now p r.time (add_matches n m (newest n old)) (count + f) (a ++ b) =
        rw (merge_loop, same_id_refl r.id p h.0) refl in
      let sum : count + f + all_failures a ≡ count + (f + all_failures a) = omega arith in
      step
      ∙ ap (λ ms. merge_loop n now p r.time ms (count + f) (a ++ b)) (add_matches-newest n m old)
      ∙ merge_loop_same n now p a b r.time (m ++ old) (count + f) h.1
      ∙ ap
          (λ l.
            merge_loop n now p (first_time r.time a) (newest n l) (count + f + all_failures a) b)
          (sym (append_assoc (all_matches a) m old))
      ∙ ap
          (λ c.
            merge_loop n now p (first_time r.time a) (newest n ((all_matches a ++ m) ++ old)) c b)
          sum

  merge_loop_next :
      (n : ℕ) (now : ℤ) (p : K) (b : List (BanRow K)) (t : ℤ) (ms : List Line) (count : ℕ)
      → IsApart p b
      → map view (merge_loop n now p t ms count b)
        ≡ record { id = p; time = t; matches = some ms; failures = count }
          ∷ map view (get_bans_merged n now b)
  unfolding merge_loop get_bans_merged last_ticket middle_ticket new_ticket
  merge_loop_next n now p [] t ms count h = refl
  merge_loop_next n now p (q ∷ b) t ms count h =
      let zero' : get_or q.failures 1 ≡ 0 + get_or q.failures 1 = omega arith in
      rw (merge_loop, same_id_ne q.id p h, same_id_refl q.id q.id refl)
        (ap
          (λ c.
            record { id = p; time = t; matches = some ms; failures = count }
            ∷ map view (merge_loop n now q.id q.time (add_matches n (get_or q.matches []) []) c b))
          zero')

  -- The rows of an id that follow each other make one ticket: of the time of the last of them, which
  -- is the first time, with the newest matches in the order of time, up to `maxMatches` of them, and
  -- with the sum of the failures, where a row without a number counts one. The tickets of the other
  -- rows follow as they are without it.
  pub get_bans_merged_group :
      (n : ℕ) (now : ℤ) (r : BanRow K) (rs b : List (BanRow K))
      → AreOf r.id rs
      → IsApart r.id b
      → map view (get_bans_merged n now ((r ∷ rs) ++ b))
        ≡ record {
          id = r.id;
          time = first_time r.time rs;
          matches = some (newest n (all_matches (r ∷ rs)));
          failures = all_failures (r ∷ rs);
        }
          ∷ map view (get_bans_merged n now b)
  unfolding get_bans_merged
  get_bans_merged_group n now r rs b h apart =
      let zero' : 0 + all_failures (r ∷ rs) ≡ all_failures (r ∷ rs) = omega arith in
      let none' : newest n [] ≡ [] = newest_short n [] (omega arith) in
      ap (λ ms. map view (merge_loop n now r.id r.time ms 0 ((r ∷ rs) ++ b))) (sym none')
      ∙ ap (map view) (merge_loop_same n now r.id (r ∷ rs) b r.time [] 0 (refl, h))
      ∙ merge_loop_next n now r.id b (first_time r.time rs) (newest n (all_matches (r ∷ rs) ++ []))
          (0 + all_failures (r ∷ rs)) apart
      ∙ ap
          (λ (l : List Line).
            record {
              id = r.id;
              time = first_time r.time rs;
              matches = some (newest n l);
              failures = 0 + all_failures (r ∷ rs);
            }
            ∷ map view (get_bans_merged n now b))
          (append-nil (all_matches (r ∷ rs)))
      ∙ ap
          (λ (c : ℕ).
            record {
              id = r.id;
              time = first_time r.time rs;
              matches = some (newest n (all_matches (r ∷ rs)));
              failures = c;
            }
            ∷ map view (get_bans_merged n now b))
          zero'
