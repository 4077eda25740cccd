-- ===== src/FailManager/Limits.antt =====
-- The limit `maxMatches` on the kept log lines, in `addFailure` of fail2ban/server/failmanager.py.
use fail2ban.Common.{
  ℕ, ◌+◌, ◌-◌, ◌≤◌, ◌≡◌, ◌∙◌, ap, refl, sym, Bool, List, [], ◌∷◌, ◌++◌, map, some, arith, ◌==◌,
  if◌then◌else◌, length, drop,
}
use fail2ban.Common.Dict.{Key, lookup, lookup-insert_self}
use fail2ban.Common.Int.{ℤ}
use fail2ban.Ticket.{
  Ticket, Line, text, line_text, adjust_time, inc, get_matches, set_matches, done, extend_matches,
}
use fail2ban.FailManager.{
  FailManager, add_failure, add_known, end_known, count_failure, truncate_matches, new_matches,
  new_attempt,
}
use mathlib.Core.List.{map-append, append-nil}
use mathlib.Core.Option
use fail2ban.FailManager.Attempts.{matches-adjust_time}
use Prim.Native.String.{String}

-- The last `n` of a list.
abbrev pub last {ℓ} : {A : Type ℓ} → ℕ → List A → List A
last n xs = drop (length xs - n) xs

last_of_length-le {ℓ} : {A : Type ℓ} (n : ℕ) (xs : List A) → length xs ≤ n → last n xs ≡ xs
last_of_length-le n xs h = let all : length xs - n ≡ 0 = omega arith in ap (λ k. drop k xs) all

map-line_text-text : (xs : List String) → map line_text (map text xs) ≡ xs
unfolding line_text
map-line_text-text [] = refl
map-line_text-text (x ∷ xs) = ap (◌∷◌ x) (map-line_text-text xs)

map-extend_matches :
    (old : List Line) (new : List String)
    → map line_text (extend_matches old new) ≡ map line_text old ++ new
unfolding extend_matches
map-extend_matches [] new = map-line_text-text new
map-extend_matches (l ∷ ls) new =
    map-append line_text (l ∷ ls) (map text new)
    ∙ ap (λ r. map line_text (l ∷ ls) ++ r) (map-line_text-text new)

module _ {K : Type 0} where
  get_matches-set_matches :
      (xs : List String) (t : Ticket K) → get_matches (set_matches (map text xs) t) ≡ xs
  unfolding get_matches set_matches
  get_matches-set_matches [] t = refl
  get_matches-set_matches (x ∷ xs) t = map-line_text-text (x ∷ xs)

  get_matches-truncate_matches :
      (n : ℕ) (t : Ticket K)
      → get_matches (truncate_matches n t) ≡ (if n == 0 then [] else last n (get_matches t))
  unfolding truncate_matches
  get_matches-truncate_matches n t =
      let ms = get_matches t in
      ground (
        arith,
        get_matches-set_matches [] t,
        get_matches-set_matches (last n ms) t,
        last_of_length-le n ms,
      )

  get_matches-inc :
      (ms : List String) (a n : ℕ) (t : Ticket K) (old : List Line)
      → t.matches ≡ some old
      → (g : Ticket K) × (inc ms a n t ≡ done g) × (get_matches g ≡ get_matches t ++ ms)
  unfolding inc get_matches
  get_matches-inc [] a n t old h = (
    record t { retry = t.retry + n; failures = t.failures + a },
    refl,
    sym (append-nil (get_matches t)),
  )
  get_matches-inc (m ∷ ms) a n t old h = (
    record t {
      retry = t.retry + n;
      failures = t.failures + a;
      matches = some (extend_matches old (m ∷ ms));
    },
    rw (h, inc),
    rw (h, get_matches) (map-extend_matches old (m ∷ ms)),
  )

  get_matches-adjust_time :
      (time : ℤ) (n : ℕ) (t : Ticket K) → get_matches (adjust_time time n t) ≡ get_matches t
  unfolding adjust_time get_matches
  get_matches-adjust_time time n t = ground arith

-- After a further failure of a listed id whose ticket has its matches, the ticket keeps the newest
-- `maxMatches` of the old log lines followed by the new ones, and none if the limit is 0.
pub add_failure_matches :
    {K : Type 0} ⦃key : Key K⦄ (m : FailManager K) (t f : Ticket K) (old : List Line) (n : ℕ)
    (b : Bool)
    → lookup t.id m.fail_list ≡ some f
    → f.matches ≡ some old
    → Option.map get_matches (lookup t.id (add_failure m t n b).0.fail_list)
      ≡ some (
          if m.max_matches == 0
          then []
          else last m.max_matches (get_matches f ++ new_matches m.max_matches f t))
unfolding add_failure add_known end_known count_failure
add_failure_matches m t f old n b found has =
    let ms = new_matches m.max_matches f t in
    let a = new_attempt f t in
    let adjusted = adjust_time t.time m.max_time f in
    let (g, ends, extended) =
      get_matches-inc ms a n adjusted old (matches-adjust_time t.time m.max_time f ∙ has) in
    let h = truncate_matches m.max_matches g in
    ground (
      arith,
      lookup-insert_self t.id h m.fail_list,
      get_matches-truncate_matches m.max_matches g,
      get_matches-adjust_time t.time m.max_time f,
    )
