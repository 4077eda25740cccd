-- ===== src/Database.antt =====
-- The tickets that fail2ban/server/database.py makes of the rows of its tables: the loops of
-- `getBansMerged` and `getCurrentBans`. The rows that the database returns are an argument, and `now` is
-- what `MyTime.time()` returns. The cache of merged bans is left out, and
-- so are rows without an id, which are skipped. Of the data of a row the keys
-- `matches` and `failures` are modelled.
pub mod Merged
pub mod Current
use fail2ban.Common.{
  ℕ, ◌+◌, ◌-◌, Bool, true, false, not, ◌&&◌, ◌||◌, Option, none, some, get_or, List, [], ◌∷◌, ◌++◌,
  length, drop, map, ltb, leb, ◌==◌, if◌then◌else◌,
}
use fail2ban.Common.Int.{ℤ, pos, negsuc, ◌+ℤ◌, leb_ℤ, ltb_ℤ, eqb_ℤ}
use fail2ban.Common.Dict.{Key}
use fail2ban.Ticket.{
  Ticket, Line, TicketData, fail_ticket, new_ticket, set_ban_time, set_ban_count, set_matches,
  get_matches, text,
}

-- A row of the table `bans`, with its data
pub record BanRow (K : Type 0) : Type 0 where
  pub id : K
  pub time : ℤ
  pub matches : Option (List Line)
  pub failures : Option ℕ

-- The last entries of a list, `xs[-n:]` for a positive n
unfoldable pub newest {ℓ} : {A : Type ℓ} → ℕ → List A → List A
newest n xs = drop (length xs - n) xs

-- The matches of a row before those of later ones, up to `maxMatches`
unfoldable pub add_matches : ℕ → List Line → List Line → List Line
add_matches max_matches m ms =
    let maxadd = max_matches - length ms in
    if ltb 0 maxadd then (if leb (length m) maxadd then m ++ ms else newest maxadd m ++ ms) else ms

module _ {K : Type 0} where
  -- The ticket of an id that another id follows
  unfoldable pub middle_ticket : ℤ → K → ℤ → List Line → ℕ → Ticket K
  middle_ticket now id time ms n =
      record (new_ticket 0 fail_ticket id now (some time) ms
        (record { matches = none; failures = none })) { failures = n }

  -- The ticket of the last id
  unfoldable pub last_ticket : ℤ → K → ℤ → List Line → ℕ → Ticket K
  last_ticket now id time ms n =
      new_ticket 0 fail_ticket id now (some time) []
        (record { matches = some ms; failures = some n })

module _ {K : Type 0} ⦃key : Key K⦄ where
  unfoldable pub same_id : K → K → Bool
  same_id a b = elim (key.same a b) [ yes _ ↦ true | no _ ↦ false ]

  -- The loop of `getBansMerged`, with what it holds of the id before
  unfoldable pub merge_loop : ℕ → ℤ → K → ℤ → List Line → ℕ → List (BanRow K) → List (Ticket K)
  merge_loop max_matches now id time ms n [] = last_ticket now id time ms n ∷ []
  merge_loop max_matches now id time ms n (r ∷ rs) =
      let m = get_or r.matches [] in
      let f = get_or r.failures 1 in
      let more = merge_loop max_matches now id r.time (add_matches max_matches m ms) (n + f) rs in
      let next = merge_loop max_matches now r.id r.time (add_matches max_matches m []) f rs in
      if same_id r.id id then more else middle_ticket now id time ms n ∷ next

  -- `getBansMerged` of the rows
  unfoldable pub get_bans_merged : ℕ → ℤ → List (BanRow K) → List (Ticket K)
  get_bans_merged max_matches now [] = []
  get_bans_merged max_matches now (r ∷ rs) = merge_loop max_matches now r.id r.time [] 0 (r ∷ rs)

-- A row that `_getCurrentBans` returns, with its data
pub record CurrentRow (K : Type 0) : Type 0 where
  pub id : K
  pub time : ℤ
  pub ban_time : ℤ
  pub ban_count : ℕ
  pub extra : TicketData

-- The correction of the ban time of a row in `getCurrentBans`, with the ban time of the jail, if there
-- is a jail, and the ban time to correct by
unfoldable pub correct_ban_time : Option ℤ → Option ℤ → ℤ → ℤ
correct_ban_time jail_time correct ban_time =
    let is_given = elim correct as (λ _. Bool) [ none ↦ false | some c ↦ not (eqb_ℤ c (pos 0)) ] in
    let limit = get_or correct (pos 0) in
    if eqb_ℤ ban_time (negsuc 1)
    then get_or jail_time (if is_given then limit else pos 600)
    else if is_given && leb_ℤ (pos 0) limit
    then (if eqb_ℤ ban_time (negsuc 0) || ltb_ℤ limit ban_time then limit else ban_time)
    else ban_time

-- `bantime != -1 and timeofban + bantime <= fromtime`
unfoldable pub is_too_old : ℤ → ℤ → ℤ → Bool
is_too_old from_time time ban_time =
    not (eqb_ℤ ban_time (negsuc 0)) && leb_ℤ (time +ℤ ban_time) from_time

module _ {K : Type 0} where
  -- The matches of a ticket in `getCurrentBans`, up to `maxmatches`
  unfoldable pub limit_matches : ℕ → Ticket K → Ticket K
  limit_matches max_matches t =
      if max_matches == 0
      then set_matches [] t
      else if ltb max_matches (length (get_matches t))
      then set_matches (map text (newest max_matches (get_matches t))) t
      else t

  -- The ticket of a row
  unfoldable pub current_ticket : ℕ → ℤ → CurrentRow K → ℤ → Ticket K
  current_ticket max_matches now r ban_time = set_ban_count r.ban_count false (
      set_ban_time ban_time
        (limit_matches max_matches (new_ticket 0 fail_ticket r.id now (some r.time) [] r.extra)))

  -- The loop of `getCurrentBans` without an id
  unfoldable pub get_current_bans :
      ℕ → ℤ → ℤ → Option ℤ → Option ℤ → List (CurrentRow K) → List (Ticket K)
  get_current_bans max_matches now from_time jail_time correct [] = []
  get_current_bans max_matches now from_time jail_time correct (r ∷ rs) =
      let ban_time = correct_ban_time jail_time correct r.ban_time in
      let rest = get_current_bans max_matches now from_time jail_time correct rs in
      if is_too_old from_time r.time ban_time
      then rest
      else current_ticket max_matches now r ban_time ∷ rest
