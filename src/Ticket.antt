-- ===== src/Ticket.antt =====
-- The tickets of fail2ban/server/ticket.py: `Ticket`, `FailTicket` and `BanTicket` as one record
-- with the class of the object as a field. The server makes no plain `Ticket`, so the two subclasses
-- are the classes here. Of `_data` the keys `matches` and `failures` are fields; `matches` may be
-- absent, since `setMatches` deletes it, and `failures` is always there. `oid` is the identity that
-- Python's `is` compares. Times and durations are whole numbers of seconds;
-- the estimate of `adjustTime` is made in floats of 53 bits. A ban time of -1 is permanent.
pub mod Flags
pub mod Rate
pub mod Estimate
pub mod BanEnd
use Prim.Native.String.{String, ◌++◌ as str_append}
use fail2ban.Common.{
  ℕ, zero, suc, ◌+◌, ◌-◌, ◌*◌, ◌/◌, ◌%◌, ◌^◌, leb, Bool, true, false, Option, none, some, get_or,
  List, [], ◌∷◌, ◌++◌, map, ltb, ◌==◌, if◌then◌else◌,
}
use fail2ban.Common.Int.{ℤ, pos, negsuc, pos_part, ◌+ℤ◌, ◌-ℤ◌, ltb_ℤ, eqb_ℤ}

pub data TicketClass : Type 0 where
  fail_ticket ban_ticket : TicketClass

-- An entry of `matches`: a text, or a tuple of texts.
pub data Line : Type 0 where
  text : String → Line
  parts : List String → Line

pub record Ticket (K : Type 0) : Type 0 where
  pub oid : ℕ
  pub ticket_class : TicketClass
  pub id : K
  pub flags : ℕ
  pub ban_count : ℕ
  pub ban_time : Option ℤ
  pub time : ℤ
  pub matches : Option (List Line)
  pub failures : ℕ
  pub first_time : ℤ
  pub retry : ℕ
  pub ban_epoch : ℕ

-- The argument `data` of the constructors: what it says of the two keys.
pub record TicketData : Type 0 where
  pub matches : Option (List Line)
  pub failures : Option ℕ

abbrev pub permanent : ℤ
permanent = negsuc 0

-- `Ticket.MAX_TIME`
abbrev pub max_ticket_time : ℤ
max_ticket_time = pos 0x7FFFFFFFFFFF

join_parts : List String → String
join_parts [] = ""
join_parts (s ∷ ss) = str_append s (join_parts ss)

-- One line of `getMatches`
unfoldable pub line_text : Line → String
unfolding join_parts
line_text (text s) = s
line_text (parts ss) = join_parts ss

-- The quotient, rounded to the nearest integer, a tie to the even one: Python's `round`.
unfoldable pub round_ratio : ℕ → ℕ → ℕ
round_ratio a b =
    let q = a / b in
    let r = a % b in if ltb (2 * r) b then q else if ltb b (2 * r) then q + 1 else q + q % 2

-- How often `a` is doubled until it reaches `b`. `fuel` bounds it; `b` is enough, for `a` above 0.
unfoldable pub doublings : ℕ → ℕ → ℕ → ℕ
doublings zero a b = 0
doublings (suc fuel) a b = elim (leb b a) [ true ↦ 0 | false ↦ suc (doublings fuel (2 * a) b) ]

-- A number, rounded to the 53 bits of a `float`
unfoldable pub round_float : ℕ → ℕ → ℕ
round_float fuel n = let unit = 2 ^ doublings fuel (2 ^ 53) n in round_ratio n unit * unit

-- `int(round(count / float(span) * max_time))` for whole numbers: the quotient and then the product
-- are rounded to 53 bits, and the product to an integer. The quotient is a multiple of
-- `1 / 2 ^ shift`, where its numerator has 53 bits.
unfoldable pub estimate : ℕ → ℕ → ℕ → ℕ
estimate count span max_time =
    let shift = doublings (53 + span) count (2 ^ 52 * span) in
    let quotient = round_ratio (count * 2 ^ shift) span in
    round_ratio (round_float (suc max_time) (quotient * max_time)) (2 ^ shift)

module _ {K : Type 0} where
  -- `FailTicket(ip, time, matches, data)`, and `BanTicket` with the other class. The retry count is
  -- the `failures` of the data, which `Ticket.__init__` has set to 0 where `data` gives none.
  unfoldable pub new_ticket : ℕ → TicketClass → K → ℤ → Option ℤ → List Line → TicketData → Ticket K
  new_ticket oid cls ip now time matches extra =
      let t = get_or time now in
      let failures = get_or extra.failures 0 in
      record {
        oid = oid;
        ticket_class = cls;
        id = ip;
        flags = 0;
        ban_count = 0;
        ban_time = none;
        time = t;
        matches = some (get_or extra.matches matches);
        failures = failures;
        first_time = t;
        retry = failures;
        ban_epoch = 0;
      }

  -- `BanTicket.wrap`
  unfoldable pub wrap_ban : Ticket K → Ticket K
  wrap_ban t = record t { ticket_class = ban_ticket }

  -- `isinstance(ticket, BanTicket)`
  unfoldable pub is_ban_ticket : Ticket K → Bool
  is_ban_ticket t = elim t.ticket_class [ fail_ticket ↦ false | ban_ticket ↦ true ]

  -- `getBanTime` with a default
  unfoldable pub get_ban_time : Ticket K → ℤ → ℤ
  get_ban_time t dflt = get_or t.ban_time dflt

  unfoldable pub set_ban_time : ℤ → Ticket K → Ticket K
  set_ban_time b t = record t { ban_time = some b }

  unfoldable pub set_ban_count : ℕ → Bool → Ticket K → Ticket K
  set_ban_count n always t =
      if always
      then record t { ban_count = n }
      else if ltb t.ban_count n
      then record t { ban_count = n }
      else t

  unfoldable pub incr_ban_count : ℕ → Ticket K → Ticket K
  incr_ban_count n t = record t { ban_count = t.ban_count + n }

  unfoldable pub get_end_of_ban_time : Ticket K → ℤ → ℤ
  unfolding get_ban_time
  get_end_of_ban_time t dflt =
      let bantime = get_ban_time t dflt in
      if eqb_ℤ bantime permanent then max_ticket_time else t.time +ℤ bantime

  unfoldable pub is_timed_out : Ticket K → ℤ → ℤ → Bool
  unfolding get_ban_time
  is_timed_out t now dflt =
      let bantime = get_ban_time t dflt in
      if eqb_ℤ bantime permanent then false else ltb_ℤ (t.time +ℤ bantime) now

  unfoldable pub set_matches : List Line → Ticket K → Ticket K
  set_matches [] t = record t { matches = none }
  set_matches (l ∷ ls) t = record t { matches = some (l ∷ ls) }

  unfoldable pub get_matches : Ticket K → List String
  unfolding line_text
  get_matches t = elim t.matches [ none ↦ [] | some ls ↦ map line_text ls ]

  -- The bit 0x01 of `_flags`: read, `|= RESTORED`, `&= ~RESTORED`.
  unfoldable pub restored : Ticket K → Bool
  restored t = t.flags % 2 == 1

  unfoldable pub set_restored : Bool → Ticket K → Ticket K
  set_restored b t = record t { flags = t.flags - t.flags % 2 + (if b then 1 else 0) }

  -- The bit 0x08 of `_flags`.
  unfoldable pub banned : Ticket K → Bool
  banned t = t.flags / 8 % 2 == 1

  unfoldable pub set_banned : Bool → Ticket K → Ticket K
  set_banned b t = record t { flags = t.flags - 8 * (t.flags / 8 % 2) + (if b then 8 else 0) }

  unfoldable pub set_retry : ℕ → Ticket K → Ticket K
  set_retry value t =
      if value == 0
      then record t { retry = value; failures = 0; matches = some [] }
      else record t { retry = value; failures = if t.failures == 0 then 1 else t.failures }

  -- `adjustTime`: beyond the find time the retry count is estimated from the rate so far.
  unfoldable pub adjust_time : ℤ → ℕ → Ticket K → Ticket K
  adjust_time time max_time t =
      if ltb_ℤ t.time time
      then if ltb_ℤ t.first_time (time -ℤ pos max_time)
        then record t {
          retry = estimate t.retry (pos_part (time -ℤ t.first_time)) max_time;
          first_time = time -ℤ pos max_time;
          time = time;
        }
        else record t { time = time }
      else t

-- The matches, as `inc` extends them
unfoldable pub extend_matches : List Line → List String → List Line
extend_matches [] new = map text new
extend_matches (l ∷ ls) new = (l ∷ ls) ++ map text new

-- How `inc` ends: by its end, or by the `KeyError` of `self._data['matches']`, with what it had
-- written until then.
pub data Inc (K : Type 0) : Type 0 where
  done : Ticket K → Inc K
  key_error : Ticket K → Inc K

module _ {K : Type 0} where
  -- `inc(matches, attempt, count)`; no matches stands for `None` too.
  unfoldable pub inc : List String → ℕ → ℕ → Ticket K → Inc K
  unfolding extend_matches
  inc [] attempt count t =
      done (record t { retry = t.retry + count; failures = t.failures + attempt })
  inc (m ∷ ms) attempt count t =
      let counted = record t { retry = t.retry + count; failures = t.failures + attempt } in
      elim t.matches [
        | none ↦ key_error counted
        | some old ↦ done (record counted { matches = some (extend_matches old (m ∷ ms)) })
      ]
