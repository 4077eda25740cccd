-- ===== src/Actions/Told/History.antt =====
-- What an action of fail2ban/server/actions.py has been told, after any sequence of the operations
-- that ban and unban.
use fail2ban.Common.{ℕ, ◌≡◌, refl, Bool, Option, none, List, []}
use fail2ban.Common.Int.{ℤ}
use fail2ban.Common.Dict.{Key, contains, Distinct}
use fail2ban.Ticket.{Ticket}
use fail2ban.Actions.{Actions, Answer, Call, returned, left_by}
use fail2ban.Actions.Bans.{check_ban, check_tickets, prolong_ban}
use fail2ban.Actions.Unbans.{check_un_ban, flush_ban, remove_banned}
use fail2ban.Actions.Told.{banned_by, IsPlain}
use fail2ban.Actions.Told.Keep.{InStep}
use fail2ban.Actions.Told.Check.{check_queue-InStep, check_tickets-InStep, prolong_ban-InStep}
use fail2ban.Actions.Told.Unban.{check_un_ban-InStep}
use fail2ban.Actions.Told.Remove.{remove_banned-InStep}
use fail2ban.Actions.Told.Flush.{flush_ban-InStep}

module _ {N K : Type 0} ⦃name_key : Key N⦄ ⦃ban_key : Key K⦄
    (answer : List (N × Call K) → N → Call K → Answer) where
  -- A step of the jail thread or of a command: from a state to the state it leaves. An exception
  -- that leaves the method is allowed, but for one out of `__flushBan`.
  pub data Step : Actions N K → Actions N K → Type 0 where
    checks : (now : ℤ) (s : Actions N K) → Step s (left_by (check_ban answer now s))
    adds :
        (now : ℤ) (ts : List (Ticket K)) (s : Actions N K)
        → Step s (left_by (check_tickets answer now ts 0 [] s))
    ends : (now : ℤ) (n : ℕ) (s : Actions N K) → Step s (check_un_ban answer now n s).1
    prolongs : (t : Ticket K) (s : Actions N K) → Step s (prolong_ban answer t s)
    removes :
        (covers : K → Option (K → Bool)) (db if_exists : Bool) (id : K) (s : Actions N K)
        → Step s (remove_banned answer covers db if_exists 1 id s).1
    flushes :
        (db : Bool) (cnt : ℕ) (s s' : Actions N K)
        → flush_ban answer db none s ≡ returned cnt s'
        → Step s s'

  -- Any number of steps
  pub data Reaches : Actions N K → Actions N K → Type 0 where
    stays : (s : Actions N K) → Reaches s s
    goes : (s s' s'' : Actions N K) → Reaches s s' → Step s' s'' → Reaches s s''

  pub step-InStep : (name : N) (s s' : Actions N K) → Step s s' → InStep name s → InStep name s'
  unfolding check_ban
  step-InStep name s _ (checks now _) h =
      check_queue-InStep answer name now s.ban_precedence 0 [] s h
  step-InStep name s _ (adds now ts _) h = check_tickets-InStep answer name now ts 0 [] s h
  step-InStep name s _ (ends now n _) h = check_un_ban-InStep answer name now n s h
  step-InStep name s _ (prolongs t _) h = prolong_ban-InStep answer name t s h
  step-InStep name s _ (removes covers db if_exists id _) h =
      remove_banned-InStep answer name covers db if_exists 1 id s h
  step-InStep name s s' (flushes db cnt _ _ e) h =
      let (a, found, all, single) = h.plain in
      (flush_ban-InStep answer name a db s cnt s' found single h e).0

  reaches-InStep : (name : N) (s s' : Actions N K) → Reaches s s' → InStep name s → InStep name s'
  reaches-InStep name s _ (stays _) h = h
  reaches-InStep name s _ (goes _ s' s'' before step) h =
      step-InStep name s' s'' step (reaches-InStep name s s' before h)

  -- From a start without bans, in whatever order tickets are banned, rebanned, prolonged and unbanned
  -- and bans are flushed, and whatever the actions answer, with one exception: the ids that an action
  -- was last told to ban are exactly the ids in the ban list. The exception is a `__flushBan` that
  -- raises, which is no step here. The action is one that takes restored tickets and cannot flush.
  pub told-Reaches :
      (name : N) (id : K) (s s' : Actions N K)
      → IsPlain name s.actions
      → Distinct s.actions
      → s.ban_manager.ban_list ≡ []
      → s.calls ≡ []
      → Reaches s s'
      → banned_by name id s'.calls ≡ contains id s'.ban_manager.ban_list
  told-Reaches name id s s' plain unique no_bans no_calls steps =
      let start' : InStep name s = record {
        plain = plain;
        unique = unique;
        distinct = rw no_bans tt;
        owned = rw no_bans tt;
        told = λ id. rw (no_bans, no_calls) refl;
      } in
      (reaches-InStep name s s' steps start').told id
