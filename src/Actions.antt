-- ===== src/Actions.antt =====
-- The actions of a jail, `Actions` of fail2ban/server/actions.py: their state, and the calls of an
-- action. What a call of an action does outside is the parameter `answer`, which may depend on all
-- calls before it. A ticket is one object in the code; here the ban list holds it, and what the code
-- writes to it later is written there. Log lines are left out.
pub mod Bans
pub mod Unbans
pub mod Thread
pub mod Told
pub mod Calls
pub mod Reload
use Prim.Native.String.{String}
use fail2ban.Common.{
  ℕ, zero, suc, ◌+◌, ◌≡◌, refl, ◌⊎◌, inl, inr, Bool, true, false, not, ◌&&◌, Option, none, some,
  List, [], ◌∷◌, ltb, if◌then◌else◌, keep,
}
use fail2ban.Common.Int.{ℤ}
use fail2ban.Common.Dict.{Key, Dict, lookup, contains, insert, erase, keys}
use fail2ban.Ticket.{Ticket}
use fail2ban.BanManager.{BanManager}

-- A method of an action that is called
pub data Call (K : Type 0) : Type 0 where
  start stop flush check clear_params : Call K
  ban reban unban prolong : Ticket K → Call K
  reload : List (String × String) → Call K

-- Whether a call ends without an exception, what it returns, and how often it found the environment
-- of the action broken and began to repair it: `invalidateBanEpoch` is called each time, by a
-- `consistencyCheck` once for every broken family.
pub record Answer : Type 0 where
  pub ok : Bool
  pub value : Bool
  pub repairs : ℕ

-- An action: its attributes, and which optional methods it has
pub record Action : Type 0 where
  pub no_restored : Bool
  pub is_prolongable : Bool
  pub can_flush : Bool
  pub can_check : Bool
  pub can_reload : Bool
  pub can_clear : Bool
  pub ban_epoch : ℕ

-- `Actions`, with the queue of the jail. `calls` are the calls of actions, the newest first;
-- `observed` are the events `banFound`, `none` where there is no observer; `deleted` are the deletions
-- in the database, of an id or of all, `none` where there is no database.
pub record Actions (N K : Type 0) : Type 0 where
  pub actions : Dict N Action
  pub ban_manager : BanManager K
  pub ban_epoch : ℕ
  pub last_check_tm : ℤ
  pub ban_precedence : ℕ
  pub unban_max_count : ℕ
  pub queue : List (Ticket K)
  pub observed : Option (List (Ticket K × ℤ))
  pub deleted : Option (List (Option K))
  pub reloading : Option (Dict N (List (String × String)))
  pub calls : List (N × Call K)

-- How a method of `Actions` ends, with the state it leaves
pub data Outcome (N K : Type 0) (A : Type 0) : Type 0 where
  returned : A → Actions N K → Outcome N K A
  raised : Actions N K → Outcome N K A

module _ {N K : Type 0} where
  -- The state that is left
  unfoldable pub left_by : {A : Type 0} → Outcome N K A → Actions N K
  left_by (returned a s) = s
  left_by (raised s) = s

  pub Outcome-cases :
      {A : Type 0} (o : Outcome N K A)
      → ((a : A) × (s : Actions N K) × (o ≡ returned a s)) ⊎ ((s : Actions N K) × (o ≡ raised s))
  Outcome-cases (returned a s) = inl (a, s, refl)
  Outcome-cases (raised s) = inr (s, refl)

module _ {N K : Type 0} ⦃name_key : Key N⦄ where
  -- `invalidateBanEpoch`
  unfoldable pub invalidate_ban_epoch : N → Actions N K → Actions N K
  invalidate_ban_epoch name s =
      let epoch = s.ban_epoch + 1 in
      record s {
        ban_epoch = epoch;
        actions = elim (lookup name s.actions) [
          | none ↦ s.actions
          | some a ↦ insert name (record a { ban_epoch = epoch }) s.actions
        ];
      }

  -- `invalidateBanEpoch`, as often as an action calls it in one call
  unfoldable pub invalidate_times : N → ℕ → Actions N K → Actions N K
  invalidate_times name zero s = s
  invalidate_times name (suc n) s = invalidate_times name n (invalidate_ban_epoch name s)

  module _ (answer : List (N × Call K) → N → Call K → Answer) where
    -- One call of an action
    unfoldable pub call_action : N → Call K → Actions N K → Actions N K
    call_action name c s =
        invalidate_times name (answer s.calls name c).repairs
          (record s { calls = (name, c) ∷ s.calls })

    -- One action of a loop that leaves some out
    unfoldable pub call_unless : (Action → Bool) → Call K → N × Action → Actions N K → Actions N K
    call_unless skip c e s = if skip e.1 then s else call_action e.0 c s

    -- A loop over actions that calls a method of each, but of those that are skipped; an exception
    -- is logged, and the next action follows.
    unfoldable pub call_all : (Action → Bool) → Call K → Dict N Action → Actions N K → Actions N K
    call_all skip c [] s = s
    call_all skip c (e ∷ d) s = call_all skip c d (call_unless skip c e s)

    -- A loop without a handler: the first exception ends it.
    unfoldable pub call_each :
        (Action → Bool) → Call K → Dict N Action → Actions N K → Outcome N K (Unit {0})
    call_each skip c [] s = returned tt s
    call_each skip c (e ∷ d) s =
        if skip e.1
        then call_each skip c d s
        else let rest = call_each skip c d (call_action e.0 c s) in
          if (answer s.calls e.0 c).ok then rest else raised (call_action e.0 c s)

    -- `stopActions`: in reverse order, each one is stopped and removed.
    unfoldable pub stop_each : List N → Actions N K → Actions N K
    stop_each [] s = s
    stop_each (name ∷ names) s =
        let later = stop_each names s in
        let stopped = call_action name stop later in
        record stopped { actions = erase name stopped.actions }

    unfoldable pub stop_actions : Dict N Action → Actions N K → Actions N K
    stop_actions acts s = stop_each (keys acts) s

    -- `add`: a new action, or one that is to be reloaded; `none` is the `ValueError`, or
    -- the `AttributeError` where no reload has begun. `made` is the
    -- new action, whose module is loaded outside.
    unfoldable pub add_action :
        N → Action → List (String × String) → Bool → Actions N K → Option (Actions N K)
    add_action name made opts reload_it s =
        let new = record s { actions = insert name made s.actions } in
        elim (lookup name s.actions) [
          | none ↦ some new
          | some a ↦
              if not reload_it
              then none
              else if a.can_reload
              then (if a.can_clear
                  then elim s.reloading [
                    | none ↦ none
                    | some r ↦ some (record (call_action name clear_params s) {
                      reloading = some (insert name opts r);
                    })
                  ]
                  else some s)
              else some new
        ]
