-- ===== src/Server.antt =====
-- The jails of fail2ban/server/server.py: `addJail`, `delJail`, `startJail`, `stopJail`, `stopAllJail`
-- and `reloadJails`, with the state of a reload. What the server calls in jails, in the database and
-- in the caches is a list of events; these calls raise no exception here. Jails are kept by
-- `Jails` of fail2ban/server/jails.py. The locks make each operation one step.
pub mod Reload
pub mod Adding
pub mod Making
pub mod Starting
pub mod Begin
pub mod Cycle
use fail2ban.Common.{
  ℕ, Bool, true, false, not, ◌&&◌, ◌||◌, Option, none, some, List, [], ◌∷◌, ◌++◌, length, ◌==◌,
  if◌then◌else◌,
}
use fail2ban.Common.Dict.{Key, Dict, lookup, contains, insert, erase, keys}
use fail2ban.Jails.{Result, returned, duplicate_jail, unknown_jail, jail_failed, add}

-- What the server reads of a jail
pub record ServerJail (B : Type 0) : Type 0 where
  pub backend : B
  pub alive : Bool
  pub idle : Bool

-- A call in a jail, in the database or in the caches
pub data Event (N : Type 0) : Type 0 where
  started stored deleted unbanned : N → Event N
  stopped : N → Bool → Bool → Event N
  reloaded : N → Bool → Event N
  caches_cleared : Event N

-- `Server`; `reload_state` holds the jails to reload: `true` is the jail, `false` is `None`, after
-- `addJail` has met it.
pub record Server (N B : Type 0) : Type 0 where
  pub jails : Dict N (ServerJail B)
  pub has_db : Bool
  pub reload_state : Dict N Bool
  pub events : List (Event N)

-- How a command fails
pub data Failure : Type 0 where
  duplicate unknown not_made in_progress : Failure

-- How a command ends, with the state that it leaves
pub data Outcome (N B : Type 0) : Type 0 where
  done : Server N B → Outcome N B
  failed : Failure → Server N B → Outcome N B

-- The options of a reload
pub record ReloadOptions : Type 0 where
  pub if_exists : Bool
  pub unban : Bool
  pub restart : Bool

module _ {N B : Type 0} where
  -- One command after another
  unfoldable pub and_then : Outcome N B → (Server N B → Outcome N B) → Outcome N B
  and_then (done s) k = k s
  and_then (failed e s) k = failed e s

  unfoldable pub log_event : Event N → Server N B → Server N B
  log_event e s = record s { events = s.events ++ (e ∷ []) }

module _ {B : Type 0} ⦃backend_key : Key B⦄ where
  -- `jail.backend == backend`
  abbrev pub same_backend : B → B → Bool
  same_backend b b' = elim (backend_key.same b b') [ yes _ ↦ true | no _ ↦ false ]

module _ {N B : Type 0} ⦃name_key : Key N⦄ ⦃backend_key : Key B⦄ where
  -- `delJail`
  unfoldable pub del_jail : N → Bool → Bool → Server N B → Outcome N B
  del_jail name stop join s = elim (lookup name s.jails) [
    | none ↦ failed unknown s
    | some jail ↦
        let s' = if join || jail.alive then log_event (stopped name stop join) s else s in
        let s'' = if s'.has_db then log_event (deleted name) s' else s' in
        if join then done (record s'' { jails = erase name s''.jails }) else done s'
  ]

  -- The end of `addJail`
  unfoldable pub store_jail : N → Server N B → Outcome N B
  store_jail name s = if s.has_db then done (log_event (stored name) s) else done s

  -- The making of a jail in `addJail`; `new_jail` makes it from a name and a backend.
  unfoldable pub make_jail : (N → B → Option (ServerJail B)) → N → B → Server N B → Outcome N B
  make_jail new_jail name backend s = elim (add (λ n. new_jail n backend) name s.jails) [
    | returned jails ↦ store_jail name (record s { jails = jails })
    | duplicate_jail ↦ failed duplicate s
    | unknown_jail ↦ failed unknown s
    | jail_failed ↦ failed not_made s
  ]

  -- `addJail`
  unfoldable pub add_jail : (N → B → Option (ServerJail B)) → N → B → Server N B → Outcome N B
  add_jail new_jail name backend s = elim (lookup name s.reload_state) [
    | none ↦ make_jail new_jail name backend s
    | some false ↦ make_jail new_jail name backend s
    | some true ↦ elim (lookup name s.jails) [
      | none ↦ make_jail new_jail name backend s
      | some jail ↦
          if same_backend jail.backend backend
          then store_jail name (record s { reload_state = insert name false s.reload_state })
          else and_then (del_jail name true true s) (λ s'.
            make_jail new_jail name backend
              (record s' { reload_state = erase name s'.reload_state }))
    ]
  ]

  -- `startJail`
  unfoldable pub start_jail : N → Server N B → Outcome N B
  start_jail name s = elim (lookup name s.jails) [
    | none ↦ failed unknown s
    | some jail ↦
        let awake = record s {
          jails = insert name (record jail { alive = true; idle = false }) s.jails;
        } in
        if not jail.alive
        then done (log_event (started name) awake)
        else done (record awake { reload_state = erase name s.reload_state })
  ]

  -- `stopJail`
  unfoldable pub stop_jail : N → Server N B → Outcome N B
  stop_jail name s = del_jail name true true s

  -- A loop of `delJail` over names
  unfoldable pub del_each : List N → Bool → Bool → Server N B → Outcome N B
  del_each [] stop join s = done s
  del_each (name ∷ names) stop join s =
      and_then (del_jail name stop join s) (λ s'. del_each names stop join s')

  -- `stopAllJail`
  unfoldable pub stop_all_jail : Server N B → Outcome N B
  stop_all_jail s =
      and_then (del_each (keys s.jails) true false s) (λ s'. del_each (keys s'.jails) false true s')

  -- `setUnbanIP` of all jails
  unfoldable pub unban_each : List N → Server N B → Server N B
  unban_each [] s = s
  unban_each (name ∷ names) s = unban_each names (log_event (unbanned name) s)

  -- What a reload begins with, for one jail
  unfoldable pub prepare_one : N → ReloadOptions → Server N B → Outcome N B
  prepare_one name opts s = elim (lookup name s.jails) [
    | none ↦ if opts.if_exists then done s else failed unknown s
    | some jail ↦
        let s' = if opts.unban then log_event (unbanned name) s else s in
        if opts.restart then stop_jail name s' else done s'
  ]

  -- and for all jails
  unfoldable pub prepare_all : ReloadOptions → Server N B → Outcome N B
  prepare_all opts s =
      let s' = log_event caches_cleared s in
      let s'' = if opts.unban then unban_each (keys s'.jails) s' else s' in
      if opts.restart then stop_all_jail s'' else done s''

  -- A jail of the loop that sets the jails to idle
  unfoldable pub begin_one : N × ServerJail B → Server N B → Server N B
  begin_one e s = log_event (reloaded e.0 true) (record s {
    jails = insert e.0 (record e.1 { idle = true }) s.jails;
    reload_state = insert e.0 true s.reload_state;
  })

  unfoldable pub begin_each : Option N → Dict N (ServerJail B) → Server N B → Server N B
  begin_each only [] s = s
  begin_each none (e ∷ d) s = begin_each none d (begin_one e s)
  begin_each (some name) (e ∷ d) s = elim (name_key.same e.0 name) [
    | yes _ ↦ begin_each (some name) d (begin_one e s)
    | no _ ↦ begin_each (some name) d s
  ]

  -- `reloadJails(begin=True)`, of one jail or of all
  unfoldable pub begin_reload : Option N → ReloadOptions → Server N B → Outcome N B
  begin_reload none opts s =
      if length s.reload_state == 0
      then and_then (prepare_all opts s) (λ s'. done (begin_each none s'.jails s'))
      else failed in_progress s
  begin_reload (some name) opts s = elim (lookup name s.reload_state) [
    | some true ↦ failed in_progress s
    | some false ↦
        and_then (prepare_one name opts s) (λ s'. done (begin_each (some name) s'.jails s'))
    | none ↦ and_then (prepare_one name opts s) (λ s'. done (begin_each (some name) s'.jails s'))
  ]

  -- The loop at the end of a reload: the jails to delete, and the state
  unfoldable pub commit_each : Dict N (ServerJail B) → Server N B → List N × Server N B
  commit_each [] s = ([], s)
  commit_each (e ∷ d) s =
      let later = commit_each d s in
      let next = commit_each d (log_event (reloaded e.0 false) s) in
      if contains e.0 s.reload_state then (e.0 ∷ later.0, later.1) else next

  -- `reloadJails(begin=False)`
  unfoldable pub end_reload : Server N B → Outcome N B
  end_reload s =
      let r = commit_each s.jails s in
      and_then (del_each r.0 true true r.1) (λ s'. done (record s' { reload_state = [] }))
