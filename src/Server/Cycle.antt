-- ===== src/Server/Cycle.antt =====
-- A whole reload of all jails of fail2ban/server/server.py: the begin, the commands that add and start
-- the jails of a new configuration, and the end.
use fail2ban.Common.{
  ◌≡◌, refl, ap, ◌∙◌, Bool, true, false, Option, none, some, [], ◌∷◌, if◌then◌else◌, arith,
}
use fail2ban.Common.Dict.{Key, Dict, contains, keys, Distinct}
use fail2ban.Common.Dict.Entries.{Entries}
use fail2ban.Common.Dict.Sweep.{contains-keep}
use fail2ban.Server.{
  Server, ServerJail, ReloadOptions, Outcome, done, and_then, begin_reload, end_reload,
}
use fail2ban.Server.Reload.{end_reload_jails}
use fail2ban.Server.Begin.{begin_all}
use fail2ban.Server.Making.{add_all, add_all-Adding}
use fail2ban.Server.Adding.{both_added, with_name}
use fail2ban.Server.Starting.{Starting, Listed, all_started, start_all, start_all-Starting}

-- Whether a jail is left, from whether it is in the configuration
settled :
    (named before after there : Bool)
    → after ≡ (if (if named then true else false) then false else before)
    → there ≡ (if (if named then true else false) then true else before)
    → (if after then false else there) ≡ named
settled named before after there h g = ground (arith, h, g)

module _ {N B : Type 0} ⦃name_key : Key N⦄ ⦃backend_key : Key B⦄ where
  -- The commands of a reload: first all jails of the configuration are added, then all are started.
  pub reload_all :
      (N → B → Option (ServerJail B)) → ReloadOptions → Dict N B → Server N B → Outcome N B
  reload_all new_jail opts cs s =
      and_then (begin_reload none opts s) (λ s1.
        and_then (add_all new_jail cs s1) (λ s2. and_then (start_all (keys cs) s2) end_reload))

  keys-Listed :
      (cs : Dict N B) (s : Server N B)
      → ((n : N) → contains n cs ≡ true → contains n s.jails ≡ true)
      → Distinct cs
      → Listed (keys cs) s
  keys-Listed [] s h unique = tt
  keys-Listed (c ∷ cs) s h unique =
      (h c.0 (ground arith), keys-Listed cs s (λ n there. h n (ground (arith, there))) unique.1)

  all_started_lem :
      (cs : Dict N B) (f : N → Bool) (n : N)
      → all_started (keys cs) f n ≡ (if contains n cs then true else f n)
  all_started_lem [] f n = refl
  all_started_lem (c ∷ cs) f n = all_started_lem cs (with_name c.0 f) n ∙ both_added c cs f n

  -- A reload of all jails without a restart, where all jails are alive and every new jail can be made: its
  -- commands all succeed, whether backends change or not, and afterwards there are exactly the jails of
  -- the new configuration, with no reload under way.
  pub reload_all_jails :
      (new_jail : N → B → Option (ServerJail B))
      → ((n : N) (b : B) → (j : ServerJail B) × (new_jail n b ≡ some j))
      → (opts : ReloadOptions) (cs : Dict N B) (s : Server N B) → Distinct s.jails
      → Entries (λ n j. j.alive ≡ true) s.jails
      → s.reload_state ≡ []
      → opts.restart ≡ false
      → Distinct cs
      → (s' : Server N B) × (reload_all new_jail opts cs s ≡ done s')
        × ((n : N) → contains n s'.jails ≡ contains n cs)
        × (s'.reload_state ≡ [])
  unfolding reload_all and_then
  reload_all_jails new_jail makes opts cs s distinct living idle no_restart unique =
      let (s1, begins, adding) = begin_all opts s distinct living idle no_restart in
      let (s2, adds, added) =
        add_all-Adding new_jail makes cs (λ n. false) s1 unique (λ n there. refl) adding in
      let ready : Starting (λ n. false) s2 s2 = record {
        distinct = added.distinct;
        once = added.once;
        alive = added.alive;
        listed = λ n. refl;
        waits = λ n. refl;
      } in
      let here =
        keys-Listed cs s2
          (λ n there.
            added.known n
            ∙ ap (λ b. if (if b then true else false) then true else contains n s2.reload_state)
                there)
          unique in
      let (s3, starts, ran) = start_all-Starting (keys cs) (λ n. false) s2 s2 here ready in
      let (s4, ends, jails, over) = end_reload_jails s3 ran.distinct in
      (
        s4,
        rw (reload_all, begins, adds, starts) ends,
        λ n.
            ap (contains n) jails
            ∙ contains-keep n s3.reload_state s3.jails
            ∙ settled (contains n cs) (contains n s2.reload_state) (contains n s3.reload_state)
                (contains n s3.jails)
                (ran.waits n
                  ∙ ap (λ b. if b then false else contains n s2.reload_state)
                      (all_started_lem cs (λ n. false) n))
                (ran.listed n ∙ added.known n),
        over,
      )
