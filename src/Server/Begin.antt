-- ===== src/Server/Begin.antt =====
-- The begin of a reload of all jails of fail2ban/server/server.py.
use fail2ban.Common.{
  ◌≡◌, refl, sym, ap, ◌∙◌, Bool, true, false, none, some, List, [], ◌∷◌, if◌then◌else◌, ite, inl,
  inr, Bool-cases, ◌⊎◌, length, ◌==◌,
}
use mathlib.Core.Path.{subst}
use fail2ban.Common.Dict.{
  Key, Dict, lookup, contains, insert, keys, Distinct, insert-Distinct, lookup-insert_self,
  lookup-insert_ne,
}
use fail2ban.Common.Dict.Entries.{Entries, Entries-×, Entries-map, lookup-own, lookup-Entries}
use fail2ban.Server.{
  Server, ServerJail, caches_cleared, unbanned, unban_each, ReloadOptions, done, and_then,
  log_event, prepare_all, begin_one, begin_each, begin_reload,
}
use fail2ban.Server.Adding.{is_there, Adding}
use fail2ban.Server.Starting.{alive_of}

both : (b : Bool) → (if b then true else true) ≡ true
both true = refl
both false = refl

truth : (b : Bool) → (if b then true else false) ≡ b
truth true = refl
truth false = refl

module _ {N B : Type 0} ⦃name_key : Key N⦄ ⦃backend_key : Key B⦄ where
  -- After the begin of a reload: the jails are those before it, all alive, and each is to be reloaded.
  record Begun (s0 s : Server N B) : Type 0 where
    distinct : Distinct s.jails
    once : Distinct s.reload_state
    alive : (n : N) (j : ServerJail B) → lookup n s.jails ≡ some j → j.alive ≡ true
    listed : (n : N) → contains n s.jails ≡ contains n s0.jails
    marked : (n : N) → (lookup n s.reload_state ≡ none) ⊎ (lookup n s.reload_state ≡ some true)

  begin_one-Begun :
      (e : N × ServerJail B) (s0 s : Server N B)
      → contains e.0 s0.jails ≡ true
      → e.1.alive ≡ true
      → Begun s0 s
      → Begun s0 (begin_one e s)
  unfolding begin_one log_event
  begin_one-Begun e s0 s there living h =
      let new = record e.1 { idle = true } in
      record {
        distinct = insert-Distinct e.0 new s.jails h.distinct;
        once = insert-Distinct e.0 true s.reload_state h.once;
        alive = λ n k got. elim (name_key.same n e.0) [
          | yes same ↦ alive_of new k living (
              sym (lookup-insert_self e.0 new s.jails)
              ∙ ap (λ n. lookup n (insert e.0 new s.jails)) (sym same)
              ∙ got)
          | no other ↦ h.alive n k (sym (lookup-insert_ne n e.0 new s.jails other) ∙ got)
        ];
        listed = λ n. elim (name_key.same n e.0) [
          | yes same ↦ rw same (ap is_there (lookup-insert_self e.0 new s.jails) ∙ sym there)
          | no other ↦ ap is_there (lookup-insert_ne n e.0 new s.jails other) ∙ h.listed n
        ];
        marked = λ n. elim (name_key.same n e.0) [
          | yes same ↦ rw same (inr (lookup-insert_self e.0 true s.reload_state))
          | no other ↦
              subst (λ o. (o ≡ none) ⊎ (o ≡ some true))
                (sym (lookup-insert_ne n e.0 true s.reload_state other)) (h.marked n)
        ];
      }

  mark_one :
      (n : N) (e : N × ServerJail B) (d : Dict N (ServerJail B)) (s : Server N B)
      → (if contains n d then true else contains n (begin_one e s).reload_state)
        ≡ (if contains n (e ∷ d) then true else contains n s.reload_state)
  unfolding begin_one log_event
  mark_one n e d s =
      elim (name_key.same n e.0)
        as (λ x. (if contains n d then true else contains n (insert e.0 true s.reload_state)) ≡ (
          if is_there (ite x (some e.1) (lookup n d)) then true else contains n s.reload_state)) [
            | yes same ↦ rw same (
                ap (λ o. if contains e.0 d then true else is_there o)
                  (lookup-insert_self e.0 true s.reload_state)
                ∙ both (contains e.0 d))
            | no other ↦
                ap (λ o. if contains n d then true else is_there o)
                  (lookup-insert_ne n e.0 true s.reload_state other)
          ]

  begin_each-Begun :
      (d : Dict N (ServerJail B)) (s0 s : Server N B)
      → Entries (λ n j. (contains n s0.jails ≡ true) × (j.alive ≡ true)) d
      → Begun s0 s
      → Begun s0 (begin_each none d s)
        × ((n : N)
            → contains n (begin_each none d s).reload_state
              ≡ (if contains n d then true else contains n s.reload_state))
  unfolding begin_each
  begin_each-Begun [] s0 s all h = (h, λ n. refl)
  begin_each-Begun (e ∷ d) s0 s all h =
      let next = begin_one e s in
      let (begun, marks) =
        begin_each-Begun d s0 next all.1 (begin_one-Begun e s0 s all.0.0 all.0.1 h) in
      (begun, λ n. marks n ∙ mark_one n e d s)

  unban_each_keeps :
      (names : List N) (s : Server N B)
      → ((unban_each names s).jails ≡ s.jails)
        × ((unban_each names s).reload_state ≡ s.reload_state)
  unfolding unban_each log_event
  unban_each_keeps [] s = (refl, refl)
  unban_each_keeps (name ∷ names) s = unban_each_keeps names (log_event (unbanned name) s)

  -- What a reload begins with, unless it is a restart
  prepare_all_keeps :
      (opts : ReloadOptions) (s : Server N B)
      → opts.restart ≡ false
      → (s' : Server N B) × (prepare_all opts s ≡ done s')
        × (s'.jails ≡ s.jails)
        × (s'.reload_state ≡ s.reload_state)
  unfolding prepare_all log_event
  prepare_all_keeps opts s no_restart =
      let s1 = log_event caches_cleared s in
      let kept = unban_each_keeps (keys s1.jails) s1 in
      elim (Bool-cases opts.unban) [
        | inl unban ↦ (
          unban_each (keys s1.jails) s1,
          rw (prepare_all, unban, no_restart) refl,
          kept.0,
          kept.1,
        )
        | inr no_unban ↦ (s1, rw (prepare_all, no_unban, no_restart) refl, refl, refl)
      ]

  -- The begin of a reload of all jails, none of which is to be restarted
  pub begin_all :
      (opts : ReloadOptions) (s : Server N B)
      → Distinct s.jails
      → Entries (λ n j. j.alive ≡ true) s.jails
      → s.reload_state ≡ []
      → opts.restart ≡ false
      → (s' : Server N B) × (begin_reload none opts s ≡ done s') × Adding (λ n. false) s'
  unfolding begin_reload and_then
  begin_all opts s distinct living idle no_restart =
      let (s1, prepared, jails, state) = prepare_all_keeps opts s no_restart in
      let own = lookup-own s.jails distinct in
      let free : (length s.reload_state == 0) ≡ true =
        ap (λ (d : Dict N Bool). length d == 0) idle in
      let all : Entries (λ n j. (contains n s1.jails ≡ true) × (j.alive ≡ true)) s1.jails =
        rw jails (
          Entries-× (λ n j. contains n s.jails ≡ true) (λ n j. j.alive ≡ true) s.jails
            (Entries-map (λ n j. lookup n s.jails ≡ some j) (λ n j. contains n s.jails ≡ true)
              (λ n j e. ap is_there e) s.jails own)
            living) in
      let start' : Begun s1 s1 = record {
        distinct = rw jails distinct;
        once = rw (state, idle) tt;
        alive = λ n j got.
            lookup-Entries (λ n j. j.alive ≡ true) n j s.jails living
              (ap (lookup n) (sym jails) ∙ got);
        listed = λ n. refl;
        marked = λ n. inl (rw (state, idle) refl);
      } in
      let (begun, marks) = begin_each-Begun s1.jails s1 s1 all start' in
      (
        begin_each none s1.jails s1,
        rw (begin_reload, free, prepared) refl,
        record {
          distinct = begun.distinct;
          once = begun.once;
          alive = λ n j _ got. begun.alive n j got;
          known = λ n.
              begun.listed n
              ∙ sym (
                  marks n
                  ∙ ap (λ r. if contains n s1.jails then true else contains n r) (state ∙ idle)
                  ∙ truth (contains n s1.jails));
          open' = λ n _. begun.marked n;
        },
      )
