-- ===== src/Server/Starting.antt =====
-- The jails of fail2ban/server/server.py while a reload starts jails.
use fail2ban.Common.{
  ◌≡◌, refl, sym, ap, ◌∙◌, Bool, true, false, Option, none, some, List, [], ◌∷◌, if◌then◌else◌, ite,
  inl, inr, Bool-cases, Option-cases, ◌≢◌,
}
use fail2ban.Common.Dict.{
  Key, lookup, contains, insert, erase, Distinct, insert-Distinct, erase-Distinct,
  lookup-insert_self, lookup-insert_ne, lookup-erase_self, lookup-erase_ne,
}
use fail2ban.Server.{Server, ServerJail, started, Outcome, done, and_then, log_event, start_jail}
use fail2ban.Server.Adding.{is_there, clash, with_name}

module _ {B : Type 0} where
  is_alive : Option (ServerJail B) → Bool
  is_alive o = elim o [ none ↦ false | some j ↦ j.alive ]

  pub alive_of : (j k : ServerJail B) → j.alive ≡ true → some j ≡ some k → k.alive ≡ true
  unfolding is_alive
  alive_of j k h e = ap is_alive (sym e) ∙ h

module _ {N : Type 0} ⦃name_key : Key N⦄ where
  abbrev pub all_started : List N → (N → Bool) → N → Bool
  all_started [] started' n = started' n
  all_started (name ∷ names) started' n = all_started names (with_name name started') n

module _ {N B : Type 0} ⦃name_key : Key N⦄ ⦃backend_key : Key B⦄ where
  -- The commands that start the jails of a configuration
  pub start_all : List N → Server N B → Outcome N B
  start_all [] s = done s
  start_all (name ∷ names) s = and_then (start_jail name s) (λ s'. start_all names s')

  -- While jails are started: the listed names do not change, and the started ones are no more in the
  -- reload state.
  pub record Starting (started' : N → Bool) (s0 s : Server N B) : Type 0 where
    pub distinct : Distinct s.jails
    pub once : Distinct s.reload_state
    pub alive :
        (n : N) (j : ServerJail B)
        → contains n s.reload_state ≡ true
        → lookup n s.jails ≡ some j
        → j.alive ≡ true
    pub listed : (n : N) → contains n s.jails ≡ contains n s0.jails
    pub waits :
        (n : N)
        → contains n s.reload_state ≡ (if started' n then false else contains n s0.reload_state)

  start_jail-Starting :
      (name : N) (started' : N → Bool) (s0 s : Server N B)
      → contains name s0.jails ≡ true
      → Starting started' s0 s
      → (s' : Server N B) × (start_jail name s ≡ done s') × Starting (with_name name started') s0 s'
  unfolding start_jail log_event
  start_jail-Starting name started' s0 s there h = elim (Option-cases (lookup name s.jails)) [
    | inl missing ↦ absurd (clash (h.listed name ∙ there) (ap is_there missing))
    | inr (jail, found) ↦
        let new = record jail { alive = true; idle = false } in
        let jails = insert name new s.jails in
        let state = erase name s.reload_state in
        let listed' = λ (n : N).
          elim (name_key.same n name) as (λ _. contains n jails ≡ contains n s0.jails) [
            | yes same ↦ rw same (ap is_there (lookup-insert_self name new s.jails) ∙ sym there)
            | no other ↦ ap is_there (lookup-insert_ne n name new s.jails other) ∙ h.listed n
          ] in
        let awake =
          λ (n : N) (k : ServerJail B) (got : lookup n jails ≡ some k)
              (other : n ≢ name → contains n s.reload_state ≡ true).
            elim (name_key.same n name) as (λ _. k.alive ≡ true) [
              | yes same ↦ alive_of new k refl (
                  sym (lookup-insert_self name new s.jails)
                  ∙ ap (λ n. lookup n jails) (sym same)
                  ∙ got)
              | no differs ↦
                  h.alive n k (other differs)
                    (sym (lookup-insert_ne n name new s.jails differs) ∙ got)
            ] in
        elim (Bool-cases jail.alive) [
          | inl alive ↦ (
            record s { jails = jails; reload_state = state },
            rw (start_jail, found, alive) refl,
            record {
              distinct = insert-Distinct name new s.jails h.distinct;
              once = erase-Distinct name s.reload_state h.once;
              alive = λ n k held got.
                  awake n k got (λ other.
                    ap is_there (sym (lookup-erase_ne n name s.reload_state other)) ∙ held);
              listed = listed';
              waits = λ n.
                  elim (name_key.same n name)
                    as (λ x.
                      contains n state
                      ≡ (if ite x true (started' n) then false else contains n s0.reload_state)) [
                        | yes same ↦
                            rw same (ap is_there (lookup-erase_self name s.reload_state h.once))
                        | no other ↦
                            ap is_there (lookup-erase_ne n name s.reload_state other) ∙ h.waits n
                      ];
            },
          )
          | inr dead ↦ (
            log_event (started name) (record s { jails = jails }),
            rw (start_jail, found, dead) refl,
            record {
              distinct = insert-Distinct name new s.jails h.distinct;
              once = h.once;
              alive = λ n k held got. awake n k got (λ other. held);
              listed = listed';
              waits = λ n.
                  elim (name_key.same n name)
                    as (λ x.
                      contains n s.reload_state
                      ≡ (if ite x true (started' n) then false else contains n s0.reload_state)) [
                        | yes same ↦ rw same (elim (Bool-cases (contains name s.reload_state)) [
                          | inl waits' ↦ absurd (clash (h.alive name jail waits' found) dead)
                          | inr out ↦ out
                        ])
                        | no other ↦ h.waits n
                      ];
            },
          )
        ]
  ]

  abbrev pub Listed : List N → Server N B → Type 0
  Listed [] s = Unit {0}
  Listed (n ∷ ns) s = (contains n s.jails ≡ true) × Listed ns s

  pub start_all-Starting :
      (names : List N) (started' : N → Bool) (s0 s : Server N B)
      → Listed names s0
      → Starting started' s0 s
      → (s' : Server N B) × (start_all names s ≡ done s')
        × Starting (all_started names started') s0 s'
  unfolding start_all and_then
  start_all-Starting [] started' s0 s there h = (s, refl, h)
  start_all-Starting (name ∷ names) started' s0 s there h =
      let (s1, one, inv) = start_jail-Starting name started' s0 s there.0 h in
      let (s2, rest, inv') = start_all-Starting names (with_name name started') s0 s1 there.1 inv in
      (s2, rw (start_all, one) rest, inv')
