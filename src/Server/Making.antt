-- ===== src/Server/Making.antt =====
-- `addJail` of fail2ban/server/server.py during a reload: jails that are made, made anew, or kept.
use fail2ban.Common.{
  ◌≡◌, refl, sym, ap, ◌∙◌, Bool, true, false, Option, none, some, [], ◌∷◌, if◌then◌else◌, ite,
  arith, inl, inr, Bool-cases, Option-cases, ◌≢◌, ◌⊎◌,
}
use mathlib.Core.Path.{subst}
use fail2ban.Common.Dict.{
  Key, Dict, lookup, contains, insert, erase, Distinct, insert-Distinct, erase-Distinct,
  lookup-insert_self, lookup-insert_ne, lookup-erase_self, lookup-erase_ne,
}
use fail2ban.Jails.{add}
use fail2ban.Server.{
  Server, ServerJail, Outcome, done, and_then, log_event, make_jail, store_jail, same_backend,
  add_jail,
}
use fail2ban.Server.Reload.{del_jail_listed}
use fail2ban.Server.Adding.{
  is_there, clash, with_name, no_other, Adding, store_jail-Adding, readd-Adding, both_added,
}

module _ {N B : Type 0} ⦃name_key : Key N⦄ ⦃backend_key : Key B⦄ where
  -- The commands that add the jails of a configuration
  pub add_all : (N → B → Option (ServerJail B)) → Dict N B → Server N B → Outcome N B
  add_all new_jail [] s = done s
  add_all new_jail (c ∷ cs) s =
      and_then (add_jail new_jail c.0 c.1 s) (λ s'. add_all new_jail cs s')

  module _ (new_jail : N → B → Option (ServerJail B))
      (makes : (n : N) (b : B) → (j : ServerJail B) × (new_jail n b ≡ some j)) where
    -- Making a jail that is neither there nor in the reload state
    make_jail-Adding :
        (name : N) (backend : B) (added : N → Bool) (s : Server N B)
        → contains name s.jails ≡ false
        → Distinct s.jails
        → Distinct s.reload_state
        → contains name s.reload_state ≡ false
        → ((n : N) (j : ServerJail B)
            → contains n s.reload_state ≡ true
            → lookup n s.jails ≡ some j
            → j.alive ≡ true)
        → ((n : N)
            → n ≢ name
            → contains n s.jails ≡ (if added n then true else contains n s.reload_state))
        → ((n : N)
            → n ≢ name
            → added n ≡ false
            → (lookup n s.reload_state ≡ none) ⊎ (lookup n s.reload_state ≡ some true))
        → (s' : Server N B) × (make_jail new_jail name backend s ≡ done s')
          × Adding (with_name name added) s'
    unfolding make_jail store_jail log_event add
    make_jail-Adding name backend added s missing distinct once out alive known open' =
        let (j, made) = makes name backend in
        let jails = insert name j s.jails in
        let s1 = record s { jails = jails } in
        let inv : Adding (with_name name added) s1 = record {
          distinct = insert-Distinct name j s.jails distinct;
          once = once;
          alive = λ n k there found. elim (name_key.same n name) [
            | yes same ↦ absurd (cc)
            | no other ↦ alive n k there (sym (lookup-insert_ne n name j s.jails other) ∙ found)
          ];
          known = λ n.
              elim (name_key.same n name)
                as (λ x.
                  contains n jails
                  ≡ (if ite x true (added n) then true else contains n s.reload_state)) [
                    | yes same ↦ rw same (ground (arith, lookup-insert_self name j s.jails))
                    | no other ↦
                        ap is_there (lookup-insert_ne n name j s.jails other) ∙ known n other
                  ];
          open' = λ n not_added. elim (name_key.same n name) [
            | yes same ↦ inl (rw same (ground arith))
            | no other ↦ open' n other (no_other name n added other not_added)
          ];
        } in
        let tests : make_jail new_jail name backend s ≡ store_jail name s1 =
          rw (make_jail, add, missing, made) refl in
        let (s', stores, kept) = store_jail-Adding name (with_name name added) s1 inv in
        (s', tests ∙ stores, kept)

    -- Making a jail anew that has been deleted, and is not to be reloaded any more
    replace_jail-Adding :
        (name : N) (backend : B) (added : N → Bool) (s s2 : Server N B)
        → s2.jails ≡ erase name s.jails
        → s2.reload_state ≡ erase name s.reload_state
        → Adding added s
        → (s' : Server N B) × (make_jail new_jail name backend s2 ≡ done s')
          × Adding (with_name name added) s'
    replace_jail-Adding name backend added s s2 jails state h =
        let gone : contains name s2.jails ≡ false =
          ap (contains name) jails ∙ ap is_there (lookup-erase_self name s.jails h.distinct) in
        let out : contains name s2.reload_state ≡ false =
          ap (contains name) state ∙ ap is_there (lookup-erase_self name s.reload_state h.once) in
        let there = λ (n : N) (other : n ≢ name).
          ap (lookup n) jails ∙ lookup-erase_ne n name s.jails other in
        let pending = λ (n : N) (other : n ≢ name).
          ap (lookup n) state ∙ lookup-erase_ne n name s.reload_state other in
        make_jail-Adding name backend added s2 gone
          (rw jails (erase-Distinct name s.jails h.distinct))
          (rw state (erase-Distinct name s.reload_state h.once)) out
          (λ n k held found. elim (name_key.same n name) [
            | yes same ↦ absurd (clash (ap (λ n. contains n s2.reload_state) (sym same) ∙ held) out)
            | no other ↦
                h.alive n k (ap is_there (sym (pending n other)) ∙ held)
                  (sym (there n other) ∙ found)
          ])
          (λ n other.
            ap is_there (there n other)
            ∙ h.known n
            ∙ ap (λ o. if added n then true else is_there o) (sym (pending n other)))
          (λ n other not_added.
            subst (λ o. (o ≡ none) ⊎ (o ≡ some true)) (sym (pending n other)) (h.open' n not_added))

    -- Adding a jail
    add_jail-Adding :
        (name : N) (backend : B) (added : N → Bool) (s : Server N B)
        → added name ≡ false
        → Adding added s
        → (s' : Server N B) × (add_jail new_jail name backend s ≡ done s')
          × Adding (with_name name added) s'
    unfolding add_jail and_then store_jail
    add_jail-Adding name backend added s new h =
        let before : contains name s.jails ≡ contains name s.reload_state =
          h.known name ∙ ap (λ b. if b then true else contains name s.reload_state) new in
        elim (h.open' name new) [
          | inl out ↦
              let absent : contains name s.reload_state ≡ false = ground arith in
              let (s', makes', inv) =
                make_jail-Adding name backend added s (before ∙ absent) h.distinct h.once absent
                  h.alive (λ n other. h.known n) (λ n other. h.open' n) in
              (s', rw (add_jail, out) makes', inv)
          | inr pending ↦ elim (Option-cases (lookup name s.jails)) [
            | inl missing ↦ absurd (cc)
            | inr (jail, found) ↦ elim (Bool-cases (same_backend jail.backend backend)) [
              | inl same ↦
                  let s1 = record s { reload_state = insert name false s.reload_state } in
                  let (s', stores, inv) =
                    store_jail-Adding name (with_name name added) s1
                      (readd-Adding name jail added s pending found h) in
                  (s', rw (add_jail, pending, found, same) stores, inv)
              | inr other ↦
                  let (s1, deletes, erased, kept) = del_jail_listed name s (ap is_there found) in
                  let s2 = record s1 { reload_state = erase name s1.reload_state } in
                  let (s', makes', inv) =
                    replace_jail-Adding name backend added s s2 erased (ap (erase name) kept) h in
                  (s', rw (add_jail, pending, found, other, deletes) makes', inv)
            ]
          ]
        ]

    still_new :
        (c : N × B) (cs : Dict N B) (added : N → Bool)
        → lookup c.0 cs ≡ none
        → ((n : N) → contains n (c ∷ cs) ≡ true → added n ≡ false)
        → (n : N) → contains n cs ≡ true
        → with_name c.0 added n ≡ false
    still_new c cs added unique new n there =
        elim (name_key.same n c.0) as (λ x. ite x true (added n) ≡ false) [
          | yes same ↦
              absurd (clash (ap (λ n. contains n cs) (sym same) ∙ there) (ap is_there unique))
          | no other ↦ new n (ground (arith, other, there))
        ]

    Adding-same :
        (f g : N → Bool) (s : Server N B) → ((n : N) → f n ≡ g n) → Adding f s → Adding g s
    Adding-same f g s same h = record {
      distinct = h.distinct;
      once = h.once;
      alive = h.alive;
      known = λ n. h.known n ∙ ap (λ b. if b then true else contains n s.reload_state) (same n);
      open' = λ n e. h.open' n (same n ∙ e);
    }

    pub add_all-Adding :
        (cs : Dict N B) (added : N → Bool) (s : Server N B)
        → Distinct cs
        → ((n : N) → contains n cs ≡ true → added n ≡ false)
        → Adding added s
        → (s' : Server N B) × (add_all new_jail cs s ≡ done s')
          × Adding (λ n. if contains n cs then true else added n) s'
    unfolding add_all and_then
    add_all-Adding [] added s unique new h = (s, refl, h)
    add_all-Adding (c ∷ cs) added s unique new h =
        let (s1, one, inv) = add_jail-Adding c.0 c.1 added s (new c.0 (ground arith)) h in
        let (s2, rest, inv') =
          add_all-Adding cs (with_name c.0 added) s1 unique.1 (still_new c cs added unique.0 new)
            inv in
        (s2, rw (add_all, one) rest, Adding-same _ _ s2 (both_added c cs added) inv')
