-- ===== src/Server/Adding.antt =====
-- The jails of fail2ban/server/server.py while a reload adds jails.
use fail2ban.Common.{
  ◌≡◌, refl, sym, ap, ◌∙◌, Bool, true, false, Option, none, some, ◌∷◌, if◌then◌else◌, ite, arith,
  ◌≢◌, ◌⊎◌,
}
use mathlib.Core.Path.{subst}
use fail2ban.Common.Dict.{
  Key, Dict, lookup, contains, insert, Distinct, insert-Distinct, lookup-insert_ne,
}
use fail2ban.Server.{Server, ServerJail, stored, done, log_event, store_jail}

-- `contains`, of what is found
abbrev pub is_there : {A : Type 0} → Option A → Bool
is_there o = elim o [ none ↦ false | some _ ↦ true ]

pub clash : {b : Bool} → b ≡ true → b ≡ false → ⊥
clash h g = absurd (cc)

module _ {N : Type 0} ⦃name_key : Key N⦄ where
  -- One more name
  abbrev pub with_name : N → (N → Bool) → N → Bool
  with_name name added n = ite (name_key.same n name) true (added n)

  pub not_name : (name n : N) (added : N → Bool) → with_name name added n ≡ false → n ≢ name
  not_name name n added h same = ground arith

  pub no_other :
      (name n : N) (added : N → Bool) → n ≢ name → with_name name added n ≡ false → added n ≡ false
  no_other name n added other h = ground arith

module _ {N B : Type 0} ⦃name_key : Key N⦄ ⦃backend_key : Key B⦄ where
  -- While jails are added: `added` are the names so far.
  pub record Adding (added : N → Bool) (s : Server N B) : Type 0 where
    pub distinct : Distinct s.jails
    pub once : Distinct s.reload_state
    pub alive :
        (n : N) (j : ServerJail B)
        → contains n s.reload_state ≡ true
        → lookup n s.jails ≡ some j
        → j.alive ≡ true
    pub known : (n : N) → contains n s.jails ≡ (if added n then true else contains n s.reload_state)
    pub open' :
        (n : N)
        → added n ≡ false
        → (lookup n s.reload_state ≡ none) ⊎ (lookup n s.reload_state ≡ some true)

  -- Storing a jail in the database
  store-Adding :
      (name : N) (added : N → Bool) (s : Server N B)
      → Adding added s
      → Adding added (if s.has_db then log_event (stored name) s else s)
  unfolding log_event
  store-Adding name added s h =
      elim s.has_db as (λ b. Adding added (if b then log_event (stored name) s else s)) [
        | true ↦ record {
          distinct = h.distinct;
          once = h.once;
          alive = h.alive;
          known = h.known;
          open' = h.open';
        }
        | false ↦ h
      ]

  pub store_jail-Adding :
      (name : N) (added : N → Bool) (s : Server N B)
      → Adding added s
      → (s' : Server N B) × (store_jail name s ≡ done s') × Adding added s'
  unfolding store_jail
  store_jail-Adding name added s h = (
    if s.has_db then log_event (stored name) s else s,
    elim s.has_db
        as (λ b.
          (if b then done (log_event (stored name) s) else done s)
          ≡ done (if b then log_event (stored name) s else s)) [ true ↦ refl | false ↦ refl ],
    store-Adding name added s h,
  )

  -- A jail that is there is to be reloaded.
  pub readd-Adding :
      (name : N) (jail : ServerJail B) (added : N → Bool) (s : Server N B)
      → lookup name s.reload_state ≡ some true
      → lookup name s.jails ≡ some jail
      → Adding added s
      → Adding (with_name name added) (record s { reload_state = insert name false s.reload_state })
  readd-Adding name jail added s pending found h =
      let state = insert name false s.reload_state in
      record {
        distinct = h.distinct;
        once = insert-Distinct name false s.reload_state h.once;
        alive = λ n k there held. elim (name_key.same n name) [
          | yes same ↦ h.alive n k (rw same (ground arith)) held
          | no other ↦
              h.alive n k
                (ap is_there (sym (lookup-insert_ne n name false s.reload_state other)) ∙ there)
                held
        ];
        known = λ n.
            elim (name_key.same n name)
              as (λ x.
                contains n s.jails ≡ (if ite x true (added n) then true else contains n state)) [
                  | yes same ↦ rw same (ground arith)
                  | no other ↦
                      h.known n
                      ∙ ap (λ b. if added n then true else b)
                          (ap is_there (sym (lookup-insert_ne n name false s.reload_state other)))
                ];
        open' = λ n not_added. elim (name_key.same n name) [
          | yes same ↦ absurd (not_name name n added not_added same)
          | no other ↦
              subst (λ o. (o ≡ none) ⊎ (o ≡ some true))
                (sym (lookup-insert_ne n name false s.reload_state other))
                (h.open' n (no_other name n added other not_added))
        ];
      }

  pub both_added :
      (c : N × B) (cs : Dict N B) (added : N → Bool) (n : N)
      → (if contains n cs then true else with_name c.0 added n)
        ≡ (if contains n (c ∷ cs) then true else added n)
  both_added c cs added n = ground arith
