-- ===== src/Server/Reload.antt =====
-- What a reload leaves of the jails of fail2ban/server/server.py.
use fail2ban.Common.{
  ◌≡◌, refl, ap, ◌∙◌, Bool, true, false, not, some, List, [], ◌∷◌, if◌then◌else◌, keep, arith, inl,
  inr, Bool-cases, Option-cases,
}
use mathlib.Core.Logic.{if_neg}
use fail2ban.Common.Dict.{
  Key, Dict, lookup, contains, insert, erase, erase_all, keys, Distinct, insert-Distinct,
  lookup-insert_self, lookup-erase_self,
}
use fail2ban.Common.Dict.Sweep.{
  IsAbsent, contains-keep, IsAbsent-keys-keep, erase-head, erase_all-keep,
}
use fail2ban.Server.{
  Server, ServerJail, started, done, and_then, log_event, del_jail, del_each, commit_each,
  end_reload, start_jail, deleted, stopped, reloaded,
}

module _ {κ} {K : Type 0} {V : Type κ} ⦃key : Key K⦄ where
  -- Names that can be deleted one after another
  abbrev IsListed : List K → Dict K V → Type 0
  IsListed [] d = Unit
  IsListed (k ∷ ks) d = (contains k d ≡ true) × IsListed ks (erase k d)

  IsListed-cons :
      (ks : List K) (e : K × V) (d : Dict K V)
      → IsAbsent e.0 ks
      → IsListed ks d
      → IsListed ks (e ∷ d)
  IsListed-cons [] e d absent h = tt
  IsListed-cons (k ∷ ks) e d absent h = (
    ground (arith, h.0),
    rw (if_neg (key.same k e.0) absent.0 d (e ∷ erase k d))
        (IsListed-cons ks e (erase k d) absent.1 h.1),
  )

  keys-keep-IsListed : (p : K × V → Bool) (d : Dict K V) → Distinct d → IsListed (keys (keep p d)) d
  keys-keep-IsListed p [] h = tt
  keys-keep-IsListed p (e ∷ d) h = elim (Bool-cases (p e)) [
    | inl chosen ↦ rw (chosen) (ground arith, rw (erase-head e d) (keys-keep-IsListed p d h.1))
    | inr other ↦ rw (other) (
        IsListed-cons (keys (keep p d)) e d (IsAbsent-keys-keep e.0 p d h.0)
          (keys-keep-IsListed p d h.1))
  ]

flip : (b : Bool) → (if b then false else true) ≡ not b
flip true = refl
flip false = refl

module _ {N B : Type 0} ⦃name_key : Key N⦄ ⦃backend_key : Key B⦄ where
  -- Deleting a jail that is there
  pub del_jail_listed :
      (name : N) (s : Server N B)
      → contains name s.jails ≡ true
      → (s' : Server N B) × (del_jail name true true s ≡ done s')
        × (s'.jails ≡ erase name s.jails)
        × (s'.reload_state ≡ s.reload_state)
  unfolding del_jail log_event
  del_jail_listed name s h = elim (Option-cases (lookup name s.jails)) [
    | inl missing ↦ absurd (cc)
    | inr (jail, found) ↦
        let s1 = log_event (stopped name true true) s in
        let s2 = if s.has_db then log_event (deleted name) s1 else s1 in
        let same : s2.jails ≡ s.jails =
          elim s.has_db as (λ b. (if b then log_event (deleted name) s1 else s1).jails ≡ s.jails) [
            | true ↦ refl
            | false ↦ refl
          ] in
        let kept : s2.reload_state ≡ s.reload_state =
          elim s.has_db
            as (λ b.
              (if b then log_event (deleted name) s1 else s1).reload_state ≡ s.reload_state) [
                | true ↦ refl
                | false ↦ refl
              ] in
        (
          record s2 { jails = erase name s2.jails },
          rw (del_jail, found) refl,
          ap (erase name) same,
          kept,
        )
  ]

  del_each_listed :
      (names : List N) (s : Server N B)
      → IsListed names s.jails
      → (s' : Server N B) × (del_each names true true s ≡ done s')
        × (s'.jails ≡ erase_all names s.jails)
  unfolding del_each and_then
  del_each_listed [] s h = (s, refl, refl)
  del_each_listed (name ∷ names) s h =
      let (s1, first, erased, kept) = del_jail_listed name s h.0 in
      let (s2, rest, left) = del_each_listed names s1 (rw erased h.1) in
      (s2, rw (first) rest, left ∙ ap (erase_all names) erased)

  commit_each_lem :
      (d : Dict N (ServerJail B)) (s : Server N B)
      → let r = commit_each d s in
        (r.0 ≡ keys (keep (λ e. contains e.0 s.reload_state) d)) × (r.1.jails ≡ s.jails)
  unfolding commit_each log_event
  commit_each_lem [] s = (refl, refl)
  commit_each_lem (e ∷ d) s =
      let later = commit_each_lem d s in
      let next = commit_each_lem d (log_event (reloaded e.0 false) s) in
      elim (Bool-cases (contains e.0 s.reload_state)) [
        | inl pending ↦ rw (commit_each, pending) (ap (◌∷◌ e.0) later.0, later.1)
        | inr committed ↦ rw (commit_each, committed) next
      ]

  -- The end of a reload succeeds, and leaves exactly the jails that are not in the reload state any more.
  pub end_reload_jails :
      (s : Server N B)
      → Distinct s.jails
      → (s' : Server N B) × (end_reload s ≡ done s')
        × (s'.jails ≡ keep (λ e. not (contains e.0 s.reload_state)) s.jails)
        × (s'.reload_state ≡ [])
  unfolding end_reload and_then
  end_reload_jails s h =
      let p = λ (e : N × ServerJail B). contains e.0 s.reload_state in
      let r = commit_each s.jails s in
      let (names, same) = commit_each_lem s.jails s in
      let listed : IsListed r.0 r.1.jails = rw (names, same) (keys-keep-IsListed p s.jails h) in
      let (s', ends, erased) = del_each_listed r.0 r.1 listed in
      (
        record s' { reload_state = [] },
        rw (end_reload, ends) refl,
        erased ∙ rw (names, same) (erase_all-keep p (λ e. not (p e)) (λ e. refl) s.jails h),
        refl,
      )

  -- At the end of a reload, a jail that has been started in it: it stays where it was alive, but is
  -- deleted again where it was not alive and was to be reloaded.
  pub reload_start :
      (name : N) (jail : ServerJail B) (s : Server N B)
      → Distinct s.jails
      → Distinct s.reload_state
      → lookup name s.jails ≡ some jail
      → (s' : Server N B) × (and_then (start_jail name s) end_reload ≡ done s')
        × (contains name s'.jails
            ≡ (if jail.alive then true else not (contains name s.reload_state)))
  unfolding and_then start_jail log_event
  reload_start name jail s h g found =
      let new = record jail { alive = true; idle = false } in
      let awake = record s { jails = insert name new s.jails } in
      let distinct = insert-Distinct name new s.jails h in
      let there : contains name awake.jails ≡ true =
        ground (arith, lookup-insert_self name new s.jails) in
      let left = λ (state : Dict N Bool).
        contains-keep name state awake.jails
        ∙ ap (λ b. if contains name state then false else b) there in
      elim (Bool-cases jail.alive) [
        | inl alive ↦
            let s1 = record awake { reload_state = erase name s.reload_state } in
            let (s', ends, jails, over) = end_reload_jails s1 distinct in
            let out : contains name (erase name s.reload_state) ≡ false =
              ground (arith, lookup-erase_self name s.reload_state g) in
            (
              s',
              rw (start_jail, found, alive) ends,
              rw (alive) (
                  ap (contains name) jails
                  ∙ left (erase name s.reload_state)
                  ∙ ap (λ b. if b then false else true) out),
            )
        | inr dead ↦
            let s1 = log_event (started name) awake in
            let (s', ends, jails, over) = end_reload_jails s1 distinct in
            (
              s',
              rw (start_jail, found, dead) ends,
              rw (dead) (
                  ap (contains name) jails
                  ∙ left s.reload_state
                  ∙ flip (contains name s.reload_state)),
            )
      ]
