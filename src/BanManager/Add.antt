-- ===== src/BanManager/Add.antt =====
-- `BanManager.addBanTicket` of fail2ban/server/banmanager.py: when a ban ends after it.
use fail2ban.Common.{
  not, ℕ, ◌+◌, ◌≡◌, refl, ◌∙◌, Bool, true, false, some, inl, inr, arith, Option-cases, Bool-cases,
  if◌then◌else◌,
}
use fail2ban.Common.Int.{ℤ, ◌+ℤ◌, ◌-ℤ◌, ◌≤ℤ◌, ltb_ℤ, +ℤ_parts, -ℤ_parts}
use fail2ban.Common.Dict.{Key, contains, lookup, insert, lookup-insert_self, lookup-insert_ne}
use fail2ban.Ticket.{
  Ticket, permanent, get_ban_time, set_ban_time, get_end_of_ban_time, incr_ban_count,
}
use fail2ban.BanManager.{
  BanManager, Added, added, expired, already, end_of_ban, prolonged, add_listed, add_unlisted,
  add_ban_ticket,
}

module _ {K : Type 0} (m : BanManager K) (t old : Ticket K) where
  -- A prolonged ban ends no earlier than the new ticket asks for.
  pub prolonged_end :
      permanent ≤ℤ get_ban_time t m.ban_time → end_of_ban m t ≤ℤ end_of_ban m (prolonged m t old)
  unfolding prolonged end_of_ban get_end_of_ban_time set_ban_time get_ban_time
  prolonged_end h =
      let btm = get_ban_time t m.ban_time in
      let diftm = t.time -ℤ old.time in
      ground (
        arith,
        -ℤ_parts t.time old.time,
        +ℤ_parts btm diftm,
        +ℤ_parts t.time btm,
        +ℤ_parts old.time (btm +ℤ diftm),
        +ℤ_parts old.time btm,
      )

  pub end_of_ban-incr_ban_count : (n : ℕ) → end_of_ban m (incr_ban_count n t) ≡ end_of_ban m t
  unfolding end_of_ban get_end_of_ban_time incr_ban_count get_ban_time
  end_of_ban-incr_ban_count n = refl

-- Whether `addBanTicket` returns true.
abbrev pub is_added : {K : Type 0} → Added K → Bool
is_added (added _) = true
is_added expired = false
is_added (already _ _) = false

module _ {K : Type 0} ⦃key : Key K⦄ (now : ℤ) (t : Ticket K) (m : BanManager K) where
  -- A ticket is added exactly when its ban is not over and its id is not listed; only then the
  -- total of bans grows, by one.
  pub add_ban_ticket-is_added :
      let (m', r) = add_ban_ticket now t m in
      (is_added r ≡ (if ltb_ℤ (end_of_ban m t) now then false else not (contains t.id m.ban_list)))
      × (m'.ban_total ≡ (if is_added r then m.ban_total + 1 else m.ban_total))
  unfolding add_ban_ticket add_listed add_unlisted
  add_ban_ticket-is_added = ground arith

  -- After a ticket whose ban is not over, its id is listed with a ban that ends no earlier than the
  -- ticket asks for; a ban time below -1 is excluded.
  pub add_ban_ticket_ends :
      now ≤ℤ end_of_ban m t
      → permanent ≤ℤ get_ban_time t m.ban_time
      → (g : Ticket K) × (lookup t.id (add_ban_ticket now t m).0.ban_list ≡ some g)
        × (end_of_ban m t ≤ℤ end_of_ban m g)
  unfolding add_ban_ticket add_listed add_unlisted
  add_ban_ticket_ends lasting proper = elim (Option-cases (lookup t.id m.ban_list)) [
    | inl unlisted ↦
        let new = incr_ban_count 1 t in
        (
          new,
          ground (arith, lookup-insert_self t.id new m.ban_list),
          ground (arith, end_of_ban-incr_ban_count m t t 1),
        )
    | inr (old, listed) ↦ elim (Bool-cases (ltb_ℤ (end_of_ban m old) (end_of_ban m t))) [
      | inl longer ↦
          let new = prolonged m t old in
          (
            new,
            ground (arith, lookup-insert_self t.id new m.ban_list),
            prolonged_end m t old proper,
          )
      | inr shorter ↦ (old, ground arith, ground arith)
    ]
  ]

  -- A write under an id keeps every listed ban as long, if the ban that stood there ended no later.
  insert_never_shortens :
      (new : Ticket K) (j : K) (old : Ticket K)
      → ((o : Ticket K) → lookup t.id m.ban_list ≡ some o → end_of_ban m o ≤ℤ end_of_ban m new)
      → lookup j m.ban_list ≡ some old
      → (g : Ticket K) × (lookup j (insert t.id new m.ban_list) ≡ some g)
        × (end_of_ban m old ≤ℤ end_of_ban m g)
  insert_never_shortens new j old longer listed = elim (key.same j t.id) [
    | yes here ↦
        (new, rw here (lookup-insert_self t.id new m.ban_list), longer old (rw here at listed))
    | no other ↦ (old, lookup-insert_ne j t.id new m.ban_list other ∙ listed, omega arith)
  ]

  -- No listed ban ends earlier after `addBanTicket` than before, whatever the ticket; a ban time
  -- below -1 is excluded.
  pub add_ban_ticket_never_shortens :
      (j : K) (old : Ticket K)
      → permanent ≤ℤ get_ban_time t m.ban_time
      → lookup j m.ban_list ≡ some old
      → (g : Ticket K) × (lookup j (add_ban_ticket now t m).0.ban_list ≡ some g)
        × (end_of_ban m old ≤ℤ end_of_ban m g)
  unfolding add_ban_ticket add_listed add_unlisted
  add_ban_ticket_never_shortens j old proper listed =
      elim (Bool-cases (ltb_ℤ (end_of_ban m t) now)) [
        | inl over ↦ (old, ground arith, ground arith)
        | inr lasting ↦ elim (Option-cases (lookup t.id m.ban_list)) [
          | inl unlisted ↦
              let (g, found, longer) =
                insert_never_shortens (incr_ban_count 1 t) j old (λ o h. absurd (cc)) listed in
              (g, ground arith, longer)
          | inr (o, there) ↦ elim (Bool-cases (ltb_ℤ (end_of_ban m o) (end_of_ban m t))) [
            | inl longer ↦
                let (g, found, kept) =
                  insert_never_shortens (prolonged m t o) j old
                    (λ o' h. ground (arith, prolonged_end m t o proper)) listed in
                (g, ground arith, kept)
            | inr shorter ↦ (old, ground arith, ground arith)
          ]
        ]
      ]
