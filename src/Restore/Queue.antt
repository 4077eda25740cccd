-- ===== src/Restore/Queue.antt =====
-- What `restoreCurrentBans` of fail2ban/server/jail.py puts into the queue.
use mathlib.Core.List.{append_assoc, append-nil}
use fail2ban.Common.{
  ◌≡◌, refl, sym, ap, ◌∙◌, Bool, true, false, not, ◌&&◌, Option, some, List, [], ◌∷◌, ◌++◌, map,
  keep, arith, inl, inr, Bool-cases, ◌⊎◌, ◌↔◌,
}
use fail2ban.Common.Int.{ℤ, pos, ◌-ℤ◌, ◌+ℤ◌, leb_ℤ, eqb_ℤ, ◌<ℤ◌, -ℤ_parts, +ℤ_parts, eq_of_parts}
use fail2ban.Ticket.{Ticket, permanent, set_restored}
use fail2ban.Filter.{Filter, put_fail_ticket}
use fail2ban.Restore.{remaining, is_restored, restore_ticket, restore_current_bans}

module _ {K : Type 0} (ignored : Ticket K → Bool) (now : ℤ) (dflt : Option ℤ) where
  -- The tickets of the database that are put into the queue, marked as restored
  chosen : List (Ticket K) → List (Ticket K)
  chosen ts = keep (is_restored ignored now dflt) (map (set_restored true) ts)

  restored_queue :
      (ts : List (Ticket K)) (f : Filter K)
      → restore_current_bans ignored now dflt ts f ≡ record f { queue = f.queue ++ chosen ts }
  unfolding restore_current_bans restore_ticket put_fail_ticket chosen
  restored_queue [] f = ap (λ q. record f { queue = q }) (sym (append-nil f.queue))
  restored_queue (t ∷ ts) f =
      elim (Bool-cases (is_restored ignored now dflt (set_restored true t))) [
        | inl kept ↦ rw (kept) (
            restored_queue ts (put_fail_ticket (set_restored true t) f)
            ∙ ap (λ q. record f { queue = q })
                (append_assoc f.queue (set_restored true t ∷ []) (chosen ts)))
        | inr left ↦ rw (left) (restored_queue ts f)
      ]

  -- What is left of a ban time stands for: permanent, or not over
  rest_counts : ℤ → Bool
  rest_counts rest = not (not (eqb_ℤ rest permanent) && leb_ℤ rest (pos 0))

  is_restored-rest_counts :
      (t : Ticket K) (b : ℤ)
      → ignored t ≡ false
      → t.ban_time ≡ some b
      → is_restored ignored now dflt t ≡ rest_counts (remaining now t.time b)
  unfolding is_restored rest_counts
  is_restored-rest_counts t b open' found = rw (is_restored, open', found) refl

  -- A ticket that is not ignored and has a ban time, permanent or positive, is put into the queue
  -- exactly when its ban is permanent, or ends later than now, or has ended exactly one second ago.
  pub is_restored_iff :
      (t : Ticket K) (b : ℤ)
      → ignored t ≡ false
      → t.ban_time ≡ some b
      → (b ≡ permanent) ⊎ (pos 0 <ℤ b)
      → (is_restored ignored now dflt t ≡ true)
        ↔ ((b ≡ permanent) ⊎ (now <ℤ t.time +ℤ b) ⊎ (now ≡ (t.time +ℤ b) +ℤ pos 1))
  unfolding rest_counts remaining
  is_restored_iff t b open' found proper =
      let e = is_restored-rest_counts t b open' found in
      let span = -ℤ_parts now t.time in
      let rest = -ℤ_parts b (now -ℤ t.time) in
      let end' = +ℤ_parts t.time b in
      let after = +ℤ_parts (t.time +ℤ b) (pos 1) in
      elim proper [
        | inl forever ↦ ground (arith, e, forever)
        | inr positive ↦ (
          λ h. ground (arith, e, span, rest, end', after, eq_of_parts now ((t.time +ℤ b) +ℤ pos 1)),
          λ h. ground (arith, e, span, rest, end', after),
        )
      ]
