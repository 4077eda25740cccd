-- ===== src/FailManager/Bans.antt =====
-- `FailManager.toBan` of fail2ban/server/failmanager.py: whom it takes, and when it takes nobody.
use fail2ban.Common.{
  ℕ, ◌≤◌, ◌<◌, ◌≡◌, ◌≢◌, ◌↔◌, refl, Option, none, some, [], ◌∷◌, inl, inr, arith, Option-cases, leb,
  Bool-cases,
}
use fail2ban.Common.Dict.{Key, Dict, Distinct, lookup, lookup-erase_self, lookup-erase_ne}
use fail2ban.Common.Dict.Entries.{Entries, lookup-Entries}
use fail2ban.Ticket.{Ticket}
use fail2ban.FailManager.Keys.{IsValid, Owns}
use fail2ban.FailManager.{FailManager, to_ban, first_to_ban, ban_candidates}

module _ {K : Type 0} ⦃key : Key K⦄ where
  -- What the loop finds is an entry of the list that has reached the limit.
  first_to_ban-lookup :
      (n : ℕ) (d : Dict K (Ticket K)) (e : K × Ticket K)
      → Distinct d
      → first_to_ban n d ≡ some e
      → (lookup e.0 d ≡ some e.1) × (n ≤ e.1.retry)
  unfolding first_to_ban
  first_to_ban-lookup n [] e h found = absurd (cc)
  first_to_ban-lookup n (f ∷ d) e h found = ground (arith, first_to_ban-lookup n d e h.1)

  first_to_ban-none :
      (n : ℕ) (d : Dict K (Ticket K)) → (first_to_ban n d ≡ none) ↔ Entries (λ _ t. t.retry < n) d
  unfolding first_to_ban
  first_to_ban-none n [] = (λ _. tt, λ _. refl)
  first_to_ban-none n (f ∷ d) =
      let ih = first_to_ban-none n d in
      elim (Bool-cases (leb n f.1.retry)) [
        | inl reached ↦ rw reached (λ h. absurd (cc), λ h. absurd (ground arith))
        | inr below ↦ rw below (λ h. (ground arith, ih.0 h), λ h. ih.1 h.1)
      ]

  -- `toBan` raises exactly when, of the tickets that it looks at, none has reached the limit of
  -- retries. It looks at the ticket of the given id if that is listed, and at all of them otherwise.
  pub to_ban-none :
      (who : Option K) (m : FailManager K)
      → (to_ban who m ≡ none)
        ↔ Entries (λ _ t. t.retry < m.max_retry) (ban_candidates who m.fail_list)
  unfolding to_ban
  to_ban-none who m =
      let below = first_to_ban-none m.max_retry (ban_candidates who m.fail_list) in
      (λ h. below.0 (ground arith), λ h. ground (arith, below.1 h))

  one_candidate :
      (n : ℕ) (d : Dict K (Ticket K)) (f e : K × Ticket K)
      → lookup f.0 d ≡ some f.1
      → first_to_ban n (f ∷ []) ≡ some e
      → (lookup e.0 d ≡ some e.1) × (n ≤ e.1.retry)
  unfolding first_to_ban
  one_candidate n d f e listed found = ground arith

  ban_candidates-lookup :
      (who : Option K) (n : ℕ) (d : Dict K (Ticket K)) (e : K × Ticket K)
      → Distinct d
      → first_to_ban n (ban_candidates who d) ≡ some e
      → (lookup e.0 d ≡ some e.1) × (n ≤ e.1.retry)
  unfolding ban_candidates
  ban_candidates-lookup none n d e h found = first_to_ban-lookup n d e h found
  ban_candidates-lookup (some fid) n d e h found = elim (Option-cases (lookup fid d)) [
    | inl absent ↦ first_to_ban-lookup n d e h (rw (absent, ban_candidates) at found)
    | inr (t, listed) ↦ one_candidate n d (fid, t) e listed (rw (listed, ban_candidates) at found)
  ]

  -- A ticket that `toBan` returns from a valid list stood there under its own id and has reached
  -- the limit of retries; it is taken off the list, every other id keeps its ticket, and nothing
  -- else changes.
  pub to_ban-some :
      (who : Option K) (m m' : FailManager K) (t : Ticket K) (j : K)
      → IsValid m
      → to_ban who m ≡ some (t, m')
      → j ≢ t.id
      → (lookup t.id m.fail_list ≡ some t)
        × (m.max_retry ≤ t.retry)
        × (lookup t.id m'.fail_list ≡ none)
        × (lookup j m'.fail_list ≡ lookup j m.fail_list)
        × (m' ≡ record m { fail_list = m'.fail_list })
  unfolding to_ban
  to_ban-some who m m' t j valid e other =
      elim (Option-cases (first_to_ban m.max_retry (ban_candidates who m.fail_list))) [
        | inl nobody ↦ absurd (cc)
        | inr (f, found) ↦
            let listed = ban_candidates-lookup who m.max_retry m.fail_list f valid.distinct found in
            let own = (lookup-Entries Owns f.0 f.1 m.fail_list valid.owned listed.0).0 in
            ground (
              arith,
              lookup-erase_self f.0 m.fail_list valid.distinct,
              lookup-erase_ne j f.0 m.fail_list,
            )
      ]
