-- ===== src/Ignore/Entries.antt =====
-- What an entry of the ignore list of fail2ban/server/filter.py adds to it.
use Prim.Native.String.{String}
use fail2ban.Common.{
  ◌≡◌, refl, ap, ◌∙◌, Bool, false, ◌||◌, none, some, List, [], ◌∷◌, ◌++◌, any, if◌then◌else◌, arith,
}
use fail2ban.IpAddr.{IpAddr, IpAddrSet, is_single, hash_eq, is_in_net, in_members, add_member}
use fail2ban.Ignore.{
  IgnoreNet, ignore_addr, ignore_file, addr_entry, IgnoreRules, in_ignore_list, put_ignore_ip,
  add_ignore_ip, in_ignore_net, in_ignore_ip_list,
}

any-append :
    {A : Type 0} (p : A → Bool) (xs : List A) (y : A) → any p (xs ++ (y ∷ [])) ≡ (any p xs || p y)
any-append p [] y = ground arith
any-append p (x ∷ xs) y = ground (arith, any-append p xs y)

-- Once the set of a file stands in the list, no address can be added that is not already in the set
-- of addresses or equal to an entry before that file: the comparison fails.
in_ignore_list-none :
    (ip : IpAddr) (before after : List IgnoreNet) (s : IpAddrSet)
    → in_ignore_list ip before ≡ some false
    → in_ignore_list ip (before ++ (ignore_file s ∷ after)) ≡ none
unfolding in_ignore_list
in_ignore_list-none ip [] after s h = refl
in_ignore_list-none ip (ignore_addr a ∷ before) after s h =
    ground (arith, in_ignore_list-none ip before after s)
in_ignore_list-none ip (ignore_file f ∷ before) after s h = absurd (cc)

-- After the set of a file was added to the ignore list, adding an address that is neither in the
-- set of single addresses nor equal to an entry before that file fails, whatever follows the file.
pub add_after_file_fails :
    (ip : IpAddr) (before after : List IgnoreNet) (s : IpAddrSet) (r : IgnoreRules)
    → r.ip_list ≡ before ++ (ignore_file s ∷ after)
    → in_members ip r.ip_set ≡ false
    → in_ignore_list ip before ≡ some false
    → add_ignore_ip (addr_entry ip) r ≡ none
unfolding add_ignore_ip
add_after_file_fails ip before after s r parts unset h =
    let e : in_ignore_list ip r.ip_list ≡ none =
      ap (in_ignore_list ip) parts ∙ in_ignore_list-none ip before after s h in
    ground (arith, e)

module _ (dns : String → List IpAddr) (self_ips : IpAddrSet) where
  -- A new entry, an address, network or name, makes exactly the addresses ignored that were ignored
  -- before, be it by the list or by the ignore command, or that it covers: a single address those equal
  -- to it, any other entry those in it. The entry is neither in the set of single addresses nor in the
  -- list, and no set of a file is in the list.
  pub add_ignore_ip_covers :
      (ip other : IpAddr) (r : IgnoreRules)
      → in_members ip r.ip_set ≡ false
      → in_ignore_list ip r.ip_list ≡ some false
      → (add_ignore_ip (addr_entry ip) r ≡ some (put_ignore_ip ip r))
        × (in_ignore_ip_list dns self_ips (put_ignore_ip ip r) other ≡ (
            in_ignore_ip_list dns self_ips r other
            || (if is_single ip then hash_eq other ip else is_in_net dns other ip)))
  unfolding add_ignore_ip put_ignore_ip in_ignore_ip_list in_ignore_net in_members add_member
  add_ignore_ip_covers ip other r unset new =
      ground (
        arith,
        unset,
        new,
        any-append (in_ignore_net dns self_ips other) r.ip_list (ignore_addr ip),
      )
