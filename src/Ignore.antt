-- ===== src/Ignore.antt =====
-- The ignore list of a filter of fail2ban/server/filter.py: `addIgnoreIP` and `_inIgnoreIPList`,
-- with no ignore cache set. An entry stands for the object that is made of its text; whether its
-- text names a file is known by then. The resolution of names, the own addresses of the host and
-- the ignore command are parameters. Log lines are left out.
pub mod Entries
use Prim.Native.String.{String}
use fail2ban.Common.{
  Bool, true, false, ◌&&◌, Option, none, some, List, [], ◌∷◌, ◌++◌, any, if◌then◌else◌,
}
use fail2ban.IpAddr.{
  IpAddr, IpAddrSet, is_single, addr_eq, is_in_net, in_members, add_member, set_contains,
}

-- A member of `__ignoreIpList`: an address, network or name, or the set of a file
pub data IgnoreNet : Type 0 where
  ignore_addr : IpAddr → IgnoreNet
  ignore_file : IpAddrSet → IgnoreNet

-- What the text given to `addIgnoreIP` is
pub data IgnoreEntry : Type 0 where
  empty_entry : IgnoreEntry
  file_entry : IpAddrSet → IgnoreEntry
  addr_entry : IpAddr → IgnoreEntry

pub record IgnoreRules : Type 0 where
  pub ignore_self : Bool
  pub ip_set : List IpAddr
  pub ip_list : List IgnoreNet
  pub command : Option (IpAddr → Bool)

-- `ip in self.__ignoreIpList`; `none` is the `TypeError` of the comparison of an address with the
-- set of a file: `FileIPAddrSet.__eq__` matches a regular expression against the address.
unfoldable pub in_ignore_list : IpAddr → List IgnoreNet → Option Bool
in_ignore_list ip [] = some false
in_ignore_list ip (ignore_addr a ∷ nets) =
    if addr_eq a ip then some true else in_ignore_list ip nets
in_ignore_list ip (ignore_file s ∷ nets) = none

-- The end of `addIgnoreIP`
unfoldable pub put_ignore_ip : IpAddr → IgnoreRules → IgnoreRules
put_ignore_ip ip r =
    if is_single ip
    then record r { ip_set = add_member ip r.ip_set }
    else record r { ip_list = r.ip_list ++ (ignore_addr ip ∷ []) }

-- `addIgnoreIP`; `none` is the `TypeError`.
unfoldable pub add_ignore_ip : IgnoreEntry → IgnoreRules → Option IgnoreRules
add_ignore_ip empty_entry r = some r
add_ignore_ip (file_entry s) r = some (record r { ip_list = r.ip_list ++ (ignore_file s ∷ []) })
add_ignore_ip (addr_entry ip) r =
    if in_members ip r.ip_set then some r else elim (in_ignore_list ip r.ip_list) [
      | none ↦ none
      | some found ↦ if found then some r else some (put_ignore_ip ip r)
    ]

module _ (dns_to_ip : String → List IpAddr) (self_ips : IpAddrSet) where
  -- `ip.isInNet(net)`
  unfoldable pub in_ignore_net : IpAddr → IgnoreNet → Bool
  in_ignore_net ip (ignore_addr a) = is_in_net dns_to_ip ip a
  in_ignore_net ip (ignore_file s) = set_contains dns_to_ip ip s

  -- `_inIgnoreIPList`
  unfoldable pub in_ignore_ip_list : IgnoreRules → IpAddr → Bool
  in_ignore_ip_list r ip =
      if r.ignore_self && set_contains dns_to_ip ip self_ips
      then true
      else if in_members ip r.ip_set
      then true
      else if any (in_ignore_net ip) r.ip_list
      then true
      else elim r.command [ none ↦ false | some answer ↦ answer ip ]
