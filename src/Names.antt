-- ===== src/Names.antt =====
-- src/names.rs: the hardware address of an IP address and the host name of a hardware address, from
-- the DHCP leases and the kernel's ARP table.
pub mod Sources
mod Tests
use luci_app_overwatch.Base.{
  Bool, true, false, ◌||◌, ite, List, [], ◌∷◌, Option, none, some, drop, if◌then◌else◌,
}
use luci_app_overwatch.Base.Ip.{IpAddr, IpAddr-discrete}
use luci_app_overwatch.Base.Lines.{lines, split_whitespace}
use luci_app_overwatch.Base.Maps
use luci_app_overwatch.Base.Read.{parse_ip}
use luci_app_overwatch.Base.Text.{Str, Str-discrete, text}
use mathlib.Core.List.{foldl}
use mathlib.Core.Option

pub record NameTable : Type 0 where
  pub ip_to_mac : List (IpAddr × Str)
  pub mac_to_host : List (Str × Str)

abbrev pub mac_for : NameTable → IpAddr → Option Str
mac_for t ip = Maps.lookup IpAddr-discrete ip t.ip_to_mac

abbrev pub host_for_mac : NameTable → Str → Option Str
host_for_mac t mac = Maps.lookup Str-discrete mac t.mac_to_host

abbrev pub no_names : NameTable
no_names = record { ip_to_mac = []; mac_to_host = [] }

abbrev pub is_text : Str → Str → Bool
is_text a b = ite (Str-discrete a b) true false

abbrev pub with_mac : NameTable → Option IpAddr → Str → NameTable
with_mac t none mac = t
with_mac t (some ip) mac = record t { ip_to_mac = Maps.insert IpAddr-discrete ip mac t.ip_to_mac }

abbrev pub with_host : NameTable → Str → Str → NameTable
with_host t mac host =
    if is_text host (text "*") || is_text host []
    then t
    else record t { mac_to_host = Maps.insert Str-discrete mac host t.mac_to_host }

-- `entry(ip).or_insert(mac)`: an address that is there stays.
abbrev pub or_mac : NameTable → Option IpAddr → Str → NameTable
or_mac t none mac = t
or_mac t (some ip) mac = record t {
  ip_to_mac = Maps.upsert IpAddr-discrete ip (λ o. Option.get_or o mac) t.ip_to_mac;
}

-- `str::to_lowercase` goes by the Unicode tables of the standard library: a parameter.
module _ (to_lowercase : Str → Str) where
  -- The body of the loop over the leases, and of the loop over the ARP table.
  abbrev pub lease_fields : NameTable → List Str → NameTable
  lease_fields t (_ ∷ mac ∷ ip ∷ host ∷ _) =
      with_host (with_mac t (parse_ip ip) (to_lowercase mac)) (to_lowercase mac) host
  lease_fields t _ = t

  unfoldable pub lease_line : NameTable → Str → NameTable
  lease_line t line = lease_fields t (split_whitespace line)

  abbrev pub arp_fields : NameTable → List Str → NameTable
  arp_fields t (ip ∷ _ ∷ _ ∷ mac ∷ _) =
      if is_text (to_lowercase mac) (text "00:00:00:00:00:00")
      then t
      else or_mac t (parse_ip ip) (to_lowercase mac)
  arp_fields t _ = t

  unfoldable pub arp_line : NameTable → Str → NameTable
  arp_line t line = arp_fields t (split_whitespace line)

  -- The ARP table has a heading.
  unfoldable pub from_text : Str → Str → NameTable
  unfolding lease_line arp_line
  from_text leases arp =
      foldl arp_line (foldl lease_line no_names (lines leases)) (drop 1 (lines arp))
