-- ===== src/Names/Tests.antt =====
-- Two leases and an ARP table.
use luci_app_overwatch.Base.{◌≡◌, refl, [], ◌∷◌, ◌++◌, none, some, drop, ℕ_discrete}
use luci_app_overwatch.Base.Ip.{v4, IpAddr-discrete}
use luci_app_overwatch.Base.Lines.{lines}
use luci_app_overwatch.Base.Read.{parse_ip}
use luci_app_overwatch.Base.Text.{Str, Str-discrete, text}
use luci_app_overwatch.Names.{mac_for, host_for_mac, from_text}
use luci_app_overwatch.Names.Sources.{mac_for-from_text, or_else, latest, earliest}

abbrev leases : Str
leases = text "17 aa 192.168.1.9 tv *" ++ 10 ∷ text "18 bb 192.168.1.8 * *" ++ 10 ∷ []

abbrev arp : Str
arp =
    text "IP HW Flags MAC"
    ++ 10 ∷ text "192.168.1.9 0x1 0x2 cc *"
    ++ 10 ∷ text "192.168.1.7 0x1 0x2 dd *"
    ++ 10 ∷ []

abbrev as_it_is : Str → Str
as_it_is s = s

-- The lease wins, the ARP table fills in, and a star is no name.
resolved :
    let t = from_text as_it_is leases arp in
    (mac_for t (v4 3232235785) ≡ some (text "aa"))
    × (mac_for t (v4 3232235783) ≡ some (text "dd"))
    × (host_for_mac t (text "aa") ≡ some (text "tv"))
    × (host_for_mac t (text "bb") ≡ none)
unfolding from_text parse_ip Str-discrete IpAddr-discrete ℕ_discrete
resolved = (refl, refl, refl, refl)

from_text_example :
    mac_for (from_text as_it_is leases arp) (v4 3232235785)
    ≡ or_else
        (latest as_it_is (v4 3232235785) (lines leases))
        (earliest as_it_is (v4 3232235785) (drop 1 (lines arp)))
from_text_example = mac_for-from_text as_it_is leases arp (v4 3232235785)
