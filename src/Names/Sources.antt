-- ===== src/Names/Sources.antt =====
-- Which source an address is taken from.
use luci_app_overwatch.Base.{
  ◌≡◌, refl, sym, ap, ◌∙◌, ◌||◌, ite, if_pos, if_neg, List, [], ◌∷◌, Option, none, some, drop,
  if◌then◌else◌, Bool-cases, inl, inr,
}
use luci_app_overwatch.Base.Ip.{IpAddr, IpAddr-discrete}
use luci_app_overwatch.Base.Lines.{lines, split_whitespace}
use luci_app_overwatch.Base.Maps
use luci_app_overwatch.Base.Read.{parse_ip}
use luci_app_overwatch.Base.Text.{Str, text}
use luci_app_overwatch.Names.{
  NameTable, mac_for, no_names, is_text, with_mac, with_host, or_mac, lease_fields, lease_line,
  arp_fields, arp_line, from_text,
}
use mathlib.Core.List.{foldl}
use mathlib.Core.Option

abbrev pub or_else : Option Str → Option Str → Option Str
or_else none o = o
or_else (some m) o = some m

or_else_assoc : (a b c : Option Str) → or_else a (or_else b c) ≡ or_else (or_else a b) c
or_else_assoc none b c = refl
or_else_assoc (some m) b c = refl

-- What a row says of an address.
abbrev pub hit : IpAddr → Option (IpAddr × Str) → Option Str
hit ip none = none
hit ip (some (j, m)) = ite (IpAddr-discrete j ip) (some m) none

abbrev pub row_of : Option IpAddr → Str → Option (IpAddr × Str)
row_of none m = none
row_of (some ip) m = some (ip, m)

mac_for-with_host :
    (t : NameTable) (mac host : Str) → (with_host t mac host).ip_to_mac ≡ t.ip_to_mac
mac_for-with_host t mac host = elim (Bool-cases (is_text host (text "*") || is_text host [])) [
  | inl e ↦ rw e refl
  | inr e ↦ rw e refl
]

mac_for-with_mac :
    (t : NameTable) (o : Option IpAddr) (mac : Str) (ip : IpAddr)
    → mac_for (with_mac t o mac) ip ≡ or_else (hit ip (row_of o mac)) (mac_for t ip)
mac_for-with_mac t none mac ip = refl
mac_for-with_mac t (some j) mac ip =
    Maps.lookup-upsert IpAddr-discrete j ip (λ _. mac) t.ip_to_mac ∙ elim (IpAddr-discrete j ip) [
      | yes e ↦ rw (if_pos (IpAddr-discrete j ip) e, if_pos (IpAddr-discrete j ip) e) refl
      | no ne ↦ rw (if_neg (IpAddr-discrete j ip) ne, if_neg (IpAddr-discrete j ip) ne) refl
    ]

or_else-get_or : (o : Option Str) (m : Str) → some (Option.get_or o m) ≡ or_else o (some m)
or_else-get_or none m = refl
or_else-get_or (some n) m = refl

or_else-none : (o : Option Str) → o ≡ or_else o none
or_else-none none = refl
or_else-none (some m) = refl

mac_for-or_mac :
    (t : NameTable) (o : Option IpAddr) (mac : Str) (ip : IpAddr)
    → mac_for (or_mac t o mac) ip ≡ or_else (mac_for t ip) (hit ip (row_of o mac))
mac_for-or_mac t none mac ip = or_else-none (mac_for t ip)
mac_for-or_mac t (some j) mac ip = elim (IpAddr-discrete j ip) [
  | yes e ↦
      Maps.lookup-upsert_eq IpAddr-discrete j ip (λ o. Option.get_or o mac) t.ip_to_mac e
      ∙ or_else-get_or (mac_for t ip) mac
      ∙ ap (or_else (mac_for t ip)) (sym (if_pos (IpAddr-discrete j ip) e _ _))
  | no ne ↦
      Maps.lookup-upsert_ne IpAddr-discrete j ip (λ o. Option.get_or o mac) t.ip_to_mac ne
      ∙ or_else-none (mac_for t ip)
      ∙ ap (or_else (mac_for t ip)) (sym (if_neg (IpAddr-discrete j ip) ne _ _))
]

module _ (to_lowercase : Str → Str) where
  -- A lease has an address in its third column and a hardware address in its second.
  abbrev pub lease_row : List Str → Option (IpAddr × Str)
  lease_row (_ ∷ mac ∷ ip ∷ _ ∷ _) = row_of (parse_ip ip) (to_lowercase mac)
  lease_row _ = none

  -- An ARP entry has them in its first and fourth; all zeros is no hardware address.
  abbrev pub arp_row : List Str → Option (IpAddr × Str)
  arp_row (ip ∷ _ ∷ _ ∷ mac ∷ _) =
      if is_text (to_lowercase mac) (text "00:00:00:00:00:00")
      then none
      else row_of (parse_ip ip) (to_lowercase mac)
  arp_row _ = none

  -- The last lease of an address, and the first ARP entry.
  abbrev pub latest : IpAddr → List Str → Option Str
  latest ip [] = none
  latest ip (l ∷ ls) = or_else (latest ip ls) (hit ip (lease_row (split_whitespace l)))

  abbrev pub earliest : IpAddr → List Str → Option Str
  earliest ip [] = none
  earliest ip (l ∷ ls) = or_else (hit ip (arp_row (split_whitespace l))) (earliest ip ls)

  lease_fields_lem :
      (t : NameTable) (fs : List Str) (ip : IpAddr)
      → mac_for (lease_fields to_lowercase t fs) ip ≡ or_else (hit ip (lease_row fs)) (mac_for t ip)
  lease_fields_lem t [] ip = refl
  lease_fields_lem t (a ∷ []) ip = refl
  lease_fields_lem t (a ∷ b ∷ []) ip = refl
  lease_fields_lem t (a ∷ b ∷ c ∷ []) ip = refl
  lease_fields_lem t (a ∷ mac ∷ j ∷ host ∷ fs) ip =
      ap (λ m. Maps.lookup IpAddr-discrete ip m)
        (mac_for-with_host (with_mac t (parse_ip j) (to_lowercase mac)) (to_lowercase mac) host)
      ∙ mac_for-with_mac t (parse_ip j) (to_lowercase mac) ip

  arp_fields_lem :
      (t : NameTable) (fs : List Str) (ip : IpAddr)
      → mac_for (arp_fields to_lowercase t fs) ip ≡ or_else (mac_for t ip) (hit ip (arp_row fs))
  arp_fields_lem t [] ip = or_else-none (mac_for t ip)
  arp_fields_lem t (a ∷ []) ip = or_else-none (mac_for t ip)
  arp_fields_lem t (a ∷ b ∷ []) ip = or_else-none (mac_for t ip)
  arp_fields_lem t (a ∷ b ∷ c ∷ []) ip = or_else-none (mac_for t ip)
  arp_fields_lem t (j ∷ b ∷ c ∷ mac ∷ fs) ip =
      elim (Bool-cases (is_text (to_lowercase mac) (text "00:00:00:00:00:00"))) [
        | inl e ↦ rw e (or_else-none (mac_for t ip))
        | inr e ↦ rw e (mac_for-or_mac t (parse_ip j) (to_lowercase mac) ip)
      ]

  mac_for-leases :
      (t : NameTable) (ls : List Str) (ip : IpAddr)
      → mac_for (foldl (lease_line to_lowercase) t ls) ip ≡ or_else (latest ip ls) (mac_for t ip)
  unfolding lease_line
  mac_for-leases t [] ip = refl
  mac_for-leases t (l ∷ ls) ip =
      mac_for-leases (lease_line to_lowercase t l) ls ip
      ∙ ap (or_else (latest ip ls)) (lease_fields_lem t (split_whitespace l) ip)
      ∙ or_else_assoc (latest ip ls) (hit ip (lease_row (split_whitespace l))) (mac_for t ip)

  mac_for-arps :
      (t : NameTable) (ls : List Str) (ip : IpAddr)
      → mac_for (foldl (arp_line to_lowercase) t ls) ip ≡ or_else (mac_for t ip) (earliest ip ls)
  unfolding arp_line
  mac_for-arps t [] ip = or_else-none (mac_for t ip)
  mac_for-arps t (l ∷ ls) ip =
      mac_for-arps (arp_line to_lowercase t l) ls ip
      ∙ ap (λ o. or_else o (earliest ip ls)) (arp_fields_lem t (split_whitespace l) ip)
      ∙ sym (or_else_assoc (mac_for t ip) (hit ip (arp_row (split_whitespace l))) (earliest ip ls))

  -- The hardware address of an IP address is that of its last lease; without a lease it is that of
  -- its first entry in the ARP table, the heading and entries of zeros left out; else there is none.
  pub mac_for-from_text :
      (leases arp : Str) (ip : IpAddr)
      → mac_for (from_text to_lowercase leases arp) ip
        ≡ or_else (latest ip (lines leases)) (earliest ip (drop 1 (lines arp)))
  unfolding from_text
  mac_for-from_text leases arp ip =
      mac_for-arps (foldl (lease_line to_lowercase) no_names (lines leases)) (drop 1 (lines arp)) ip
      ∙ ap (λ o. or_else o (earliest ip (drop 1 (lines arp))))
          (mac_for-leases no_names (lines leases) ip
            ∙ sym (or_else-none (latest ip (lines leases))))
