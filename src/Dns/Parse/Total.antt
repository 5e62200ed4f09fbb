-- ===== src/Dns/Parse/Total.antt =====
-- The parser answers on every packet: no index out of bounds, and the loop ends.
use luci_app_overwatch.Base.{
  ℕ, zero, suc, ◌+◌, ◌-◌, ◌*◌, ◌/◌, ◌≤◌, ◌<◌, ◌≡◌, ◌⊎◌, inl, inr, refl, ap, not, List, arith, ltb,
  leb, ◌==◌, length,
}
use luci_app_overwatch.Base.Outcome.{
  Outcome, value, nothing, panicked, hung, or_nothing, index, slice, slice_from, Ensures, Settles,
  Ensures->>=, Ensures-if, Ensures-value, Ensures-or_nothing, index_lem, slice_lem, slice_from_lem,
}
use luci_app_overwatch.Base.Utf8.{from_utf8}
use mathlib.Core.List.{head?}
use Prim.Native.Nat.{bit_and}
use luci_app_overwatch.Dns.Parse.{
  Cursor, Round, break, continue, follow_pointer, read_label, read_round, read_labels, enough_fuel,
  start, parse_dns_qname, parse_udp_header, parse_ipv4, parse_ipv6, parse_ip_header,
  parse_dns_query,
}

-- A round that goes on moves forward within the message, or makes one of five jumps.
abbrev Progress : List ℕ → Cursor → Round → Type 0
Progress msg c (break labels) = Unit
Progress msg c (continue c') =
    (c'.pos ≤ length msg)
    × (((c'.jumps ≡ c.jumps) × (c.pos < c'.pos)) ⊎ ((c'.jumps ≡ c.jumps + 1) × (c'.jumps ≤ 5)))

abbrev Any {ℓ} : {A : Type ℓ} → A → Type 0
Any _ = Unit

module _ (msg : List ℕ) (c : Cursor) where
  abbrev Goes : Round → Type 0
  Goes = Progress msg c

  Reads {ℓ} : {A : Type ℓ} (xs : List A) (i : ℕ) → i < length xs → Settles (index xs i)
  Reads xs i h = let (x, _, e) = index_lem xs i h in Ensures-value Any e tt

  follow_pointer_total : (len : ℕ) → c.pos ≤ length msg → Ensures Goes (follow_pointer msg c len)
  unfolding follow_pointer
  follow_pointer_total len h =
      Ensures-if Goes (leb (length msg) (c.pos + 1)) _ _ (λ _. tt)
        λ inside.
          Ensures-if Goes (ltb 5 (c.jumps + 1)) _ _ (λ _. tt)
            λ few.
              Ensures->>= Any Goes (index msg (c.pos + 1)) _ (Reads msg (c.pos + 1) (ground arith))
                λ low _.
                  Ensures-if Goes (leb c.pos _) _ _ (λ _. tt)
                    λ back. (ground arith, inr (refl, ground arith))

  read_label_total : (len : ℕ) → Ensures Goes (read_label msg c len)
  unfolding read_label
  read_label_total len =
      Ensures-if Goes (ltb (length msg) (c.pos + 1 + len)) _ _ (λ _. tt)
        λ inside.
          let fits : c.pos + 1 + len ≤ length msg = ground arith in
          Ensures->>= Any Goes (slice msg (c.pos + 1) (c.pos + 1 + len)) _
            (Ensures-value Any (slice_lem msg (c.pos + 1) (c.pos + 1 + len) (omega arith) fits) tt)
            λ bytes _.
              Ensures->>= Any Goes (or_nothing (from_utf8 bytes)) _
                (Ensures-or_nothing Any (from_utf8 bytes) (λ _ _. tt))
                λ label _. (fits, inl (refl, omega arith))

  read_round_total : Ensures Goes (read_round msg c)
  unfolding read_round
  read_round_total =
      Ensures-if Goes (leb (length msg) c.pos) _ _ (λ _. tt)
        λ inside. Ensures->>= Any Goes (index msg c.pos) _ (Reads msg c.pos (ground arith)) λ len _.
          Ensures-if Goes (len == 0) _ _ (λ _. tt)
            λ _.
              Ensures-if Goes (bit_and len 0xC0 == 0xC0) _ _
                (λ _. follow_pointer_total len (ground arith))
                λ _.
                  Ensures-if Goes (not (bit_and len 0xC0 == 0)) nothing (read_label msg c len)
                    (λ _. tt) (λ _. read_label_total len)

-- What follows a round, if the rest of the loop settles.
after_round :
    (fuel : ℕ) (msg : List ℕ) (c : Cursor) (o : Outcome Round)
    → read_round msg c ≡ o
    → Ensures (Progress msg c) o
    → ((c' : Cursor) → Progress msg c (continue c') → Settles (read_labels fuel msg c'))
    → Settles (read_labels (suc fuel) msg c)
unfolding read_labels
after_round fuel msg c (value (break labels)) e g rest = rw (e, read_labels) tt
after_round fuel msg c (value (continue c')) e g rest = rw (e, read_labels) (rest c' g)
after_round fuel msg c nothing e g rest = rw (e, read_labels) tt
after_round fuel msg c panicked e g rest = absurd g
after_round fuel msg c hung e g rest = absurd g

-- `left` jumps may still be made.
read_labels_total :
    (fuel : ℕ) (msg : List ℕ) (c : Cursor) (left : ℕ)
    → c.jumps + left ≡ 5
    → c.pos ≤ length msg
    → left * (length msg + 1) + (length msg - c.pos) < fuel
    → Settles (read_labels fuel msg c)
read_labels_total zero msg c left j p h = absurd (omega arith)
read_labels_total (suc fuel) msg c left j p h =
    after_round fuel msg c (read_round msg c) refl (read_round_total msg c) λ c' g. elim g.1 [
      | inl (e, f) ↦ read_labels_total fuel msg c' left (omega arith) g.0 (omega (arith, g.0))
      | inr (e, f) ↦
          let one_less : left ≡ suc (left - 1) = omega arith in
          read_labels_total fuel msg c' (left - 1) (omega arith) g.0
            (omega (arith, ap (λ (t : ℕ). t * (length msg + 1)) one_less))
    ]

pub start_total :
    (msg : List ℕ) → 12 ≤ length msg → Settles (read_labels (enough_fuel msg) msg start)
start_total msg h = read_labels_total (enough_fuel msg) msg start 5 refl h (omega arith)

parse_dns_qname_total : (msg : List ℕ) → Settles (parse_dns_qname msg)
unfolding parse_dns_qname
parse_dns_qname_total msg =
    Ensures-if Any (ltb (length msg) 12) _ _ (λ _. tt)
      λ long.
        Ensures->>= Any Any (read_labels (enough_fuel msg) msg start) _
          (start_total msg (ground arith)) (λ _ _. tt)

module _ (pkt : List ℕ) where
  at_total : (i : ℕ) → i < length pkt → Settles (index pkt i)
  at_total i h = let (x, _, e) = index_lem pkt i h in Ensures-value Any e tt

  rest_total : (a : ℕ) → a ≤ length pkt → Settles (slice_from pkt a)
  rest_total a h = Ensures-value Any (slice_from_lem pkt a h) tt

  parse_udp_header_total : Settles (parse_udp_header pkt)
  unfolding parse_udp_header
  parse_udp_header_total =
      Ensures-if Any (ltb (length pkt) 8) _ _ (λ _. tt)
        λ long. Ensures->>= Any Any (index pkt 2) _ (at_total 2 (ground arith)) λ hi _.
          Ensures->>= Any Any (index pkt 3) _ (at_total 3 (ground arith)) λ lo _.
            Ensures-if Any (not (hi * 256 + lo == 53)) nothing (slice_from pkt 8) (λ _. tt)
              (λ _. rest_total 8 (ground arith))

  parse_ipv4_total : Settles (parse_ipv4 pkt)
  unfolding parse_ipv4
  parse_ipv4_total =
      Ensures-if Any (ltb (length pkt) 20) _ _ (λ _. tt)
        λ long.
          let at : (i : ℕ) → i < 20 → Settles (index pkt i) = λ i h. at_total i (ground arith) in
          Ensures->>= Any Any (index pkt 0) _ (at 0 (omega arith)) λ first _.
            Ensures-if Any (ltb (bit_and first 0x0f * 4) 20) _ _ (λ _. tt)
              λ _.
                Ensures-if Any (ltb (length pkt) (bit_and first 0x0f * 4)) _ _ (λ _. tt)
                  λ fits. Ensures->>= Any Any (index pkt 9) _ (at 9 (omega arith)) λ _ _.
                    Ensures->>= Any Any (index pkt 12) _ (at 12 (omega arith)) λ _ _.
                      Ensures->>= Any Any (index pkt 13) _ (at 13 (omega arith)) λ _ _.
                        Ensures->>= Any Any (index pkt 14) _ (at 14 (omega arith)) λ _ _.
                          Ensures->>= Any Any (index pkt 15) _ (at 15 (omega arith)) λ _ _.
                            Ensures->>= Any Any (slice_from pkt (bit_and first 0x0f * 4)) _
                              (rest_total _ (ground arith)) (λ _ _. tt)

  parse_ipv6_total : Settles (parse_ipv6 pkt)
  unfolding parse_ipv6
  parse_ipv6_total =
      Ensures-if Any (ltb (length pkt) 40) _ _ (λ _. tt)
        λ long.
          let long' : 40 ≤ length pkt = ground arith in
          Ensures->>= Any Any (index pkt 6) _ (at_total 6 (omega arith)) λ _ _.
            Ensures->>= Any Any (slice pkt 8 24) _
              (Ensures-value Any (slice_lem pkt 8 24 (omega arith) (omega arith)) tt)
              λ _ _. Ensures->>= Any Any (slice_from pkt 40) _ (rest_total 40 long') (λ _ _. tt)

  parse_ip_header_total : Settles (parse_ip_header pkt)
  unfolding parse_ip_header
  parse_ip_header_total =
      Ensures->>= Any Any (or_nothing (head? pkt)) _
        (Ensures-or_nothing Any (head? pkt) (λ _ _. tt))
        λ first _.
          Ensures-if Any (first / 16 == 4) _ _ (λ _. parse_ipv4_total)
            λ _.
              Ensures-if Any (first / 16 == 6) (parse_ipv6 pkt) nothing (λ _. parse_ipv6_total)
                (λ _. tt)

-- On every packet the parser returns a source and a name, or nothing: no access panics, however
-- short or malformed the packet is, and the loop over the labels ends.
pub parse_dns_query_total : (pkt : List ℕ) → Settles (parse_dns_query pkt)
unfolding parse_dns_query
parse_dns_query_total pkt =
    Ensures->>= Any Any (parse_ip_header pkt) _ (parse_ip_header_total pkt) λ ip _.
      Ensures-if Any (not (ip.1 == 17)) _ _ (λ _. tt)
        λ _. Ensures->>= Any Any (parse_udp_header ip.2) _ (parse_udp_header_total ip.2) λ msg _.
          Ensures->>= Any Any (parse_dns_qname msg) _ (parse_dns_qname_total msg) (λ _ _. tt)
