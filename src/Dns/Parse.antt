-- ===== src/Dns/Parse.antt =====
-- src/dns_parse.rs: the source address and the first question of a DNS query, out of an IP packet.
-- Every access that Rust checks is an `index` or a `slice` here, and panics out of bounds.
pub mod Name
pub mod Total
pub mod Bytes
pub mod Exact
pub mod RoundTrip
use luci_app_overwatch.Base.{
  ℕ, zero, suc, ◌+◌, ◌*◌, ◌/◌, ◌%◌, ◌≤◌, ◌<◌, Bool, true, false, not, List, [], ◌∷◌, ◌++◌, Option,
  none, some, ltb, leb, ◌==◌, if◌then◌else◌, length,
}
use luci_app_overwatch.Base.Ip.{IpAddr, v4, v6}
use luci_app_overwatch.Base.Outcome.{
  Outcome, value, nothing, panicked, hung, ◌>>=◌, or_nothing, index, slice, slice_from,
}
use luci_app_overwatch.Base.Text.{Str}
use luci_app_overwatch.Base.Utf8.{from_utf8}
use mathlib.Core.List.{head?, foldl}
use Prim.Native.Nat.{bit_and, bit_or}

abbrev pub max_label_jumps : ℕ
max_label_jumps = 5

-- The variables of the loop: the position, the labels so far and the jumps so far.
pub record Cursor : Type 0 where
  pub pos : ℕ
  pub labels : List Str
  pub jumps : ℕ

-- One round of the loop: it breaks with the labels, or goes on.
pub data Round : Type 0 where
  break : List Str → Round
  continue : Cursor → Round

-- A length byte of 0xC0 and more: a jump to an earlier position.
unfoldable pub follow_pointer : List ℕ → Cursor → ℕ → Outcome Round
follow_pointer msg c len =
    if leb (length msg) (c.pos + 1)
    then nothing
    else if ltb max_label_jumps (c.jumps + 1)
    then nothing
    else do
      low ← index msg (c.pos + 1)
      let ptr = bit_or (bit_and len 0x3F * 256) low
      if leb c.pos ptr
          then nothing
          else value (continue (record c { pos = ptr; jumps = c.jumps + 1 }))

unfoldable pub read_label : List ℕ → Cursor → ℕ → Outcome Round
read_label msg c len =
    let start = c.pos + 1 in
    let end = start + len in
    if ltb (length msg) end then nothing else do
      bytes ← slice msg start end
      label ← or_nothing (from_utf8 bytes)
      value (continue (record c { pos = end; labels = c.labels ++ label ∷ [] }))

unfoldable pub read_round : List ℕ → Cursor → Outcome Round
unfolding follow_pointer read_label
read_round msg c = if leb (length msg) c.pos then nothing else do
  len ← index msg c.pos
  if len == 0
      then value (break c.labels)
      else if bit_and len 0xC0 == 0xC0
      then follow_pointer msg c len
      else if not (bit_and len 0xC0 == 0)
      then nothing
      else read_label msg c len

-- The loop, with fuel; `hung` says that the fuel ran out.
unfoldable pub read_labels : ℕ → List ℕ → Cursor → Outcome (List Str)
read_labels zero msg c = hung
read_labels (suc fuel) msg c = elim (read_round msg c) [
  | value r ↦ elim r [ break labels ↦ value labels | continue c' ↦ read_labels fuel msg c' ]
  | nothing ↦ nothing
  | panicked ↦ panicked
  | hung ↦ hung
]

-- `labels.join(".")`
unfoldable pub join : List Str → Str
join [] = []
join (l ∷ []) = l
join (l ∷ k ∷ ls) = l ++ b'.' ∷ join (k ∷ ls)

-- Every round moves forward in the message or makes one of five jumps.
abbrev pub enough_fuel : List ℕ → ℕ
enough_fuel msg = 6 * (length msg + 1)

abbrev pub start : Cursor
start = record { pos = 12; labels = []; jumps = 0 }

unfoldable pub parse_dns_qname : List ℕ → Outcome Str
parse_dns_qname msg =
    if ltb (length msg) 12
    then nothing
    else do labels ← read_labels (enough_fuel msg) msg start; value (join labels)

unfoldable pub parse_udp_header : List ℕ → Outcome (List ℕ)
parse_udp_header pkt = if ltb (length pkt) 8 then nothing else do
  hi ← index pkt 2
  lo ← index pkt 3
  if not (hi * 256 + lo == 53) then nothing else slice_from pkt 8

-- Bytes as one number, the first one the highest.
abbrev pub from_be : List ℕ → ℕ
from_be = foldl (λ acc b. acc * 256 + b) 0

unfoldable pub parse_ipv4 : List ℕ → Outcome (IpAddr × ℕ × List ℕ)
parse_ipv4 pkt = if ltb (length pkt) 20 then nothing else do
  first ← index pkt 0
  let ihl = bit_and first 0x0f * 4
  if ltb ihl 20 then nothing else if ltb (length pkt) ihl then nothing else do
    proto ← index pkt 9
    a ← index pkt 12
    b ← index pkt 13
    c ← index pkt 14
    d ← index pkt 15
    payload ← slice_from pkt ihl
    value (v4 (from_be (a ∷ b ∷ c ∷ d ∷ [])), proto, payload)

unfoldable pub parse_ipv6 : List ℕ → Outcome (IpAddr × ℕ × List ℕ)
parse_ipv6 pkt = if ltb (length pkt) 40 then nothing else do
  next_header ← index pkt 6
  src ← slice pkt 8 24
  payload ← slice_from pkt 40
  value (v6 (from_be src), next_header, payload)

unfoldable pub parse_ip_header : List ℕ → Outcome (IpAddr × ℕ × List ℕ)
unfolding parse_ipv4 parse_ipv6
parse_ip_header pkt = do
  first ← or_nothing (head? pkt)
  if first / 16 == 4 then parse_ipv4 pkt else if first / 16 == 6 then parse_ipv6 pkt else nothing

unfoldable pub parse_dns_query : List ℕ → Outcome (IpAddr × Str)
unfolding parse_ip_header parse_udp_header parse_dns_qname
parse_dns_query ip_packet = do
  (src_ip, proto, payload) ← parse_ip_header ip_packet
  if not (proto == 17) then nothing else do
    dns_msg ← parse_udp_header payload
    domain ← parse_dns_qname dns_msg
    value (src_ip, domain)
