-- ===== src/Flow.antt =====
-- src/flow.rs and src/conntrack.rs: one tracked connection, as a line of the kernel's table gives it,
-- and the table as a whole.
pub mod Key
pub mod Line
mod Tests
use luci_app_overwatch.Base.{
  ℕ, Bool, true, false, ◌&&◌, ◌||◌, ite, List, [], ◌∷◌, ◌++◌, Option, none, some, ltb, ◌==◌,
  if◌then◌else◌,
}
use luci_app_overwatch.Base.Ip.{IpAddr, v4, v6}
use luci_app_overwatch.Base.Lines.{lines, split_whitespace}
use luci_app_overwatch.Base.Read.{parse_ip, parse_uint, strip_prefix}
use luci_app_overwatch.Base.Text.{Str, Str-discrete, text}
use mathlib.Core.List.{foldl}
use mathlib.Core.Option

pub data Proto : Type 0 where
  tcp udp other : Proto

-- The byte counters and the key are `u64`.
pub record Flow : Type 0 where
  pub proto : Proto
  pub orig_src : IpAddr
  pub orig_dst : IpAddr
  pub orig_bytes : ℕ
  pub reply_bytes : ℕ
  pub flow_key : ℕ

unfoldable pub proto_parse : Str → Proto
proto_parse name =
    ite (Str-discrete name (text "tcp")) tcp (ite (Str-discrete name (text "udp")) udp other)

-- The `find_map` over the tokens.
abbrev pub find_proto : List Str → Option Proto
find_proto [] = none
find_proto (t ∷ ts) =
    ite (Str-discrete t (text "tcp")) (some tcp)
      (ite (Str-discrete t (text "udp")) (some udp) (find_proto ts))

-- The values collected, in order.
pub record Fields : Type 0 where
  pub src : List IpAddr
  pub dst : List IpAddr
  pub sport : List ℕ
  pub dport : List ℕ
  pub bytes : List ℕ

abbrev pub no_fields : Fields
no_fields = record { src = []; dst = []; sport = []; dport = []; bytes = [] }

abbrev pub push_some {ℓ} : {A : Type ℓ} → List A → Option A → List A
push_some xs none = xs
push_some xs (some x) = xs ++ x ∷ []

abbrev pub u16_mod : ℕ
u16_mod = 65536

abbrev pub u64_values : ℕ
u64_values = 18446744073709551616

-- The body of the loop over the tokens.
unfoldable pub collect : Fields → Str → Fields
collect f t = elim (strip_prefix (text "src=") t) [
  | some v ↦ record f { src = push_some f.src (parse_ip v) }
  | none ↦ elim (strip_prefix (text "dst=") t) [
    | some v ↦ record f { dst = push_some f.dst (parse_ip v) }
    | none ↦ elim (strip_prefix (text "sport=") t) [
      | some v ↦ record f { sport = push_some f.sport (parse_uint u16_mod v) }
      | none ↦ elim (strip_prefix (text "dport=") t) [
        | some v ↦ record f { dport = push_some f.dport (parse_uint u16_mod v) }
        | none ↦ elim (strip_prefix (text "bytes=") t) [
          | some v ↦ record f { bytes = push_some f.bytes (parse_uint u64_values v) }
          | none ↦ f
        ]
      ]
    ]
  ]
]

-- `Ord` of an address with its port: IPv4 before IPv6, then the number, then the port.
abbrev pub End : Type 0
End = IpAddr × ℕ

abbrev pub before : End → End → Bool
before (v4 a, p) (v4 b, q) = ltb a b || (a == b && ltb p q)
before (v6 a, p) (v6 b, q) = ltb a b || (a == b && ltb p q)
before (v4 a, p) (v6 b, q) = true
before (v6 a, p) (v4 b, q) = false

-- `proto as u8`
abbrev pub as_u8 : Proto → ℕ
as_u8 tcp = 0
as_u8 udp = 1
as_u8 other = 2

-- The hash function is the standard library's, which documents no algorithm: a parameter.
module _ (hash : End → End → ℕ → ℕ) where
  unfoldable pub compute_flow_key : IpAddr → ℕ → IpAddr → ℕ → Proto → ℕ
  compute_flow_key a_ip a_port b_ip b_port proto =
      if before (b_ip, b_port) (a_ip, a_port)
      then hash (b_ip, b_port) (a_ip, a_port) (as_u8 proto)
      else hash (a_ip, a_port) (b_ip, b_port) (as_u8 proto)

  -- A flow needs the counters of both directions and the ends of one.
  abbrev pub built : Proto → List IpAddr → List IpAddr → List ℕ → List ℕ → List ℕ → Option Flow
  built proto (src ∷ _) (dst ∷ _) (sport ∷ _) (dport ∷ _) (sent ∷ replied ∷ _) = some (record {
    proto = proto;
    orig_src = src;
    orig_dst = dst;
    orig_bytes = sent;
    reply_bytes = replied;
    flow_key = compute_flow_key src sport dst dport proto;
  })
  built proto _ _ _ _ _ = none

  unfoldable pub parse_line : Str → Option Flow
  unfolding collect
  parse_line line =
      let toks = split_whitespace line in
      let proto = Option.get_or (find_proto toks) other in
      let f = foldl collect no_fields toks in built proto f.src f.dst f.sport f.dport f.bytes

  abbrev pub parse_lines : List Str → List Flow
  parse_lines [] = []
  parse_lines (l ∷ ls) = elim (parse_line l) [ none ↦ parse_lines ls | some f ↦ f ∷ parse_lines ls ]

  unfoldable pub parse_all : Str → List Flow
  unfolding parse_line
  parse_all table = parse_lines (lines table)
