-- ===== src/Flow/Tests.antt =====
-- A line of the kernel's table.
use luci_app_overwatch.Base.{ℕ, ◌+◌, ◌*◌, ◌≡◌, refl, List, [], ◌∷◌, ◌++◌, some, arith, ℕ_discrete}
use luci_app_overwatch.Base.Ip.{IpAddr, v4}
use luci_app_overwatch.Base.Read.{parse_ip, parse_uint}
use luci_app_overwatch.Base.Text.{Str, Str-discrete, text}
use luci_app_overwatch.Base.Tokens.{Spaced, spaced}
use luci_app_overwatch.Flow.{
  Flow, End, tcp, udp, proto_parse, compute_flow_key, parse_line, parse_all,
}
use luci_app_overwatch.Flow.Key.{compute_flow_key-swap}
use luci_app_overwatch.Flow.Line.{Direction, Values, Stands, tokens_of, parse_line-spaced}

abbrev number_of : IpAddr → ℕ
number_of (IpAddr.v4 n) = n
number_of (IpAddr.v6 n) = n

-- A hash function to try it with.
abbrev mix : End → End → ℕ → ℕ
mix (a, p) (b, q) proto = number_of a * 3 + p * 5 + number_of b * 7 + q * 11 + proto

abbrev sent : Direction
sent = record {
  src = text "192.168.1.9";
  dst = text "8.8.8.8";
  sport = text "5353";
  dport = text "53";
  packets = text "3";
  bytes = text "120";
}

abbrev reply : Direction
reply = record {
  src = text "8.8.8.8";
  dst = text "192.168.1.9";
  sport = text "53";
  dport = text "5353";
  packets = text "2";
  bytes = text "900";
}

abbrev sent_values : Values
sent_values = record {
  src = v4 3232235785;
  dst = v4 134744072;
  sport = 5353;
  dport = 53;
  bytes = 120;
}

abbrev reply_values : Values
reply_values = record {
  src = v4 134744072;
  dst = v4 3232235785;
  sport = 53;
  dport = 5353;
  bytes = 900;
}

sent-Stands : Stands sent sent_values
unfolding parse_ip parse_uint
sent-Stands = record {
  src = refl;
  dst = refl;
  sport = refl;
  dport = refl;
  bytes = refl;
  no_space = ground arith;
}

reply-Stands : Stands reply reply_values
unfolding parse_ip parse_uint
reply-Stands = record {
  src = refl;
  dst = refl;
  sport = refl;
  dport = refl;
  bytes = refl;
  no_space = ground arith;
}

abbrev front : List Str
front = text "ipv4" ∷ text "2" ∷ text "udp" ∷ text "17" ∷ text "29" ∷ []

abbrev behind : List Str
behind = text "[ASSURED]" ∷ text "use=2" ∷ []

abbrev flow : Flow
flow = record {
  proto = udp;
  orig_src = v4 3232235785;
  orig_dst = v4 134744072;
  orig_bytes = 120;
  reply_bytes = 900;
  flow_key = compute_flow_key mix (v4 3232235785) 5353 (v4 134744072) 53 udp;
}

-- The line as the kernel prints it, with its padding.
abbrev spread : List Str → Spaced
spread [] = []
spread (w ∷ ws) = (w, text " ") ∷ spread ws

abbrev line : Spaced
line =
    (text "ipv4", text "     ")
    ∷ (text "2", text " ")
    ∷ (text "udp", text "      ")
    ∷ (text "17", text " ")
    ∷ (text "29", text " ")
    ∷ spread (tokens_of sent ++ (tokens_of reply ++ behind))

printed :
    spaced line
    ≡ text
        "ipv4     2 udp      17 29 src=192.168.1.9 dst=8.8.8.8 sport=5353 dport=53 packets=3 bytes=120 src=8.8.8.8 dst=192.168.1.9 sport=53 dport=5353 packets=2 bytes=900 [ASSURED] use=2 "
printed = refl

parse_line_example : parse_line mix (spaced line) ≡ some flow
unfolding Str-discrete ℕ_discrete
parse_line_example =
    parse_line-spaced mix front [] behind sent reply sent_values reply_values udp line refl
      (ground arith) (ground arith) tt (ground arith) (ground arith) tt (ground arith) refl
      sent-Stands reply-Stands

-- A line without counters is left out, and the others are kept.
table_read : parse_all mix (text "junk" ++ 10 ∷ spaced line ++ 10 ∷ []) ≡ flow ∷ []
unfolding parse_all parse_ip parse_uint Str-discrete ℕ_discrete
table_read = refl

named : (proto_parse (text "tcp") ≡ tcp) × (proto_parse (text "udp") ≡ udp)
unfolding proto_parse Str-discrete ℕ_discrete
named = (refl, refl)

swap_example :
    compute_flow_key mix (v4 3232235785) 5353 (v4 134744072) 53 udp
    ≡ compute_flow_key mix (v4 134744072) 53 (v4 3232235785) 5353 udp
swap_example = compute_flow_key-swap mix (v4 3232235785) 5353 (v4 134744072) 53 udp
