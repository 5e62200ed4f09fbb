-- ===== src/Dns/Tests.antt =====
-- A query for a.b, one with a pointer, and a window of counts.
use luci_app_overwatch.Base.{
  ℕ, ◌%◌, ◌^◌, ◌≡◌, ◌↔◌, refl, List, [], ◌∷◌, ◌++◌, replicate, length, arith, ℕ_discrete,
}
use luci_app_overwatch.Base.Ip.{v4}
use luci_app_overwatch.Base.Outcome.{value, nothing, Settles}
use luci_app_overwatch.Base.Text.{Str, Str-discrete, text}
use luci_app_overwatch.Base.Utf8.{from_utf8}
use luci_app_overwatch.Dns.Capture.{Key-discrete, empty, record_query}
use luci_app_overwatch.Dns.Capture.Counts.{
  Query, run, counted, count_of, queries_of, total, total-run, IsBounded, run-IsBounded,
}
use luci_app_overwatch.Dns.Parse.{parse_dns_qname, parse_dns_query, read_labels, read_round, join}
use luci_app_overwatch.Dns.Parse.Exact.{Spelled, parse_dns_qname_iff}
use luci_app_overwatch.Dns.Parse.RoundTrip.{encode_qname, parse-encode_qname}
use luci_app_overwatch.Dns.Parse.Total.{parse_dns_query_total}

abbrev header : List ℕ
header = replicate 12 0

-- a.b, and behind it c with a pointer to a.b
abbrev message : List ℕ
message = header ++ 1 ∷ 97 ∷ 1 ∷ 98 ∷ 0 ∷ []

message_read : parse_dns_qname message ≡ value (text "a.b")
unfolding parse_dns_qname from_utf8 read_labels read_round join
message_read = refl

-- A pointer that does not point back.
looped : parse_dns_qname (header ++ 192 ∷ 12 ∷ []) ≡ nothing
unfolding parse_dns_qname from_utf8 read_labels read_round join
looped = refl

qname_example : (parse_dns_qname message ≡ value (text "a.b")) ↔ Spelled message (text "a.b") 5
qname_example = parse_dns_qname_iff message (text "a.b") (ground arith) (omega arith)

abbrev labels : List Str
labels = text "ab" ∷ text "c" ∷ []

encode_qname_example :
    parse_dns_qname (header ++ (encode_qname labels ++ 0 ∷ 1 ∷ [])) ≡ value (join labels)
encode_qname_example =
    parse-encode_qname header labels (0 ∷ 1 ∷ []) refl (ground arith) (ground arith) (ground arith)

abbrev packet : List ℕ
packet =
    0x45 ∷ replicate 8 0
    ++ 17 ∷ 0 ∷ 0 ∷ 192 ∷ 168 ∷ 1 ∷ 9 ∷ replicate 4 8
    ++ 0 ∷ 1 ∷ 0 ∷ 53 ∷ replicate 4 0
    ++ message

packet_read : parse_dns_query packet ≡ value (v4 3232235785, text "a.b")
unfolding parse_dns_query from_utf8 read_labels read_round join
packet_read = refl

packet_example : Settles (parse_dns_query packet)
packet_example = parse_dns_query_total packet

abbrev queries : List Query
queries =
    (text "m", text "a.b")
    ∷ (text "n", text "a.b")
    ∷ (text "m", text "a.b")
    ∷ (text "m", text "c")
    ∷ []

counted_example :
    count_of (run empty queries) (text "m", text "a.b")
    ≡ queries_of (run empty queries).seen_domains (text "m", text "a.b") queries % 2 ^ 64
counted_example = counted queries (text "m", text "a.b")

counted_twice : count_of (run empty queries) (text "m", text "a.b") ≡ 2
unfolding run Key-discrete Str-discrete record_query ℕ_discrete
counted_twice = refl

total-run_example : total (run empty queries).counts ≡ length queries
total-run_example = total-run queries (omega arith)

run-IsBounded_example : IsBounded (run empty queries)
run-IsBounded_example = run-IsBounded queries
