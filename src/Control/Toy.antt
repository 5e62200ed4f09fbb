-- ===== src/Control/Toy.antt =====
-- A small JSON that theorems about requests can be applied at, and a daemon with two clients.
use luci_app_overwatch.Base.{ℕ, true, false, ite, List, [], ◌∷◌, Option, none, some}
use luci_app_overwatch.Base.Int.{ℤ, pos}
use luci_app_overwatch.Base.Text.{Str, Str-discrete, text}
use luci_app_overwatch.Config.{default_config}
use luci_app_overwatch.Control.{Shared, Json}
use luci_app_overwatch.Db.{Cell, int, DnsKey}
use luci_app_overwatch.Recorder
use luci_app_overwatch.Snapshot.View.{ClientView}

-- Nothing, a text, a number, or an object: a member and the others.
pub data Toy : Type 0 where
  nil : Toy
  str : Str → Toy
  num : ℕ → Toy
  member : Str → Toy → Toy → Toy

abbrev pub get : Toy → Str → Option Toy
get (member key v rest) k = ite (Str-discrete key k) (some v) (get rest k)
get _ k = none

abbrev pub as_str : Toy → Option Str
as_str (str s) = some s
as_str _ = none

abbrev pub as_u64 : Toy → Option ℕ
as_u64 (num n) = some n
as_u64 _ = none

abbrev pub as_i64 : Toy → Option ℤ
as_i64 (num n) = some (pos n)
as_i64 _ = none

abbrev pub ask_domains : Toy
ask_domains =
    member (text "method") (str (text "dns_top"))
      (member (text "params") (member (text "limit") (num 1) nil) nil)

-- It reads one request.
abbrev pub toy : Json
toy = record {
  Value = Toy;
  null = nil;
  get = get;
  as_str = as_str;
  as_u64 = as_u64;
  as_i64 = as_i64;
  from_str = λ s. ite (Str-discrete s (text "domains")) (some ask_domains) none;
}

abbrev pub view : ℕ → ClientView
view n = record {
  mac = n ∷ [];
  ip = [];
  host = [];
  rx_bps = n;
  tx_bps = 0;
  rx_total = n;
  tx_total = 0;
  conns_tcp = 0;
  conns_udp = 0;
}

abbrev pub dns_rows : List (DnsKey × Cell)
dns_rows =
    ((pos 0, text "aa", text "example.com"), int (pos 5))
    ∷ ((pos 0, text "aa", text "other.com"), int (pos 2))
    ∷ []

abbrev pub shared : Shared
shared = record {
  clients = view 9 ∷ view 5 ∷ [];
  recorder = Recorder.new 300 1440;
  store = record {
    clients = [];
    samples_min = [];
    samples_hour = [];
    samples_day = [];
    dns_counts_day = dns_rows;
  };
  config = default_config;
  probes = record { conntrack_acct = true; btf = true; clsact = false; hw_stats_advancing = none };
}
