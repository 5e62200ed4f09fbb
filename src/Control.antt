-- ===== src/Control.antt =====
-- src/control.rs: what the daemon shares between its threads, and its answers to the requests of the
-- control socket. A JSON value is what serde_json parses, a parameter with the accessors that the
-- source calls; the answers are the shapes that it builds.
pub mod Refused
pub mod Sizes
pub mod Toy
mod Tests
use luci_app_overwatch.Base.{ℕ, ◌-◌, ◌^◌, min, ite, List, [], ◌∷◌, ◌++◌, map, Option, none, some}
use luci_app_overwatch.Base.Float.{F64}
use luci_app_overwatch.Base.Int.{ℤ, pos}
use luci_app_overwatch.Base.Outcome.{Outcome, value, ◌>>=◌}
use luci_app_overwatch.Base.Text.{Str, Str-discrete, text}
use luci_app_overwatch.Api.{
  ClientApi, ApiPoint, Report, StatusApi, client_api, api_point, summary, status_api,
}
use luci_app_overwatch.Config.{Config}
use luci_app_overwatch.Db.{Tables}
use luci_app_overwatch.Db.Query.{store_of, dns_top}
use luci_app_overwatch.History.{HistTier, realtime, day, week, month, series}
use luci_app_overwatch.Probe.{ProbeStatus}
use luci_app_overwatch.Recorder.{Recorder}
use luci_app_overwatch.Sample.{Sample}
use luci_app_overwatch.Snapshot.View.{ClientView}
use mathlib.Core.Option

pub record Shared : Type 0 where
  pub clients : List ClientView
  pub recorder : Recorder
  pub store : Tables
  pub config : Config
  pub probes : ProbeStatus

-- `serde_json::Value` with `Null`, `get`, the accessors, and `from_str`.
pub record Json : Type 1 where
  pub Value : Type 0
  pub null : Value
  pub get : Value → Str → Option Value
  pub as_str : Value → Option Str
  pub as_u64 : Value → Option ℕ
  pub as_i64 : Value → Option ℤ
  pub from_str : Str → Option Value

-- The objects that `dispatch` answers with.
pub data Reply : Type 0 where
  clients : List ClientApi → Reply
  status : StatusApi → Reply
  report : Report → Reply
  points : List ApiPoint → Reply
  domains : List (Str × ℕ) → Reply
  error : Str → Reply

unfoldable pub hist_tier : Str → Option HistTier
hist_tier s = ite (Str-discrete s (text "realtime")) (some realtime) (
    ite (Str-discrete s (text "day")) (some day) (
      ite (Str-discrete s (text "week")) (some week)
        (ite (Str-discrete s (text "month")) (some month) none)))

-- `env!("CARGO_PKG_VERSION")`
abbrev pub pkg_version : Str
pkg_version = text "0.1.0"

abbrev pub and_then {ℓ κ} : {A : Type ℓ} {B : Type κ} → Option A → (A → Option B) → Option B
and_then none f = none
and_then (some a) f = f a

-- `i64::MAX`
abbrev pub i64_max : ℤ
i64_max = pos (2 ^ 63 - 1)

abbrev pub points_of : Outcome (List Sample) → Outcome Reply
points_of o = o >>= λ ss. value (points (map api_point ss))

-- A store error is its cause, a text of SQLite.
abbrev pub display : Str → Str
display cause = text "store error: " ++ cause

abbrev pub domains_of : Str → Option (List (Str × ℕ)) → Reply
domains_of cause none = error (display cause)
domains_of cause (some top) = domains top

module _ (float : F64) (json : Json) (cause : Str) where
  open json use {Value, get, as_str, as_u64, as_i64}

  abbrev pub get_str : Value → Str → Option Str
  get_str params key = and_then (get params key) as_str

  abbrev pub get_u64 : Value → Str → ℕ → ℕ
  get_u64 params key d = Option.get_or (and_then (get params key) as_u64) d

  abbrev pub get_i64 : Value → Str → ℤ → ℤ
  get_i64 params key d = Option.get_or (and_then (get params key) as_i64) d

  abbrev pub tier_of : Value → Option HistTier
  tier_of params = and_then (get_str params (text "tier")) hist_tier

  abbrev pub top_n_of : Value → ℕ
  top_n_of params = min (get_u64 params (text "top_n") 5) 10000

  abbrev pub max_points_of : Value → ℕ
  max_points_of params = min (get_u64 params (text "max_points") 500) 100000

  abbrev pub limit_of : Shared → Value → ℕ
  limit_of shared params = min (get_u64 params (text "limit") shared.config.dns_top_n) 10000

  abbrev pub from_of : Value → ℤ
  from_of params = get_i64 params (text "from") (pos 0)

  abbrev pub to_of : Value → ℤ
  to_of params = get_i64 params (text "to") i64_max

  abbrev pub client_of : Value → Option Str
  client_of params = get_str params (text "client")

  unfoldable pub history : Shared → Value → HistTier → Outcome Reply
  history shared params tier = points_of (
      series float shared.recorder (store_of shared.store) tier (client_of params) (from_of params)
        (to_of params) (max_points_of params))

  abbrev pub history_or_error : Shared → Value → Option HistTier → Outcome Reply
  history_or_error shared params none = value (error (text "missing or invalid tier"))
  history_or_error shared params (some tier) = history shared params tier

  abbrev pub top_domains : Shared → Value → Option (List (Str × ℕ))
  top_domains shared params =
      dns_top shared.store (client_of params) (from_of params) (to_of params)
        (limit_of shared params)

  -- The daemon's state is only read.
  unfoldable pub dispatch : Shared → Str → Value → Outcome Reply
  unfolding history
  dispatch shared method params =
      ite (Str-discrete method (text "clients")) (value (clients (map client_api shared.clients))) (
        ite (Str-discrete method (text "status"))
          (value (status (status_api shared.config.enabled shared.probes pkg_version)))
          (ite (Str-discrete method (text "summary"))
            (value (report (summary shared.clients (top_n_of params))))
            (ite (Str-discrete method (text "history"))
              (history_or_error shared params (tier_of params))
              (ite (Str-discrete method (text "dns_top"))
                (value (domains_of cause (top_domains shared params)))
                (value (error (text "unknown method")))))))
