-- ===== src/Snapshot/Order.antt =====
-- What stands in a snapshot, and in which order.
use luci_app_overwatch.Base.{ℕ, ◌+◌, ◌^◌, ◌<◌, ◌≡◌, sym, List, [], ◌∷◌, map, arith}
use luci_app_overwatch.Base.Ip.{IpAddr}
use luci_app_overwatch.Base.Sort
use luci_app_overwatch.Base.Sort.{
  IsFalling, AllAtMost, AllOf, sort_desc-IsFalling, sort_desc-perm, sort_desc-AllOf,
}
use luci_app_overwatch.Account.{ClientStats}
use luci_app_overwatch.Names.{NameTable}
use luci_app_overwatch.Snapshot.{view_of, rate_sum, build_snapshot}
use luci_app_overwatch.Snapshot.View.{ClientView}
use mathlib.Core.List.{Perm}

-- The rates of a client together, without a limit.
abbrev pub busy : ClientView → ℕ
busy v = v.rx_bps + v.tx_bps

abbrev pub Fits : ClientView → Type 0
Fits v = busy v < 2 ^ 64

-- The rates of every entry add up to a `u64`.
abbrev pub RatesFit : List (IpAddr × ClientStats) → Type 0
RatesFit [] = Unit
RatesFit ((ip, s) ∷ stats) = (s.rx_bps + s.tx_bps < 2 ^ 64) × RatesFit stats

views-Fits :
    (names : NameTable) (stats : List (IpAddr × ClientStats))
    → RatesFit stats
    → AllOf rate_sum Fits (map (view_of names) stats)
unfolding view_of
views-Fits names [] h = tt
views-Fits names ((ip, s) ∷ stats) h = (h.0, views-Fits names stats h.1)

AllAtMost-busy :
    (b : ℕ) (xs : List ClientView)
    → AllOf rate_sum Fits xs
    → AllAtMost rate_sum b xs
    → AllAtMost busy b xs
AllAtMost-busy b [] h p = tt
AllAtMost-busy b (x ∷ xs) h p = (omega arith, AllAtMost-busy b xs h.1 p.1)

IsFalling-busy :
    (xs : List ClientView) → AllOf rate_sum Fits xs → IsFalling rate_sum xs → IsFalling busy xs
IsFalling-busy [] h p = tt
IsFalling-busy (x ∷ xs) h p =
    let same : rate_sum x ≡ busy x = omega arith in
    (AllAtMost-busy (busy x) xs h.1 (rw (sym same) p.0), IsFalling-busy xs h.1 p.1)

-- Where the rates of every client add up to a `u64`, a snapshot holds the view of every entry once,
-- in falling order of the two rates together.
pub build_snapshot-IsFalling :
    (stats : List (IpAddr × ClientStats)) (names : NameTable)
    → RatesFit stats
    → Perm (build_snapshot stats names) (map (view_of names) stats)
      × IsFalling busy (build_snapshot stats names)
unfolding build_snapshot
build_snapshot-IsFalling stats names h =
    let views = map (view_of names) stats in
    (
      sort_desc-perm rate_sum views,
      IsFalling-busy (Sort.sort_desc rate_sum views)
          (sort_desc-AllOf rate_sum Fits views (views-Fits names stats h))
          (sort_desc-IsFalling rate_sum views),
    )
