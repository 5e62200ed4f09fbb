-- ===== src/Api/Summary.antt =====
-- The summary's totals and its top list.
use luci_app_overwatch.Base.{
  ℕ, ◌+◌, ◌≤◌, ◌≡◌, min, List, [], ◌∷◌, ◌++◌, map, arith, length, drop, length-take, length-map,
  take-append-drop,
}
use luci_app_overwatch.Base.Sort.{
  IsFalling, sort_desc, sort_desc-IsFalling, sort_desc-perm, length-sort_desc,
}
use luci_app_overwatch.Base.Words.{saturating_add, u64_max}
use luci_app_overwatch.Api.{TopTalker, talker, moved, summary}
use luci_app_overwatch.Snapshot.View.{ClientView}
use mathlib.Core.List.{foldl, Perm}

abbrev pub sum_of : (ClientView → ℕ) → List ClientView → ℕ
sum_of f [] = 0
sum_of f (c ∷ cs) = f c + sum_of f cs

fold-sum :
    (f : ClientView → ℕ) (cs : List ClientView) (n : ℕ)
    → n ≤ u64_max
    → foldl saturating_add n (map f cs) ≡ min (n + sum_of f cs) u64_max
fold-sum f [] n h = omega arith
fold-sum f (c ∷ cs) n h = omega (arith, fold-sum f cs (saturating_add n (f c)) (omega arith))

-- The totals of a summary are the sums of the clients' totals, cut off at the largest `u64`.
summary-totals :
    (clients : List ClientView) (top_n : ℕ)
    → ((summary clients top_n).total_rx_bytes ≡ min (sum_of (λ c. c.rx_total) clients) u64_max)
      × ((summary clients top_n).total_tx_bytes ≡ min (sum_of (λ c. c.tx_total) clients) u64_max)
unfolding summary
summary-totals clients top_n = (
  omega (arith, fold-sum (λ c. c.rx_total) clients 0 (omega arith)),
  omega (arith, fold-sum (λ c. c.tx_total) clients 0 (omega arith)),
)

-- The top list has `top_n` entries, or one for every client where there are fewer; with the entries
-- that are left out it is the list of all clients, in falling order of the bytes moved both ways
-- (cut off at the largest `u64`).
pub summary-top :
    (clients : List ClientView) (top_n : ℕ)
    → (length (summary clients top_n).top ≡ min top_n (length clients))
      × ((rest : List TopTalker) × Perm ((summary clients top_n).top ++ rest) (map talker clients)
          × IsFalling moved ((summary clients top_n).top ++ rest))
unfolding summary
summary-top clients top_n =
    let all = sort_desc moved (map talker clients) in
    let whole = take-append-drop top_n all in
    (
      omega (
        arith,
        length-take top_n all,
        length-sort_desc moved (map talker clients),
        length-map clients talker,
      ),
      (
        drop top_n all,
        rw whole (sort_desc-perm moved (map talker clients)),
        rw whole (sort_desc-IsFalling moved (map talker clients)),
      ),
    )
