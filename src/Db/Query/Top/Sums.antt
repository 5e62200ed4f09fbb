-- ===== src/Db/Query/Top/Sums.antt =====
-- The sums by domain of counts that are numbers of queries.
use luci_app_overwatch.Base.{
  ℕ, ◌+◌, ◌^◌, ◌<◌, ◌≤◌, ◌≡◌, refl, sym, ap, ◌∙◌, ite, if_pos, if_neg, List, [], ◌∷◌, map, Option,
  none, some, if◌then◌else◌, arith, Bool-cases, inl, inr,
}
use luci_app_overwatch.Base.Int.{ℤ, pos, ◌+ℤ◌}
use luci_app_overwatch.Base.Maps
use luci_app_overwatch.Base.Text.{Str, Str-discrete}
use luci_app_overwatch.Db.{DnsKey, Cell, int, checked_add}
use luci_app_overwatch.Db.Query.{Sums, add_to_domain, selected, domain_sums}
use mathlib.Core.Option

-- Counts of queries, and the rows that hold them.
abbrev pub Counts : Type 0
Counts = List (DnsKey × ℕ)

abbrev pub cells : Counts → List (DnsKey × Cell)
cells [] = []
cells ((k, n) ∷ rows) = (k, int (pos n)) ∷ cells rows

abbrev pub sum_counts : Counts → ℕ
sum_counts [] = 0
sum_counts ((k, n) ∷ rows) = n + sum_counts rows

-- Domains with their numbers of queries.
abbrev pub Totals : Type 0
Totals = List (Str × ℕ)

abbrev pub as_sum : Str × ℕ → Str × Cell
as_sum (d, n) = (d, int (pos n))

abbrev pub as_sums : Totals → Sums
as_sums = map as_sum

abbrev pub sum_totals : Totals → ℕ
sum_totals [] = 0
sum_totals ((d, n) ∷ gs) = n + sum_totals gs

abbrev pub plus : ℕ → Option ℕ → ℕ
plus n o = Option.get_or o 0 + n

-- The numbers of queries by domain.
abbrev pub sum_all : Option Str → ℤ → ℤ → Totals → Counts → Totals
sum_all client from to gs [] = gs
sum_all client from to gs (((day, mac, d), n) ∷ rows) =
    sum_all client from to
      (if selected client from to (day, mac, d) then Maps.upsert Str-discrete d (plus n) gs else gs)
      rows

add_to_domain_lem :
    (d : Str) (n : ℕ) (gs : Totals)
    → sum_totals gs + n < 2 ^ 63
    → add_to_domain d (int (pos n)) (as_sums gs)
      ≡ some (as_sums (Maps.upsert Str-discrete d (plus n) gs))
unfolding checked_add ◌+ℤ◌
add_to_domain_lem d n [] h = ap (λ (m : ℕ). some ((d, int (pos m)) ∷ [])) (omega arith)
add_to_domain_lem d n ((e, m) ∷ gs) h = elim (Str-discrete e d) [
  | yes p ↦ rw (if_pos (Str-discrete e d) p, if_pos (Str-discrete e d) p) (ground arith)
  | no np ↦
      rw
        (
          if_neg (Str-discrete e d) np,
          if_neg (Str-discrete e d) np,
          add_to_domain_lem d n gs (omega arith),
        )
        refl
]

sum_totals-upsert :
    (d : Str) (n : ℕ) (gs : Totals)
    → sum_totals (Maps.upsert Str-discrete d (plus n) gs) ≡ sum_totals gs + n
sum_totals-upsert d n [] = omega arith
sum_totals-upsert d n ((e, m) ∷ gs) = elim (Str-discrete e d) [
  | yes p ↦ rw (if_pos (Str-discrete e d) p) (omega arith)
  | no np ↦ rw (if_neg (Str-discrete e d) np) (omega (arith, sum_totals-upsert d n gs))
]

-- The total of a domain: none without a row for it.
abbrev pub plus_total : Option ℕ → Option ℕ → Option ℕ
plus_total none o = o
plus_total (some a) none = some a
plus_total (some a) (some b) = some (a + b)

plus_total-none : (o : Option ℕ) → plus_total o none ≡ o
plus_total-none none = refl
plus_total-none (some a) = refl

plus_total_more :
    (o : Option ℕ) (n : ℕ) (r : Option ℕ)
    → plus_total (some (plus n o)) r ≡ plus_total o (plus_total (some n) r)
plus_total_more none n none = ap some (omega arith)
plus_total_more none n (some b) = ap (λ (m : ℕ). some (m + b)) (omega arith)
plus_total_more (some a) n none = refl
plus_total_more (some a) n (some b) = ap some (omega arith)

-- How often a domain is asked for in the selected rows: none, if no row is about it.
abbrev pub asked : Option Str → ℤ → ℤ → Str → Counts → Option ℕ
asked client from to d [] = none
asked client from to d (((day, mac, e), n) ∷ rows) =
    if selected client from to (day, mac, e)
    then ite (Str-discrete e d) (plus_total (some n) (asked client from to d rows))
        (asked client from to d rows)
    else asked client from to d rows

module _ (client : Option Str) (from to : ℤ) where
  pub domain_sums_lem :
      (gs : Totals) (rows : Counts)
      → sum_totals gs + sum_counts rows < 2 ^ 63
      → domain_sums client from to (as_sums gs) (cells rows)
        ≡ some (as_sums (sum_all client from to gs rows))
  unfolding domain_sums
  domain_sums_lem gs [] h = refl
  domain_sums_lem gs (((day, mac, d), n) ∷ rows) h =
      elim (Bool-cases (selected client from to (day, mac, d))) [
        | inl b ↦
            let all = sum_totals-upsert d n gs in
            rw (b, add_to_domain_lem d n gs (omega arith))
              (domain_sums_lem (Maps.upsert Str-discrete d (plus n) gs) rows (omega (arith, all)))
        | inr b ↦ rw b (domain_sums_lem gs rows (omega arith))
      ]

  pub sum_all-HasKeysOnce :
      (gs : Totals) (rows : Counts)
      → Maps.HasKeysOnce Str-discrete gs
      → Maps.HasKeysOnce Str-discrete (sum_all client from to gs rows)
  sum_all-HasKeysOnce gs [] h = h
  sum_all-HasKeysOnce gs (((day, mac, d), n) ∷ rows) h =
      elim (Bool-cases (selected client from to (day, mac, d))) [
        | inl b ↦ rw b (
            sum_all-HasKeysOnce (Maps.upsert Str-discrete d (plus n) gs) rows
              (Maps.upsert-HasKeysOnce Str-discrete d (plus n) gs h))
        | inr b ↦ rw b (sum_all-HasKeysOnce gs rows h)
      ]

  pub sum_totals-sum_all :
      (gs : Totals) (rows : Counts)
      → sum_totals (sum_all client from to gs rows) ≤ sum_totals gs + sum_counts rows
  sum_totals-sum_all gs [] = omega arith
  sum_totals-sum_all gs (((day, mac, d), n) ∷ rows) =
      elim (Bool-cases (selected client from to (day, mac, d))) [
        | inl b ↦ rw b (
            omega (
              arith,
              sum_totals-upsert d n gs,
              sum_totals-sum_all (Maps.upsert Str-discrete d (plus n) gs) rows,
            ))
        | inr b ↦ rw b (omega (arith, sum_totals-sum_all gs rows))
      ]

  pub lookup-sum_all :
      (d : Str) (gs : Totals) (rows : Counts)
      → Maps.lookup Str-discrete d (sum_all client from to gs rows)
        ≡ plus_total (Maps.lookup Str-discrete d gs) (asked client from to d rows)
  lookup-sum_all d gs [] = sym (plus_total-none (Maps.lookup Str-discrete d gs))
  lookup-sum_all d gs (((day, mac, e), n) ∷ rows) =
      let rest = asked client from to d rows in
      elim (Bool-cases (selected client from to (day, mac, e))) [
        | inl b ↦ rw b (
            lookup-sum_all d (Maps.upsert Str-discrete e (plus n) gs) rows
            ∙ elim (Str-discrete e d) [
              | yes p ↦
                  ap (λ o. plus_total o rest) (Maps.lookup-upsert_eq Str-discrete e d (plus n) gs p)
                  ∙ plus_total_more (Maps.lookup Str-discrete d gs) n rest
                  ∙ ap (plus_total (Maps.lookup Str-discrete d gs))
                      (sym (if_pos (Str-discrete e d) p (plus_total (some n) rest) rest))
              | no np ↦
                  ap (λ o. plus_total o rest)
                    (Maps.lookup-upsert_ne Str-discrete e d (plus n) gs np)
                  ∙ ap (plus_total (Maps.lookup Str-discrete d gs))
                      (sym (if_neg (Str-discrete e d) np (plus_total (some n) rest) rest))
            ])
        | inr b ↦ rw b (lookup-sum_all d gs rows)
      ]
