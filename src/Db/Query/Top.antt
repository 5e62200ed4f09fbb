-- ===== src/Db/Query/Top.antt =====
-- The most queried domains, from counts that are numbers of queries.
pub mod Sums
use luci_app_overwatch.Base.{
  ℕ, zero, suc, ◌+◌, ◌-◌, ◌%◌, ◌^◌, ◌<◌, ◌≡◌, refl, sym, ap, ◌∙◌, min, ◌==◌, Bool, true, false,
  ◌&&◌, ite, List, [], ◌∷◌, ◌++◌, map, Option, none, some, if◌then◌else◌, arith, length, take, drop,
  Bool-cases, inl, inr, ltb, take-append-drop, length-take, take-map,
}
use luci_app_overwatch.Base.Int.{ℤ, pos, of_bits, bits}
use luci_app_overwatch.Base.Maps
use luci_app_overwatch.Base.Sort.{
  map-sort_desc, sort_desc, IsFalling, AllOf, sort_desc-IsFalling, sort_desc-perm, sort_desc-AllOf,
  length-sort_desc,
}
use luci_app_overwatch.Base.Text.{Str, Str-discrete}
use luci_app_overwatch.Db.{DnsKey, Cell, int}
use luci_app_overwatch.Db.Query.{rank, limit_rows, domain_rows, top_rows, domain_sums, dns_top_rows}
use luci_app_overwatch.Db.Query.Top.Sums.{
  Counts, cells, Totals, as_sums, asked, sum_counts, sum_totals, sum_all, domain_sums_lem, as_sum,
  sum_all-HasKeysOnce, sum_totals-sum_all, lookup-sum_all,
}
use mathlib.Core.List.{Perm}
use mathlib.Core.Option

-- The number of a domain's queries.
abbrev pub times : Str × ℕ → ℕ
times e = e.1

as_sums-sort_desc : (gs : Totals) → sort_desc rank (as_sums gs) ≡ as_sums (sort_desc times gs)
as_sums-sort_desc gs = map-sort_desc times rank as_sum (λ x y. ground arith) gs

abbrev IsI64Count : Str × ℕ → Type 0
IsI64Count e = e.1 < 2 ^ 63

domain_rows-as_sums : (gs : Totals) → AllOf times IsI64Count gs → domain_rows (as_sums gs) ≡ some gs
unfolding domain_rows
domain_rows-as_sums [] h = refl
domain_rows-as_sums ((d, n) ∷ gs) h =
    let same : n % 2 ^ 64 ≡ n = omega (arith, h.0) in rw (domain_rows-as_sums gs h.1, same) refl

AllOf-take : (n : ℕ) (gs : Totals) → AllOf times IsI64Count gs → AllOf times IsI64Count (take n gs)
AllOf-take zero gs h = tt
AllOf-take (suc n) [] h = tt
AllOf-take (suc n) (g ∷ gs) h = (h.0, AllOf-take n gs h.1)

AllOf-sum_totals : (gs : Totals) → sum_totals gs < 2 ^ 63 → AllOf times IsI64Count gs
AllOf-sum_totals [] h = tt
AllOf-sum_totals ((d, n) ∷ gs) h = (omega arith, AllOf-sum_totals gs (omega arith))

-- The rows of a query are the first ones of all totals, sorted.
top_rows-as_sums :
    (limit : ℕ) (gs : Totals)
    → limit < 2 ^ 63
    → sum_totals gs < 2 ^ 63
    → top_rows limit (some (as_sums gs)) ≡ some (take limit (sort_desc times gs))
unfolding top_rows domain_rows
top_rows-as_sums limit gs hl h =
    let all : AllOf times IsI64Count (sort_desc times gs) =
      sort_desc-AllOf times IsI64Count gs (AllOf-sum_totals gs h) in
    let plain : of_bits limit ≡ pos limit = ground arith in
    ap (λ o. domain_rows (limit_rows o (sort_desc rank (as_sums gs)))) plain
    ∙ ap (λ xs. domain_rows (take limit xs)) (as_sums-sort_desc gs)
    ∙ ap domain_rows (take-map limit as_sum (sort_desc times gs))
    ∙ domain_rows-as_sums (take limit (sort_desc times gs))
        (AllOf-take limit (sort_desc times gs) all)

-- A limit of 0 takes nothing of them.
none_of :
    (limit : ℕ) (gs : Totals) (o : Option Totals)
    → o ≡ some (take limit gs)
    → (if limit == 0 then some [] else o) ≡ some (take limit gs)
none_of zero gs o e = refl
none_of (suc n) gs o e = ground arith

-- All domains with their totals, each once.
pub record AreTotals (client : Option Str) (from to : ℤ) (rows : Counts) (all : Totals)
    : Type 0 where
  pub once : Maps.HasKeysOnce Str-discrete all
  pub number : (d : Str) → Maps.lookup Str-discrete d all ≡ asked client from to d rows

-- From counts that add up to less than 2^63, a query with a limit below 2^63 answers with at most so
-- many domains, the most queried first: with the domains left out they are all the domains of the
-- selected rows, each once and with the sum of its counts, in falling order of it.
pub dns_top_lem :
    (rows : Counts) (client : Option Str) (from to : ℤ) (limit : ℕ)
    → sum_counts rows < 2 ^ 63
    → limit < 2 ^ 63
    → (out rest all : Totals) × (dns_top_rows (cells rows) client from to limit ≡ some out)
      × (length out ≡ min limit (length all))
      × Perm (out ++ rest) all
      × IsFalling times (out ++ rest)
      × AreTotals client from to rows all
unfolding dns_top_rows
dns_top_lem rows client from to limit h hl =
    let all : Totals = sum_all client from to [] rows in
    let sorted : Totals = sort_desc times all in
    let whole = take-append-drop limit sorted in
    let summed =
      ap (top_rows limit) (domain_sums_lem client from to [] rows (omega arith))
      ∙ top_rows-as_sums limit all hl (omega (arith, sum_totals-sum_all client from to [] rows)) in
    let cut : dns_top_rows (cells rows) client from to limit ≡ some (take limit sorted) =
      none_of limit sorted _ summed in
    (
      take limit sorted,
      drop limit sorted,
      all,
      cut,
      omega (arith, length-take limit sorted, length-sort_desc times all),
      rw whole (sort_desc-perm times all),
      rw whole (sort_desc-IsFalling times all),
      record {
        once = sum_all-HasKeysOnce client from to [] rows tt;
        number = λ d. lookup-sum_all client from to d [] rows;
      },
    )
