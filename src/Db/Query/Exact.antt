-- ===== src/Db/Query/Exact.antt =====
-- The sums of all clients against exact arithmetic.
use luci_app_overwatch.Base.{
  ℕ, zero, suc, ◌-◌, ◌^◌, ◌<◌, ◌≡◌, ◌⊎◌, refl, sym, ap, ap₂, ◌∙◌, Bool, true, false, ◌&&◌, List, [],
  ◌∷◌, Option, none, some, arith, length, take, Bool-cases, inl, inr, if◌then◌else◌,
}
use luci_app_overwatch.Base.Int.{ℤ, pos, negsuc, leb_ℤ, ◌+ℤ◌}
use luci_app_overwatch.Db.{Traffic, Table, checked_add, max_ℤ, with_sums, merge, sum_from}
use luci_app_overwatch.Db.Query.{between, sum_group, query_table}
use luci_app_overwatch.Db.Query.Groups.{traffic_at}
use luci_app_overwatch.Db.Query.Series.{row_at, within}
use luci_app_overwatch.Db.Query.Total.{HasNoSum, query_table-IsTotal}
use luci_app_overwatch.History.Total.{point_at, IsRising}
use luci_app_overwatch.Sample.{Sample}
use mathlib.Core.List.{foldl}

-- The range of an `i64`.
abbrev pub fits : ℤ → Bool
fits z = leb_ℤ (negsuc (2 ^ 63 - 1)) z && leb_ℤ z (pos (2 ^ 63 - 1))

-- A column added to `a`, and its largest number and `a`.
abbrev pub sum_to : ℤ → (Traffic → ℤ) → List Traffic → ℤ
sum_to a f ts = foldl (λ b t. b +ℤ f t) a ts

abbrev pub max_to : ℤ → (Traffic → ℤ) → List Traffic → ℤ
max_to a f ts = foldl (λ b t. max_ℤ b (f t)) a ts

abbrev pub exact : Traffic → List Traffic → Traffic
exact t ts = record {
  rx_bytes = sum_to t.rx_bytes (λ u. u.rx_bytes) ts;
  tx_bytes = sum_to t.tx_bytes (λ u. u.tx_bytes) ts;
  rx_peak = max_to t.rx_peak (λ u. u.rx_peak) ts;
  tx_peak = max_to t.tx_peak (λ u. u.tx_peak) ts;
  conns = max_to t.conns (λ u. u.conns) ts;
}

abbrev pub exact_of : List Traffic → Option Traffic
exact_of [] = none
exact_of (t ∷ ts) = some (exact t ts)

-- On the way through the rows, the sum leaves the range.
abbrev pub Leaves : ℤ → (Traffic → ℤ) → List Traffic → Type 0
Leaves a f ts = (k : ℕ) × (k < length ts) × (fits (sum_to a f (take (suc k) ts)) ≡ false)

-- Adding up one of the columns of bytes, row by row in this order, leaves the range of an `i64`.
abbrev pub Overflows : List Traffic → Type 0
Overflows [] = ⊥
Overflows (t ∷ ts) = Leaves t.rx_bytes (λ u. u.rx_bytes) ts ⊎ Leaves t.tx_bytes (λ u. u.tx_bytes) ts

checked_add-fits : (a b : ℤ) → checked_add a b ≡ (if fits (a +ℤ b) then some (a +ℤ b) else none)
unfolding checked_add
checked_add-fits a b = refl

checked_add_out : (a b : ℤ) → fits (a +ℤ b) ≡ false → checked_add a b ≡ none
checked_add_out a b h = checked_add-fits a b ∙ rw h refl

checked_add_in : (a b : ℤ) → fits (a +ℤ b) ≡ true → checked_add a b ≡ some (a +ℤ b)
checked_add_in a b h = checked_add-fits a b ∙ rw h refl

with_sums-none :
    (t u : Traffic) (o p : Option ℤ) → (o ≡ none) ⊎ (p ≡ none) → with_sums t u o p ≡ none
with_sums-none t u none p h = refl
with_sums-none t u (some a) none h = refl
with_sums-none t u (some a) (some b) (inl e) = cc e
with_sums-none t u (some a) (some b) (inr e) = cc e

merge_lost :
    (t u : Traffic)
    → (fits (t.rx_bytes +ℤ u.rx_bytes) ≡ false) ⊎ (fits (t.tx_bytes +ℤ u.tx_bytes) ≡ false)
    → merge t u ≡ none
unfolding merge
merge_lost t u (inl r) =
    with_sums-none t u (checked_add t.rx_bytes u.rx_bytes) (checked_add t.tx_bytes u.tx_bytes)
      (inl (checked_add_out t.rx_bytes u.rx_bytes r))
merge_lost t u (inr x) =
    with_sums-none t u (checked_add t.rx_bytes u.rx_bytes) (checked_add t.tx_bytes u.tx_bytes)
      (inr (checked_add_out t.tx_bytes u.tx_bytes x))

merge-exact :
    (t u : Traffic)
    → fits (t.rx_bytes +ℤ u.rx_bytes) ≡ true
    → fits (t.tx_bytes +ℤ u.tx_bytes) ≡ true
    → merge t u ≡ some (exact t (u ∷ []))
unfolding merge
merge-exact t u r x =
    ap₂ (with_sums t u) (checked_add_in t.rx_bytes u.rx_bytes r)
      (checked_add_in t.tx_bytes u.tx_bytes x)

sum_from_next :
    (t u v : Traffic) (ts : List Traffic) → merge t u ≡ some v → sum_from t (u ∷ ts) ≡ sum_from v ts
sum_from_next t u v ts e = rw (e, sum_from) refl

sum_from_lost : (t u : Traffic) (ts : List Traffic) → merge t u ≡ none → sum_from t (u ∷ ts) ≡ none
sum_from_lost t u ts e = rw (e, sum_from) refl

-- If the first sum is in the range, the sum leaves it later.
Leaves-later :
    (a : ℤ) (f : Traffic → ℤ) (u : Traffic) (ts : List Traffic)
    → fits (a +ℤ f u) ≡ true
    → Leaves a f (u ∷ ts)
    → Leaves (a +ℤ f u) f ts
Leaves-later a f u ts h (zero, less, out) = absurd (cc (sym h ∙ out))
Leaves-later a f u ts h (suc k, less, out) = (k, omega arith, out)

Leaves-cons :
    (a : ℤ) (f : Traffic → ℤ) (u : Traffic) (ts : List Traffic)
    → Leaves (a +ℤ f u) f ts
    → Leaves a f (u ∷ ts)
Leaves-cons a f u ts (k, less, out) = (suc k, omega arith, out)

-- Adding up gives the exact sums, or fails where a sum leaves the range on the way.
sum_from_lem :
    (ts : List Traffic) (t : Traffic)
    → ((sum_from t ts ≡ some (exact t ts)) × ¬ Overflows (t ∷ ts))
      ⊎ ((sum_from t ts ≡ none) × Overflows (t ∷ ts))
sum_from_lem [] t = inl (
  refl,
  λ o. elim o [
    | inl (k, less, out) ↦ absurd (omega arith)
    | inr (k, less, out) ↦ absurd (omega arith)
  ],
)
sum_from_lem (u ∷ ts) t = elim (Bool-cases (fits (t.rx_bytes +ℤ u.rx_bytes))) [
  | inr r ↦ inr (sum_from_lost t u ts (merge_lost t u (inl r)), inl (0, omega arith, r))
  | inl r ↦ elim (Bool-cases (fits (t.tx_bytes +ℤ u.tx_bytes))) [
    | inr x ↦ inr (sum_from_lost t u ts (merge_lost t u (inr x)), inr (0, omega arith, x))
    | inl x ↦ elim (sum_from_lem ts (exact t (u ∷ []))) [
      | inl (e, ne) ↦ inl (
        sum_from_next t u (exact t (u ∷ [])) ts (merge-exact t u r x) ∙ e,
        λ o. ne (elim o [
          | inl l ↦ inl (Leaves-later t.rx_bytes (λ w. w.rx_bytes) u ts r l)
          | inr l ↦ inr (Leaves-later t.tx_bytes (λ w. w.tx_bytes) u ts x l)
        ]),
      )
      | inr (e, o) ↦ inr (
        sum_from_next t u (exact t (u ∷ [])) ts (merge-exact t u r x) ∙ e,
        elim o [
          | inl l ↦ inl (Leaves-cons t.rx_bytes (λ w. w.rx_bytes) u ts l)
          | inr l ↦ inr (Leaves-cons t.tx_bytes (λ w. w.tx_bytes) u ts l)
        ],
      )
    ]
  ]
]

sum_group_lem :
    (vs : List Traffic)
    → ((sum_group vs ≡ exact_of vs) × ¬ Overflows vs) ⊎ (HasNoSum vs × Overflows vs)
sum_group_lem [] = inl (refl, λ o. o)
sum_group_lem (t ∷ ts) = elim (sum_from_lem ts t) [
  | inl (e, ne) ↦ inl (e, ne)
  | inr (e, o) ↦ inr ((λ q. cc q, e), o)
]

-- Where the rows have a sum, it is the exact one.
exact_lem : (vs : List Traffic) → ¬ HasNoSum vs → (sum_group vs ≡ exact_of vs) × ¬ Overflows vs
exact_lem vs h = elim (sum_group_lem vs) [ inl e ↦ e | inr o ↦ absurd (h o.0) ]

overflow_lem : (vs : List Traffic) → HasNoSum vs → Overflows vs
overflow_lem [] h = absurd (h.0 refl)
overflow_lem (t ∷ ts) h = elim (sum_from_lem ts t) [
  | inl (e, ne) ↦ absurd (cc (sym e ∙ h.1))
  | inr (e, o) ↦ o
]

-- The rows of every time in the range add up, and the points are their exact sums and maxima.
pub record IsExact (rows : Table) (from to : ℤ) (out : List Sample) : Type 0 where
  pub rising : IsRising out
  pub points : (t : ℤ) → point_at t out ≡ within from to t (row_at t (exact_of (traffic_at t rows)))
  pub no_overflow : (t : ℤ) → between from to t ≡ true → ¬ Overflows (traffic_at t rows)

exact_point :
    (rows : Table) (from to t : ℤ)
    → (between from to t ≡ true → ¬ HasNoSum (traffic_at t rows))
    → within from to t (row_at t (sum_group (traffic_at t rows)))
      ≡ within from to t (row_at t (exact_of (traffic_at t rows)))
exact_point rows from to t h = elim (Bool-cases (between from to t)) [
  | inl b ↦ rw b (ap (row_at t) (exact_lem (traffic_at t rows) (h b)).0)
  | inr b ↦ rw b refl
]

-- A query for all clients fails exactly if, for some time in the range, the running sum of one of the
-- columns of bytes leaves the range of an `i64`, where the rows of that time are added one by one in
-- the order of the table, even if a later row would bring the sum back. Otherwise its points rise
-- in time, and for every time in the range that has rows there is one with the exact sums of their
-- bytes and the maxima of their peaks and connections, read as the words of a sample.
pub query_table-IsExact :
    (rows : Table) (from to : ℤ)
    → ((out : List Sample) × (query_table rows none from to ≡ some out) × IsExact rows from to out)
      ⊎ ((query_table rows none from to ≡ none)
          × (t : ℤ) × (between from to t ≡ true)
          × Overflows (traffic_at t rows))
query_table-IsExact rows from to = elim (query_table-IsTotal rows from to) [
  | inl (out, e, total, sums) ↦ inl (
    out,
    e,
    record {
      rising = total.rising;
      points = λ t. total.points t ∙ exact_point rows from to t (sums t);
      no_overflow = λ t b. (exact_lem (traffic_at t rows) (sums t b)).1;
    },
  )
  | inr (e, t, b, o) ↦ inr (e, t, b, overflow_lem (traffic_at t rows) o)
]
