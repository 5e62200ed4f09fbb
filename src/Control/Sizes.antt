-- ===== src/Control/Sizes.antt =====
-- The sizes of answers.
use luci_app_overwatch.Base.{
  ℕ, suc, min, sym, ◌≤◌, ◌≡◌, ap, ◌∙◌, List, [], ◌∷◌, Option, none, some, arith, length, leb, ltb,
  Option-cases, Bool-cases, ◌==◌, inl, inr, if◌then◌else◌, length-map, ◌||◌, take, length-take,
}
use luci_app_overwatch.Base.Float.{F64}
use luci_app_overwatch.Base.Int.{pos, of_bits, bits}
use luci_app_overwatch.Base.Outcome.{Outcome, Gives, of_ite}
use luci_app_overwatch.Base.Sort.{sort_desc}
use luci_app_overwatch.Base.Text.{Str, Str-discrete, text}
use luci_app_overwatch.Api.{client_api, api_point}
use luci_app_overwatch.Api.Summary.{summary-top}
use luci_app_overwatch.Control.{
  Shared, Json, Reply, clients, report, points, domains, domains_of, tier_of, top_n_of,
  max_points_of, limit_of, history, history_or_error, top_domains, dispatch, client_of, from_of,
  to_of,
}
use luci_app_overwatch.Control.Refused.{asked_series, IsServable}
use luci_app_overwatch.Db.{int, real}
use luci_app_overwatch.Db.Query.{
  Sums, rank, limit_rows, domain_rows, domain_sums, top_rows, dns_top_rows, dns_top,
}
use luci_app_overwatch.Downsample.Length.{length-lttb}
use luci_app_overwatch.History.{HistTier, series}
use mathlib.Core.Option.{some_inj}

length-domain_rows :
    (gs : Sums) (out : List (Str × ℕ)) → domain_rows gs ≡ some out → length out ≡ length gs
unfolding domain_rows
length-domain_rows [] out e = ap length (some_inj.0 (sym e))
length-domain_rows ((d, int n) ∷ gs) out e = elim (Option-cases (domain_rows gs)) [
  | inl q ↦ cc (rw (q, domain_rows) at e)
  | inr (rest, q) ↦
      let e' : some ((d, bits n) ∷ rest) ≡ some out = rw (q, domain_rows) at e in
      ap length (some_inj.0 (sym e')) ∙ ap suc (length-domain_rows gs rest q)
]
length-domain_rows ((d, real) ∷ gs) out e = cc

short_or_none :
    (limit : ℕ) (o : Option (List (Str × ℕ))) (out : List (Str × ℕ))
    → (o ≡ some out → length out ≤ limit)
    → (if limit == 0 then some [] else o) ≡ some out
    → length out ≤ limit
short_or_none limit o out h e = elim (Bool-cases (limit == 0)) [
  | inl z ↦
      let empty : some [] ≡ some out = rw z at e in omega (arith, ap length (some_inj.0 empty))
  | inr nz ↦ h (rw nz at e)
]

module _ (float : F64) (json : Json) (cause : Str) where
  open json use {Value}

  -- How many points a series is cut to: fewer than 3 are not cut to.
  abbrev pub cut_to : ℕ → ℕ → ℕ
  cut_to max_points n = if ltb max_points 3 || leb n max_points then n else max_points

  -- How large an answer is: as many clients as there are, `top_n` talkers or all clients, `limit`
  -- domains at most, and the points of the series of the tier that is asked for, cut to `max_points`.
  abbrev pub IsSized : Shared → Value → Reply → Type 0
  IsSized shared params (clients cs) = length cs ≡ length shared.clients
  IsSized shared params (report r) =
      length r.top ≡ min (top_n_of float json cause params) (length shared.clients)
  IsSized shared params (points ps) =
      (t : HistTier) × (tier_of float json cause params ≡ some t)
      × (length ps
          ≡ cut_to (max_points_of float json cause params)
              (length (asked_series float json cause shared params t)))
  IsSized shared params (domains ds) = length ds ≤ limit_of float json cause shared params
  IsSized shared params _ = Unit

  history-IsSized :
      (shared : Shared) (params : Value) (t : HistTier)
      → tier_of float json cause params ≡ some t
      → IsServable float json cause shared params
      → Gives (IsSized shared params) (history float json cause shared params t)
  unfolding history series
  history-IsSized shared params t tier ok =
      let (out, e, n) =
        length-lttb float (asked_series float json cause shared params t)
          (max_points_of float json cause params) (ok t) in
      rw e (t, tier, length-map out api_point ∙ n)

  top_rows_short :
      (limit : ℕ) (gs : Option Sums) (out : List (Str × ℕ))
      → limit ≤ 10000
      → top_rows limit gs ≡ some out
      → length out ≤ limit
  unfolding top_rows
  top_rows_short limit none out h e = cc
  top_rows_short limit (some gs) out h e =
      let plain : of_bits limit ≡ pos limit = ground arith in
      let rows : domain_rows (take limit (sort_desc rank gs)) ≡ some out =
        ap (λ o. domain_rows (limit_rows o (sort_desc rank gs))) (sym plain) ∙ e in
      omega (
        arith,
        length-domain_rows (take limit (sort_desc rank gs)) out rows,
        length-take limit (sort_desc rank gs),
      )

  domains-IsSized :
      (shared : Shared) (params : Value)
      → IsSized shared params (domains_of cause (top_domains float json cause shared params))
  unfolding dns_top dns_top_rows
  domains-IsSized shared params = elim (Option-cases (top_domains float json cause shared params)) [
    | inl e ↦ rw e tt
    | inr (out, e) ↦
        let short : length out ≤ limit_of float json cause shared params =
          short_or_none (limit_of float json cause shared params) _ out
            (top_rows_short (limit_of float json cause shared params)
              (domain_sums (client_of float json cause params) (from_of float json cause params)
                (to_of float json cause params) [] shared.store.dns_counts_day)
              out (omega arith))
            e in
        rw e short
  ]

  tier-IsSized :
      (shared : Shared) (params : Value)
      → IsServable float json cause shared params
      → Gives
          (IsSized shared params)
          (history_or_error float json cause shared params (tier_of float json cause params))
  tier-IsSized shared params ok = elim (Option-cases (tier_of float json cause params)) [
    | inl e ↦ rw e tt
    | inr (t, e) ↦ rw e (history-IsSized shared params t e ok)
  ]

  -- How long the answer of each request is, where the series that it may ask for can be cut: the list
  -- of clients has all of them; the top list `top_n` entries, or all clients where there are fewer;
  -- the list of domains `limit` at most; a history all points of the series, or `max_points` where
  -- there are more and `max_points` is 3 at least (a smaller one cuts nothing). Whatever is asked for,
  -- `top_n` and `limit` are 10000 at most and `max_points` is 100000 at most.
  pub dispatch-IsSized :
      (shared : Shared) (method : Str) (params : Value)
      → IsServable float json cause shared params
      → Gives (IsSized shared params) (dispatch float json cause shared method params)
        × (top_n_of float json cause params ≤ 10000)
        × (limit_of float json cause shared params ≤ 10000)
        × (max_points_of float json cause params ≤ 100000)
  unfolding dispatch
  dispatch-IsSized shared method params ok =
      let Sized : Outcome Reply → Type 0 = Gives (IsSized shared params) in
      (
        of_ite Sized (Str-discrete method (text "clients")) _ _
            (λ _. length-map shared.clients client_api)
            λ _.
              of_ite Sized (Str-discrete method (text "status")) _ _ (λ _. tt)
                λ _.
                  of_ite Sized (Str-discrete method (text "summary")) _ _
                    (λ _. (summary-top shared.clients (top_n_of float json cause params)).0)
                    λ _.
                      of_ite Sized (Str-discrete method (text "history")) _ _
                        (λ _. tier-IsSized shared params ok)
                        λ _.
                          of_ite Sized (Str-discrete method (text "dns_top")) _ _
                            (λ _. domains-IsSized shared params) (λ _. tt),
        omega arith,
        omega arith,
        omega arith,
      )
