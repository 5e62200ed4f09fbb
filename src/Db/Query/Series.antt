-- ===== src/Db/Query/Series.antt =====
-- The series of one client out of a table, and what inserting samples makes of it.
use luci_app_overwatch.Base.{
  ◌≡◌, ◌≢◌, refl, sym, ap, ap₂, subst, ◌∙◌, true, false, ◌&&◌, ite, if_pos, if_neg, List, [], ◌∷◌,
  Option, none, some, if◌then◌else◌, arith, ltb→lt, Bool-cases, inl, inr,
}
use luci_app_overwatch.Base.Int.{ℤ, pos_part, neg_part, ◌<ℤ◌, ltb_ℤ, ℤ-discrete}
use luci_app_overwatch.Base.Maps
use luci_app_overwatch.Base.Text.{Str, Str-discrete}
use luci_app_overwatch.Db.{Key, Key-discrete, Traffic, Table}
use luci_app_overwatch.Db.Query.{row_to_sample, between, is_client, insert_by_ts, client_rows}
use luci_app_overwatch.History.Total.{point_at, AllAfter, IsRising, AllAfter-trans, after}
use luci_app_overwatch.Sample.{Sample}
use mathlib.Core.Option

AllAfter-insert_by_ts :
    (t : ℤ) (s : Sample) (es : List Sample)
    → t <ℤ s.ts
    → AllAfter t es
    → AllAfter t (insert_by_ts s es)
AllAfter-insert_by_ts t s [] h k = (h, tt)
AllAfter-insert_by_ts t s (e ∷ es) h k = elim (Bool-cases (ltb_ℤ e.ts s.ts)) [
  | inl q ↦ rw q (k.0, AllAfter-insert_by_ts t s es h k.1)
  | inr q ↦ rw q (h, k)
]

point_at-insert_by_ts :
    (t : ℤ) (s : Sample) (es : List Sample)
    → point_at t (insert_by_ts s es) ≡ ite (ℤ-discrete s.ts t) (some s) (point_at t es)
point_at-insert_by_ts t s [] = refl
point_at-insert_by_ts t s (e ∷ es) = elim (Bool-cases (ltb_ℤ e.ts s.ts)) [
  | inl q ↦
      let lt : e.ts <ℤ s.ts = ltb→lt _ _ q in
      rw q (elim (ℤ-discrete s.ts t) [
        | yes p ↦
            let ne : e.ts ≢ t =
              λ r. absurd (omega (arith, lt, ap pos_part (r ∙ sym p), ap neg_part (r ∙ sym p))) in
            rw (if_neg (ℤ-discrete e.ts t) ne, point_at-insert_by_ts t s es)
              (if_pos (ℤ-discrete s.ts t) p _ _ ∙ sym (if_pos (ℤ-discrete s.ts t) p _ _))
        | no np ↦
            rw
              (
                point_at-insert_by_ts t s es,
                if_neg (ℤ-discrete s.ts t) np,
                if_neg (ℤ-discrete s.ts t) np,
              )
              refl
      ])
  | inr q ↦ rw q refl
]

IsRising-insert_by_ts :
    (s : Sample) (es : List Sample)
    → IsRising es
    → point_at s.ts es ≡ none
    → IsRising (insert_by_ts s es)
IsRising-insert_by_ts s [] h f = (tt, tt)
IsRising-insert_by_ts s (e ∷ es) h f = elim (ℤ-discrete e.ts s.ts) [
  | yes p ↦ absurd (cc (sym f ∙ if_pos (ℤ-discrete e.ts s.ts) p _ _))
  | no np ↦
      let f' : point_at s.ts es ≡ none = sym (if_neg (ℤ-discrete e.ts s.ts) np _ _) ∙ f in
      elim (Bool-cases (ltb_ℤ e.ts s.ts)) [
        | inl q ↦
            let lt : e.ts <ℤ s.ts = ltb→lt _ _ q in
            rw q (AllAfter-insert_by_ts e.ts s es lt h.0, IsRising-insert_by_ts s es h.1 f')
        | inr q ↦
            let lt : s.ts <ℤ e.ts = after e s np q in
            rw q ((lt, AllAfter-trans s.ts e.ts es lt h.0), h)
      ]
]

-- The point that a table has for a client and a time.
abbrev pub row_at : ℤ → Option Traffic → Option Sample
row_at t o = Option.map (row_to_sample t) o

abbrev pub within : ℤ → ℤ → ℤ → Option Sample → Option Sample
within from to t o = if between from to t then o else none

is_client-eq : (m client : Str) → is_client m client ≡ true → client ≡ m
is_client-eq m client h = elim (Str-discrete client m) [
  | yes p ↦ p
  | no np ↦ absurd (cc (sym (if_neg (Str-discrete client m) np true false) ∙ h))
]

is_client_refl : (m client : Str) → client ≡ m → is_client m client ≡ true
is_client_refl m client p = if_pos (Str-discrete client m) p true false

abbrev key_at : ℤ → Str → Key
key_at ts client = (ts, client)

module _ (m : Str) (from to : ℤ) where
  -- A row of another client or another time does not touch the point.
  point_at-other :
      (t ts : ℤ) (client : Str) (v : Traffic) (es : List Sample)
      → key_at ts client ≢ key_at t m
      → point_at t (
          if is_client m client && between from to ts
          then insert_by_ts (row_to_sample ts v) es
          else es)
        ≡ point_at t es
  point_at-other t ts client v es ne = elim (Bool-cases (is_client m client)) [
    | inl c ↦
        let nt : ts ≢ t = λ p. ne (ap₂ key_at p (is_client-eq m client c)) in
        elim (Bool-cases (between from to ts)) [
          | inl b ↦
              rw (c, b)
                (point_at-insert_by_ts t (row_to_sample ts v) es ∙ if_neg (ℤ-discrete ts t) nt _ _)
          | inr b ↦ rw (c, b) refl
        ]
    | inr c ↦ rw c refl
  ]

  -- The row of the client and the time is the point, if the time is in the range.
  point_at-same :
      (t ts : ℤ) (client : Str) (v : Traffic) (es : List Sample)
      → key_at ts client ≡ key_at t m
      → (between from to t ≡ false → point_at t es ≡ none)
      → point_at t (
          if is_client m client && between from to ts
          then insert_by_ts (row_to_sample ts v) es
          else es)
        ≡ within from to t (some (row_to_sample t v))
  point_at-same t ts client v es e gone =
      let p : ts ≡ t = ap (λ (k : Key). k.0) e in
      let c : is_client m client ≡ true = is_client_refl m client (ap (λ (k : Key). k.1) e) in
      let same : between from to ts ≡ between from to t = ap (between from to) p in
      elim (Bool-cases (between from to t)) [
        | inl b ↦
            rw (c, same, b)
              (point_at-insert_by_ts t (row_to_sample ts v) es
                ∙ if_pos (ℤ-discrete ts t) p _ _
                ∙ ap (λ u. some (row_to_sample u v)) p)
        | inr b ↦ rw (c, same, b) (gone b)
      ]

  -- The point of the series at a time is the table's row, within the range.
  pub point_at-client_rows :
      (t : ℤ) (rows : Table)
      → Maps.HasKeysOnce Key-discrete rows
      → point_at t (client_rows m from to rows)
        ≡ within from to t (row_at t (Maps.lookup Key-discrete (t, m) rows))
  unfolding client_rows
  point_at-client_rows t [] h = elim (Bool-cases (between from to t)) [
    | inl b ↦ rw b refl
    | inr b ↦ rw b refl
  ]
  point_at-client_rows t (((ts, client), v) ∷ rows) h =
      let rest = point_at-client_rows t rows h.1 in
      elim (Key-discrete (ts, client) (t, m)) [
        | yes e ↦
            rw (if_pos (Key-discrete (ts, client) (t, m)) e)
              (point_at-same t ts client v (client_rows m from to rows) e (λ b. rest ∙ rw b refl))
        | no ne ↦
            rw (if_neg (Key-discrete (ts, client) (t, m)) ne)
              (point_at-other t ts client v (client_rows m from to rows) ne ∙ rest)
      ]

  pub client_rows-IsRising :
      (rows : Table) → Maps.HasKeysOnce Key-discrete rows → IsRising (client_rows m from to rows)
  unfolding client_rows
  client_rows-IsRising [] h = tt
  client_rows-IsRising (((ts, client), v) ∷ rows) h =
      let rest = client_rows-IsRising rows h.1 in
      elim (Bool-cases (is_client m client)) [
        | inl c ↦ elim (Bool-cases (between from to ts)) [
          | inl b ↦
              let free : Maps.lookup Key-discrete (ts, m) rows ≡ none =
                subst (λ n. Maps.lookup Key-discrete (ts, n) rows ≡ none) (is_client-eq m client c)
                  h.0 in
              let gone : point_at ts (client_rows m from to rows) ≡ none =
                point_at-client_rows ts rows h.1 ∙ rw (b, free) refl in
              rw (c, b)
                (IsRising-insert_by_ts (row_to_sample ts v) (client_rows m from to rows) rest gone)
          | inr b ↦ rw (c, b) rest
        ]
        | inr c ↦ rw c rest
      ]
