-- ===== src/Db/Prune.antt =====
-- What pruning leaves.
use luci_app_overwatch.Base.{
  ◌≡◌, refl, sym, ap, ◌∙◌, subst, true, false, if_pos, if_neg, List, [], ◌∷◌, Option, none, some,
  if◌then◌else◌, Bool-cases, inl, inr,
}
use luci_app_overwatch.Base.Maps
use luci_app_overwatch.Base.Int.{ℤ, sub_i64, ltb_ℤ}
use luci_app_overwatch.Config.{Retention}
use luci_app_overwatch.Db.{
  Key, Key-discrete, Tables, DnsKey, DnsKey-discrete, delete_before, sample_time, dns_time, prune,
}
use luci_app_overwatch.Db.Rollup.{get}

-- A row that is old enough to go, or one that stays.
abbrev pub kept {ℓ} : {V : Type ℓ} → ℤ → ℤ → Option V → Option V
kept limit ts o = if ltb_ℤ ts limit then none else o

module _ {K V : Type 0} (dec : Discrete K) (time : K → ℤ) where
  pub lookup-delete_before :
      (limit : ℤ) (k : K) (rows : List (K × V))
      → Maps.lookup dec k (delete_before time limit rows)
        ≡ kept limit (time k) (Maps.lookup dec k rows)
  lookup-delete_before limit k [] = elim (Bool-cases (ltb_ℤ (time k) limit)) [
    | inl b ↦ rw b refl
    | inr b ↦ rw b refl
  ]
  lookup-delete_before limit k ((j, v) ∷ rows) = elim (dec j k) [
    | yes q ↦ elim (Bool-cases (ltb_ℤ (time j) limit)) [
      | inl b ↦
          let b' : ltb_ℤ (time k) limit ≡ true = subst (λ i. ltb_ℤ (time i) limit ≡ true) q b in
          rw b (lookup-delete_before limit k rows ∙ rw b' refl)
      | inr b ↦
          let b' : ltb_ℤ (time k) limit ≡ false = subst (λ i. ltb_ℤ (time i) limit ≡ false) q b in
          rw (b, b') (if_pos (dec j k) q _ _ ∙ sym (if_pos (dec j k) q _ _))
    ]
    | no ne ↦ elim (Bool-cases (ltb_ℤ (time j) limit)) [
      | inl b ↦ rw b (
          lookup-delete_before limit k rows
          ∙ ap (kept limit (time k)) (sym (if_neg (dec j k) ne (some v) (Maps.lookup dec k rows))))
      | inr b ↦ rw b (
          if_neg (dec j k) ne _ _
          ∙ lookup-delete_before limit k rows
          ∙ ap (kept limit (time k)) (sym (if_neg (dec j k) ne (some v) (Maps.lookup dec k rows))))
    ]
  ]

-- Pruning removes from the tables of samples and of DNS counts exactly the rows that are older than
-- the table's retention, counted back from now, and leaves the others as they are.
pub lookup-prune :
    (t : Tables) (now : ℤ) (r : Retention) (k : Key) (q : DnsKey)
    → let p = prune t now r in
      (get k p.samples_min ≡ kept (sub_i64 now r.min_secs) k.0 (get k t.samples_min))
      × (get k p.samples_hour ≡ kept (sub_i64 now r.hour_secs) k.0 (get k t.samples_hour))
      × (get k p.samples_day ≡ kept (sub_i64 now r.day_secs) k.0 (get k t.samples_day))
      × (Maps.lookup DnsKey-discrete q p.dns_counts_day
          ≡ kept (sub_i64 now r.dns_days) q.0 (Maps.lookup DnsKey-discrete q t.dns_counts_day))
unfolding prune
lookup-prune t now r k q = (
  lookup-delete_before Key-discrete sample_time (sub_i64 now r.min_secs) k t.samples_min,
  lookup-delete_before Key-discrete sample_time (sub_i64 now r.hour_secs) k t.samples_hour,
  lookup-delete_before Key-discrete sample_time (sub_i64 now r.day_secs) k t.samples_day,
  lookup-delete_before DnsKey-discrete dns_time (sub_i64 now r.dns_days) q t.dns_counts_day,
)
