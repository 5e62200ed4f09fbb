-- ===== src/Db/Counts.antt =====
-- The table of DNS counts.
use luci_app_overwatch.Base.{
  ℕ, ◌+◌, ◌^◌, ◌<◌, ◌≡◌, ap, ◌∙◌, ite, if_pos, if_neg, List, [], ◌∷◌, Option, none, some, arith,
}
use luci_app_overwatch.Base.Int.{ℤ, pos, of_bits, ◌+ℤ◌}
use luci_app_overwatch.Base.Maps
use luci_app_overwatch.Base.Text.{Str}
use luci_app_overwatch.Db.{
  Cell, int, real, DnsKey, DnsKey-discrete, checked_add, counted_up, count_all,
}
use mathlib.Core.Option

abbrev pub cell_at : DnsKey → List (DnsKey × Cell) → Cell
cell_at k rows = Option.get_or (Maps.lookup DnsKey-discrete k rows) (int (pos 0))

-- What a batch of counts holds for a key.
abbrev pub amount : ℤ → DnsKey → List (Str × Str × ℕ) → ℕ
amount ts_day k [] = 0
amount ts_day k ((mac, domain, count) ∷ counts) =
    ite (DnsKey-discrete (ts_day, mac, domain) k) count 0 + amount ts_day k counts

counted_up_lem :
    (o : Option Cell) (n c : ℕ)
    → Option.get_or o (int (pos 0)) ≡ int (pos n)
    → n + c < 2 ^ 63
    → counted_up (int (of_bits c)) o ≡ int (pos (n + c))
unfolding checked_add ◌+ℤ◌
counted_up_lem none n c e h = ground arith
counted_up_lem (some (int a)) n c e h = ground arith
counted_up_lem (some real) n c e h = cc

-- A batch adds to the count of every key, 0 if there is none, what it holds for the key, as often as
-- the key comes, as long as the count before is not negative and the sum is an `i64`.
pub cell_at-count_all :
    (ts_day : ℤ) (k : DnsKey) (counts : List (Str × Str × ℕ)) (rows : List (DnsKey × Cell)) (n : ℕ)
    → cell_at k rows ≡ int (pos n)
    → n + amount ts_day k counts < 2 ^ 63
    → cell_at k (count_all ts_day rows counts) ≡ int (pos (n + amount ts_day k counts))
unfolding count_all
cell_at-count_all ts_day k [] rows n e h = e ∙ ap (λ (m : ℕ). int (pos m)) (omega arith)
cell_at-count_all ts_day k ((mac, domain, c) ∷ counts) rows n e h =
    let j : DnsKey = (ts_day, mac, domain) in
    let up : Option Cell → Cell = counted_up (int (of_bits c)) in
    elim (DnsKey-discrete j k) [
      | yes q ↦
          let all : amount ts_day k ((mac, domain, c) ∷ counts) ≡ c + amount ts_day k counts =
            ap (λ (m : ℕ). m + amount ts_day k counts) (if_pos (DnsKey-discrete j k) q c 0) in
          let now : cell_at k (Maps.upsert DnsKey-discrete j up rows) ≡ int (pos (n + c)) =
            ap (λ o. Option.get_or o (int (pos 0)))
              (Maps.lookup-upsert_eq DnsKey-discrete j k up rows q)
            ∙ counted_up_lem (Maps.lookup DnsKey-discrete k rows) n c e (omega (arith, all)) in
          cell_at-count_all ts_day k counts (Maps.upsert DnsKey-discrete j up rows) (n + c) now
            (omega (arith, all))
          ∙ ap (λ (m : ℕ). int (pos m)) (omega (arith, all))
      | no ne ↦
          let all : amount ts_day k ((mac, domain, c) ∷ counts) ≡ 0 + amount ts_day k counts =
            ap (λ (m : ℕ). m + amount ts_day k counts) (if_neg (DnsKey-discrete j k) ne c 0) in
          let now : cell_at k (Maps.upsert DnsKey-discrete j up rows) ≡ int (pos n) =
            ap (λ o. Option.get_or o (int (pos 0)))
              (Maps.lookup-upsert_ne DnsKey-discrete j k up rows ne)
            ∙ e in
          cell_at-count_all ts_day k counts (Maps.upsert DnsKey-discrete j up rows) n now
            (omega (arith, all))
          ∙ ap (λ (m : ℕ). int (pos m)) (omega (arith, all))
    ]
