-- ===== src/History/Total.antt =====
-- The series of all clients together.
use luci_app_overwatch.Base.{
  ◌+◌, ◌≡◌, ◌≢◌, refl, sym, ap, ◌∙◌, Bool, false, ite, if_pos, if_neg, List, [], ◌∷◌, ◌++◌, Option,
  none, some, arith, ltb→lt, Bool-cases, inl, inr, dec_lt, subst,
}
use luci_app_overwatch.Base.Int.{ℤ, pos_part, neg_part, ◌<ℤ◌, ltb_ℤ, ℤ-discrete, eq_of_parts}
use luci_app_overwatch.Base.Text.{Str}
use luci_app_overwatch.History.{put, by_ts, in_range, keep, read, ram_series}
use luci_app_overwatch.Recorder.{Recorder, macs}
use luci_app_overwatch.Sample.{Sample, zero_at, absorb, aggregate}
use mathlib.Core.List.{foldl}
use mathlib.Core.Option

-- The point of a series at a time, and the samples of that time.
abbrev pub point_at : ℤ → List Sample → Option Sample
point_at t [] = none
point_at t (e ∷ es) = ite (ℤ-discrete e.ts t) (some e) (point_at t es)

abbrev pub samples_at : ℤ → List Sample → List Sample
samples_at t [] = []
samples_at t (s ∷ ss) = ite (ℤ-discrete s.ts t) (s ∷ samples_at t ss) (samples_at t ss)

-- Times that rise, so that none comes twice.
abbrev pub AllAfter : ℤ → List Sample → Type 0
AllAfter t [] = Unit
AllAfter t (e ∷ es) = (t <ℤ e.ts) × AllAfter t es

abbrev pub IsRising : List Sample → Type 0
IsRising [] = Unit
IsRising (e ∷ es) = AllAfter e.ts es × IsRising es

pub AllAfter-trans : (a b : ℤ) (es : List Sample) → a <ℤ b → AllAfter b es → AllAfter a es
AllAfter-trans a b [] h k = tt
AllAfter-trans a b (e ∷ es) h k = (omega arith, AllAfter-trans a b es h k.1)

AllAfter-put :
    (t : ℤ) (es : List Sample) (s : Sample) → t <ℤ s.ts → AllAfter t es → AllAfter t (put es s)
AllAfter-put t [] s h k = (h, tt)
AllAfter-put t (e ∷ es) s h k = elim (ℤ-discrete s.ts e.ts) [
  | yes q ↦ rw (if_pos (ℤ-discrete s.ts e.ts) q) k
  | no ne ↦ rw (if_neg (ℤ-discrete s.ts e.ts) ne) (elim (Bool-cases (ltb_ℤ s.ts e.ts)) [
    | inl q ↦ rw q (h, k)
    | inr q ↦ rw q (k.0, AllAfter-put t es s h k.1)
  ])
]

pub after_ℤ : (a b : ℤ) → a ≢ b → ltb_ℤ a b ≡ false → b <ℤ a
after_ℤ a b ne q = elim (dec_lt (pos_part b + neg_part a) (pos_part a + neg_part b)) [
  | yes h ↦ h
  | no h ↦ absurd (ne (eq_of_parts a b (ground arith)))
]

pub after : (s e : Sample) → s.ts ≢ e.ts → ltb_ℤ s.ts e.ts ≡ false → e.ts <ℤ s.ts
after s e ne q = after_ℤ s.ts e.ts ne q

IsRising-put : (es : List Sample) (s : Sample) → IsRising es → IsRising (put es s)
IsRising-put [] s h = (tt, tt)
IsRising-put (e ∷ es) s h = elim (ℤ-discrete s.ts e.ts) [
  | yes q ↦ rw (if_pos (ℤ-discrete s.ts e.ts) q) h
  | no ne ↦ rw (if_neg (ℤ-discrete s.ts e.ts) ne) (elim (Bool-cases (ltb_ℤ s.ts e.ts)) [
    | inl q ↦
        let lt : s.ts <ℤ e.ts = ltb→lt _ _ q in rw q ((lt, AllAfter-trans s.ts e.ts es lt h.0), h)
    | inr q ↦ rw q (AllAfter-put e.ts es s (after s e ne q) h.0, IsRising-put es s h.1)
  ])
]

-- What one more sample makes of the point at a time.
abbrev one_more : ℤ → Option Sample → Sample → Option Sample
one_more t o s = some (absorb (Option.get_or o (zero_at t)) s)

pub point_at-AllAfter : (t u : ℤ) (es : List Sample) → t ≡ u → AllAfter u es → point_at t es ≡ none
point_at-AllAfter t u [] p h = refl
point_at-AllAfter t u (e ∷ es) p h =
    let ne : e.ts ≢ t =
      λ q. absurd (omega (arith, h.0, ap pos_part (q ∙ p), ap neg_part (q ∙ p))) in
    rw (if_neg (ℤ-discrete e.ts t) ne) (point_at-AllAfter t u es p h.1)

point_at-put_self :
    (es : List Sample) (s : Sample)
    → IsRising es
    → point_at s.ts (put es s) ≡ one_more s.ts (point_at s.ts es) s
point_at-put_self [] s h = rw (if_pos (ℤ-discrete s.ts s.ts) refl) refl
point_at-put_self (e ∷ es) s h = elim (ℤ-discrete s.ts e.ts) [
  | yes q ↦
      rw
        (
          if_pos (ℤ-discrete s.ts e.ts) q,
          if_pos (ℤ-discrete e.ts s.ts) (sym q),
          if_pos (ℤ-discrete e.ts s.ts) (sym q),
        )
        refl
  | no ne ↦
      let ne' : e.ts ≢ s.ts = λ q. ne (sym q) in
      rw (if_neg (ℤ-discrete s.ts e.ts) ne) (elim (Bool-cases (ltb_ℤ s.ts e.ts)) [
        | inl q ↦
            let lt : s.ts <ℤ e.ts = ltb→lt _ _ q in
            let gone : point_at s.ts es ≡ none =
              point_at-AllAfter s.ts s.ts es refl (AllAfter-trans s.ts e.ts es lt h.0) in
            rw (q, if_pos (ℤ-discrete s.ts s.ts) refl, if_neg (ℤ-discrete e.ts s.ts) ne', gone) refl
        | inr q ↦
            rw (q, if_neg (ℤ-discrete e.ts s.ts) ne', if_neg (ℤ-discrete e.ts s.ts) ne')
              (point_at-put_self es s h.1)
      ])
]

point_at-put_ne :
    (t : ℤ) (es : List Sample) (s : Sample) → s.ts ≢ t → point_at t (put es s) ≡ point_at t es
point_at-put_ne t [] s ne = rw (if_neg (ℤ-discrete s.ts t) ne) refl
point_at-put_ne t (e ∷ es) s ne = elim (ℤ-discrete s.ts e.ts) [
  | yes q ↦
      let ne' : e.ts ≢ t = λ p. ne (q ∙ p) in
      rw
        (
          if_pos (ℤ-discrete s.ts e.ts) q,
          if_neg (ℤ-discrete e.ts t) ne',
          if_neg (ℤ-discrete e.ts t) ne',
        )
        refl
  | no other ↦ rw (if_neg (ℤ-discrete s.ts e.ts) other) (elim (Bool-cases (ltb_ℤ s.ts e.ts)) [
    | inl q ↦ rw (q, if_neg (ℤ-discrete s.ts t) ne) refl
    | inr q ↦ rw q (ap (λ o. ite (ℤ-discrete e.ts t) (some e) o) (point_at-put_ne t es s ne))
  ])
]

IsRising-foldl : (es ss : List Sample) → IsRising es → IsRising (foldl put es ss)
IsRising-foldl es [] h = h
IsRising-foldl es (s ∷ ss) h = IsRising-foldl (put es s) ss (IsRising-put es s h)

point_at-foldl :
    (t : ℤ) (es ss : List Sample)
    → IsRising es
    → point_at t (foldl put es ss) ≡ foldl (one_more t) (point_at t es) (samples_at t ss)
point_at-foldl t es [] h = refl
point_at-foldl t es (s ∷ ss) h = elim (ℤ-discrete s.ts t) [
  | yes e ↦
      let now : point_at t (put es s) ≡ one_more t (point_at t es) s =
        subst (λ u. point_at u (put es s) ≡ one_more u (point_at u es) s) e
          (point_at-put_self es s h) in
      rw (if_pos (ℤ-discrete s.ts t) e) (
        point_at-foldl t (put es s) ss (IsRising-put es s h)
        ∙ ap (λ o. foldl (one_more t) o (samples_at t ss)) now)
  | no ne ↦ rw (if_neg (ℤ-discrete s.ts t) ne) (
      point_at-foldl t (put es s) ss (IsRising-put es s h)
      ∙ ap (λ o. foldl (one_more t) o (samples_at t ss)) (point_at-put_ne t es s ne))
]

-- The point that stands for some samples of one time: none for none, else their aggregate.
abbrev pub point_for : ℤ → List Sample → Option Sample
point_for t [] = none
point_for t (s ∷ ss) = some (aggregate (s ∷ ss) t)

foldl-some :
    (t : ℤ) (e : Sample) (ss : List Sample)
    → foldl (one_more t) (some e) ss ≡ some (foldl absorb e ss)
foldl-some t e [] = refl
foldl-some t e (s ∷ ss) = foldl-some t (absorb e s) ss

foldl-none : (t : ℤ) (ss : List Sample) → foldl (one_more t) none ss ≡ point_for t ss
unfolding aggregate
foldl-none t [] = refl
foldl-none t (s ∷ ss) = foldl-some t (absorb (zero_at t) s) ss

foldl-put-append :
    (es xs ys : List Sample) → foldl put es (xs ++ ys) ≡ foldl put (foldl put es xs) ys
foldl-put-append es [] ys = refl
foldl-put-append es (x ∷ xs) ys = foldl-put-append (put es x) xs ys

module _ (r : Recorder) (from to : ℤ) (live : Bool) where
  -- Everything that the recorder has of some clients in a range.
  abbrev pub collected : List Str → List Sample
  collected [] = []
  collected (m ∷ ms) = keep (in_range from to) (read r live m) ++ collected ms

  by_ts_lem :
      (es : List Sample) (ms : List Str) → by_ts r from to live es ms ≡ foldl put es (collected ms)
  by_ts_lem es [] = refl
  by_ts_lem es (m ∷ ms) =
      by_ts_lem (foldl put es (keep (in_range from to) (read r live m))) ms
      ∙ sym (foldl-put-append es (keep (in_range from to) (read r live m)) (collected ms))

  -- Without a client, a series of the recorder rises in time, and has for every time the aggregate of
  -- the samples that all clients have at it within the range, and no point where there are none.
  pub ram_series-IsRising :
      IsRising (ram_series r none from to live)
      × ((t : ℤ)
          → point_at t (ram_series r none from to live)
            ≡ point_for t (samples_at t (collected (macs r))))
  unfolding ram_series
  ram_series-IsRising = rw (by_ts_lem [] (macs r)) (
    IsRising-foldl [] (collected (macs r)) tt,
    λ t.
        point_at-foldl t [] (collected (macs r)) tt
        ∙ foldl-none t (samples_at t (collected (macs r))),
  )
