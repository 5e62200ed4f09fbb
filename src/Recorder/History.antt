-- ===== src/Recorder/History.antt =====
-- One client's series against everything that was ever recorded for it.
use luci_app_overwatch.Base.{
  ℕ, ◌≡◌, refl, sym, ap, ap₂, ◌∙◌, subst, ◌≢◌, max, true, false, not, ite, List, [], ◌∷◌, ◌++◌,
  append-nil, append_assoc, arith, ◌⊎◌, inl, inr,
}
use luci_app_overwatch.Base.Int.{ℤ, pos, quot, mul_i64, ℤ-discrete}
use luci_app_overwatch.Base.Last.{last, last-last-append}
use luci_app_overwatch.Ring
use luci_app_overwatch.Ring.{RingBuffer}
use luci_app_overwatch.Ring.Window.{
  IsValid, new-IsValid, push-IsValid, to_vec-push, cap-push, to_vec-push_all,
}
use luci_app_overwatch.Recorder.{ClientSeries, fresh_series, advance, to_list, is_empty}
use luci_app_overwatch.Sample.{Sample, aggregate}

abbrev pub minute_of : Sample → ℤ
minute_of s = quot s.ts 60

append-ne-nil : (ss : List Sample) (x : Sample) → ss ++ x ∷ [] ≢ []
append-ne-nil [] x = λ p. cc
append-ne-nil (s ∷ ss) x = λ p. cc

nil-cases : (ss : List Sample) → (ss ≡ []) ⊎ (ss ≢ [])
nil-cases [] = inl refl
nil-cases (s ∷ ss) = inr (λ p. cc)

abbrev pub InMinute : ℤ → List Sample → Type 0
InMinute m [] = Unit
InMinute m (s ∷ ss) = (minute_of s ≡ m) × InMinute m ss

-- The closed minutes, newest first: each with its number and its samples.
abbrev pub Closed : Type 0
Closed = List (ℤ × List Sample)

-- Every closed minute has samples, all of that minute, and differs from the one that follows it.
abbrev pub IsCut : ℤ → Closed → Type 0
IsCut next [] = Unit
IsCut next ((m, ss) ∷ gs) = (m ≢ next) × (ss ≢ []) × InMinute m ss × IsCut m gs

-- All samples of the closed minutes, oldest first.
abbrev pub spent : Closed → List Sample
spent [] = []
spent ((m, ss) ∷ gs) = spent gs ++ ss

-- Their aggregates at the starts of the minutes, oldest first.
abbrev pub rolled : Closed → List Sample
rolled [] = []
rolled ((m, ss) ∷ gs) = rolled gs ++ aggregate ss (mul_i64 m (pos 60)) ∷ []

InMinute-append :
    (m : ℤ) (ss : List Sample) (s : Sample)
    → InMinute m ss
    → minute_of s ≡ m
    → InMinute m (ss ++ s ∷ [])
InMinute-append m [] s h e = (e, tt)
InMinute-append m (x ∷ ss) s h e = (h.0, InMinute-append m ss s h.1 e)

-- A ring of capacity `n` holds the last `max n 1` of the items.
pub record Keeps (n : ℕ) (items : List Sample) (r : RingBuffer Sample) : Type 0 where
  pub valid : IsValid r
  pub capacity : r.cap ≡ max n 1
  pub window : Ring.to_vec r ≡ last (max n 1) items

Keeps-new : (n : ℕ) → Keeps n [] (Ring.new n)
unfolding Ring.new
Keeps-new n = record { valid = new-IsValid n; capacity = refl; window = to_vec-push_all n [] }

Keeps-push :
    (n : ℕ) (items : List Sample) (r : RingBuffer Sample) (s : Sample)
    → Keeps n items r
    → Keeps n (items ++ s ∷ []) (Ring.push r s)
Keeps-push n items r s k = record {
  valid = push-IsValid r s k.valid;
  capacity = cap-push r s ∙ k.capacity;
  window =
      to_vec-push r s k.valid
      ∙ ap₂ (λ c l. last c (l ++ s ∷ [])) k.capacity k.window
      ∙ last-last-append (max n 1) items (s ∷ []);
}

-- A series that has seen `items`: they are the samples of the closed minutes and then those of the
-- current one, and the rings hold the newest samples and the newest minutes.
pub record Explains (cap_rt cap_min : ℕ) (gs : Closed) (items : List Sample) (s : ClientSeries)
    : Type 0 where
  pub everything : spent gs ++ s.cur_samples ≡ items
  pub cut : IsCut s.cur_minute gs
  pub current : InMinute s.cur_minute s.cur_samples
  pub started : s.cur_samples ≡ [] → gs ≡ []
  pub realtime : Keeps cap_rt items s.realtime
  pub minutes : Keeps cap_min (rolled gs) s.minutes

module _ (cap_rt cap_min : ℕ) where
  pub fresh-Explains :
      (minute : ℤ) → Explains cap_rt cap_min [] [] (fresh_series cap_rt cap_min minute)
  fresh-Explains minute = record {
    everything = refl;
    cut = tt;
    current = tt;
    started = λ _. refl;
    realtime = Keeps-new cap_rt;
    minutes = Keeps-new cap_min;
  }

  module _ (gs : Closed) (items : List Sample) (s : ClientSeries) (minute : ℤ) (x : Sample) where
    -- The minute goes on.
    stay :
        Explains cap_rt cap_min gs items s
        → minute_of x ≡ minute
        → (s.cur_minute ≡ minute)
        → Explains cap_rt cap_min gs (items ++ x ∷ []) (record {
          realtime = Ring.push s.realtime x;
          minutes = s.minutes;
          cur_minute = minute;
          cur_samples = s.cur_samples ++ x ∷ [];
        })
    stay h m e = record {
      everything =
          sym (append_assoc (spent gs) s.cur_samples (x ∷ [])) ∙ ap (λ l. l ++ x ∷ []) h.everything;
      cut = subst (λ k. IsCut k gs) e h.cut;
      current =
          InMinute-append minute s.cur_samples x (subst (λ k. InMinute k s.cur_samples) e h.current)
            m;
      started = λ p. absurd (append-ne-nil s.cur_samples x p);
      realtime = Keeps-push cap_rt items s.realtime x h.realtime;
      minutes = h.minutes;
    }

    -- The minute is over.
    roll :
        Explains cap_rt cap_min gs items s
        → minute_of x ≡ minute
        → s.cur_minute ≢ minute
        → s.cur_samples ≢ []
        → Explains cap_rt cap_min ((s.cur_minute, s.cur_samples) ∷ gs) (items ++ x ∷ []) (record {
          realtime = Ring.push s.realtime x;
          minutes = Ring.push s.minutes (aggregate s.cur_samples (mul_i64 s.cur_minute (pos 60)));
          cur_minute = minute;
          cur_samples = x ∷ [];
        })
    roll h m ne some_samples = record {
      everything = ap (λ l. l ++ x ∷ []) h.everything;
      cut = (ne, some_samples, h.current, h.cut);
      current = (m, tt);
      started = λ p. absurd (cc);
      realtime = Keeps-push cap_rt items s.realtime x h.realtime;
      minutes = Keeps-push cap_min (rolled gs) s.minutes _ h.minutes;
    }

    -- A series of no samples starts in whatever minute comes.
    begin :
        Explains cap_rt cap_min gs items s
        → minute_of x ≡ minute
        → s.cur_samples ≡ []
        → Explains cap_rt cap_min gs (items ++ x ∷ []) (record {
          realtime = Ring.push s.realtime x;
          minutes = s.minutes;
          cur_minute = minute;
          cur_samples = s.cur_samples ++ x ∷ [];
        })
    begin h m e = record {
      everything =
          sym (append_assoc (spent gs) s.cur_samples (x ∷ [])) ∙ ap (λ l. l ++ x ∷ []) h.everything;
      cut = rw (h.started e) tt;
      current = rw e (m, tt);
      started = λ p. absurd (append-ne-nil s.cur_samples x p);
      realtime = Keeps-push cap_rt items s.realtime x h.realtime;
      minutes = h.minutes;
    }

    -- Every sample is filed once: under the minute that goes on, or under a new one, and then the
    -- old minute is closed and its aggregate handed out.
    pub advance-Explains :
        Explains cap_rt cap_min gs items s
        → minute_of x ≡ minute
        → (gs' : Closed) × Explains cap_rt cap_min gs' (items ++ x ∷ []) (advance s minute x).0
          × (rolled gs' ≡ rolled gs ++ to_list (advance s minute x).1)
    unfolding advance
    advance-Explains h m = elim (ℤ-discrete s.cur_minute minute) [
      | yes e ↦ rw (same e) (gs, stay h m e, sym (append-nil (rolled gs)))
      | no ne ↦ elim (nil-cases s.cur_samples) [
        | inl e ↦ rw (none_yet e) (gs, begin h m e, sym (append-nil (rolled gs)))
        | inr ss ↦ rw (over ne ss) ((s.cur_minute, s.cur_samples) ∷ gs, roll h m ne ss, refl)
      ]
    ]
      where
        same :
            s.cur_minute ≡ minute
            → ite (ℤ-discrete s.cur_minute minute) false (not (is_empty s.cur_samples)) ≡ false
        same e = ground arith

        none_yet :
            s.cur_samples ≡ []
            → ite (ℤ-discrete s.cur_minute minute) false (not (is_empty s.cur_samples)) ≡ false
        none_yet e = ground arith

        over :
            s.cur_minute ≢ minute
            → s.cur_samples ≢ []
            → ite (ℤ-discrete s.cur_minute minute) false (not (is_empty s.cur_samples)) ≡ true
        over ne ss = ground arith
