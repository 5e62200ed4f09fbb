-- ===== src/Control/Tests.antt =====
-- Requests of a toy JSON.
use luci_app_overwatch.Base.{◌≤◌, ◌≡◌, ◌↔◌, refl, ap, [], ◌∷◌, arith, length, ℕ_discrete}
use luci_app_overwatch.Base.Int.{◌+ℤ◌}
use luci_app_overwatch.Base.Outcome.{value, Gives}
use luci_app_overwatch.Base.Ratio.{ratio}
use luci_app_overwatch.Base.Sort.{sort_desc}
use luci_app_overwatch.Base.Text.{Str-discrete, text}
use luci_app_overwatch.Control.{
  Reply, domains, error, hist_tier, dispatch, top_n_of, limit_of, max_points_of,
}
use luci_app_overwatch.Control.Refused.{
  asked_series, IsError, IsRefused, IsServable, dispatch-IsRefused,
}
use luci_app_overwatch.Control.Sizes.{IsSized, dispatch-IsSized}
use luci_app_overwatch.Control.Toy.{Toy, nil, str, num, member, toy, shared}
use luci_app_overwatch.Db.{checked_add}
use luci_app_overwatch.Db.Query.{dns_top, query}
use luci_app_overwatch.History.{HistTier, realtime, day, week, month, ram_series, raw_series}
use luci_app_overwatch.Recorder
use luci_app_overwatch.Recorder.{macs}

abbrev one : Toy
one = member (text "limit") (num 1) nil

-- The most queried domain; a tier that there is not; a method that there is not.
top_one :
    dispatch ratio toy [] shared (text "dns_top") one
    ≡ value (domains ((text "example.com", 5) ∷ []))
unfolding dispatch dns_top sort_desc checked_add Str-discrete ℕ_discrete ◌+ℤ◌
top_one = refl

century :
    dispatch ratio toy [] shared (text "history") (member (text "tier") (str (text "century")) nil)
    ≡ value (error (text "missing or invalid tier"))
unfolding dispatch hist_tier Str-discrete ℕ_discrete
century = refl

bogus : dispatch ratio toy [] shared (text "bogus") nil ≡ value (error (text "unknown method"))
unfolding dispatch Str-discrete ℕ_discrete
bogus = refl

abbrev week_of : Toy
week_of = member (text "tier") (str (text "week")) nil

-- Every series of the daemon is empty, so that none has to be cut.
no_samples : (tier : HistTier) → asked_series ratio toy [] shared week_of tier ≡ []
unfolding raw_series ram_series query macs Recorder.new Str-discrete ℕ_discrete
no_samples realtime = refl
no_samples day = refl
no_samples week = refl
no_samples month = refl

servable : IsServable ratio toy [] shared week_of
servable tier h l = absurd (omega (arith, ap length (no_samples tier)))

dispatch_example :
    (r : Reply) × (dispatch ratio toy [] shared (text "history") week_of ≡ value r)
    × (IsError r ↔ IsRefused ratio toy [] shared (text "history") week_of)
dispatch_example = dispatch-IsRefused ratio toy [] shared (text "history") week_of servable

sizes_example :
    Gives
      (IsSized ratio toy [] shared week_of)
      (dispatch ratio toy [] shared (text "history") week_of)
    × (top_n_of ratio toy [] week_of ≤ 10000)
    × (limit_of ratio toy [] shared week_of ≤ 10000)
    × (max_points_of ratio toy [] week_of ≤ 100000)
sizes_example = dispatch-IsSized ratio toy [] shared (text "history") week_of servable
