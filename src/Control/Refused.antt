-- ===== src/Control/Refused.antt =====
-- Which requests are refused.
use luci_app_overwatch.Base.{
  ℕ, ◌≡◌, ◌≢◌, ◌↔◌, refl, sym, ◌∙◌, List, map, none, some, arith, Option-cases, inl, inr,
}
use luci_app_overwatch.Base.Float.{F64}
use luci_app_overwatch.Base.Outcome.{Outcome, value, of_ite}
use luci_app_overwatch.Base.Text.{Str, Str-discrete, text}
use luci_app_overwatch.Api.{client_api, api_point, summary, status_api}
use luci_app_overwatch.Control.{
  Shared, Json, Reply, clients, status, report, points, error, pkg_version, domains_of, tier_of,
  top_n_of, max_points_of, from_of, to_of, client_of, history, history_or_error, top_domains,
  dispatch,
}
use luci_app_overwatch.Db.Query.{store_of}
use luci_app_overwatch.Downsample.Length.{IsCuttable, length-lttb}
use luci_app_overwatch.History.{HistTier, raw_series, series}
use luci_app_overwatch.Sample.{Sample}

abbrev pub IsError : Reply → Type 0
IsError (error why) = Unit
IsError _ = ⊥

-- The words of the protocol differ.
pub history_ne :
    (text "history" ≢ text "clients")
    × (text "history" ≢ text "status")
    × (text "history" ≢ text "summary")
history_ne = (λ e. ground arith, λ e. ground arith, λ e. ground arith)

pub dns_top_ne :
    (text "dns_top" ≢ text "clients")
    × (text "dns_top" ≢ text "status")
    × (text "dns_top" ≢ text "summary")
    × (text "dns_top" ≢ text "history")
dns_top_ne = (λ e. ground arith, λ e. ground arith, λ e. ground arith, λ e. ground arith)

-- The methods that the protocol has.
pub data IsMethod (m : Str) : Type 0 where
  is_clients : m ≡ text "clients" → IsMethod m
  is_status : m ≡ text "status" → IsMethod m
  is_summary : m ≡ text "summary" → IsMethod m
  is_history : m ≡ text "history" → IsMethod m
  is_dns_top : m ≡ text "dns_top" → IsMethod m

module _ (float : F64) (json : Json) (cause : Str) where
  open json use {Value}

  -- The series that a request for a history is about.
  abbrev pub asked_series : Shared → Value → HistTier → List Sample
  asked_series shared params tier =
      raw_series shared.recorder (store_of shared.store) tier (client_of float json cause params)
        (from_of float json cause params) (to_of float json cause params)

  -- Whatever tier is asked for, its series can be cut.
  abbrev pub IsServable : Shared → Value → Type 0
  IsServable shared params =
      (tier : HistTier)
      → IsCuttable float (asked_series shared params tier) (max_points_of float json cause params)

  -- What a request is refused for.
  pub data IsRefused (shared : Shared) (method : Str) (params : Value) : Type 0 where
    no_method : ¬ IsMethod method → IsRefused shared method params
    no_tier :
        method ≡ text "history"
        → tier_of float json cause params ≡ none
        → IsRefused shared method params
    no_rows :
        method ≡ text "dns_top"
        → top_domains float json cause shared params ≡ none
        → IsRefused shared method params

  answered :
      (shared : Shared) (params : Value)
      → IsServable shared params
      → (t : HistTier)
      → (out : List Sample) × (history float json cause shared params t
          ≡ value (points (map api_point out)))
  unfolding history series
  answered shared params ok t =
      let (out, e, _) =
        length-lttb float (asked_series shared params t) (max_points_of float json cause params)
          (ok t) in
      (out, rw e refl)

  -- A method other than `history` and `dns_top` is not refused.
  plain :
      (shared : Shared) (method : Str) (params : Value)
      → IsMethod method
      → method ≢ text "history"
      → method ≢ text "dns_top"
      → ¬ IsRefused shared method params
  plain shared method params m nh nd (no_method k) = k m
  plain shared method params m nh nd (no_tier p e) = nh p
  plain shared method params m nh nd (no_rows p e) = nd p

  with_tier :
      (shared : Shared) (method : Str) (params : Value) (t : HistTier)
      → method ≡ text "history"
      → tier_of float json cause params ≡ some t
      → ¬ IsRefused shared method params
  with_tier shared method params t p e (no_method k) = k (is_history p)
  with_tier shared method params t p e (no_tier q n) = cc (sym e ∙ n)
  with_tier shared method params t p e (no_rows q n) = dns_top_ne.3 (sym q ∙ p)

  with_rows :
      (shared : Shared) (method : Str) (params : Value) (top : List (Str × ℕ))
      → method ≡ text "dns_top"
      → top_domains float json cause shared params ≡ some top
      → ¬ IsRefused shared method params
  with_rows shared method params top p e (no_method k) = k (is_dns_top p)
  with_rows shared method params top p e (no_tier q n) = dns_top_ne.3 (sym p ∙ q)
  with_rows shared method params top p e (no_rows q n) = cc (sym e ∙ n)

  of_history :
      (shared : Shared) (method : Str) (params : Value)
      → IsServable shared params
      → method ≡ text "history"
      → (r : Reply) × (history_or_error float json cause shared params
            (tier_of float json cause params)
          ≡ value r)
        × (IsError r ↔ IsRefused shared method params)
  of_history shared method params ok p = elim (Option-cases (tier_of float json cause params)) [
    | inl e ↦ (error (text "missing or invalid tier"), rw e refl, (λ _. no_tier p e, λ _. tt))
    | inr (t, e) ↦
        let (out, served) = answered shared params ok t in
        (
          points (map api_point out),
          rw e served,
          (absurd, λ r. absurd (with_tier shared method params t p e r)),
        )
  ]

  of_dns_top :
      (shared : Shared) (method : Str) (params : Value)
      → method ≡ text "dns_top"
      → IsError (domains_of cause (top_domains float json cause shared params))
        ↔ IsRefused shared method params
  of_dns_top shared method params p =
      elim (Option-cases (top_domains float json cause shared params)) [
        | inl e ↦ (λ _. no_rows p e, λ _. rw e tt)
        | inr (top, e) ↦ (rw e absurd, λ r. absurd (with_rows shared method params top p e r))
      ]

  module _ (shared : Shared) (method : Str) (params : Value) where
    -- An outcome is an answer, and it is an error exactly if the request is refused.
    abbrev Answers : Outcome Reply → Type 0
    Answers o = (r : Reply) × (o ≡ value r) × (IsError r ↔ IsRefused shared method params)

    fine : (r : Reply) → ¬ IsError r → ¬ IsRefused shared method params → Answers (value r)
    fine r e k = (r, refl, (λ i. absurd (e i), λ i. absurd (k i)))

    of_domains :
        method ≡ text "dns_top"
        → Answers (value (domains_of cause (top_domains float json cause shared params)))
    of_domains p = (
      domains_of cause (top_domains float json cause shared params),
      refl,
      of_dns_top shared method params p,
    )

    unknown :
        method ≢ text "clients"
        → method ≢ text "status"
        → method ≢ text "summary"
        → method ≢ text "history"
        → method ≢ text "dns_top"
        → ¬ IsMethod method
    unknown a b c d e (is_clients p) = a p
    unknown a b c d e (is_status p) = b p
    unknown a b c d e (is_summary p) = c p
    unknown a b c d e (is_history p) = d p
    unknown a b c d e (is_dns_top p) = e p

  -- Every request gets an answer, where the series that it may ask for can be cut. It is an error
  -- exactly if the protocol has no such method, or a history comes without a tier that there is, or the
  -- database fails to sum up the domains.
  pub dispatch-IsRefused :
      (shared : Shared) (method : Str) (params : Value)
      → IsServable shared params
      → (r : Reply) × (dispatch float json cause shared method params ≡ value r)
        × (IsError r ↔ IsRefused shared method params)
  unfolding dispatch
  dispatch-IsRefused shared method params ok =
      of_ite (Answers shared method params) (Str-discrete method (text "clients")) _ _
        (λ p.
          fine shared method params (clients (map client_api shared.clients)) (λ e. e)
            (plain shared method params (is_clients p) (λ q. history_ne.0 (sym q ∙ p))
              (λ q. dns_top_ne.0 (sym q ∙ p))))
        λ n1.
          of_ite (Answers shared method params) (Str-discrete method (text "status")) _ _
            (λ p.
              fine shared method params
                (status (status_api shared.config.enabled shared.probes pkg_version)) (λ e. e)
                (plain shared method params (is_status p) (λ q. history_ne.1 (sym q ∙ p))
                  (λ q. dns_top_ne.1 (sym q ∙ p))))
            λ n2.
              of_ite (Answers shared method params) (Str-discrete method (text "summary")) _ _
                (λ p.
                  fine shared method params
                    (report (summary shared.clients (top_n_of float json cause params))) (λ e. e)
                    (plain shared method params (is_summary p) (λ q. history_ne.2 (sym q ∙ p))
                      (λ q. dns_top_ne.2 (sym q ∙ p))))
                λ n3.
                  of_ite (Answers shared method params) (Str-discrete method (text "history")) _ _
                    (of_history shared method params ok)
                    λ n4.
                      of_ite (Answers shared method params) (Str-discrete method (text "dns_top")) _
                        _ (of_domains shared method params)
                        λ n5. (
                          error (text "unknown method"),
                          refl,
                          (λ _. no_method (unknown shared method params n1 n2 n3 n4 n5), λ _. tt),
                        )
