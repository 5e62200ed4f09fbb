-- ===== src/Server/Tests.antt =====
-- A request for the most queried domain, and what is no request.
use luci_app_overwatch.Base.{
  ℕ, ◌≡◌, ◌↔◌, refl, ap, List, [], ◌∷◌, ◌++◌, some, arith, length, ℕ_discrete,
}
use luci_app_overwatch.Base.Int.{◌+ℤ◌}
use luci_app_overwatch.Base.Outcome.{value}
use luci_app_overwatch.Base.Ratio.{ratio}
use luci_app_overwatch.Base.Sort.{sort_desc}
use luci_app_overwatch.Base.Text.{Str, Str-discrete, text}
use luci_app_overwatch.Base.Utf8.{from_utf8}
use luci_app_overwatch.Control.{Reply, domains, error, dispatch}
use luci_app_overwatch.Control.Refused.{asked_series, IsError, IsRefused, IsServable}
use luci_app_overwatch.Control.Toy.{Toy, nil, num, member, toy, shared}
use luci_app_overwatch.Db.{checked_add}
use luci_app_overwatch.Db.Query.{dns_top, query}
use luci_app_overwatch.History.{HistTier, realtime, day, week, month, ram_series, raw_series}
use luci_app_overwatch.Recorder
use luci_app_overwatch.Recorder.{macs}
use luci_app_overwatch.Server.{
  closed, broken, failed, silent, wrote, handle_conn, read_bytes, request_of, method_of, params_of,
}
use luci_app_overwatch.Server.Requests.{handle_conn-IsRefused}

abbrev domain_text : List (Str × ℕ) → Str
domain_text [] = []
domain_text ((d, n) ∷ ds) = d ++ domain_text ds

abbrev print : Reply → Str
print (domains ds) = domain_text ds
print (error why) = why
print _ = []

abbrev line : List ℕ
line = text "domains"

answered :
    handle_conn ratio toy [] print shared (line ++ 10 ∷ 33 ∷ []) broken
    ≡ value (wrote (text "example.com" ++ 10 ∷ []))
unfolding handle_conn read_bytes from_utf8 dispatch dns_top sort_desc checked_add Str-discrete
    ℕ_discrete ◌+ℤ◌
answered = refl

-- Nothing at all, a line that breaks off, and one that is not UTF-8.
nothing_sent : handle_conn ratio toy [] print shared [] closed ≡ value silent
unfolding handle_conn read_bytes from_utf8
nothing_sent = refl

broken_off : handle_conn ratio toy [] print shared line broken ≡ value failed
unfolding handle_conn read_bytes from_utf8
broken_off = refl

not_utf8 : handle_conn ratio toy [] print shared (255 ∷ 10 ∷ []) closed ≡ value failed
unfolding handle_conn read_bytes from_utf8
not_utf8 = refl

abbrev params : Toy
params = member (text "limit") (num 1) nil

no_samples : (tier : HistTier) → asked_series ratio toy [] shared params tier ≡ []
unfolding raw_series ram_series query macs Recorder.new Str-discrete ℕ_discrete
no_samples realtime = refl
no_samples day = refl
no_samples week = refl
no_samples month = refl

servable :
    IsServable ratio toy [] shared
      (params_of ratio toy [] print (request_of ratio toy [] print (line ++ 10 ∷ [])))
unfolding Str-discrete ℕ_discrete
servable tier h l = absurd (omega (arith, ap length (no_samples tier)))

read : from_utf8 (line ++ 10 ∷ []) ≡ some (line ++ 10 ∷ [])
unfolding from_utf8
read = refl

handle_conn_example :
    let req = request_of ratio toy [] print (line ++ 10 ∷ []) in
    (r : Reply) × (handle_conn ratio toy [] print shared (line ++ 10 ∷ 33 ∷ []) broken
      ≡ value (wrote (print r ++ 10 ∷ [])))
    × (IsError r
        ↔ IsRefused ratio toy [] shared
            (method_of ratio toy [] print req)
            (params_of ratio toy [] print req))
handle_conn_example =
    handle_conn-IsRefused ratio toy [] print shared line (33 ∷ []) broken 100
      (text "omains" ++ 10 ∷ []) (ground arith) (omega arith) read servable
