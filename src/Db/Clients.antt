-- ===== src/Db/Clients.antt =====
-- The table of clients, over any sequence of sightings.
use luci_app_overwatch.Base.{
  ◌≡◌, refl, ap, ◌∙◌, ite, if_pos, if_neg, List, [], ◌∷◌, Option, none, some,
}
use luci_app_overwatch.Base.Int.{ℤ}
use luci_app_overwatch.Base.Maps
use luci_app_overwatch.Base.Text.{Str, Str-discrete}
use luci_app_overwatch.Db.{Client, seen_first, upsert_client}

-- What is told of a client: its host, its address and the time.
pub record Sighting : Type 0 where
  pub host : Str
  pub ip : Str
  pub now : ℤ

abbrev pub Sightings : Type 0
Sightings = List (Str × Sighting)

unfoldable pub upsert_all : List (Str × Client) → Sightings → List (Str × Client)
upsert_all clients [] = clients
upsert_all clients ((mac, s) ∷ ss) = upsert_all (upsert_client clients mac s.host s.ip s.now) ss

abbrev pub of_client : Str → Sightings → List Sighting
of_client m [] = []
of_client m ((mac, s) ∷ ss) = ite (Str-discrete mac m) (s ∷ of_client m ss) (of_client m ss)

abbrev pub latest : Sighting → List Sighting → Sighting
latest s [] = s
latest s (t ∷ ts) = latest t ts

-- A client as its sightings have it: the time of the first one, and all else of the last one.
abbrev pub client_of : List Sighting → Option Client
client_of [] = none
client_of (s ∷ ss) =
    let l = latest s ss in
    some (record { host = l.host; ip = l.ip; first_seen = s.now; last_seen = l.now })

abbrev after_all : Option Client → List Sighting → Option Client
after_all o [] = o
after_all o (s ∷ ss) =
    after_all
      (some
        (record { host = s.host; ip = s.ip; first_seen = seen_first o s.now; last_seen = s.now }))
      ss

lookup-upsert_all :
    (m : Str) (ss : Sightings) (clients : List (Str × Client))
    → Maps.lookup Str-discrete m (upsert_all clients ss)
      ≡ after_all (Maps.lookup Str-discrete m clients) (of_client m ss)
unfolding upsert_all upsert_client
lookup-upsert_all m [] clients = refl
lookup-upsert_all m ((mac, s) ∷ ss) clients = elim (Str-discrete mac m) [
  | yes q ↦ rw (if_pos (Str-discrete mac m) q) (
      lookup-upsert_all m ss (upsert_client clients mac s.host s.ip s.now)
      ∙ ap (λ o. after_all o (of_client m ss))
          (Maps.lookup-upsert_eq Str-discrete mac m
            (λ o. record {
              host = s.host;
              ip = s.ip;
              first_seen = seen_first o s.now;
              last_seen = s.now;
            })
            clients q))
  | no ne ↦ rw (if_neg (Str-discrete mac m) ne) (
      lookup-upsert_all m ss (upsert_client clients mac s.host s.ip s.now)
      ∙ ap (λ o. after_all o (of_client m ss))
          (Maps.lookup-upsert_ne Str-discrete mac m
            (λ o. record {
              host = s.host;
              ip = s.ip;
              first_seen = seen_first o s.now;
              last_seen = s.now;
            })
            clients ne))
]

after_all-some :
    (first : ℤ) (s : Sighting) (ss : List Sighting)
    → after_all
        (some (record { host = s.host; ip = s.ip; first_seen = first; last_seen = s.now }))
        ss
      ≡ some (record {
        host = (latest s ss).host;
        ip = (latest s ss).ip;
        first_seen = first;
        last_seen = (latest s ss).now;
      })
after_all-some first s [] = refl
after_all-some first s (t ∷ ss) = after_all-some first t ss

after_all-none : (ss : List Sighting) → after_all none ss ≡ client_of ss
after_all-none [] = refl
after_all-none (s ∷ ss) = after_all-some s.now s ss

-- After any sightings an empty table holds a client exactly if it was sighted, with the host, the
-- address and the time of its last sighting and the time of its first one.
pub upsert_all-client_of :
    (m : Str) (ss : Sightings)
    → Maps.lookup Str-discrete m (upsert_all [] ss) ≡ client_of (of_client m ss)
upsert_all-client_of m ss = lookup-upsert_all m ss [] ∙ after_all-none (of_client m ss)
