-- ===== src/Main/Reached.antt =====
-- The whole daemon: the loop over the connection table and the loop over DNS packets share their state
-- under a lock, so that it goes on step by step, in any order. The control socket only reads it.
use luci_app_overwatch.Base.{
  ℕ, ◌≤◌, ◌≡◌, refl, sym, ap, ◌∙◌, subst, max, Bool, true, false, List, [], ◌∷◌, Option, none, some,
  arith, Bool-cases, inl, inr, length,
}
use luci_app_overwatch.Base.Float.{F64}
use luci_app_overwatch.Base.Int.{ℤ}
use luci_app_overwatch.Base.Last.{length-last-le}
use luci_app_overwatch.Base.Maps
use luci_app_overwatch.Base.Outcome.{value, nothing, panicked, hung}
use luci_app_overwatch.Base.Text.{Str, Str-discrete}
use luci_app_overwatch.Control.{Shared}
use luci_app_overwatch.Db.{Tables, add_dns_counts}
use luci_app_overwatch.Db.Keys.{IsKeyed, count_all-HasKeysOnce}
use luci_app_overwatch.Dns.Capture.{empty, drain}
use luci_app_overwatch.Dns.Capture.Counts.{IsBounded, run, run-IsBounded, run_from-IsBounded}
use luci_app_overwatch.Dns.Loop.{
  Capturing, Poll, is_due, day_of, store_counts, begin, flush, poll_round,
}
use luci_app_overwatch.Dns.Loop.Heard.{heard, after_round, poll_round-heard}
use luci_app_overwatch.Flow.{End}
use luci_app_overwatch.Main.{Daemon, Reading, start, round_on, round}
use luci_app_overwatch.Main.Sound.{IsSound, share-IsSound}
use luci_app_overwatch.Recorder
use luci_app_overwatch.Recorder.{Recorder, ClientSeries}
use luci_app_overwatch.Recorder.Run.{Holds-realtime, Holds-minutes}
use luci_app_overwatch.Recorder.History.{InMinute}
use luci_app_overwatch.Recorder.Tracks.{new-Tracks, select, Holds}
use luci_app_overwatch.Sample.{Sample}

empty-IsBounded : IsBounded empty
unfolding run
empty-IsBounded = run-IsBounded []

abbrev pub with_store : Shared → Tables → Shared
with_store g t = record g { store = t }

store_counts-IsKeyed :
    (commits : Bool) (day : ℤ) (counts : List (Str × Str × ℕ)) (t : Tables)
    → IsKeyed t
    → IsKeyed (store_counts commits day counts t)
unfolding add_dns_counts
store_counts-IsKeyed commits day [] t k = k
store_counts-IsKeyed false day (c ∷ counts) t k = k
store_counts-IsKeyed true day (c ∷ counts) t k = record {
  clients = k.clients;
  minutes = k.minutes;
  hours = k.hours;
  days = k.days;
  dns = count_all-HasKeysOnce day t.dns_counts_day (c ∷ counts) k.dns;
}

with_store-IsSound : (g : Shared) (t : Tables) → IsSound g → IsKeyed t → IsSound (with_store g t)
with_store-IsSound g t s k = record {
  keyed = k;
  log = s.log;
  out = s.out;
  tracks = record { held = s.tracks.held };
  realtime_cap = s.realtime_cap;
  minute_cap = s.minute_cap;
}

module _ (float : F64) (hash : End → End → ℕ → ℕ) (to_lowercase : Str → Str) where
  -- The state of both loops.
  pub record System : Type 0 where
    pub daemon : Daemon float hash to_lowercase
    pub capturing : Capturing

  abbrev pub with_shared : Daemon float hash to_lowercase → Shared → Daemon float hash to_lowercase
  with_shared d g = record d { shared = g }

  -- A step of either loop.
  pub data Step (s : System) : System → Type 0 where
    scanned :
        (r : Reading float hash to_lowercase)
        → Step s (record s { daemon = round float hash to_lowercase s.daemon r })
    polled :
        (p : Poll) (c : Capturing) (t : Tables)
        → poll_round to_lowercase s.daemon.shared.config.dns_flush_secs s.capturing
            s.daemon.shared.store p
          ≡ value (c, t)
        → Step s
            (record { daemon = with_shared s.daemon (with_store s.daemon.shared t); capturing = c })

  -- The states that the daemon can come to, from any tables with their keys once.
  pub data Reached : System → Type 0 where
    started :
        (conf : Option Str) (tables : Tables) (acct : Str) (btf : Bool) (modules leases arp : Str)
        (now : ℤ)
        → IsKeyed tables
        → Reached (record {
          daemon = start float hash to_lowercase conf tables acct btf modules;
          capturing = begin to_lowercase leases arp now;
        })
    stepped : (s t : System) → Reached s → Step s t → Reached t

  record IsGood (s : System) : Type 0 where
    sound : IsSound s.daemon.shared
    bounded : IsBounded s.capturing.state

  start-IsGood :
      (conf : Option Str) (tables : Tables) (acct : Str) (btf : Bool) (modules : Str)
      → IsKeyed tables
      → IsSound (start float hash to_lowercase conf tables acct btf modules).shared
  unfolding start Recorder.new
  start-IsGood conf tables acct btf modules k = record {
    keyed = k;
    log = [];
    out = [];
    tracks = new-Tracks 300 1440;
    realtime_cap = refl;
    minute_cap = refl;
  }

  round-IsSound :
      (d : Daemon float hash to_lowercase) (r : Reading float hash to_lowercase)
      → IsSound d.shared
      → IsSound (round float hash to_lowercase d r).shared
  unfolding round
  round-IsSound d r s = go r.conntrack
    where
      go : (o : Option Str) → IsSound (round_on float hash to_lowercase d r o).shared
      go none = s
      go (some table) = share-IsSound d.shared d.last_maint _ r.now_i s

  flush-IsBounded :
      (secs : ℕ) (c : Capturing) (t : Tables) (p : Poll)
      → IsBounded c.state
      → IsKeyed t
      → let r = flush to_lowercase secs c t p in IsBounded r.0.state × IsKeyed r.1
  unfolding flush drain
  flush-IsBounded secs c t p b k = elim (Bool-cases (is_due secs c.last_flush p.now)) [
    | inl e ↦
        rw e (empty-IsBounded, store_counts-IsKeyed p.commits (day_of p.now) (drain c.state).0 t k)
    | inr e ↦ rw e (b, k)
  ]

  value_inj : {A : Type 0} {x y : A} → value x ≡ value y → x ≡ y
  value_inj {x = x} e = ap (λ o. elim o [ value a ↦ a | nothing ↦ x | panicked ↦ x | hung ↦ x ]) e

  Step-IsGood : (s t : System) → Step s t → IsGood s → IsGood t
  Step-IsGood s _ (scanned r) g = record {
    sound = round-IsSound s.daemon r g.sound;
    bounded = g.bounded;
  }
  Step-IsGood s _ (polled p c t e) g =
      let g0 : Shared = s.daemon.shared in
      let secs : ℕ = g0.config.dns_flush_secs in
      let b = run_from-IsBounded s.capturing.state (heard s.capturing.names p.packets) g.bounded in
      let ok =
        flush-IsBounded secs
          (record s.capturing { state = run s.capturing.state (heard s.capturing.names p.packets) })
          g0.store p b g.sound.keyed in
      let same : after_round to_lowercase secs s.capturing g0.store p ≡ (c, t) =
        value_inj (sym (poll_round-heard to_lowercase secs s.capturing g0.store p) ∙ e) in
      let after : IsBounded c.state × IsKeyed t =
        subst (λ (r : Capturing × Tables). IsBounded r.0.state × IsKeyed r.1) same ok in
      record { sound = with_store-IsSound g0 t g.sound after.1; bounded = after.0 }

  begin-IsBounded :
      (leases arp : Str) (now : ℤ) → IsBounded (begin to_lowercase leases arp now).state
  unfolding begin
  begin-IsBounded leases arp now = empty-IsBounded

  Reached-IsGood : (s : System) → Reached s → IsGood s
  Reached-IsGood _ (started conf tables acct btf modules leases arp now k) = record {
    sound = start-IsGood conf tables acct btf modules k;
    bounded = begin-IsBounded leases arp now;
  }
  Reached-IsGood _ (stepped s t r step) = Step-IsGood s t step (Reached-IsGood s r)

  -- A client's series: the open samples are of one minute.
  abbrev IsOpen : Option ClientSeries → Type 0
  IsOpen none = Unit
  IsOpen (some series) = InMinute series.cur_minute series.cur_samples

  Holds-IsOpen :
      (cap_rt cap_min : ℕ) (items out : List Sample) (o : Option ClientSeries)
      → Holds cap_rt cap_min items out o
      → IsOpen o
  Holds-IsOpen cap_rt cap_min items out none h = tt
  Holds-IsOpen cap_rt cap_min items out (some series) h = h.1.current

  -- What stays true while the daemon runs.
  pub record IsKept (s : System) : Type 0 where
    pub tables : IsKeyed s.daemon.shared.store
    pub realtime : (m : Str) → length (Recorder.realtime s.daemon.shared.recorder m) ≤ 300
    pub minutes : (m : Str) → length (Recorder.minutes s.daemon.shared.recorder m) ≤ 1440
    pub open_samples :
        (m : Str) (series : ClientSeries)
        → Maps.lookup Str-discrete m s.daemon.shared.recorder.series ≡ some series
        → InMinute series.cur_minute series.cur_samples
    pub window : IsBounded s.capturing.state

  -- Whatever connections and packets there are, in whatever order the two loops go on, and whichever
  -- flushes the database refuses: no table has a key twice; of every client, the two rings in memory
  -- hold at most 300 and 1440 samples, and the samples that are not handed out yet are all of one
  -- minute; and the flush window keeps at most 5000 domains, each once, with no count under a name that
  -- is neither one of them nor the common name. (The number of clients in memory, and of the samples
  -- of one minute, has no bound.)
  pub Reached-IsKept : (s : System) → Reached s → IsKept s
  unfolding Recorder.realtime Recorder.minutes
  Reached-IsKept s r =
      let g = Reached-IsGood s r in
      let a = g.sound in
      let rec : Recorder = s.daemon.shared.recorder in
      record {
        tables = a.keyed;
        realtime = λ m.
            let live =
              Holds-realtime rec.realtime_cap rec.minute_cap (select m a.log) (select m a.out)
                (Maps.lookup Str-discrete m rec.series) (a.tracks.held m) in
            omega (
              arith,
              ap length live,
              length-last-le (max rec.realtime_cap 1) (select m a.log),
              a.realtime_cap,
            );
        minutes = λ m.
            let old =
              Holds-minutes rec.realtime_cap rec.minute_cap (select m a.log) (select m a.out)
                (Maps.lookup Str-discrete m rec.series) (a.tracks.held m) in
            omega (
              arith,
              ap length old,
              length-last-le (max rec.minute_cap 1) (select m a.out),
              a.minute_cap,
            );
        open_samples = λ m series e. subst IsOpen e (
            Holds-IsOpen rec.realtime_cap rec.minute_cap (select m a.log) (select m a.out)
              (Maps.lookup Str-discrete m rec.series) (a.tracks.held m));
        window = g.bounded;
      }
