-- ===== src/Config.antt =====
-- src/config.rs, and the retention of src/db.rs: the settings out of the text of a UCI file.
pub mod Printed
mod Tests
use luci_app_overwatch.Base.{
  ℕ, ◌+◌, ◌*◌, Bool, true, false, ◌||◌, ite, List, [], ◌∷◌, ◌++◌, Option, none, some, ◌==◌,
  if◌then◌else◌,
}
use luci_app_overwatch.Base.Int.{ℤ, pos, negsuc, mul_i64}
use luci_app_overwatch.Base.Ip.{IpAddr, v4}
use luci_app_overwatch.Base.Lines.{is_whitespace, trim, lines, split_whitespace}
use luci_app_overwatch.Base.Read.{parse_ip, parse_uint, parse_i64, strip_prefix}
use luci_app_overwatch.Base.Text.{Str, Str-discrete, text}
use luci_app_overwatch.Classify.{IpNet}
use mathlib.Core.List.{foldl}
use mathlib.Core.Option

pub record Retention : Type 0 where
  pub min_secs : ℤ
  pub hour_secs : ℤ
  pub day_secs : ℤ
  pub dns_days : ℤ

abbrev pub default_retention : Retention
default_retention = record {
  min_secs = pos (48 * 3600);
  hour_secs = pos (35 * 86400);
  day_secs = pos (395 * 86400);
  dns_days = pos (395 * 86400);
}

pub record Config : Type 0 where
  pub enabled : Bool
  pub sample_interval : ℕ
  pub lan_prefixes : List IpNet
  pub retention : Retention
  pub db_path : Str
  pub dns_stats_enabled : Bool
  pub dns_iface : Str
  pub dns_flush_secs : ℕ
  pub dns_top_n : ℕ

abbrev pub default_config : Config
default_config = record {
  enabled = true;
  sample_interval = 2;
  lan_prefixes = record { addr = v4 3232235776; prefix_len = 24 } ∷ [];
  retention = default_retention;
  db_path = text "/etc/overwatch/overwatch.db";
  dns_stats_enabled = false;
  dns_iface = text "br-lan";
  dns_flush_secs = 60;
  dns_top_n = 50;
}

pub record Section : Type 0 where
  pub kind : Str
  pub options : List (Str × Str)

abbrev pub is_quote : ℕ → Bool
is_quote c = c == b'\'' || c == b'"'

abbrev pub drop_quotes : Str → Str
drop_quotes [] = []
drop_quotes (c ∷ s) = elim (is_quote c) [ true ↦ drop_quotes s | false ↦ c ∷ s ]

abbrev pub end_quote : ℕ → Str → Str
end_quote c [] = elim (is_quote c) [ true ↦ [] | false ↦ c ∷ [] ]
end_quote c (d ∷ s) = c ∷ d ∷ s

abbrev pub drop_end_quotes : Str → Str
drop_end_quotes [] = []
drop_end_quotes (c ∷ s) = end_quote c (drop_end_quotes s)

unfoldable pub unquote : Str → Str
unquote s = drop_end_quotes (drop_quotes (trim s))

abbrev pub first_word : List Str → Str
first_word [] = []
first_word (w ∷ ws) = w

-- `splitn(2, char::is_whitespace)`, if there are two parts.
abbrev pub after_key : ℕ → Option (Str × Str) → Option (Str × Str)
after_key c none = none
after_key c (some (k, v)) = some (c ∷ k, v)

abbrev pub split_key : Str → Option (Str × Str)
split_key [] = none
split_key (c ∷ s) = elim (is_whitespace c) [
  | true ↦ some ([], s)
  | false ↦ after_key c (split_key s)
]

-- `out.last_mut()`: an option before any section is dropped.
abbrev pub add_option : List Section → Str × Str → List Section
add_option [] kv = []
add_option (s ∷ []) kv = record s { options = s.options ++ kv ∷ [] } ∷ []
add_option (s ∷ t ∷ ss) kv = s ∷ add_option (t ∷ ss) kv

abbrev pub option_rest : Str → Option Str
option_rest l = elim (strip_prefix (text "option ") l) [
  | some rest ↦ some rest
  | none ↦ strip_prefix (text "list ") l
]

abbrev pub with_option : List Section → Option (Str × Str) → List Section
with_option out none = out
with_option out (some (k, v)) = add_option out (k, unquote v)

-- What a line without the blanks around it does.
abbrev pub trimmed_line : List Section → Str → List Section
trimmed_line out l = elim (strip_prefix (text "config ") l) [
  | some rest ↦ out ++ record { kind = first_word (split_whitespace rest); options = [] } ∷ []
  | none ↦ elim (option_rest l) [ some rest ↦ with_option out (split_key rest) | none ↦ out ]
]

-- The body of the loop over the lines.
unfoldable pub section_line : List Section → Str → List Section
section_line out line = trimmed_line out (trim line)

unfoldable pub split_sections : Str → List Section
unfolding section_line
split_sections t = foldl section_line [] (lines t)

abbrev pub get_from : Str → List (Str × Str) → Option Str
get_from key [] = none
get_from key ((k, v) ∷ os) = ite (Str-discrete k key) (some v) (get_from key os)

abbrev pub all_from : Str → List (Str × Str) → List Str
all_from key [] = []
all_from key ((k, v) ∷ os) = ite (Str-discrete k key) (v ∷ all_from key os) (all_from key os)

abbrev pub get : Section → Str → Option Str
get sec key = get_from key sec.options

abbrev pub get_all : Section → Str → List Str
get_all sec key = all_from key sec.options

-- `split_once('/')`
abbrev pub split_slash : Str → Option (Str × Str)
split_slash [] = none
split_slash (c ∷ s) = elim (c == b'/') [ true ↦ some ([], s) | false ↦ after_key c (split_slash s) ]

abbrev pub net_of : Option IpAddr → Option ℕ → Option IpNet
net_of (some addr) (some len) = some (record { addr = addr; prefix_len = len })
net_of _ _ = none

unfoldable pub parse_prefix : Str → Option IpNet
parse_prefix s = elim (split_slash s) [
  | none ↦ none
  | some (addr, len) ↦ net_of (parse_ip (trim addr)) (parse_uint 256 (trim len))
]

abbrev pub parse_prefixes : List Str → List IpNet
parse_prefixes [] = []
parse_prefixes (p ∷ ps) = elim (parse_prefix p) [
  | none ↦ parse_prefixes ps
  | some n ↦ n ∷ parse_prefixes ps
]

abbrev pub or_default {ℓ} : {A : Type ℓ} → Option A → A → A
or_default o d = Option.get_or o d

abbrev pub flag : Option Str → Bool → Bool
flag none d = d
flag (some v) d = ite (Str-discrete v (text "1")) true false

abbrev pub u64_or : Option Str → ℕ → ℕ
u64_or none d = d
u64_or (some v) d = Option.get_or (parse_uint 18446744073709551616 v) d

-- A number that is not negative, times the seconds of its unit; anything else keeps the default.
abbrev pub secs_of : ℕ → Option ℤ → ℤ → ℤ
secs_of unit none d = d
secs_of unit (some (pos n)) d = mul_i64 (pos n) (pos unit)
secs_of unit (some (negsuc n)) d = d

abbrev pub secs_or : ℕ → Option Str → ℤ → ℤ
secs_or unit none d = d
secs_or unit (some v) d = secs_of unit (parse_i64 v) d

abbrev pub prefixes_or : List IpNet → List IpNet → List IpNet
prefixes_or [] d = d
prefixes_or (n ∷ ns) d = n ∷ ns

-- The settings of the section that is found.
unfoldable pub apply_section : Section → Config → Config
unfolding parse_prefix
apply_section g cfg = record {
  enabled = flag (get g (text "enabled")) cfg.enabled;
  sample_interval = u64_or (get g (text "sample_interval")) cfg.sample_interval;
  lan_prefixes = prefixes_or (parse_prefixes (get_all g (text "lan_prefix"))) cfg.lan_prefixes;
  retention = record cfg.retention {
    min_secs = secs_or 3600 (get g (text "retention_hours_min")) cfg.retention.min_secs;
    hour_secs = secs_or 86400 (get g (text "retention_days_hour")) cfg.retention.hour_secs;
    day_secs = secs_or 86400 (get g (text "retention_days_day")) cfg.retention.day_secs;
  };
  db_path = or_default (get g (text "db_path")) cfg.db_path;
  dns_stats_enabled = flag (get g (text "dns_stats_enabled")) cfg.dns_stats_enabled;
  dns_iface = or_default (get g (text "dns_iface")) cfg.dns_iface;
  dns_flush_secs = u64_or (get g (text "dns_flush_secs")) cfg.dns_flush_secs;
  dns_top_n = u64_or (get g (text "dns_top_n")) cfg.dns_top_n;
}

abbrev pub find_kind : Str → List Section → Option Section
find_kind kind [] = none
find_kind kind (s ∷ ss) = ite (Str-discrete s.kind kind) (some s) (find_kind kind ss)

unfoldable pub parse_uci : Str → Config
unfolding split_sections apply_section
parse_uci t = elim (find_kind (text "overwatch") (split_sections t)) [
  | none ↦ default_config
  | some g ↦ apply_section g default_config
]
