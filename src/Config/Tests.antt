-- ===== src/Config/Tests.antt =====
-- The file of the source's tests, and settings that are refused.
use luci_app_overwatch.Base.{◌*◌, ◌≡◌, refl, List, [], ◌∷◌, ◌++◌, arith, ℕ_discrete}
use luci_app_overwatch.Base.Int.{pos, negsuc, mul_i64}
use luci_app_overwatch.Base.Ip.{v4}
use luci_app_overwatch.Base.Read.{parse_ip, parse_uint, parse_i64}
use luci_app_overwatch.Base.Text.{Str, Str-discrete, text}
use luci_app_overwatch.Config.Printed.{print_lines, lines_of, split_sections-print_lines}
use luci_app_overwatch.Config.{
  Section, default_config, default_retention, parse_uci, split_sections, unquote,
}

abbrev sample : Str
sample =
    10 ∷ text "config overwatch 'global'"
    ++ 10 ∷ text "    option sample_interval '5'"
    ++ 10 ∷ text "    option retention_hours_min '24'"
    ++ 10 ∷ text "    option retention_days_hour '-3'"
    ++ 10 ∷ text "    list lan_prefix '192.168.1.0/24'"
    ++ 10 ∷ text "    list lan_prefix '10.0.0.0/8'"
    ++ 10 ∷ []

global_section : parse_uci sample ≡ record default_config {
  sample_interval = 5;
  retention = record default_retention { min_secs = pos (24 * 3600) };
  lan_prefixes =
      record { addr = v4 3232235776; prefix_len = 24 }
      ∷ record { addr = v4 167772160; prefix_len = 8 }
      ∷ [];
}
unfolding parse_uci unquote parse_ip parse_uint parse_i64 Str-discrete ℕ_discrete mul_i64
global_section = refl

empty_text : parse_uci [] ≡ default_config
unfolding parse_uci
empty_text = refl

-- A number of hours that is not negative becomes a negative number of seconds.
wrapped :
    (parse_uci (
      text "config overwatch"
      ++ 10 ∷ text "option retention_hours_min 2562047788015216")).retention.min_secs
    ≡ negsuc 9223372036854774015
unfolding parse_uci unquote parse_ip parse_uint parse_i64 Str-discrete ℕ_discrete mul_i64
wrapped = refl

abbrev written : List Section
written =
    record {
      kind = text "overwatch";
      options = (text "db_path", text "/tmp/my db") ∷ (text "enabled", []) ∷ [];
    }
    ∷ record { kind = text "other"; options = [] }
    ∷ []

printed_example : split_sections (print_lines (lines_of written)) ≡ written
printed_example = split_sections-print_lines written (ground arith)
