-- ===== src/Probe.antt =====
-- src/probe.rs: what the kernel offers, read from texts under /proc.
use luci_app_overwatch.Base.{
  ℕ, Bool, true, false, ◌||◌, List, [], ◌∷◌, Option, none, some, ltb, ite, if◌then◌else◌,
}
use luci_app_overwatch.Base.Lines.{trim, lines, split_whitespace}
use luci_app_overwatch.Base.Text.{Str, Str-discrete, text}

pub record ProbeStatus : Type 0 where
  pub conntrack_acct : Bool
  pub btf : Bool
  pub clsact : Bool
  pub hw_stats_advancing : Option Bool

abbrev is_text : Str → Str → Bool
is_text a b = ite (Str-discrete a b) true false

unfoldable pub parse_acct : Str → Bool
parse_acct sysctl_value = is_text (trim sysctl_value) (text "1")

abbrev starts_with_word : Str → List Str → Bool
starts_with_word name [] = false
starts_with_word name (w ∷ ws) = is_text w name

abbrev any_line : Str → List Str → Bool
any_line name [] = false
any_line name (l ∷ ls) = starts_with_word name (split_whitespace l) || any_line name ls

unfoldable pub modules_has : Str → Str → Bool
modules_has proc_modules name = any_line name (lines proc_modules)

-- A counter that went back says nothing.
unfoldable pub hw_stats_advancing : ℕ → ℕ → Option Bool
hw_stats_advancing prev_total cur_total =
    if ltb cur_total prev_total then none else some (ltb prev_total cur_total)

unfoldable pub gather : Str → Bool → Str → ProbeStatus
unfolding parse_acct modules_has
gather acct btf_present proc_modules = record {
  conntrack_acct = parse_acct acct;
  btf = btf_present;
  clsact =
      modules_has proc_modules (text "sch_ingress") || modules_has proc_modules (text "ingress");
  hw_stats_advancing = none;
}
