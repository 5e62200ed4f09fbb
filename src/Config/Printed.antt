-- ===== src/Config/Printed.antt =====
-- Sections written out as UCI does, and read back.
use luci_app_overwatch.Base.{
  ℕ, ◌≡◌, refl, sym, ap, ap₂, ◌∙◌, subst, false, List, [], ◌∷◌, ◌++◌, map, append-nil, append_assoc,
  some, arith, ◌==◌, ==_iff, Bool-cases, inl, inr,
}
use luci_app_overwatch.Base.Lines.{
  is_whitespace, trim, trim_end, drop_blank, lines, lines_from, without_cr, split_whitespace,
}
use luci_app_overwatch.Base.Text.{Str, text}
use luci_app_overwatch.Base.Tokens.{HasNoSpace, IsWord, split_whitespace-spaced}
use luci_app_overwatch.Config.{
  Section, is_quote, drop_quotes, drop_end_quotes, end_quote, unquote, first_word, split_key,
  after_key, add_option, with_option, trimmed_line, section_line, split_sections,
}
use mathlib.Core.List.{foldl}

-- A value: no quotes and no line ends in it.
abbrev pub IsValue : Str → Type 0
IsValue [] = Unit
IsValue (c ∷ s) = (is_quote c ≡ false) × ((c == 10) ≡ false) × IsValue s

abbrev pub AreOptions : List (Str × Str) → Type 0
AreOptions [] = Unit
AreOptions ((k, v) ∷ os) = HasNoSpace k × IsValue v × AreOptions os

abbrev pub AreSections : List Section → Type 0
AreSections [] = Unit
AreSections (s ∷ ss) = IsWord s.kind × AreOptions s.options × AreSections ss

abbrev pub option_line : Str × Str → Str
option_line (k, v) = 9 ∷ text "option " ++ (k ++ 32 ∷ 39 ∷ (v ++ 39 ∷ []))

abbrev pub config_line : Str → Str
config_line kind = text "config " ++ kind

abbrev pub lines_of : List Section → List Str
lines_of [] = []
lines_of (s ∷ ss) = config_line s.kind ∷ (map option_line s.options ++ lines_of ss)

-- Every line with its line end.
abbrev pub print_lines : List Str → Str
print_lines [] = []
print_lines (l ∷ ls) = l ++ 10 ∷ print_lines ls

abbrev HasNoEnd : Str → Type 0
HasNoEnd [] = Unit
HasNoEnd (c ∷ s) = ((c == 10) ≡ false) × HasNoEnd s

lines_from-append :
    (acc l rest : Str)
    → HasNoEnd l
    → lines_from acc (l ++ 10 ∷ rest) ≡ without_cr (acc ++ l) ∷ lines_from [] rest
lines_from-append acc [] rest h = ap (λ a. without_cr a ∷ lines_from [] rest) (sym (append-nil acc))
lines_from-append acc (c ∷ l) rest h =
    rw (h.0, lines_from)
      (lines_from-append (acc ++ c ∷ []) l rest h.1
        ∙ ap (λ a. without_cr a ∷ lines_from [] rest) (append_assoc acc (c ∷ []) l))

-- A line that stays whole: no line end inside, and no carriage return at the end.
abbrev IsLine : Str → Type 0
IsLine l = HasNoEnd l × (without_cr l ≡ l)

abbrev AreLines : List Str → Type 0
AreLines [] = Unit
AreLines (l ∷ ls) = IsLine l × AreLines ls

lines-print_lines : (ls : List Str) → AreLines ls → lines (print_lines ls) ≡ ls
lines-print_lines [] h = refl
lines-print_lines (l ∷ ls) h =
    lines_from-append [] l (print_lines ls) h.0.0 ∙ ap₂ ◌∷◌ h.0.1 (lines-print_lines ls h.1)

-- Trimming leaves a text that ends in a word.
trim_end-HasNoSpace : (s : Str) → HasNoSpace s → trim_end s ≡ s
trim_end-HasNoSpace [] h = refl
trim_end-HasNoSpace (c ∷ []) h = rw (h.0, drop_blank) refl
trim_end-HasNoSpace (c ∷ d ∷ s) h = ap (drop_blank c) (trim_end-HasNoSpace (d ∷ s) h.1)

trim_end-append : (w s : Str) → IsWord s → trim_end (w ++ s) ≡ w ++ s
trim_end-append [] s h = trim_end-IsWord s h
  where
    trim_end-IsWord : (s : Str) → IsWord s → trim_end s ≡ s
    trim_end-IsWord [] h = absurd h
    trim_end-IsWord (c ∷ s) h = trim_end-HasNoSpace (c ∷ s) h
trim_end-append (x ∷ []) [] h = absurd h
trim_end-append (x ∷ []) (c ∷ s) h = ap (drop_blank x) (trim_end-append [] (c ∷ s) h)
trim_end-append (x ∷ y ∷ w) s h = ap (drop_blank x) (trim_end-append (y ∷ w) s h)

split_key-append : (k rest : Str) → HasNoSpace k → split_key (k ++ 32 ∷ rest) ≡ some (k, rest)
split_key-append [] rest h = refl
split_key-append (c ∷ k) rest h =
    rw (h.0, split_key) (ap (after_key c) (split_key-append k rest h.1))

drop_end_quotes-append : (v : Str) → IsValue v → drop_end_quotes (v ++ 39 ∷ []) ≡ v
drop_end_quotes-append [] h = refl
drop_end_quotes-append (c ∷ []) h = rw (h.0, end_quote) refl
drop_end_quotes-append (c ∷ d ∷ v) h = ap (end_quote c) (drop_end_quotes-append (d ∷ v) h.2)

drop_both : (v : Str) → IsValue v → drop_end_quotes (drop_quotes (v ++ 39 ∷ [])) ≡ v
drop_both [] h = refl
drop_both (c ∷ v) h = rw (h.0, drop_quotes) (drop_end_quotes-append (c ∷ v) h)

unquote_lem : (v : Str) → IsValue v → unquote (39 ∷ (v ++ 39 ∷ [])) ≡ v
unfolding unquote
unquote_lem v h =
    ap (λ s. drop_end_quotes (drop_quotes s)) (trim_end-append (39 ∷ v) (39 ∷ []) (refl, tt))
    ∙ drop_both v h

-- An option's line adds the option to the last section.
section_line-option_line :
    (out : List Section) (k v : Str)
    → HasNoSpace k
    → IsValue v
    → section_line out (option_line (k, v)) ≡ add_option out (k, v)
unfolding section_line
section_line-option_line out k v h q =
    ap (trimmed_line out) whole
    ∙ ap (with_option out) (split_key-append k (39 ∷ (v ++ 39 ∷ [])) h)
    ∙ ap (λ u. add_option out (k, u)) (unquote_lem v q)
  where
    whole : trim (option_line (k, v)) ≡ text "option " ++ (k ++ 32 ∷ 39 ∷ (v ++ 39 ∷ []))
    whole =
        ap (λ s. trim_end (text "option " ++ s)) (sym (append_assoc k (32 ∷ 39 ∷ v) (39 ∷ [])))
        ∙ trim_end-append (text "option " ++ (k ++ 32 ∷ 39 ∷ v)) (39 ∷ []) (refl, tt)
        ∙ ap (λ s. text "option " ++ s) (append_assoc k (32 ∷ 39 ∷ v) (39 ∷ []))

section_line-config_line :
    (out : List Section) (kind : Str)
    → IsWord kind
    → section_line out (config_line kind) ≡ out ++ record { kind = kind; options = [] } ∷ []
unfolding section_line
section_line-config_line out kind h =
    ap (trimmed_line out) (trim_end-append (text "config ") kind h)
    ∙ ap (λ w. out ++ record { kind = first_word w; options = [] } ∷ [])
        (ap split_whitespace (sym (append-nil kind))
          ∙ split_whitespace-spaced ((kind, []) ∷ []) (h, tt) tt)

add_option-append :
    (out : List Section) (s : Section) (kv : Str × Str)
    → add_option (out ++ s ∷ []) kv ≡ out ++ record s { options = s.options ++ kv ∷ [] } ∷ []
add_option-append [] s kv = refl
add_option-append (x ∷ []) s kv = refl
add_option-append (x ∷ y ∷ out) s kv = ap (◌∷◌ x) (add_option-append (y ∷ out) s kv)

foldl-options :
    (out : List Section) (kind : Str) (done os : List (Str × Str))
    → AreOptions os
    → foldl section_line (out ++ record { kind = kind; options = done } ∷ []) (map option_line os)
      ≡ out ++ record { kind = kind; options = done ++ os } ∷ []
foldl-options out kind done [] h =
    ap (λ l. out ++ record { kind = kind; options = l } ∷ []) (sym (append-nil done))
foldl-options out kind done ((k, v) ∷ os) h =
    ap (λ o. foldl section_line o (map option_line os))
      (section_line-option_line (out ++ record { kind = kind; options = done } ∷ []) k v h.0 h.1
        ∙ add_option-append out (record { kind = kind; options = done }) (k, v))
    ∙ foldl-options out kind (done ++ (k, v) ∷ []) os h.2
    ∙ ap (λ l. out ++ record { kind = kind; options = l } ∷ []) (append_assoc done ((k, v) ∷ []) os)

foldl-line-append :
    (out : List Section) (xs ys : List Str)
    → foldl section_line out (xs ++ ys) ≡ foldl section_line (foldl section_line out xs) ys
foldl-line-append out [] ys = refl
foldl-line-append out (x ∷ xs) ys = foldl-line-append (section_line out x) xs ys

foldl-lines_of :
    (out ss : List Section) → AreSections ss → foldl section_line out (lines_of ss) ≡ out ++ ss
foldl-lines_of out [] h = sym (append-nil out)
foldl-lines_of out (s ∷ ss) h =
    ap (λ o. foldl section_line o (map option_line s.options ++ lines_of ss))
      (section_line-config_line out s.kind h.0)
    ∙ foldl-line-append (out ++ record { kind = s.kind; options = [] } ∷ [])
        (map option_line s.options) (lines_of ss)
    ∙ ap (λ o. foldl section_line o (lines_of ss)) (foldl-options out s.kind [] s.options h.1)
    ∙ foldl-lines_of (out ++ s ∷ []) ss h.2
    ∙ append_assoc out (s ∷ []) ss

-- The lines of sections stay whole.
no_end : (c : ℕ) → is_whitespace c ≡ false → (c == 10) ≡ false
no_end c h = elim (Bool-cases (c == 10)) [
  | inl e ↦
      let bad : is_whitespace 10 ≡ false =
        subst (λ d. is_whitespace d ≡ false) ((==_iff c 10).0 e) h in
      absurd (cc bad)
  | inr e ↦ e
]

HasNoEnd-HasNoSpace : (s : Str) → HasNoSpace s → HasNoEnd s
HasNoEnd-HasNoSpace [] h = tt
HasNoEnd-HasNoSpace (c ∷ s) h = (no_end c h.0, HasNoEnd-HasNoSpace s h.1)

HasNoEnd-IsValue : (s : Str) → IsValue s → HasNoEnd s
HasNoEnd-IsValue [] h = tt
HasNoEnd-IsValue (c ∷ s) h = (h.1, HasNoEnd-IsValue s h.2)

HasNoEnd-append : (xs ys : Str) → HasNoEnd xs → HasNoEnd ys → HasNoEnd (xs ++ ys)
HasNoEnd-append [] ys h k = k
HasNoEnd-append (x ∷ xs) ys h k = (h.0, HasNoEnd-append xs ys h.1 k)

-- A text that ends in a word does not end in a carriage return.
without_cr-HasNoSpace : (s : Str) → HasNoSpace s → without_cr s ≡ s
without_cr-HasNoSpace [] h = refl
without_cr-HasNoSpace (c ∷ []) h = elim (Bool-cases (c == 13)) [
  | inl e ↦
      let bad : is_whitespace 13 ≡ false =
        subst (λ d. is_whitespace d ≡ false) ((==_iff c 13).0 e) h.0 in
      absurd (cc bad)
  | inr e ↦ rw (e, without_cr) refl
]
without_cr-HasNoSpace (c ∷ d ∷ s) h = ap (◌∷◌ c) (without_cr-HasNoSpace (d ∷ s) h.1)

without_cr-append : (w s : Str) → IsWord s → without_cr (w ++ s) ≡ w ++ s
without_cr-append w [] h = absurd h
without_cr-append [] (c ∷ s) h = without_cr-HasNoSpace (c ∷ s) h
without_cr-append (x ∷ []) (c ∷ s) h = ap (◌∷◌ x) (without_cr-append [] (c ∷ s) h)
without_cr-append (x ∷ y ∷ w) (c ∷ s) h = ap (◌∷◌ x) (without_cr-append (y ∷ w) (c ∷ s) h)

IsLine-option_line : (k v : Str) → HasNoSpace k → IsValue v → IsLine (option_line (k, v))
IsLine-option_line k v h q = (
  HasNoEnd-append (9 ∷ text "option ") _ (ground arith) (
      HasNoEnd-append k (32 ∷ 39 ∷ (v ++ 39 ∷ [])) (HasNoEnd-HasNoSpace k h)
        (refl, (refl, HasNoEnd-append v (39 ∷ []) (HasNoEnd-IsValue v q) (refl, tt)))),
  ap (λ s. without_cr (9 ∷ text "option " ++ s)) (sym (append_assoc k (32 ∷ 39 ∷ v) (39 ∷ [])))
      ∙ without_cr-append (9 ∷ text "option " ++ (k ++ 32 ∷ 39 ∷ v)) (39 ∷ []) (refl, tt)
      ∙ ap (λ s. 9 ∷ text "option " ++ s) (append_assoc k (32 ∷ 39 ∷ v) (39 ∷ [])),
)

IsLine-config_line : (kind : Str) → IsWord kind → IsLine (config_line kind)
IsLine-config_line [] h = absurd h
IsLine-config_line (c ∷ kind) h = (
  HasNoEnd-append (text "config ") (c ∷ kind) (ground arith) (HasNoEnd-HasNoSpace (c ∷ kind) h),
  without_cr-append (text "config ") (c ∷ kind) h,
)

AreLines-options :
    (os : List (Str × Str)) (ls : List Str)
    → AreOptions os
    → AreLines ls
    → AreLines (map option_line os ++ ls)
AreLines-options [] ls h k = k
AreLines-options ((o, v) ∷ os) ls h k =
    (IsLine-option_line o v h.0 h.1, AreLines-options os ls h.2 k)

AreLines-lines_of : (ss : List Section) → AreSections ss → AreLines (lines_of ss)
AreLines-lines_of [] h = tt
AreLines-lines_of (s ∷ ss) h = (
  IsLine-config_line s.kind h.0,
  AreLines-options s.options (lines_of ss) h.1 (AreLines-lines_of ss h.2),
)

-- Sections written out, each kind a word, each option on a line of its own behind a tab with its
-- value in single quotes, are read back as they are: kinds and keys without white space, the kinds
-- not empty, and values without quotes and line ends (they may be empty or have spaces in them).
pub split_sections-print_lines :
    (ss : List Section) → AreSections ss → split_sections (print_lines (lines_of ss)) ≡ ss
unfolding split_sections
split_sections-print_lines ss h =
    ap (foldl section_line []) (lines-print_lines (lines_of ss) (AreLines-lines_of ss h))
    ∙ foldl-lines_of [] ss h
