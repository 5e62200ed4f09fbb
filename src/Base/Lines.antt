-- ===== src/Base/Lines.antt =====
-- Cutting a text: the standard library's `trim`, `lines` and `split_whitespace`.
use luci_app_overwatch.Base.{
  ℕ, Bool, true, false, ◌&&◌, ◌||◌, List, [], ◌∷◌, ◌++◌, ◌≡◌, refl, leb, ◌==◌,
}
use luci_app_overwatch.Base.Text.{Str, text}

-- `char::is_whitespace`: the property `White_Space`.
abbrev pub is_whitespace : ℕ → Bool
is_whitespace c =
    (leb 9 c && leb c 13)
    || c == 32
    || c == 133
    || c == 160
    || c == 5760
    || (leb 8192 c && leb c 8202)
    || c == 8232
    || c == 8233
    || c == 8239
    || c == 8287
    || c == 12288

abbrev pub trim_start : Str → Str
trim_start [] = []
trim_start (c ∷ s) = elim (is_whitespace c) [ true ↦ trim_start s | false ↦ c ∷ s ]

abbrev pub drop_blank : ℕ → Str → Str
drop_blank c [] = elim (is_whitespace c) [ true ↦ [] | false ↦ c ∷ [] ]
drop_blank c (d ∷ s) = c ∷ d ∷ s

abbrev pub trim_end : Str → Str
trim_end [] = []
trim_end (c ∷ s) = drop_blank c (trim_end s)

abbrev pub trim : Str → Str
trim s = trim_end (trim_start s)

-- The word read so far, if there is one, and then the others.
abbrev pub end_word : Str → List Str → List Str
end_word [] ws = ws
end_word (c ∷ w) ws = (c ∷ w) ∷ ws

abbrev pub words_from : Str → Str → List Str
words_from word [] = end_word word []
words_from word (c ∷ s) = elim (is_whitespace c) [
  | true ↦ end_word word (words_from [] s)
  | false ↦ words_from (word ++ c ∷ []) s
]

abbrev pub split_whitespace : Str → List Str
split_whitespace s = words_from [] s

-- A line without the carriage return that ends it.
abbrev pub without_cr : Str → Str
without_cr [] = []
without_cr (c ∷ []) = elim (c == 13) [ true ↦ [] | false ↦ c ∷ [] ]
without_cr (c ∷ d ∷ s) = c ∷ without_cr (d ∷ s)

-- The last line counts if there is something in it, and keeps its carriage return.
abbrev pub lines_from : Str → Str → List Str
lines_from line [] = end_word line []
lines_from line (c ∷ s) = elim (c == 10) [
  | true ↦ without_cr line ∷ lines_from [] s
  | false ↦ lines_from (line ++ c ∷ []) s
]

abbrev pub lines : Str → List Str
lines s = lines_from [] s

trimmed : trim (text "  a b ") ≡ text "a b"
trimmed = refl

words_split : split_whitespace (text " ab  c ") ≡ text "ab" ∷ text "c" ∷ []
words_split = refl

lines_split : lines (10 ∷ text "ab" ++ 13 ∷ 10 ∷ text "c") ≡ [] ∷ text "ab" ∷ text "c" ∷ []
lines_split = refl
