-- ===== src/Base/Tokens.antt =====
-- Words written with white space between them are the words that `split_whitespace` finds.
use luci_app_overwatch.Base.{
  ℕ, true, ◌≢◌, ◌≡◌, refl, sym, ap, ◌∙◌, false, List, [], ◌∷◌, ◌++◌, append-nil, append_assoc,
}
use luci_app_overwatch.Base.Lines.{is_whitespace, split_whitespace, words_from}
use luci_app_overwatch.Base.Text.{Str}

abbrev pub HasNoSpace : Str → Type 0
HasNoSpace [] = Unit
HasNoSpace (c ∷ s) = (is_whitespace c ≡ false) × HasNoSpace s

abbrev pub IsWord : Str → Type 0
IsWord [] = ⊥
IsWord (c ∷ s) = HasNoSpace (c ∷ s)

abbrev pub AreWords : List Str → Type 0
AreWords [] = Unit
AreWords (w ∷ ws) = IsWord w × AreWords ws

words_from-append :
    (acc w rest : Str) → HasNoSpace w → words_from acc (w ++ rest) ≡ words_from (acc ++ w) rest
words_from-append acc [] rest h = ap (λ a. words_from a rest) (sym (append-nil acc))
words_from-append acc (c ∷ w) rest h =
    rw (h.0, words_from)
      (words_from-append (acc ++ c ∷ []) w rest h.1
        ∙ ap (λ a. words_from a rest) (append_assoc acc (c ∷ []) w))

pub AreWords-append : (xs ys : List Str) → AreWords xs → AreWords ys → AreWords (xs ++ ys)
AreWords-append [] ys h k = k
AreWords-append (x ∷ xs) ys h k = (h.0, AreWords-append xs ys h.1 k)

-- Words with the white space behind each of them: some between two words, and maybe some at the end.
abbrev pub Spaced : Type 0
Spaced = List (Str × Str)

abbrev pub words_of : Spaced → List Str
words_of [] = []
words_of ((w, gap) ∷ l) = w ∷ words_of l

abbrev pub spaced : Spaced → Str
spaced [] = []
spaced ((w, gap) ∷ l) = w ++ (gap ++ spaced l)

abbrev pub IsBlank : Str → Type 0
IsBlank [] = Unit
IsBlank (c ∷ s) = (is_whitespace c ≡ true) × IsBlank s

abbrev pub AreSpaced : Spaced → Type 0
AreSpaced [] = Unit
AreSpaced ((w, gap) ∷ []) = IsBlank gap
AreSpaced ((w, gap) ∷ e ∷ l) = (gap ≢ []) × IsBlank gap × AreSpaced (e ∷ l)

words_from-IsBlank :
    (gap rest : Str) → IsBlank gap → words_from [] (gap ++ rest) ≡ words_from [] rest
words_from-IsBlank [] rest h = refl
words_from-IsBlank (c ∷ gap) rest h = rw (h.0, words_from) (words_from-IsBlank gap rest h.1)

-- A word ends at the white space behind it.
words_from-gap :
    (c : ℕ) (w gap rest : Str)
    → IsBlank gap
    → gap ≢ []
    → words_from (c ∷ w) (gap ++ rest) ≡ (c ∷ w) ∷ words_from [] rest
words_from-gap c w [] rest h ne = absurd (ne refl)
words_from-gap c w (d ∷ gap) rest h ne =
    rw (h.0, words_from) (ap (λ ws. (c ∷ w) ∷ ws) (words_from-IsBlank gap rest h.1))

words_from-end : (c : ℕ) (w gap : Str) → IsBlank gap → words_from (c ∷ w) (gap ++ []) ≡ (c ∷ w) ∷ []
words_from-end c w [] h = refl
words_from-end c w (d ∷ gap) h = words_from-gap c w (d ∷ gap) [] h (λ e. cc e)

pub split_whitespace-spaced :
    (l : Spaced) → AreWords (words_of l) → AreSpaced l → split_whitespace (spaced l) ≡ words_of l
split_whitespace-spaced [] h k = refl
split_whitespace-spaced (([], gap) ∷ l) h k = absurd h.0
split_whitespace-spaced ((c ∷ w, gap) ∷ []) h k =
    words_from-append [] (c ∷ w) (gap ++ []) h.0 ∙ words_from-end c w gap k
split_whitespace-spaced ((c ∷ w, gap) ∷ e ∷ l) h k =
    words_from-append [] (c ∷ w) (gap ++ spaced (e ∷ l)) h.0
    ∙ words_from-gap c w gap (spaced (e ∷ l)) k.1 k.0
    ∙ ap (λ ws. (c ∷ w) ∷ ws) (split_whitespace-spaced (e ∷ l) h.1 k.2)
