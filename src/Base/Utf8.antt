-- ===== src/Base/Utf8.antt =====
-- `std::str::from_utf8`: the text that bytes encode, or nothing if they are not UTF-8.
use luci_app_overwatch.Base.{
  ℕ, ◌+◌, ◌-◌, ◌*◌, ◌<◌, ◌≡◌, refl, ◌&&◌, List, [], ◌∷◌, Option, none, some, arith, ltb, leb, ◌==◌,
  if◌then◌else◌,
}
use luci_app_overwatch.Base.Text.{Str}
use mathlib.Core.Option

-- Inside a character: the bytes still to come, the bounds of the next one, and the bits so far.
pub record Partial : Type 0 where
  pub need : ℕ
  pub lo : ℕ
  pub hi : ℕ
  pub acc : ℕ

abbrev pub ready : Partial
ready = record { need = 0; lo = 0; hi = 0; acc = 0 }

abbrev expect : ℕ → ℕ → ℕ → ℕ → Option Partial
expect need lo hi acc = some (record { need = need; lo = lo; hi = hi; acc = acc })

-- A leading byte. The bounds rule out overlong forms, surrogates and what lies past U+10FFFF.
lead : ℕ → Option Partial
lead b =
    if ltb b 0x80
    then expect 0 0 0 b
    else if ltb b 0xC2
    then none
    else if ltb b 0xE0
    then expect 1 0x80 0xBF (b - 0xC0)
    else if b == 0xE0
    then expect 2 0xA0 0xBF 0
    else if b == 0xED
    then expect 2 0x80 0x9F 13
    else if ltb b 0xF0
    then expect 2 0x80 0xBF (b - 0xE0)
    else if b == 0xF0
    then expect 3 0x90 0xBF 0
    else if ltb b 0xF4
    then expect 3 0x80 0xBF (b - 0xF0)
    else if b == 0xF4
    then expect 3 0x80 0x8F 4
    else none

next_byte : Partial → ℕ → Option Partial
unfolding lead
next_byte p b =
    if p.need == 0
    then lead b
    else if leb p.lo b && leb b p.hi
    then expect (p.need - 1) 0x80 0xBF (p.acc * 64 + (b - 0x80))
    else none

abbrev emit : Partial → Option Str → Option Str
emit p rest = if p.need == 0 then Option.map (λ s. p.acc ∷ s) rest else rest

unfoldable pub decode_from : Partial → List ℕ → Option Str
unfolding next_byte
decode_from p [] = if p.need == 0 then some [] else none
decode_from p (b ∷ bs) = elim (next_byte p b) [ none ↦ none | some q ↦ emit q (decode_from q bs) ]

unfoldable pub from_utf8 : List ℕ → Option Str
unfolding decode_from
from_utf8 bs = decode_from ready bs

abbrev pub IsAscii : List ℕ → Type 0
IsAscii [] = Unit
IsAscii (b ∷ bs) = (b < 0x80) × IsAscii bs

decode_ascii : (p : Partial) (bs : List ℕ) → p.need ≡ 0 → IsAscii bs → decode_from p bs ≡ some bs
unfolding decode_from
decode_ascii p [] e h = ground arith
decode_ascii p (b ∷ bs) e h =
    ground (arith, decode_ascii (record { need = 0; lo = 0; hi = 0; acc = b }) bs)

-- ASCII bytes are their own text.
pub from_utf8-IsAscii : (bs : List ℕ) → IsAscii bs → from_utf8 bs ≡ some bs
unfolding from_utf8
from_utf8-IsAscii bs h = decode_ascii ready bs refl h

-- The euro sign, a surrogate, an overlong slash and a cut-off character.
from_utf8_samples :
    (from_utf8 (0x61 ∷ 0xE2 ∷ 0x82 ∷ 0xAC ∷ []) ≡ some (0x61 ∷ 0x20AC ∷ []))
    × (from_utf8 (0xED ∷ 0xA0 ∷ 0x80 ∷ []) ≡ none)
    × (from_utf8 (0xC0 ∷ 0xAF ∷ []) ≡ none)
    × (from_utf8 (0xF0 ∷ 0x9F ∷ []) ≡ none)
unfolding from_utf8
from_utf8_samples = (refl, refl, refl, refl)
