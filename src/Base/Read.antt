-- ===== src/Base/Read.antt =====
-- Values out of texts: the standard library's `parse` for unsigned and signed integers and for
-- `IpAddr`, and `strip_prefix`.
use luci_app_overwatch.Base.{
  ℕ, zero, suc, ◌+◌, ◌-◌, ◌*◌, ◌/◌, ◌%◌, ◌^◌, ◌≡◌, refl, Bool, true, false, not, ◌&&◌, List, [],
  ◌∷◌, ◌++◌, Option, none, some, ltb, leb, ◌==◌, if◌then◌else◌, length, replicate,
}
use luci_app_overwatch.Base.Int.{ℤ, pos, sub_ℕ}
use luci_app_overwatch.Base.Ip.{IpAddr, v4, v6}
use luci_app_overwatch.Base.Text.{Str, text}
use mathlib.Core.List.{foldl}

infixl 5 ◌>>=◌
abbrev ◌>>=◌ {ℓ κ} : {A : Type ℓ} {B : Type κ} → Option A → (A → Option B) → Option B
none >>= f = none
some a >>= f = f a

-- `char::to_digit`
abbrev digit_of : ℕ → ℕ → Option ℕ
digit_of radix c =
    let d =
      if leb 48 c && leb c 57
      then c - 48
      else if leb 97 c && leb c 102
      then c - 87
      else if leb 65 c && leb c 70
      then c - 55
      else 99 in
    if ltb d radix then some d else none

-- All characters as digits, and the digits at the front with what follows them.
abbrev all_digits : ℕ → Str → Option (List ℕ)
all_digits radix [] = some []
all_digits radix (c ∷ s) = do d ← digit_of radix c; ds ← all_digits radix s; some (d ∷ ds)

abbrev push_digit : ℕ → List ℕ × Str → List ℕ × Str
push_digit d (ds, rest) = (d ∷ ds, rest)

abbrev front_digits : ℕ → Str → List ℕ × Str
front_digits radix [] = ([], [])
front_digits radix (c ∷ s) = elim (digit_of radix c) [
  | none ↦ ([], c ∷ s)
  | some d ↦ push_digit d (front_digits radix s)
]

abbrev number_of : ℕ → List ℕ → ℕ
number_of radix = foldl (λ n d. n * radix + d) 0

abbrev below : ℕ → ℕ → Option ℕ
below limit n = if ltb n limit then some n else none

abbrev digits_below : ℕ → Str → Option ℕ
digits_below limit [] = none
digits_below limit (c ∷ s) = all_digits 10 (c ∷ s) >>= λ ds. below limit (number_of 10 ds)

-- `s.parse()` of an unsigned type with this many values: a plus sign may stand before the digits.
unfoldable pub parse_uint : ℕ → Str → Option ℕ
parse_uint limit [] = none
parse_uint limit (c ∷ s) = if c == b'+' then digits_below limit s else digits_below limit (c ∷ s)

-- `s.parse::<i64>()`
unfoldable pub parse_i64 : Str → Option ℤ
parse_i64 [] = none
parse_i64 (c ∷ s) =
    if c == b'-'
    then (digits_below (2 ^ 63 + 1) s >>= λ n. some (sub_ℕ 0 n))
    else if c == b'+'
    then (digits_below (2 ^ 63) s >>= λ n. some (pos n))
    else (digits_below (2 ^ 63) (c ∷ s) >>= λ n. some (pos n))

abbrev pub strip_prefix : Str → Str → Option Str
strip_prefix [] s = some s
strip_prefix (p ∷ ps) [] = none
strip_prefix (p ∷ ps) (c ∷ s) = elim (p == c) [ true ↦ strip_prefix ps s | false ↦ none ]

-- The reader of addresses: a value and the text behind it.
abbrev Read : Type 0 → Type 0
Read A = Option (A × Str)

abbrev given : ℕ → Str → Option Str
given c [] = none
given c (d ∷ s) = if c == d then some s else none

abbrev starts_with_zero : List ℕ → Bool
starts_with_zero [] = false
starts_with_zero (d ∷ ds) = d == 0

-- `read_number`: at most so many digits, of a number below the limit; a zero in front of others
-- only if it is allowed.
abbrev read_number : ℕ → ℕ → Bool → ℕ → Str → Read ℕ
read_number radix most zeros limit s =
    let (ds, rest) = front_digits radix s in
    if length ds == 0
    then none
    else if ltb most (length ds)
    then none
    else if not zeros && (starts_with_zero ds && ltb 1 (length ds))
    then none
    else (below limit (number_of radix ds) >>= λ n. some (n, rest))

abbrev read_octet : Str → Read ℕ
read_octet = read_number 10 3 false 256

abbrev read_v4 : Str → Read ℕ
read_v4 s = do
  (a, s1) ← read_octet s
  t1 ← given b'.' s1
  (b, s2) ← read_octet t1
  t2 ← given b'.' s2
  (c, s3) ← read_octet t2
  t3 ← given b'.' s3
  (d, s4) ← read_octet t3
  some (number_of 256 (a ∷ b ∷ c ∷ d ∷ []), s4)

-- A colon before every group but the first.
abbrev behind_colon : Bool → Str → Option Str
behind_colon true s = some s
behind_colon false s = given b':' s

abbrev read_group : Bool → Str → Read ℕ
read_group first s = behind_colon first s >>= read_number 16 4 true (2 ^ 16)

-- `i < limit - 1`: an IPv4 address takes two groups.
abbrev read_tail_v4 : ℕ → Bool → Str → Read ℕ
read_tail_v4 zero first s = none
read_tail_v4 (suc k) first s = behind_colon first s >>= read_v4

abbrev Groups : Type 0
Groups = List ℕ × Bool × Str

abbrev push_group : ℕ → Groups → Groups
push_group g (gs, tail_v4, rest) = (g ∷ gs, tail_v4, rest)

-- `read_groups`: the groups, whether an IPv4 address ended them, and what follows.
abbrev read_groups : ℕ → Bool → Str → Groups
read_groups zero first s = ([], false, s)
read_groups (suc left) first s = elim (read_tail_v4 left first s) [
  | some (n, rest) ↦ (n / 2 ^ 16 ∷ n % 2 ^ 16 ∷ [], true, rest)
  | none ↦ elim (read_group first s) [
    | some (g, rest) ↦ push_group g (read_groups left false rest)
    | none ↦ ([], false, s)
  ]
]

abbrev gap : List ℕ → List ℕ → List ℕ
gap head tail = head ++ replicate (8 - length head - length tail) 0 ++ tail

abbrev read_v6 : Str → Read ℕ
read_v6 s =
    let (head, tail_v4, s1) = read_groups 8 true s in
    if length head == 8 then some (number_of (2 ^ 16) head, s1) else if tail_v4 then none else do
      t1 ← given b':' s1
      t2 ← given b':' t1
      let (tail, _, s2) = read_groups (8 - (length head + 1)) true t2
      some (number_of (2 ^ 16) (gap head tail), s2)

abbrev whole : (ℕ → IpAddr) → ℕ × Str → Option IpAddr
whole f (n, []) = some (f n)
whole f (n, c ∷ s) = none

-- `s.parse::<IpAddr>()`: the first of the two forms that reads something must read all.
unfoldable pub parse_ip : Str → Option IpAddr
parse_ip s = elim (read_v4 s) [ some r ↦ whole v4 r | none ↦ read_v6 s >>= whole v6 ]

parsed :
    (parse_ip (text "192.168.1.9") ≡ some (v4 3232235785))
    × (parse_ip (text "192.168.1.09") ≡ none)
    × (parse_ip (text "fe80::1") ≡ some (v6 (65152 * 2 ^ 112 + 1)))
    × (parse_ip (text "::ffff:1.2.3.4") ≡ some (v6 (65535 * 2 ^ 32 + 16909060)))
    × (parse_ip (text "1:2:3:4:5:6:7:8:9") ≡ none)
    × (parse_uint 256 (text "+255") ≡ some 255)
    × (parse_uint 256 (text "256") ≡ none)
unfolding parse_ip parse_uint
parsed = (refl, refl, refl, refl, refl, refl, refl)
