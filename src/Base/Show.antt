-- ===== src/Base/Show.antt =====
-- Texts of addresses: the standard library's `Display` of `IpAddr`.
use luci_app_overwatch.Base.{
  ℕ, true, false, zero, suc, ◌+◌, ◌*◌, ◌/◌, ◌%◌, ◌^◌, ◌-◌, ◌≡◌, refl, List, [], ◌∷◌, ◌++◌, ltb,
  ◌==◌, if◌then◌else◌, take, drop,
}
use luci_app_overwatch.Base.Ip.{IpAddr, v4, v6}
use luci_app_overwatch.Base.Text.{Str, text}

abbrev digit : ℕ → ℕ
digit d = if ltb d 10 then 48 + d else 87 + d

-- The digits of a number that has at most `width` of them; none for zero.
abbrev digits : ℕ → ℕ → ℕ → Str
digits base zero n = []
digits base (suc width) n =
    let rest = digits base width (n / base) in if n == 0 then [] else rest ++ digit (n % base) ∷ []

-- Of a number below 2 ^ 16, which five digits are enough for.
abbrev pub number : ℕ → ℕ → Str
number base n = if n == 0 then text "0" else digits base 5 n

abbrev join_with : Str → List Str → Str
join_with sep [] = []
join_with sep (s ∷ []) = s
join_with sep (s ∷ t ∷ ss) = s ++ sep ++ join_with sep (t ∷ ss)

abbrev map_number : ℕ → List ℕ → List Str
map_number base [] = []
map_number base (n ∷ ns) = number base n ∷ map_number base ns

abbrev show_v4 : ℕ → Str
show_v4 n =
    join_with (text ".")
      (map_number 10 (n / 2 ^ 24 % 2 ^ 8 ∷ n / 2 ^ 16 % 2 ^ 8 ∷ n / 2 ^ 8 % 2 ^ 8 ∷ n % 2 ^ 8 ∷ []))

-- The eight segments of an IPv6 address, from the left.
abbrev segments : ℕ → ℕ → List ℕ
segments zero n = []
segments (suc k) n = n / 2 ^ (16 * k) % 2 ^ 16 ∷ segments k n

-- A run of segments, and the first of the longest runs of zeros.
abbrev Span : Type 0
Span = ℕ × ℕ

abbrev longer : Span → Span → Span
longer a b = if ltb a.1 b.1 then b else a

abbrev zeros : ℕ → Span → Span → List ℕ → Span
zeros i longest current [] = longest
zeros i longest current (s ∷ ss) =
    let next : Span = (if current.1 == 0 then i else current.0, suc current.1) in
    elim (s == 0) [
      | true ↦ zeros (suc i) (longer longest next) next ss
      | false ↦ zeros (suc i) longest (0, 0) ss
    ]

abbrev show_segments : List ℕ → Str
show_segments ss = join_with (text ":") (map_number 16 ss)

abbrev show_v6 : ℕ → Str
show_v6 n =
    let ss = segments 8 n in
    let (start, len) = zeros 0 (0, 0) (0, 0) ss in
    if n / 2 ^ 32 == 2 ^ 16 - 1
    then text "::ffff:" ++ show_v4 (n % 2 ^ 32)
    else if ltb 1 len
    then show_segments (take start ss) ++ text "::" ++ show_segments (drop (start + len) ss)
    else show_segments ss

-- `ip.to_string()`
unfoldable pub to_string : IpAddr → Str
to_string (v4 n) = show_v4 n
to_string (v6 n) = show_v6 n

shown_v4 : to_string (v4 3232235777) ≡ text "192.168.1.1"
unfolding to_string
shown_v4 = refl

shown_v6 : to_string (v6 (2 ^ 120 * 32 + 2 ^ 96 * 3512 + 1)) ≡ text "2000:db8::1"
unfolding to_string
shown_v6 = refl
