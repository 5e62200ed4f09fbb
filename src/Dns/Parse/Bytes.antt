-- ===== src/Dns/Parse/Bytes.antt =====
-- The bit tests on a length byte, as ranges.
use luci_app_overwatch.Base.{
  ℕ, ◌+◌, ◌-◌, ◌*◌, ◌/◌, ◌%◌, ◌≤◌, ◌<◌, ◌≡◌, refl, sym, ap₂, ◌∙◌, Bool, true, false, List, [], ◌∷◌,
  arith, ltb, leb, ◌==◌, ==_iff, not, zero, suc, some, get_elem?,
}
use luci_app_overwatch.Base.Tables.{all_upto, all_upto_sound}
use Prim.Native.Nat.{bit_and, bit_or}

abbrev pub IsBytes : List ℕ → Type 0
IsBytes [] = Unit
IsBytes (b ∷ bs) = (b < 256) × IsBytes bs

abbrev same : Bool → Bool → Bool
same true b = b
same false b = not b

same_eq : (a b : Bool) → same a b ≡ true → a ≡ b
same_eq a b h = ground arith

pointer_table : all_upto 255 (λ b. same (bit_and b 0xC0 == 0xC0) (leb 192 b)) ≡ true
unfolding all_upto
pointer_table = refl

plain_table : all_upto 255 (λ b. same (bit_and b 0xC0 == 0) (ltb b 64)) ≡ true
unfolding all_upto
plain_table = refl

join_table :
    all_upto (64 * 256 - 1) (λ n. bit_or (bit_and (192 + n / 256) 0x3F * 256) (n % 256) == n) ≡ true
unfolding all_upto
join_table = refl

-- Both top bits are set from 192 on, neither below 64.
pub pointer_test : (b : ℕ) → b < 256 → (bit_and b 0xC0 == 0xC0) ≡ leb 192 b
pointer_test b h = same_eq _ _ (all_upto_sound 255 _ b pointer_table (omega arith))

pub plain_test : (b : ℕ) → b < 256 → (bit_and b 0xC0 == 0) ≡ ltb b 64
plain_test b h = same_eq _ _ (all_upto_sound 255 _ b plain_table (omega arith))

-- A pointer is the number of the fourteen bits behind the two.
pub pointer_lem :
    (b low : ℕ)
    → 192 ≤ b
    → b < 256
    → low < 256
    → bit_or (bit_and b 0x3F * 256) low ≡ (b - 192) * 256 + low
pointer_lem b low h k l =
    let n : ℕ = (b - 192) * 256 + low in
    let hi : 192 + n / 256 ≡ b = omega arith in
    let lo : n % 256 ≡ low = omega arith in
    ap₂ (λ (x y : ℕ). bit_or (bit_and x 0x3F * 256) y) (sym hi) (sym lo)
    ∙ (==_iff _ _).0 (all_upto_sound (64 * 256 - 1) _ n join_table (omega arith))

pub IsBytes-get : (msg : List ℕ) (i : ℕ) {b : ℕ} → IsBytes msg → get_elem? msg i ≡ some b → b < 256
IsBytes-get [] i h e = cc
IsBytes-get (x ∷ xs) zero h e = ground (arith, h.0)
IsBytes-get (x ∷ xs) (suc i) h e = IsBytes-get xs i h.1 e
