-- ===== src/Base/Bits.antt =====
-- `&` with a mask of leading ones, at any width.
use luci_app_overwatch.Base.{
  ℕ, zero, suc, ◌+◌, ◌-◌, ◌*◌, ◌/◌, ◌%◌, ◌^◌, ◌≤◌, ◌<◌, ◌≡◌, refl, ap, ap₂, ◌∙◌, min, arith,
}
use Prim.Native.Nat.{bit_and, digits, bit_and-bitwise}
use native.Mathlib.Nat.{pow-suc, div-div-eq-div-mul, div-lt_iff_lt-mul}

-- The native operation by its binary digits. Any two counts of digits that reach `x` agree.
digits_agree :
    (x y p q : ℕ) → x ≤ p → x ≤ q → digits (λ _. zero) min p x y ≡ digits (λ _. zero) min q x y
digits_agree zero y zero zero hp hq = refl
digits_agree zero y zero (suc q) hp hq = refl
digits_agree zero y (suc p) zero hp hq = refl
digits_agree zero y (suc p) (suc q) hp hq = refl
digits_agree (suc x) y zero q hp hq = absurd (omega arith)
digits_agree (suc x) y (suc p) zero hp hq = absurd (omega arith)
digits_agree (suc x) y (suc p) (suc q) hp hq =
    ap (λ t. t * 2 + min (suc x % 2) (y % 2))
      (digits_agree (suc x / 2) (y / 2) p q (omega arith) (omega arith))

zero_and : (y : ℕ) → bit_and 0 y ≡ 0
zero_and y = bit_and-bitwise 0 y

-- The lowest digit and the others.
and_step : (x y : ℕ) → bit_and x y ≡ bit_and (x / 2) (y / 2) * 2 + min (x % 2) (y % 2)
and_step zero y = omega (arith, zero_and y, zero_and (y / 2))
and_step (suc x) y =
    let half : ℕ = suc x / 2 in
    omega (
      arith,
      bit_and-bitwise (suc x) y,
      bit_and-bitwise half (y / 2),
      digits_agree half (y / 2) x half (omega arith) (omega arith),
    )

pub pos_pow : (j : ℕ) → 0 < 2 ^ j
pos_pow zero = omega arith
pos_pow (suc j) = omega (arith, pow-suc 2 j, pos_pow j)

-- A mask of `j` ones keeps what fits in `j` bits.
and_ones : (j x : ℕ) → x < 2 ^ j → bit_and x (2 ^ j - 1) ≡ x
and_ones zero zero h = zero_and (2 ^ 0 - 1)
and_ones zero (suc x) h = absurd (omega arith)
and_ones (suc j) x h =
    let double : 2 ^ suc j ≡ 2 ^ j * 2 = pow-suc 2 j in
    let rest : (2 ^ suc j - 1) / 2 ≡ 2 ^ j - 1 = omega (arith, pos_pow j) in
    omega (
      arith,
      pos_pow j,
      and_step x (2 ^ suc j - 1),
      ap (bit_and (x / 2)) rest,
      and_ones j (x / 2) (omega arith),
    )

-- A mask that ends in `k` zeros.
and_shifted : (k x m : ℕ) → bit_and x (m * 2 ^ k) ≡ bit_and (x / 2 ^ k) m * 2 ^ k
and_shifted zero x m = one ∙ omega arith
  where
    one : bit_and x (m * 2 ^ 0) ≡ bit_and (x / 2 ^ 0) m
    one = ap₂ bit_and (omega arith) (omega arith)
and_shifted (suc k) x m =
    let p : ℕ = 2 ^ k in
    let double : 2 ^ suc k ≡ p * 2 = pow-suc 2 k in
    let wide : m * 2 ^ suc k ≡ m * p * 2 = ap (λ (t : ℕ). m * t) double ∙ omega arith in
    let half : (m * 2 ^ suc k) / 2 ≡ m * p = omega arith in
    let even : (m * 2 ^ suc k) % 2 ≡ 0 = omega arith in
    let deep : x / 2 / p ≡ x / 2 ^ suc k =
      div-div-eq-div-mul x 2 p ∙ ap (λ (t : ℕ). x / t) (omega arith) in
    let keep : ℕ = bit_and (x / 2 ^ suc k) m in
    let next : bit_and (x / 2) ((m * 2 ^ suc k) / 2) ≡ keep * p =
      ap (bit_and (x / 2)) half ∙ and_shifted k (x / 2) m ∙ ap (λ (t : ℕ). bit_and t m * p) deep in
    let wide' : keep * 2 ^ suc k ≡ keep * p * 2 = ap (λ (t : ℕ). keep * t) double ∙ omega arith in
    omega (arith, and_step x (m * 2 ^ suc k))

-- The mask of the leading `j` of `j + k` bits clears the last `k` bits.
pub and_leading :
    (j k x : ℕ) → x < 2 ^ j * 2 ^ k → bit_and x ((2 ^ j - 1) * 2 ^ k) ≡ x / 2 ^ k * 2 ^ k
and_leading j k x h =
    and_shifted k x (2 ^ j - 1)
    ∙ ap (λ (t : ℕ). t * 2 ^ k) (and_ones j (x / 2 ^ k) ((div-lt_iff_lt-mul (pos_pow k)).1 h))
