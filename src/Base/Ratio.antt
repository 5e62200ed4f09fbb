-- ===== src/Base/Ratio.antt =====
-- Exact fractions in the place of `f64`: an instance of `F64` that theorems can be applied at.
use luci_app_overwatch.Base.{ℕ, ◌*◌, ◌/◌, ◌+◌, ◌-◌, Bool, if◌then◌else◌, leb}
use luci_app_overwatch.Base.Float.{F64}
use luci_app_overwatch.Base.Int.{ℤ, pos, negsuc, pos_part, neg_part, ◌+ℤ◌, ◌-ℤ◌, ◌*ℤ◌, ltb_ℤ, sub_ℕ}

-- A numerator over a denominator that is not negative; a division by zero leaves 0 there.
pub record Fraction : Type 0 where
  pub num : ℤ
  pub den : ℕ

abbrev pub whole : ℤ → Fraction
whole n = record { num = n; den = 1 }

abbrev pub plus : Fraction → Fraction → Fraction
unfolding ◌+ℤ◌ ◌*ℤ◌
plus a b = record { num = (a.num *ℤ pos b.den) +ℤ (b.num *ℤ pos a.den); den = a.den * b.den }

abbrev pub minus : Fraction → Fraction → Fraction
unfolding ◌-ℤ◌ ◌*ℤ◌
minus a b = record { num = (a.num *ℤ pos b.den) -ℤ (b.num *ℤ pos a.den); den = a.den * b.den }

abbrev pub times : Fraction → Fraction → Fraction
unfolding ◌*ℤ◌
times a b = record { num = a.num *ℤ b.num; den = a.den * b.den }

-- The sign of the divisor goes to the numerator.
abbrev pub over : Fraction → Fraction → Fraction
unfolding ◌-ℤ◌ ◌*ℤ◌
over a b =
    let up = a.num *ℤ pos b.den in
    record {
      num =
          sub_ℕ (pos_part up) (neg_part up) *ℤ (if leb 1 (pos_part b.num) then pos 1 else negsuc 0);
      den = a.den * (pos_part b.num + neg_part b.num);
    }

abbrev pub above : Fraction → Fraction → Bool
unfolding ◌*ℤ◌
above a b = ltb_ℤ (b.num *ℤ pos a.den) (a.num *ℤ pos b.den)

abbrev pub round_down : Fraction → Fraction
round_down a = whole (
    if leb 1 (neg_part a.num)
    then sub_ℕ 0 ((neg_part a.num + (a.den - 1)) / a.den)
    else pos (pos_part a.num / a.den))

abbrev pub ratio : F64
ratio = record {
  F = Fraction;
  of_uint = λ n. whole (pos n);
  of_i64 = whole;
  half = record { num = pos 1; den = 2 };
  minus_one = whole (negsuc 0);
  add = plus;
  sub = minus;
  mul = times;
  div = over;
  abs = λ a. record a { num = pos (pos_part a.num + neg_part a.num) };
  floor = round_down;
  gt = above;
  to_uint = λ a. pos_part a.num / a.den;
}
