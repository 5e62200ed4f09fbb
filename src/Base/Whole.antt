-- ===== src/Base/Whole.antt =====
-- Whole numbers in the place of `f64`: an instance of `F64` whose `>` is an order. Division rounds
-- toward zero, and one half is taken as one, so that areas come out doubled.
use luci_app_overwatch.Base.{◌+◌, ◌≡◌, true, false, arith}
use luci_app_overwatch.Base.Float.{F64}
use luci_app_overwatch.Base.Int.{ℤ, pos, negsuc, pos_part, neg_part, ◌+ℤ◌, ◌-ℤ◌, ◌*ℤ◌, ltb_ℤ, quot}

abbrev over : ℤ → ℤ → ℤ
over a b = quot a (pos_part b)

abbrev magnitude : ℤ → ℤ
magnitude a = pos (pos_part a + neg_part a)

abbrev pub whole : F64
whole = record {
  F = ℤ;
  of_uint = pos;
  of_i64 = λ a. a;
  half = pos 1;
  minus_one = negsuc 0;
  add = ◌+ℤ◌;
  sub = ◌-ℤ◌;
  mul = ◌*ℤ◌;
  div = over;
  abs = magnitude;
  floor = λ a. a;
  gt = λ a b. ltb_ℤ b a;
  to_uint = pos_part;
}

pub ltb_ℤ_irreflexive : (a : ℤ) → ltb_ℤ a a ≡ false
ltb_ℤ_irreflexive (pos n) = ground arith
ltb_ℤ_irreflexive (negsuc n) = ground arith

pub ltb_ℤ_above : (a m n : ℤ) → ltb_ℤ m a ≡ false → ltb_ℤ m n ≡ true → ltb_ℤ n a ≡ false
ltb_ℤ_above a m n h k = ground arith
