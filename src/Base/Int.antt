-- ===== src/Base/Int.antt =====
-- The signed 64-bit integers of the sources (`i64`): integers over the native numbers, and the
-- operations with their wrap-around. Division and remainder round toward zero, as in Rust and SQL.
use luci_app_overwatch.Base.{
  ℕ, suc, ◌+◌, ◌-◌, ◌*◌, ◌/◌, ◌%◌, ◌^◌, ◌≤◌, ◌<◌, ◌≡◌, Bool, arith, ltb, leb, if◌then◌else◌,
  ℕ_discrete,
}

-- `negsuc n` is -(n + 1).
pub data ℤ : Type 0 where
  pos : ℕ → ℤ
  negsuc : ℕ → ℤ

abbrev pub pos_part : ℤ → ℕ
pos_part (pos n) = n
pos_part (negsuc n) = 0

abbrev pub neg_part : ℤ → ℕ
neg_part (pos n) = 0
neg_part (negsuc n) = suc n

-- a - b, as an integer.
abbrev pub sub_ℕ : ℕ → ℕ → ℤ
sub_ℕ a b = if leb b a then pos (a - b) else negsuc (b - a - 1)

infixl 65 ◌+ℤ◌ ◌-ℤ◌
infixl 70 ◌*ℤ◌
infix 50 ◌≤ℤ◌ ◌<ℤ◌
unfoldable pub ◌+ℤ◌ : ℤ → ℤ → ℤ
a +ℤ b = sub_ℕ (pos_part a + pos_part b) (neg_part a + neg_part b)

unfoldable pub ◌-ℤ◌ : ℤ → ℤ → ℤ
a -ℤ b = sub_ℕ (pos_part a + neg_part b) (neg_part a + pos_part b)

unfoldable pub ◌*ℤ◌ : ℤ → ℤ → ℤ
a *ℤ b =
    sub_ℕ (pos_part a * pos_part b + neg_part a * neg_part b)
      (pos_part a * neg_part b + neg_part a * pos_part b)

abbrev pub ◌≤ℤ◌ : ℤ → ℤ → Type 0
a ≤ℤ b = pos_part a + neg_part b ≤ pos_part b + neg_part a

abbrev pub ◌<ℤ◌ : ℤ → ℤ → Type 0
a <ℤ b = pos_part a + neg_part b < pos_part b + neg_part a

abbrev pub ltb_ℤ : ℤ → ℤ → Bool
ltb_ℤ a b = ltb (pos_part a + neg_part b) (pos_part b + neg_part a)

abbrev pub leb_ℤ : ℤ → ℤ → Bool
leb_ℤ a b = leb (pos_part a + neg_part b) (pos_part b + neg_part a)

-- The 64 bits of an integer, and the integer that 64 bits stand for.
abbrev pub bits : ℤ → ℕ
bits (pos n) = n % 2 ^ 64
bits (negsuc n) = 2 ^ 64 - 1 - n % 2 ^ 64

abbrev pub of_bits : ℕ → ℤ
of_bits w = if ltb w (2 ^ 63) then pos w else negsuc (2 ^ 64 - w - 1)

-- The value kept in an `i64`.
abbrev pub wrap : ℤ → ℤ
wrap a = of_bits (bits a)

pub record IsI64 (a : ℤ) : Type 0 where
  pub above : negsuc (2 ^ 63 - 1) ≤ℤ a
  pub below : a ≤ℤ pos (2 ^ 63 - 1)

-- `a - b` and `a * b` on `i64`.
unfoldable pub sub_i64 : ℤ → ℤ → ℤ
unfolding ◌-ℤ◌
sub_i64 a b = wrap (a -ℤ b)

unfoldable pub mul_i64 : ℤ → ℤ → ℤ
unfolding ◌*ℤ◌
mul_i64 a b = wrap (a *ℤ b)

-- Division and remainder by a positive number, toward zero.
abbrev pub quot : ℤ → ℕ → ℤ
quot (pos n) d = pos (n / d)
quot (negsuc n) d = sub_ℕ 0 (suc n / d)

abbrev pub rem : ℤ → ℕ → ℤ
rem (pos n) d = pos (n % d)
rem (negsuc n) d = sub_ℕ 0 (suc n % d)

pub wrap_of_IsI64 : (a : ℤ) → IsI64 a → wrap a ≡ a
wrap_of_IsI64 (pos n) h = ground arith
wrap_of_IsI64 (negsuc n) h = ground arith

unfoldable pub ℤ-discrete : Discrete ℤ
ℤ-discrete = hlevel ℕ_discrete

pub eq_of_parts : (a b : ℤ) → pos_part a + neg_part b ≡ pos_part b + neg_part a → a ≡ b
eq_of_parts a b h = ground arith
