-- ===== src/Base/Words.antt =====
-- Unsigned machine words as native numbers, with the wrapping and the saturating operations.
use luci_app_overwatch.Base.{ℕ, ◌+◌, ◌-◌, ◌*◌, ◌%◌, ◌^◌, ◌≡◌, min, arith}

abbrev pub u32_mod : ℕ
u32_mod = 2 ^ 32

abbrev pub u64_mod : ℕ
u64_mod = 2 ^ 64

abbrev pub u64_max : ℕ
u64_max = 2 ^ 64 - 1

-- `+` and `+=` of a release build: the sum modulo the word.
abbrev pub add_u64 : ℕ → ℕ → ℕ
add_u64 a b = (a + b) % u64_mod

abbrev pub add_u32 : ℕ → ℕ → ℕ
add_u32 a b = (a + b) % u32_mod

-- `saturating_add`, `saturating_mul` and `saturating_sub`.
abbrev pub saturating_add : ℕ → ℕ → ℕ
saturating_add a b = min (a + b) u64_max

abbrev pub saturating_mul : ℕ → ℕ → ℕ
saturating_mul a b = min (a * b) u64_max

abbrev pub saturating_sub : ℕ → ℕ → ℕ
saturating_sub a b = a - b

pub saturating_add_assoc :
    (a b c : ℕ) → saturating_add (saturating_add a b) c ≡ saturating_add a (saturating_add b c)
saturating_add_assoc a b c = omega arith

pub saturating_add_comm : (a b : ℕ) → saturating_add a b ≡ saturating_add b a
saturating_add_comm a b = omega arith
