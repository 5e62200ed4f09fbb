-- ===== src/Base/Tables.antt =====
-- Facts about small numbers, by trying them all.
use luci_app_overwatch.Base.{ℕ, zero, suc, ◌≤◌, ◌≡◌, Bool, true, ◌&&◌, arith}

-- A test at every number up to a bound, by evaluation.
unfoldable pub all_upto : ℕ → (ℕ → Bool) → Bool
all_upto zero p = p 0
all_upto (suc n) p = p (suc n) && all_upto n p

pub all_upto_sound : (n : ℕ) (p : ℕ → Bool) (x : ℕ) → all_upto n p ≡ true → x ≤ n → p x ≡ true
unfolding all_upto
all_upto_sound zero p zero h le = h
all_upto_sound zero p (suc x) h le = absurd (omega arith)
all_upto_sound (suc n) p x h le = ground (arith, all_upto_sound n p x)
