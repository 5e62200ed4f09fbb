-- ===== src/Base/Float.antt =====
-- `f64` as far as the sources use it. Its values and its arithmetic are a parameter; what a theorem
-- needs of them is stated where it is needed.
use luci_app_overwatch.Base.{ℕ, Bool}
use luci_app_overwatch.Base.Int.{ℤ}

pub record F64 : Type 1 where
  pub F : Type 0
  -- `x as f64` of an unsigned and of a signed integer; `0.0`, `0.5` and `-1.0`.
  pub of_uint : ℕ → F
  pub of_i64 : ℤ → F
  pub half : F
  pub minus_one : F
  pub add : F → F → F
  pub sub : F → F → F
  pub mul : F → F → F
  pub div : F → F → F
  pub abs : F → F
  pub floor : F → F
  pub gt : F → F → Bool
  -- `x as u64` and `x as usize`
  pub to_uint : F → ℕ
