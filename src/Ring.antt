-- ===== src/Ring.antt =====
-- src/ring.rs: `RingBuffer<T>`, a vector that grows to a capacity and is then overwritten in place.
pub mod Window
mod Tests
use luci_app_overwatch.Base.{
  ℕ, zero, suc, ◌+◌, ◌%◌, ◌≤◌, ◌<◌, ◌≡◌, min, max, List, [], ◌∷◌, ◌++◌, arith, ltb, ==_iff, ◌==◌,
  Bool, if◌then◌else◌, length, set, take, drop,
}

pub record RingBuffer {ℓ} (T : Type ℓ) : Type ℓ where
  pub buf : List T
  pub cap : ℕ
  pub head : ℕ

module _ {ℓ} {T : Type ℓ} where
  unfoldable pub new : ℕ → RingBuffer T
  new cap = record { buf = []; cap = max cap 1; head = 0 }

  -- A `set` out of bounds changes nothing here and panics there; `Window.push-IsValid` and
  -- `Window.head-lt-length` show that it is not reached.
  unfoldable pub push : RingBuffer T → T → RingBuffer T
  push r item =
      if ltb (length r.buf) r.cap
      then record r { buf = r.buf ++ item ∷ [] }
      else record r { buf = set r.buf r.head item; head = (r.head + 1) % r.cap }

  unfoldable pub len : RingBuffer T → ℕ
  len r = length r.buf

  unfoldable pub is_empty : RingBuffer T → Bool
  is_empty r = length r.buf == 0

  -- `iter` and `to_vec`: the two halves of `split_at`, the second one first.
  unfoldable pub to_vec : RingBuffer T → List T
  to_vec r = let m = min r.head (length r.buf) in drop m r.buf ++ take m r.buf
