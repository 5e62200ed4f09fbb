-- ===== src/Ring/Tests.antt =====
-- Rings of three places.
use luci_app_overwatch.Base.{ℕ, ◌≡◌, refl, List, [], ◌∷◌, arith}
use luci_app_overwatch.Base.Last.{last}
use luci_app_overwatch.Ring.{RingBuffer, new, push, to_vec, len}
use luci_app_overwatch.Ring.Window.{IsValid, to_vec-push_all, push_all}

abbrev five : List ℕ
five = 1 ∷ 2 ∷ 3 ∷ 4 ∷ 5 ∷ []

abbrev wrapped : RingBuffer ℕ
wrapped = record { buf = 4 ∷ 2 ∷ 3 ∷ []; cap = 3; head = 1 }

wrapped-IsValid : IsValid wrapped
wrapped-IsValid = record {
  positive = omega arith;
  bounded = omega arith;
  head_in = omega arith;
  head_zero = λ h. absurd (omega arith);
}

-- `ring_overwrites_oldest` of the source
overwrites : (to_vec (push_all (new 3) five) ≡ 3 ∷ 4 ∷ 5 ∷ []) × (len (push_all (new 3) five) ≡ 3)
unfolding new push to_vec len
overwrites = (refl, refl)

push_all_example : to_vec (push_all (new 3) five) ≡ last 3 five
push_all_example = to_vec-push_all 3 five
