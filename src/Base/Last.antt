-- ===== src/Base/Last.antt =====
-- The end of a list: its last `n` elements, and how they move as the list grows.
use luci_app_overwatch.Base.{
  ℕ, zero, suc, ◌+◌, ◌-◌, ◌≤◌, ◌<◌, ◌≡◌, refl, sym, ap, ◌∙◌, List, [], ◌∷◌, ◌++◌, arith, length,
  set, take, drop, length-append, length-drop,
}

module _ {ℓ} {A : Type ℓ} where
  unfoldable pub last : ℕ → List A → List A
  last n xs = drop (length xs - n) xs

  pub drop-append_le :
      (j : ℕ) (xs ys : List A) → j ≤ length xs → drop j (xs ++ ys) ≡ drop j xs ++ ys
  drop-append_le zero xs ys h = refl
  drop-append_le (suc j) [] ys h = elim h [ ]
  drop-append_le (suc j) (x ∷ xs) ys h = drop-append_le j xs ys (omega arith)

  drop-nil : (k : ℕ) → drop {A = A} k [] ≡ []
  drop-nil zero = refl
  drop-nil (suc k) = refl

  pub drop-drop : (a b : ℕ) (xs : List A) → drop a (drop b xs) ≡ drop (b + a) xs
  drop-drop a zero xs = ap (λ k. drop k xs) (omega arith)
  drop-drop a (suc b) [] = drop-nil a ∙ sym (drop-nil (suc b + a))
  drop-drop a (suc b) (x ∷ xs) = drop-drop a b xs ∙ ap (λ k. drop k (x ∷ xs)) shift
    where
      shift : ◌≡◌ {A = ℕ} (suc (b + a)) (suc b + a)
      shift = omega arith

  pub drop-length-append :
      (a : List A) (x : A) (b : List A) → drop (suc (length a)) (a ++ x ∷ b) ≡ b
  drop-length-append [] x b = refl
  drop-length-append (y ∷ a) x b = drop-length-append a x b

  pub take-length-append :
      (a : List A) (x : A) (b : List A) → take (suc (length a)) (a ++ x ∷ b) ≡ a ++ x ∷ []
  take-length-append [] x b = refl
  take-length-append (y ∷ a) x b = ap (◌∷◌ y) (take-length-append a x b)

  -- A list around an index.
  pub set-eq-split :
      (xs : List A) (i : ℕ) (v : A) → i < length xs → set xs i v ≡ take i xs ++ v ∷ drop (suc i) xs
  set-eq-split [] i v h = elim h [ ]
  set-eq-split (x ∷ xs) zero v h = refl
  set-eq-split (x ∷ xs) (suc i) v h = ap (◌∷◌ x) (set-eq-split xs i v (omega arith))

  pub drop-eq-cons :
      (xs : List A) (i : ℕ) → i < length xs → (y : A) × (drop i xs ≡ y ∷ drop (suc i) xs)
  drop-eq-cons [] i h = elim h [ ]
  drop-eq-cons (x ∷ xs) zero h = (x, refl)
  drop-eq-cons (x ∷ xs) (suc i) h = drop-eq-cons xs i (omega arith)

  pub last_of_length-le : (n : ℕ) (xs : List A) → length xs ≤ n → last n xs ≡ xs
  unfolding last
  last_of_length-le n xs h = ap (λ k. drop k xs) none_early
    where
      none_early : length xs - n ≡ 0
      none_early = omega arith

  pub length-last-le : (n : ℕ) (xs : List A) → length (last n xs) ≤ n
  unfolding last
  length-last-le n xs = omega (arith, length-drop (length xs - n) xs)

  -- What is dropped early is dropped anyway.
  pub last-last-append : (n : ℕ) (xs ys : List A) → last n (last n xs ++ ys) ≡ last n (xs ++ ys)
  unfolding last
  last-last-append n xs ys =
      ap (λ l. drop (length l - n) l) (regroup)
      ∙ drop-drop _ j (xs ++ ys)
      ∙ ap (λ k. drop k (xs ++ ys)) count
    where
      j : ℕ
      j = length xs - n

      regroup : drop j xs ++ ys ≡ drop j (xs ++ ys)
      regroup = sym (drop-append_le j xs ys (omega arith))

      count : j + (length (drop j (xs ++ ys)) - n) ≡ length (xs ++ ys) - n
      count = omega (arith, length-drop j (xs ++ ys), length-append xs ys)

  -- With `n` elements at hand one more pushes the first one out.
  pub last-append-one :
      (n : ℕ) (xs : List A)
      → (0 < n) × (length xs ≡ n)
      → (x : A) → last n (xs ++ x ∷ []) ≡ drop 1 xs ++ x ∷ []
  unfolding last
  last-append-one n xs h x =
      ap (λ k. drop k (xs ++ x ∷ [])) one ∙ drop-append_le 1 xs (x ∷ []) (omega arith)
    where
      one : length (xs ++ x ∷ []) - n ≡ 1
      one = omega (arith, length-append xs (x ∷ []))
