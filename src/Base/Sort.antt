-- ===== src/Base/Sort.antt =====
-- `sort_by` on a vector: a stable sort. The algorithm is the library's own; what is modelled is its
-- result, by insertion, and it is pinned down by order, contents and stability.
use luci_app_overwatch.Base.{
  ℕ, suc, ◌≤◌, ◌≡◌, refl, ap, ◌∙◌, map, List, [], ◌∷◌, arith, ltb, if◌then◌else◌, length,
  Bool-cases, inl, inr,
}
use mathlib.Core.List.{Perm}
use mathlib.Core.List.Perm

-- The elements in falling order of a key, equal keys in their old order.
module _ {ℓ} {A : Type ℓ} (key : A → ℕ) where
  pub insert_desc : A → List A → List A
  insert_desc x [] = x ∷ []
  insert_desc x (y ∷ ys) = if ltb (key x) (key y) then y ∷ insert_desc x ys else x ∷ y ∷ ys

  unfoldable pub sort_desc : List A → List A
  unfolding insert_desc
  sort_desc [] = []
  sort_desc (x ∷ xs) = insert_desc x (sort_desc xs)

  -- No element has a key above that of one before it.
  abbrev pub AllAtMost : ℕ → List A → Type 0
  AllAtMost b [] = Unit
  AllAtMost b (x ∷ xs) = (key x ≤ b) × AllAtMost b xs

  abbrev pub IsFalling : List A → Type 0
  IsFalling [] = Unit
  IsFalling (x ∷ xs) = AllAtMost (key x) xs × IsFalling xs

  AllAtMost-mono : (b c : ℕ) (xs : List A) → b ≤ c → AllAtMost b xs → AllAtMost c xs
  AllAtMost-mono b c [] h p = tt
  AllAtMost-mono b c (x ∷ xs) h p = (omega arith, AllAtMost-mono b c xs h p.1)

  insert_desc-AllAtMost :
      (b : ℕ) (x : A) (xs : List A) → key x ≤ b → AllAtMost b xs → AllAtMost b (insert_desc x xs)
  unfolding insert_desc
  insert_desc-AllAtMost b x [] h p = (h, tt)
  insert_desc-AllAtMost b x (y ∷ ys) h p = elim (Bool-cases (ltb (key x) (key y))) [
    | inl e ↦ rw e (p.0, insert_desc-AllAtMost b x ys h p.1)
    | inr e ↦ rw e (h, p)
  ]

  insert_desc-IsFalling : (x : A) (xs : List A) → IsFalling xs → IsFalling (insert_desc x xs)
  unfolding insert_desc
  insert_desc-IsFalling x [] p = (tt, tt)
  insert_desc-IsFalling x (y ∷ ys) p = elim (Bool-cases (ltb (key x) (key y))) [
    | inl e ↦
        rw e (insert_desc-AllAtMost (key y) x ys (ground arith) p.0, insert_desc-IsFalling x ys p.1)
    | inr e ↦
        let below : key y ≤ key x = ground arith in
        rw e ((below, AllAtMost-mono (key y) (key x) ys below p.0), p)
  ]

  pub sort_desc-IsFalling : (xs : List A) → IsFalling (sort_desc xs)
  unfolding sort_desc
  sort_desc-IsFalling [] = tt
  sort_desc-IsFalling (x ∷ xs) = insert_desc-IsFalling x (sort_desc xs) (sort_desc-IsFalling xs)

  -- What holds of every element holds of every element after sorting.
  module _ (P : A → Type 0) where
    abbrev pub AllOf : List A → Type 0
    AllOf [] = Unit
    AllOf (x ∷ xs) = P x × AllOf xs

    insert_desc-AllOf : (x : A) (xs : List A) → P x → AllOf xs → AllOf (insert_desc x xs)
    unfolding insert_desc
    insert_desc-AllOf x [] p ps = (p, tt)
    insert_desc-AllOf x (y ∷ ys) p ps = elim (Bool-cases (ltb (key x) (key y))) [
      | inl e ↦ rw e (ps.0, insert_desc-AllOf x ys p ps.1)
      | inr e ↦ rw e (p, ps)
    ]

    pub sort_desc-AllOf : (xs : List A) → AllOf xs → AllOf (sort_desc xs)
    unfolding sort_desc
    sort_desc-AllOf [] ps = tt
    sort_desc-AllOf (x ∷ xs) ps = insert_desc-AllOf x (sort_desc xs) ps.0 (sort_desc-AllOf xs ps.1)

  insert_desc-perm : (x : A) (xs : List A) → Perm (insert_desc x xs) (x ∷ xs)
  unfolding insert_desc
  insert_desc-perm x [] = Perm.refl (x ∷ [])
  insert_desc-perm x (y ∷ ys) = elim (Bool-cases (ltb (key x) (key y))) [
    | inl e ↦ rw e (Perm.trans (Perm.cons y (insert_desc-perm x ys)) (Perm.swap x y ys))
    | inr e ↦ rw e (Perm.refl (x ∷ y ∷ ys))
  ]

  pub sort_desc-perm : (xs : List A) → Perm (sort_desc xs) xs
  unfolding sort_desc
  sort_desc-perm [] = Perm.refl []
  sort_desc-perm (x ∷ xs) =
      Perm.trans (insert_desc-perm x (sort_desc xs)) (Perm.cons x (sort_desc-perm xs))

  length-insert_desc : (x : A) (xs : List A) → length (insert_desc x xs) ≡ suc (length xs)
  unfolding insert_desc
  length-insert_desc x [] = refl
  length-insert_desc x (y ∷ ys) = ground (arith, length-insert_desc x ys)

  pub length-sort_desc : (xs : List A) → length (sort_desc xs) ≡ length xs
  unfolding sort_desc
  length-sort_desc [] = refl
  length-sort_desc (x ∷ xs) =
      omega (arith, length-insert_desc x (sort_desc xs), length-sort_desc xs)

-- A map that keeps the order of the keys can be done before sorting or after it.
module _ {ℓ κ} {A : Type ℓ} {B : Type κ} (key : A → ℕ) (key' : B → ℕ) (f : A → B) where
  map-insert_desc :
      ((x y : A) → ltb (key' (f x)) (key' (f y)) ≡ ltb (key x) (key y))
      → (x : A) (xs : List A) → insert_desc key' (f x) (map f xs) ≡ map f (insert_desc key x xs)
  unfolding insert_desc
  map-insert_desc same x [] = refl
  map-insert_desc same x (y ∷ ys) = elim (Bool-cases (ltb (key x) (key y))) [
    | inl e ↦ rw (same x y, e, map-insert_desc same x ys) refl
    | inr e ↦ rw (same x y, e) refl
  ]

  pub map-sort_desc :
      ((x y : A) → ltb (key' (f x)) (key' (f y)) ≡ ltb (key x) (key y))
      → (xs : List A) → sort_desc key' (map f xs) ≡ map f (sort_desc key xs)
  unfolding sort_desc
  map-sort_desc same [] = refl
  map-sort_desc same (x ∷ xs) =
      ap (insert_desc key' (f x)) (map-sort_desc same xs)
      ∙ map-insert_desc same x (sort_desc key xs)
