-- ===== src/Base/Outcome.antt =====
-- What a call can come to: a value, a `None` that `?` passes on, a panic (an index out of bounds),
-- or a loop that does not end. The last two are kept apart so that a theorem can rule them out.
use luci_app_overwatch.Base.{
  ℕ, zero, suc, [], ◌∷◌, ◌-◌, ◌≤◌, ◌<◌, ◌≡◌, refl, List, Option, none, some, arith, leb,
  if◌then◌else◌, ite, Bool, true, false, ◌&&◌, length, take, drop, get_elem?,
}

pub data Outcome {ℓ} (A : Type ℓ) : Type ℓ where
  value : A → Outcome A
  nothing : Outcome A
  panicked : Outcome A
  hung : Outcome A

infixl 5 ◌>>=◌
abbrev pub ◌>>=◌ {ℓ κ} : {A : Type ℓ} {B : Type κ} → Outcome A → (A → Outcome B) → Outcome B
value a >>= f = f a
nothing >>= f = nothing
panicked >>= f = panicked
hung >>= f = hung

-- An `Option` under `?`.
abbrev pub or_nothing {ℓ} : {A : Type ℓ} → Option A → Outcome A
or_nothing none = nothing
or_nothing (some a) = value a

-- `xs[i]`, `&xs[a..b]` and `&xs[a..]`.
abbrev pub index {ℓ} : {A : Type ℓ} → List A → ℕ → Outcome A
index xs i = elim (get_elem? xs i) [ none ↦ panicked | some x ↦ value x ]

abbrev pub slice {ℓ} : {A : Type ℓ} → List A → ℕ → ℕ → Outcome (List A)
slice xs a b = if leb a b && leb b (length xs) then value (take (b - a) (drop a xs)) else panicked

abbrev pub slice_from {ℓ} : {A : Type ℓ} → List A → ℕ → Outcome (List A)
slice_from xs a = if leb a (length xs) then value (drop a xs) else panicked

-- No panic, an end, and a value with `P`, if there is one.
abbrev pub Ensures {ℓ} : {A : Type ℓ} → (A → Type 0) → Outcome A → Type 0
Ensures P (value a) = P a
Ensures P nothing = Unit
Ensures P panicked = ⊥
Ensures P hung = ⊥

abbrev pub Settles {ℓ} : {A : Type ℓ} → Outcome A → Type 0
Settles = Ensures (λ _. Unit {0})

module _ {ℓ κ} {A : Type ℓ} {B : Type κ} (P : A → Type 0) (Q : B → Type 0) where
  pub Ensures->>= :
      (m : Outcome A) (f : A → Outcome B)
      → Ensures P m
      → ((a : A) → P a → Ensures Q (f a))
      → Ensures Q (m >>= f)
  Ensures->>= (value a) f h k = k a h
  Ensures->>= nothing f h k = tt
  Ensures->>= panicked f h k = absurd h
  Ensures->>= hung f h k = absurd h

module _ {ℓ} {A : Type ℓ} (P : A → Type 0) where
  pub Ensures-if :
      (b : Bool) (x y : Outcome A)
      → (b ≡ true → Ensures P x)
      → (b ≡ false → Ensures P y)
      → Ensures P (if b then x else y)
  Ensures-if true x y h k = h refl
  Ensures-if false x y h k = k refl

  pub Ensures-value : {o : Outcome A} {a : A} → o ≡ value a → P a → Ensures P o
  Ensures-value e h = rw e h

  pub Ensures-or_nothing : (o : Option A) → ((a : A) → o ≡ some a → P a) → Ensures P (or_nothing o)
  Ensures-or_nothing none h = tt
  Ensures-or_nothing (some a) h = h a refl

pub index_lem {ℓ} :
    {A : Type ℓ} (xs : List A) (i : ℕ)
    → i < length xs
    → (x : A) × (get_elem? xs i ≡ some x) × (index xs i ≡ value x)
index_lem [] i h = elim h [ ]
index_lem (x ∷ xs) zero h = (x, refl, refl)
index_lem (x ∷ xs) (suc i) h = index_lem xs i (omega arith)

pub slice_lem {ℓ} :
    {A : Type ℓ} (xs : List A) (a b : ℕ)
    → a ≤ b
    → b ≤ length xs
    → slice xs a b ≡ value (take (b - a) (drop a xs))
slice_lem xs a b h k = let e : (leb a b && leb b (length xs)) ≡ true = ground arith in rw e

pub slice_from_lem {ℓ} :
    {A : Type ℓ} (xs : List A) (a : ℕ) → a ≤ length xs → slice_from xs a ≡ value (drop a xs)
slice_from_lem xs a h = let e : leb a (length xs) ≡ true = ground arith in rw e

pub Ensures-index :
    {A : Type 0} (xs : List A) (i : ℕ)
    → i < length xs
    → Ensures (λ x. get_elem? xs i ≡ some x) (index xs i)
Ensures-index [] i h = elim h [ ]
Ensures-index (x ∷ xs) zero h = refl
Ensures-index (x ∷ xs) (suc i) h = Ensures-index xs i (omega arith)

pub >>=-eq-value {ℓ κ} :
    {A : Type ℓ} {B : Type κ} (m : Outcome A) (f : A → Outcome B) {b : B}
    → (m >>= f) ≡ value b
    → (a : A) × (m ≡ value a) × (f a ≡ value b)
>>=-eq-value (value a) f h = (a, refl, h)
>>=-eq-value nothing f h = cc
>>=-eq-value panicked f h = cc
>>=-eq-value hung f h = cc

-- A value with `P`, and nothing else.
abbrev pub Gives {ℓ} : {A : Type ℓ} → (A → Type 0) → Outcome A → Type 0
Gives P (value a) = P a
Gives P _ = ⊥

module _ {ℓ κ} {A : Type ℓ} {B : Type κ} (P : A → Type 0) (Q : B → Type 0) where
  pub Gives->>= :
      (m : Outcome A) (f : A → Outcome B)
      → Gives P m
      → ((a : A) → P a → Gives Q (f a))
      → Gives Q (m >>= f)
  Gives->>= (value a) f h k = k a h
  Gives->>= nothing f h k = absurd h
  Gives->>= panicked f h k = absurd h
  Gives->>= hung f h k = absurd h

pub Gives-both {ℓ} :
    {A : Type ℓ} (P Q : A → Type 0) (o : Outcome A)
    → Gives P o
    → Gives Q o
    → Gives (λ a. P a × Q a) o
Gives-both P Q (value a) h k = (h, k)
Gives-both P Q nothing h k = absurd h
Gives-both P Q panicked h k = absurd h
Gives-both P Q hung h k = absurd h

module _ {A : Type 0} where
  pub Gives-value : (P : A → Type 0) {o : Outcome A} {a : A} → o ≡ value a → P a → Gives P o
  Gives-value P e h = rw e h

  pub Gives-index :
      (xs : List A) (i : ℕ) → i < length xs → Gives (λ x. get_elem? xs i ≡ some x) (index xs i)
  Gives-index [] i h = elim h [ ]
  Gives-index (x ∷ xs) zero h = refl
  Gives-index (x ∷ xs) (suc i) h = Gives-index xs i (omega arith)

  pub value-Gives : (P : A → Type 0) (o : Outcome A) → Gives P o → (a : A) × (o ≡ value a) × P a
  value-Gives P (value a) h = (a, refl, h)
  value-Gives P nothing h = absurd h
  value-Gives P panicked h = absurd h
  value-Gives P hung h = absurd h

-- What holds on both sides of a decision, each with what it knows.
pub of_ite {ℓ κ μ} :
    {A : Type ℓ} {Q : Type κ} (P : A → Type μ) (d : Dec Q) (x y : A)
    → (Q → P x)
    → (¬ Q → P y)
    → P (ite d x y)
of_ite P (yes p) x y h k = h p
of_ite P (no np) x y h k = k np
