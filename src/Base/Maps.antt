-- ===== src/Base/Maps.antt =====
-- Hash maps as association lists. The sources' maps have no order of their own: the list's order
-- stands for the order in which a map happens to be walked.
use luci_app_overwatch.Base.{
  ◌≡◌, refl, sym, subst, ◌∙◌, ◌≢◌, ite, if_pos, if_neg, List, [], ◌∷◌, Option, none, some, arith,
}
use mathlib.Core.Option

module _ {ℓ} {K V : Type ℓ} (dec : Discrete K) where
  abbrev pub lookup : K → List (K × V) → Option V
  lookup k [] = none
  lookup k ((j, v) ∷ m) = ite (dec j k) (some v) (lookup k m)

  -- `entry(k)` and what is done with it: `f` gets the old value, if any, and gives the new one.
  abbrev pub upsert : K → (Option V → V) → List (K × V) → List (K × V)
  upsert k f [] = (k, f none) ∷ []
  upsert k f ((j, v) ∷ m) = ite (dec j k) ((j, f (some v)) ∷ m) ((j, v) ∷ upsert k f m)

  -- `get_mut(k)` and what is done with the value: a missing key changes nothing.
  abbrev pub adjust : K → (V → V) → List (K × V) → List (K × V)
  adjust k f [] = []
  adjust k f ((j, v) ∷ m) = ite (dec j k) ((j, f v) ∷ m) ((j, v) ∷ adjust k f m)

  abbrev pub insert : K → V → List (K × V) → List (K × V)
  insert k v m = upsert k (λ _. v) m

  pub lookup-upsert_self :
      (k : K) (f : Option V → V) (m : List (K × V))
      → lookup k (upsert k f m) ≡ some (f (lookup k m))
  lookup-upsert_self k f [] = ground arith
  lookup-upsert_self k f ((j, v) ∷ m) = ground (arith, lookup-upsert_self k f m)

  pub lookup-upsert_ne :
      (k q : K) (f : Option V → V) (m : List (K × V)) → k ≢ q → lookup q (upsert k f m) ≡ lookup q m
  lookup-upsert_ne k q f [] h = ground arith
  lookup-upsert_ne k q f ((j, v) ∷ m) h = ground (arith, lookup-upsert_ne k q f m)

  pub lookup-upsert :
      (k q : K) (f : Option V → V) (m : List (K × V))
      → lookup q (upsert k f m) ≡ ite (dec k q) (some (f (lookup k m))) (lookup q m)
  lookup-upsert k q f m = elim (dec k q) [
    | yes e ↦ ground (arith, lookup-upsert_self k f m)
    | no ne ↦ rw (if_neg _ ne) (lookup-upsert_ne k q f m ne)
  ]

  pub lookup-upsert_eq :
      (k q : K) (f : Option V → V) (m : List (K × V))
      → k ≡ q
      → lookup q (upsert k f m) ≡ some (f (lookup q m))
  lookup-upsert_eq k q f m e =
      subst (λ x. lookup x (upsert k f m) ≡ some (f (lookup x m))) e (lookup-upsert_self k f m)

  -- Every key once.
  abbrev pub HasKeysOnce : List (K × V) → Type ℓ
  HasKeysOnce [] = Unit
  HasKeysOnce ((j, v) ∷ m) = (lookup j m ≡ none) × HasKeysOnce m

  pub upsert-HasKeysOnce :
      (k : K) (f : Option V → V) (m : List (K × V)) → HasKeysOnce m → HasKeysOnce (upsert k f m)
  upsert-HasKeysOnce k f [] h = (refl, tt)
  upsert-HasKeysOnce k f ((j, v) ∷ m) h = elim (dec j k) [
    | yes e ↦ rw (if_pos (dec j k) e) h
    | no ne ↦
        rw (if_neg (dec j k) ne)
          (lookup-upsert_ne k j f m (λ e. ne (sym e)) ∙ h.0, upsert-HasKeysOnce k f m h.1)
  ]

  pub lookup-adjust :
      (k q : K) (f : V → V) (m : List (K × V))
      → lookup q (adjust k f m) ≡ ite (dec k q) (Option.map f (lookup q m)) (lookup q m)
  lookup-adjust k q f [] = ground arith
  lookup-adjust k q f ((j, v) ∷ m) = ground (arith, lookup-adjust k q f m)
