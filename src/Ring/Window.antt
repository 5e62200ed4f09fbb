-- ===== src/Ring/Window.antt =====
-- What a ring holds: the last `cap` items that were pushed, oldest first.
use luci_app_overwatch.Base.{
  ℕ, suc, ◌+◌, ◌%◌, ◌≤◌, ◌<◌, ◌≡◌, refl, sym, ap, ap₂, ◌∙◌, min, max, List, [], ◌∷◌, ◌++◌,
  append-nil, append_assoc, arith, ltb, true, false, true, false, Bool-cases, inl, inr, length,
  take, drop, length-append, length-set, length-take, length-drop,
}
use luci_app_overwatch.Base.Last.{
  last, drop-length-append, take-length-append, set-eq-split, drop-eq-cons, last_of_length-le,
  last-last-append, last-append-one,
}
use luci_app_overwatch.Ring.{RingBuffer, new, push, to_vec}
use mathlib.Core.List.{foldl}
use native.Mathlib.Nat.{mod-eq_of_lt, mod_self}

pub record IsValid {ℓ} {T : Type ℓ} (r : RingBuffer T) : Type ℓ where
  pub positive : 0 < r.cap
  pub bounded : length r.buf ≤ r.cap
  pub head_in : r.head < r.cap
  pub head_zero : length r.buf < r.cap → r.head ≡ 0

module _ {ℓ} {T : Type ℓ} where
  pub new-IsValid : (cap : ℕ) → IsValid (new {T = T} cap)
  unfolding new
  new-IsValid cap = record {
    positive = omega arith;
    bounded = omega arith;
    head_in = omega arith;
    head_zero = λ _. refl;
  }

  -- A push keeps a ring well formed: its capacity positive, at most that many items, the head inside
  -- the capacity, and the head at the start while the ring is not full.
  pub push-IsValid : (r : RingBuffer T) (x : T) → IsValid r → IsValid (push r x)
  unfolding push
  push-IsValid r x v = elim (Bool-cases (ltb (length r.buf) r.cap)) [
    | inl e ↦ rw e (record {
      positive = v.positive;
      bounded = ground (arith, length-append r.buf (x ∷ []));
      head_in = v.head_in;
      head_zero = λ _. v.head_zero (ground arith);
    })
    | inr e ↦ rw e (record {
      positive = v.positive;
      bounded = omega (arith, length-set r.buf r.head x, v.bounded);
      head_in = omega (arith, v.positive);
      head_zero = λ h. absurd (ground (arith, length-set r.buf r.head x));
    })
  ]

  -- A full ring is overwritten inside its storage.
  pub head-lt-length : (r : RingBuffer T) → IsValid r → r.cap ≤ length r.buf → r.head < length r.buf
  head-lt-length r v h = omega (arith, v.head_in)

  to_vec_growing : (r : RingBuffer T) → r.head ≡ 0 → to_vec r ≡ r.buf
  unfolding to_vec
  to_vec_growing r e = ap (λ k. drop k r.buf ++ take k r.buf) front ∙ append-nil r.buf
    where
      front : min r.head (length r.buf) ≡ 0
      front = omega arith

  to_vec_full :
      (r : RingBuffer T) → r.head ≤ length r.buf → to_vec r ≡ drop r.head r.buf ++ take r.head r.buf
  unfolding to_vec
  to_vec_full r h = ap (λ k. drop k r.buf ++ take k r.buf) front
    where
      front : min r.head (length r.buf) ≡ r.head
      front = omega arith

  pub length-to_vec : (r : RingBuffer T) → length (to_vec r) ≡ length r.buf
  unfolding to_vec
  length-to_vec r =
      let m = min r.head (length r.buf) in
      omega (
        arith,
        length-append (drop m r.buf) (take m r.buf),
        length-drop m r.buf,
        length-take m r.buf,
      )

  push_growing :
      (r : RingBuffer T) (x : T)
      → IsValid r
      → length r.buf < r.cap
      → to_vec (push r x) ≡ to_vec r ++ x ∷ []
  unfolding push
  push_growing r x v h =
      let e : ltb (length r.buf) r.cap ≡ true = ground arith in
      rw e (
        to_vec_growing (record r { buf = r.buf ++ x ∷ [] }) (v.head_zero h)
        ∙ ap (λ l. l ++ x ∷ []) (sym (to_vec_growing r (v.head_zero h))))

  -- The storage of a full ring after a write at `length a`, which was its oldest place.
  overwrite :
      (size : ℕ) (x : T) (a b : List T)
      → size ≡ suc (length a + length b)
      → to_vec (record { buf = a ++ x ∷ b; cap = size; head = (length a + 1) % size })
        ≡ b ++ (a ++ x ∷ [])
  overwrite size x a [] c = to_vec_growing _ (rw end (mod_self size))
    where
      end : length a + 1 ≡ size
      end = omega arith
  overwrite size x a (z ∷ b) c =
      ap (λ k. to_vec (record { buf = a ++ x ∷ z ∷ b; cap = size; head = k })) next
      ∙ to_vec_full _ (omega (arith, length-append a (x ∷ z ∷ b)))
      ∙ ap₂ ◌++◌ (drop-length-append a x (z ∷ b)) (take-length-append a x (z ∷ b))
    where
      next : (length a + 1) % size ≡ suc (length a)
      next = mod-eq_of_lt {n = length a + 1} {m = size} (omega arith) ∙ omega arith

  push_full :
      (r : RingBuffer T) (x : T)
      → IsValid r
      → length r.buf ≡ r.cap
      → to_vec (push r x) ≡ drop 1 (to_vec r) ++ x ∷ []
  unfolding push
  push_full r x v h =
      rw (full, set-eq-split r.buf r.head x inside)
        (ap (λ k. to_vec (record r { buf = a ++ x ∷ b; head = (k + 1) % r.cap })) at_head
          ∙ overwrite r.cap x a b (omega (arith, at_head, length-drop (suc r.head) r.buf, inside)))
      ∙ sym (append_assoc b a (x ∷ []))
      ∙ ap (λ l. l ++ x ∷ []) (sym rest)
    where
      a : List T
      a = take r.head r.buf

      b : List T
      b = drop (suc r.head) r.buf

      full : ltb (length r.buf) r.cap ≡ false
      full = ground arith

      inside : r.head < length r.buf
      inside = head-lt-length r v (omega arith)

      at_head : r.head ≡ length a
      at_head = omega (arith, length-take r.head r.buf, inside)

      rest : drop 1 (to_vec r) ≡ b ++ a
      rest =
          let (y, e) = drop-eq-cons r.buf r.head inside in
          rw (to_vec_full r (omega (arith, inside)), e)

  -- A push to a well-formed ring appends the item, and drops the oldest one if the ring is full.
  pub to_vec-push :
      (r : RingBuffer T) (x : T) → IsValid r → to_vec (push r x) ≡ last r.cap (to_vec r ++ x ∷ [])
  to_vec-push r x v = elim (Bool-cases (ltb (length r.buf) r.cap)) [
    | inl e ↦
        push_growing r x v (ground arith)
        ∙ sym (last_of_length-le r.cap _ (ground (arith, length-to_vec r, grown)))
    | inr e ↦
        let full : length r.buf ≡ r.cap = ground (arith, v.bounded) in
        push_full r x v full ∙ sym (last_full full)
  ]
    where
      grown : length (to_vec r ++ x ∷ []) ≡ length r.buf + 1
      grown = omega (arith, length-append (to_vec r) (x ∷ []), length-to_vec r)

      last_full :
          length r.buf ≡ r.cap → last r.cap (to_vec r ++ x ∷ []) ≡ drop 1 (to_vec r) ++ x ∷ []
      last_full full =
          last-append-one r.cap (to_vec r) (omega (arith, length-to_vec r, v.positive)) x

  pub cap-push : (r : RingBuffer T) (x : T) → (push r x).cap ≡ r.cap
  unfolding push
  cap-push r x = ground arith

  -- `for x in xs { r.push(x) }`
  abbrev pub push_all : RingBuffer T → List T → RingBuffer T
  push_all = foldl push

  pub push_all-IsValid : (r : RingBuffer T) (xs : List T) → IsValid r → IsValid (push_all r xs)
  push_all-IsValid r [] v = v
  push_all-IsValid r (x ∷ xs) v = push_all-IsValid (push r x) xs (push-IsValid r x v)

  to_vec-push_all_from :
      (r : RingBuffer T) (xs : List T)
      → IsValid r
      → to_vec (push_all r xs) ≡ last r.cap (to_vec r ++ xs)
  to_vec-push_all_from r [] v =
      sym (ap (last r.cap) (append-nil (to_vec r)) ∙ last_of_length-le r.cap _ fits)
    where
      fits : length (to_vec r) ≤ r.cap
      fits = omega (arith, length-to_vec r, v.bounded)
  to_vec-push_all_from r (x ∷ xs) v =
      to_vec-push_all_from (push r x) xs (push-IsValid r x v)
      ∙ ap₂ (λ n l. last n (l ++ xs)) (cap-push r x) (to_vec-push r x v)
      ∙ last-last-append r.cap (to_vec r ++ x ∷ []) xs
      ∙ ap (last r.cap) (append_assoc (to_vec r) (x ∷ []) xs)

  -- After any pushes a new ring yields the last `max cap 1` items pushed, oldest first.
  pub to_vec-push_all :
      (cap : ℕ) (xs : List T) → to_vec (push_all (new cap) xs) ≡ last (max cap 1) xs
  unfolding new to_vec
  to_vec-push_all cap xs = to_vec-push_all_from (new cap) xs (new-IsValid cap)
