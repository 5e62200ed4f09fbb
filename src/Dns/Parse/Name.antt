-- ===== src/Dns/Parse/Name.antt =====
-- How a message spells a name, as the DNS standard has it: labels of 1 to 63 bytes, jumps to earlier
-- positions, and a zero at the end. The parser finds exactly the names that take five jumps at most.
use luci_app_overwatch.Base.{
  ℕ, suc, ◌+◌, ◌-◌, ◌*◌, ◌≤◌, ◌<◌, ◌≡◌, ◌⊎◌, inl, inr, refl, sym, ap, ◌∙◌, Bool, true, false, not,
  List, [], ◌∷◌, ◌++◌, some, arith, ltb, leb, ltb→lt, leb→le, ◌==◌, ==_iff, length, take, drop,
  get_elem?,
}
use luci_app_overwatch.Base.Outcome.{
  value, nothing, or_nothing, index, slice, Ensures, Ensures->>=, Ensures-if, Ensures-or_nothing,
  Ensures-index, slice_lem,
}
use luci_app_overwatch.Base.Text.{Str}
use luci_app_overwatch.Base.Utf8.{from_utf8}
use luci_app_overwatch.Dns.Parse.{
  Cursor, Round, break, continue, follow_pointer, read_label, read_round,
}
use luci_app_overwatch.Dns.Parse.Bytes.{IsBytes, IsBytes-get, pointer_test, plain_test, pointer_lem}
use Prim.Native.Nat.{bit_and, bit_or}

eq_true_of_not : (b : Bool) → not b ≡ false → b ≡ true
eq_true_of_not b h = ground arith

module _ (msg : List ℕ) where
  -- `Spells pos j ls`: from `pos` on the message spells `ls`, with `j` jumps on the way.
  pub data Spells : ℕ → ℕ → List Str → Type 0 where
    stop :
        {pos j : ℕ} {ls : List Str} → get_elem? msg pos ≡ some 0 → j ≡ 0 → ls ≡ [] → Spells pos j ls
    label :
        {pos j : ℕ} {ls : List Str} (len : ℕ) (l : Str) (rest : List Str)
        → get_elem? msg pos ≡ some len
        → 0 < len
        → len < 64
        → pos + 1 + len ≤ length msg
        → from_utf8 (take len (drop (pos + 1) msg)) ≡ some l
        → ls ≡ l ∷ rest
        → Spells (pos + 1 + len) j rest
        → Spells pos j ls
    jump :
        {pos j : ℕ} {ls : List Str} (len low i : ℕ)
        → get_elem? msg pos ≡ some len
        → 192 ≤ len
        → get_elem? msg (pos + 1) ≡ some low
        → (len - 192) * 256 + low < pos
        → j ≡ suc i
        → Spells ((len - 192) * 256 + low) i ls
        → Spells pos j ls

  module _ (c : Cursor) where
    abbrev pub IsLabel : Cursor → Type 0
    IsLabel c' =
        (len : ℕ) × (l : Str) × (get_elem? msg c.pos ≡ some len)
        × (0 < len)
        × (len < 64)
        × (c.pos + 1 + len ≤ length msg)
        × (from_utf8 (take len (drop (c.pos + 1) msg)) ≡ some l)
        × (c' ≡ record c { pos = c.pos + 1 + len; labels = c.labels ++ l ∷ [] })

    abbrev pub IsJump : Cursor → Type 0
    IsJump c' =
        (len : ℕ) × (low : ℕ) × (get_elem? msg c.pos ≡ some len)
        × (192 ≤ len)
        × (get_elem? msg (c.pos + 1) ≡ some low)
        × ((len - 192) * 256 + low < c.pos)
        × (c.jumps + 1 ≤ 5)
        × (c' ≡ record c { pos = (len - 192) * 256 + low; jumps = c.jumps + 1 })

    -- What a round does, by the bytes at its position.
    abbrev pub RoundDoes : Round → Type 0
    RoundDoes (break labels) = (get_elem? msg c.pos ≡ some 0) × (labels ≡ c.labels)
    RoundDoes (continue c') = IsLabel c' ⊎ IsJump c'

    module _ (bytes : IsBytes msg) where
      follow_pointer_does :
          (len : ℕ)
          → get_elem? msg c.pos ≡ some len
          → 192 ≤ len
          → Ensures RoundDoes (follow_pointer msg c len)
      unfolding follow_pointer
      follow_pointer_does len at h =
          Ensures-if RoundDoes (leb (length msg) (c.pos + 1)) _ _ (λ _. tt)
            λ inside.
              Ensures-if RoundDoes (ltb 5 (c.jumps + 1)) _ _ (λ _. tt)
                λ few.
                  Ensures->>= (λ low. get_elem? msg (c.pos + 1) ≡ some low) RoundDoes
                    (index msg (c.pos + 1)) _ (Ensures-index msg (c.pos + 1) (ground arith))
                    λ low at'.
                      let e : bit_or (bit_and len 0x3F * 256) low ≡ (len - 192) * 256 + low =
                        pointer_lem len low h (IsBytes-get msg c.pos bytes at)
                          (IsBytes-get msg (c.pos + 1) bytes at') in
                      rw e (
                        Ensures-if RoundDoes (leb c.pos ((len - 192) * 256 + low)) _ _ (λ _. tt)
                          λ back. inr (len, low, at, h, at', ground arith, ground arith, refl))

      read_label_does :
          (len : ℕ)
          → get_elem? msg c.pos ≡ some len
          → 0 < len
          → len < 64
          → Ensures RoundDoes (read_label msg c len)
      unfolding read_label
      read_label_does len at h k =
          Ensures-if RoundDoes (ltb (length msg) (c.pos + 1 + len)) _ _ (λ _. tt)
            λ inside.
              let fits : c.pos + 1 + len ≤ length msg = ground arith in
              let width : c.pos + 1 + len - (c.pos + 1) ≡ len = omega arith in
              let sliced : slice msg (c.pos + 1) (c.pos + 1 + len)
                  ≡ value (take len (drop (c.pos + 1) msg)) =
                slice_lem msg (c.pos + 1) (c.pos + 1 + len) (omega arith) fits
                ∙ ap (λ (n : ℕ). value (take n (drop (c.pos + 1) msg))) width in
              rw sliced (
                Ensures->>= (λ l. from_utf8 (take len (drop (c.pos + 1) msg)) ≡ some l) RoundDoes
                  (or_nothing (from_utf8 (take len (drop (c.pos + 1) msg)))) _
                  (Ensures-or_nothing _ _ (λ l e. e)) λ l e. inl (len, l, at, h, k, fits, e, refl))

      pub read_round_does : Ensures RoundDoes (read_round msg c)
      unfolding read_round
      read_round_does =
          Ensures-if RoundDoes (leb (length msg) c.pos) _ _ (λ _. tt)
            λ inside.
              Ensures->>= (λ len. get_elem? msg c.pos ≡ some len) RoundDoes (index msg c.pos) _
                (Ensures-index msg c.pos (ground arith))
                λ len at.
                  let small : len < 256 = IsBytes-get msg c.pos bytes at in
                  Ensures-if RoundDoes (len == 0) _ _
                    (λ z. (at ∙ ap some ((==_iff len 0).0 z), refl))
                    λ nz.
                      Ensures-if RoundDoes (bit_and len 0xC0 == 0xC0) _ _
                        (λ p.
                          follow_pointer_does len at
                            (leb→le 192 len (sym (pointer_test len small) ∙ p)))
                        λ _.
                          Ensures-if RoundDoes (not (bit_and len 0xC0 == 0)) nothing
                            (read_label msg c len) (λ _. tt)
                            λ p.
                              read_label_does len at (ground arith)
                                (ltb→lt len 64 (sym (plain_test len small) ∙ eq_true_of_not _ p))
