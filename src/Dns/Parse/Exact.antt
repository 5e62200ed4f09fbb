-- ===== src/Dns/Parse/Exact.antt =====
-- The parser returns a name exactly when the message spells it with at most five jumps.
use luci_app_overwatch.Base.{
  lt-length_of_get, ℕ, zero, suc, ◌+◌, ◌-◌, ◌*◌, ◌≤◌, ◌<◌, ◌≡◌, ◌↔◌, inl, inr, refl, sym, ap, subst,
  ◌∙◌, true, false, not, List, [], ◌∷◌, ◌++◌, append-nil, append_assoc, some, arith, ltb, leb, ◌==◌,
  length, take, drop, get_elem?,
}
use luci_app_overwatch.Base.Outcome.{
  Outcome, value, nothing, panicked, hung, ◌>>=◌, index, Ensures, Settles, slice_lem, >>=-eq-value,
}
use luci_app_overwatch.Base.Text.{Str}
use luci_app_overwatch.Base.Utf8.{from_utf8}
use luci_app_overwatch.Dns.Parse.Bytes.{IsBytes, IsBytes-get, pointer_test, plain_test, pointer_lem}
use luci_app_overwatch.Dns.Parse.Name.{Spells, stop, label, jump, RoundDoes, read_round_does}
use luci_app_overwatch.Dns.Parse.Total.{start_total}
use luci_app_overwatch.Dns.Parse.{
  Cursor, Round, break, continue, follow_pointer, read_label, read_round, read_labels, enough_fuel,
  start, join, parse_dns_qname,
}
use Prim.Native.Nat.{bit_and, bit_or}

index_of_get : (xs : List ℕ) (i : ℕ) {b : ℕ} → get_elem? xs i ≡ some b → index xs i ≡ value b
index_of_get [] i e = cc
index_of_get (x ∷ xs) zero e = cc
index_of_get (x ∷ xs) (suc i) e = index_of_get xs i e

module _ (msg : List ℕ) where
  abbrev Found : Cursor → List Str → Type 0
  Found c ls =
      (j : ℕ) × (rest : List Str) × Spells msg c.pos j rest
      × (c.jumps + j ≤ 5)
      × (ls ≡ c.labels ++ rest)

  module _ (c : Cursor) (ls : List Str) where
    -- A round before a name that is found from where it goes on.
    round-Found : (c' : Cursor) → RoundDoes msg c (continue c') → Found c' ls → Found c ls
    round-Found c' (inl (len, l, at, h, k, fits, dec, e)) f =
        let (j, rest, sp, few, eq) = subst (λ d. Found d ls) e f in
        (
          j,
          l ∷ rest,
          label len l rest at h k fits dec refl sp,
          few,
          eq ∙ append_assoc c.labels (l ∷ []) rest,
        )
    round-Found c' (inr (len, low, at, h, at', back, ok, e)) f =
        let (j, rest, sp, few, eq) = subst (λ d. Found d ls) e f in
        (suc j, rest, jump len low j at h at' back refl sp, omega arith, eq)

    rest-Found :
        (fuel : ℕ) (o : Outcome Round)
        → read_round msg c ≡ o
        → Ensures (RoundDoes msg c) o
        → c.jumps ≤ 5
        → ((c' : Cursor)
            → RoundDoes msg c (continue c')
            → read_labels fuel msg c' ≡ value ls
            → Found c' ls)
        → read_labels (suc fuel) msg c ≡ value ls
        → Found c ls
    unfolding read_labels
    rest-Found fuel (value (break labels)) e d few ih r =
        let r' : value labels ≡ value ls = rw (e, read_labels) at r in
        (0, [], stop d.0 refl refl, omega arith, cc (d.1, append-nil c.labels))
    rest-Found fuel (value (continue c')) e d few ih r =
        round-Found c' d (ih c' d (rw (e, read_labels) at r))
    rest-Found fuel nothing e d few ih r = cc (rw (e, read_labels) at r)
    rest-Found fuel panicked e d few ih r = absurd d
    rest-Found fuel hung e d few ih r = absurd d

  module _ (bytes : IsBytes msg) where
    -- The jumps that the loop has made stay within the cap.
    jumps_kept : (c c' : Cursor) → c.jumps ≤ 5 → RoundDoes msg c (continue c') → c'.jumps ≤ 5
    jumps_kept c c' few (inl (len, l, at, h, k, fits, dec, e)) = rw e few
    jumps_kept c c' few (inr (len, low, at, h, at', back, ok, e)) = rw e ok

    sound :
        (fuel : ℕ) (c : Cursor) (ls : List Str)
        → c.jumps ≤ 5
        → read_labels fuel msg c ≡ value ls
        → Found c ls
    unfolding read_labels
    sound zero c ls few r = cc
    sound (suc fuel) c ls few r =
        rest-Found c ls fuel (read_round msg c) refl (read_round_does msg c bytes) few
          (λ c' d r'. sound fuel c' ls (jumps_kept c c' few d) r') r

    inside : (i : ℕ) {b : ℕ} → get_elem? msg i ≡ some b → leb (length msg) i ≡ false
    inside i e = let h : i < length msg = lt-length_of_get msg i e in ground arith

    module _ (c : Cursor) where
      at_stop : get_elem? msg c.pos ≡ some 0 → read_round msg c ≡ value (break c.labels)
      unfolding read_round
      at_stop at = rw (inside c.pos at, index_of_get msg c.pos at)

      label_at :
          (len : ℕ) (l : Str)
          → c.pos + 1 + len ≤ length msg
          → from_utf8 (take len (drop (c.pos + 1) msg)) ≡ some l
          → read_label msg c len
            ≡ value (continue (record c { pos = c.pos + 1 + len; labels = c.labels ++ l ∷ [] }))
      unfolding read_label
      label_at len l fits dec =
          let e : ltb (length msg) (c.pos + 1 + len) ≡ false = ground arith in
          let width : c.pos + 1 + len - (c.pos + 1) ≡ len = omega arith in
          rw (e, slice_lem msg (c.pos + 1) (c.pos + 1 + len) (omega arith) fits, width, dec)

      jump_at :
          (len low : ℕ)
          → 192 ≤ len
          → len < 256
          → get_elem? msg (c.pos + 1) ≡ some low
          → (len - 192) * 256 + low < c.pos
          → c.jumps + 1 ≤ 5
          → follow_pointer msg c len
            ≡ value (continue (record c { pos = (len - 192) * 256 + low; jumps = c.jumps + 1 }))
      unfolding follow_pointer
      jump_at len low h small at' back few =
          let e : ltb 5 (c.jumps + 1) ≡ false = ground arith in
          let ptr : bit_or (bit_and len 0x3F * 256) low ≡ (len - 192) * 256 + low =
            pointer_lem len low h small (IsBytes-get msg (c.pos + 1) bytes at') in
          let before : leb c.pos ((len - 192) * 256 + low) ≡ false = ground arith in
          rw (inside (c.pos + 1) at', e, index_of_get msg (c.pos + 1) at', ptr, before)

      at_label :
          (len : ℕ) (l : Str)
          → get_elem? msg c.pos ≡ some len
          → 0 < len
          → len < 64
          → c.pos + 1 + len ≤ length msg
          → from_utf8 (take len (drop (c.pos + 1) msg)) ≡ some l
          → read_round msg c
            ≡ value (continue (record c { pos = c.pos + 1 + len; labels = c.labels ++ l ∷ [] }))
      unfolding read_round
      at_label len l at h k fits dec =
          let small : len < 256 = omega arith in
          let e0 : (len == 0) ≡ false = ground arith in
          let e1 : (bit_and len 0xC0 == 0xC0) ≡ false = pointer_test len small ∙ ground arith in
          let e2 : not (bit_and len 0xC0 == 0) ≡ false =
            ap not (plain_test len small) ∙ ground arith in
          rw (inside c.pos at, index_of_get msg c.pos at, e0, e1, e2) (label_at len l fits dec)

      at_jump :
          (len low : ℕ)
          → get_elem? msg c.pos ≡ some len
          → 192 ≤ len
          → get_elem? msg (c.pos + 1) ≡ some low
          → (len - 192) * 256 + low < c.pos
          → c.jumps + 1 ≤ 5
          → read_round msg c
            ≡ value (continue (record c { pos = (len - 192) * 256 + low; jumps = c.jumps + 1 }))
      unfolding read_round
      at_jump len low at h at' back few =
          let small : len < 256 = IsBytes-get msg c.pos bytes at in
          let e0 : (len == 0) ≡ false = ground arith in
          let e1 : (bit_and len 0xC0 == 0xC0) ≡ true = pointer_test len small ∙ ground arith in
          rw (inside c.pos at, index_of_get msg c.pos at, e0, e1)
            (jump_at len low h small at' back few)

    go_on :
        (fuel : ℕ) (c c' : Cursor)
        → read_round msg c ≡ value (continue c')
        → read_labels (suc fuel) msg c ≡ read_labels fuel msg c'
    unfolding read_labels
    go_on fuel c c' e = rw (e, read_labels)

    -- The loop from a cursor at a spelled name. It does not run out of fuel, so it finds the name.
    complete :
        (fuel pos j : ℕ) (ls : List Str) (c : Cursor)
        → Spells msg pos j ls
        → c.pos ≡ pos
        → c.jumps + j ≤ 5
        → Settles (read_labels fuel msg c)
        → read_labels fuel msg c ≡ value (c.labels ++ ls)
    unfolding read_labels
    complete zero pos j ls c sp p few s = absurd s
    complete (suc fuel) pos j ls c (stop at z e) p few s =
        rw (at_stop c (rw p at), read_labels) (rw e (ap value (sym (append-nil c.labels))))
    complete (suc fuel) pos j ls c (label len l rest at h k fits dec e sp) p few s =
        let c' : Cursor = record c { pos = c.pos + 1 + len; labels = c.labels ++ l ∷ [] } in
        let st : read_labels (suc fuel) msg c ≡ read_labels fuel msg c' = go_on fuel c c' (
          at_label c len l (rw p at) h k (rw p fits)
            (subst (λ q. from_utf8 (take len (drop (q + 1) msg)) ≡ some l) (sym p) dec)) in
        st
        ∙ complete fuel (pos + 1 + len) j rest c' sp (ap (λ (q : ℕ). q + 1 + len) p) few
            (subst Settles st s)
        ∙ ap value (append_assoc c.labels (l ∷ []) rest ∙ ap (λ t. c.labels ++ t) (sym e))
    complete (suc fuel) pos j ls c (jump len low i at h at' back e sp) p few s =
        let few' : c.jumps + 1 + i ≤ 5 = omega arith in
        let c' : Cursor = record c { pos = (len - 192) * 256 + low; jumps = c.jumps + 1 } in
        let st : read_labels (suc fuel) msg c ≡ read_labels fuel msg c' = go_on fuel c c' (
          at_jump c len low (rw p at) h (subst (λ q. get_elem? msg (q + 1) ≡ some low) (sym p) at')
            (rw p back) (omega arith)) in
        st ∙ complete fuel _ i ls c' sp refl few' (subst Settles st s)

  -- A name of a message is a sequence of labels, spelled from behind the header on, with a number of
  -- jumps, and written with dots.
  abbrev pub Spelled : Str → ℕ → Type 0
  Spelled name limit =
      (ls : List Str) × (j : ℕ) × Spells msg 12 j ls × (j ≤ limit) × (name ≡ join ls)

  -- For a message of bytes with a whole header, `parse_dns_qname` returns a name exactly when the
  -- message spells it, from byte 12 on, with at most five jumps.
  pub parse_dns_qname_iff :
      (name : Str)
      → IsBytes msg
      → 12 ≤ length msg
      → (parse_dns_qname msg ≡ value name) ↔ Spelled name 5
  unfolding parse_dns_qname
  parse_dns_qname_iff name bytes long = rw full (to, from)
    where
      full : ltb (length msg) 12 ≡ false
      full = ground arith

      to :
          (read_labels (enough_fuel msg) msg start >>= λ ls. value (join ls)) ≡ value name
          → Spelled name 5
      to e =
          let (ls, found, joined) =
            >>=-eq-value (read_labels (enough_fuel msg) msg start) (λ ls. value (join ls)) e in
          let (j, rest, sp, few, eq) = sound bytes (enough_fuel msg) start ls (omega arith) found in
          (rest, j, sp, omega arith, cc (joined, eq))

      from :
          Spelled name 5
          → (read_labels (enough_fuel msg) msg start >>= λ ls. value (join ls)) ≡ value name
      from (ls, j, sp, few, e) = rw (
        complete bytes (enough_fuel msg) 12 j ls start sp refl (omega arith) (start_total msg long),
        e,
      )
