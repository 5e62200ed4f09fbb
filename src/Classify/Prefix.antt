-- ===== src/Classify/Prefix.antt =====
-- A network contains the addresses of its family that share its leading bits.
use luci_app_overwatch.Base.{
  ℕ, zero, suc, ◌-◌, ◌*◌, ◌/◌, ◌^◌, ◌≤◌, ◌<◌, ◌≡◌, ◌↔◌, refl, sym, subst, dec_lt, ap, ap₂, ◌∙◌, min,
  true, arith, ◌==◌, ==_iff,
}
use luci_app_overwatch.Base.Bits.{and_leading, pos_pow}
use luci_app_overwatch.Base.Tables.{all_upto, all_upto_sound}
use luci_app_overwatch.Base.Ip.{IpAddr, v4, v6}
use luci_app_overwatch.Classify.{IpNet, prefix_mask_v4, prefix_mask_v6, contains, contains_from}
use native.Mathlib.Nat.{pow-suc, mul-div_cancel}
use Prim.Native.Nat.{bit_and}

table_v4 : all_upto 32 (λ j. prefix_mask_v4 j == (2 ^ j - 1) * 2 ^ (32 - j)) ≡ true
unfolding all_upto prefix_mask_v4
table_v4 = refl

table_v6 : all_upto 128 (λ j. prefix_mask_v6 j == (2 ^ j - 1) * 2 ^ (128 - j)) ≡ true
unfolding all_upto prefix_mask_v6
table_v6 = refl

-- A length past the width is read as the width.
cap_v4 : (len : ℕ) → prefix_mask_v4 len ≡ prefix_mask_v4 (min len 32)
unfolding prefix_mask_v4
cap_v4 len = elim (dec_lt len 33) [
  | yes h ↦ ap (λ (t : ℕ). prefix_mask_v4 t) (omega arith)
  | no h ↦ ground arith
]

cap_v6 : (len : ℕ) → prefix_mask_v6 len ≡ prefix_mask_v6 (min len 128)
unfolding prefix_mask_v6
cap_v6 len = elim (dec_lt len 129) [
  | yes h ↦ ap (λ (t : ℕ). prefix_mask_v6 t) (omega arith)
  | no h ↦ ground arith
]

module _ (len : ℕ) where
  leading_v4 : prefix_mask_v4 len ≡ (2 ^ min len 32 - 1) * 2 ^ (32 - min len 32)
  leading_v4 = cap_v4 len ∙ (==_iff _ _).0 (all_upto_sound 32 _ (min len 32) table_v4 (omega arith))

  leading_v6 : prefix_mask_v6 len ≡ (2 ^ min len 128 - 1) * 2 ^ (128 - min len 128)
  leading_v6 =
      cap_v6 len ∙ (==_iff _ _).0 (all_upto_sound 128 _ (min len 128) table_v6 (omega arith))

pow_split : (w j : ℕ) → j ≤ w → 2 ^ w ≡ 2 ^ j * 2 ^ (w - j)
pow_split zero zero h = refl
pow_split zero (suc j) h = absurd (omega arith)
pow_split (suc w) zero h =
    let all : 2 ^ (suc w - 0) ≡ 2 ^ suc w = ap (λ (t : ℕ). 2 ^ t) (omega arith) in omega arith
pow_split (suc w) (suc j) h =
    let a : ℕ = 2 ^ j in
    let b : ℕ = 2 ^ (w - j) in
    let same : 2 ^ (suc w - suc j) ≡ b = ap (λ (t : ℕ). 2 ^ t) (omega arith) in
    pow-suc 2 w
    ∙ ap (λ (t : ℕ). t * 2) (pow_split w j (omega arith))
    ∙ reorder a b
    ∙ ap₂ ◌*◌ (sym (pow-suc 2 j)) (sym same)
  where
    reorder : (a b : ℕ) → a * b * 2 ≡ a * 2 * b
    reorder a b = omega arith

masked_v4 :
    (len x : ℕ)
    → x < 2 ^ 32
    → bit_and x (prefix_mask_v4 len) ≡ x / 2 ^ (32 - min len 32) * 2 ^ (32 - min len 32)
masked_v4 len x h =
    ap (bit_and x) (leading_v4 len)
    ∙ and_leading (min len 32) (32 - min len 32) x
        (subst (λ (t : ℕ). x < t) (pow_split 32 (min len 32) (omega arith)) h)

masked_v6 :
    (len x : ℕ)
    → x < 2 ^ 128
    → bit_and x (prefix_mask_v6 len) ≡ x / 2 ^ (128 - min len 128) * 2 ^ (128 - min len 128)
masked_v6 len x h =
    ap (bit_and x) (leading_v6 len)
    ∙ and_leading (min len 128) (128 - min len 128) x
        (subst (λ (t : ℕ). x < t) (pow_split 128 (min len 128) (omega arith)) h)

cancel : (a b k : ℕ) → (a * 2 ^ k ≡ b * 2 ^ k) ↔ (a ≡ b)
cancel a b k = (
  λ e.
      sym (mul-div_cancel a (pos_pow k))
      ∙ ap (λ (t : ℕ). t / 2 ^ k) e
      ∙ mul-div_cancel b (pos_pow k),
  λ e. ap (λ (t : ℕ). t * 2 ^ k) e,
)

abbrev pub IsAddr : IpAddr → Type 0
IsAddr (v4 n) = n < 2 ^ 32
IsAddr (v6 n) = n < 2 ^ 128

-- The same leading bits, at most as many as the family has.
abbrev pub SharesPrefix : IpAddr → ℕ → IpAddr → Type 0
SharesPrefix (v4 net) len (v4 host) = net / 2 ^ (32 - min len 32) ≡ host / 2 ^ (32 - min len 32)
SharesPrefix (v6 net) len (v6 host) = net / 2 ^ (128 - min len 128) ≡ host / 2 ^ (128 - min len 128)
SharesPrefix _ len _ = ⊥

module _ (k : ℕ) {x y a b : ℕ} (p : x ≡ a * 2 ^ k) (q : y ≡ b * 2 ^ k) where
  compare_masked : ((x == y) ≡ true) ↔ (a ≡ b)
  compare_masked = (
    λ e. (cancel a b k).0 (sym p ∙ (==_iff x y).0 e ∙ q),
    λ e. (==_iff x y).1 (p ∙ (cancel a b k).1 e ∙ sym q),
  )

-- For addresses in the range of their family, `contains` holds exactly of those of the network's
-- family that share its leading bits, whatever bits the network's own address has behind them; a
-- length past the width counts as the width.
pub contains_iff :
    (n : IpNet) (ip : IpAddr)
    → IsAddr n.addr
    → IsAddr ip
    → (contains n ip ≡ true) ↔ SharesPrefix n.addr n.prefix_len ip
unfolding contains
contains_iff n ip = go n.addr n.prefix_len ip
  where
    go :
        (a : IpAddr) (len : ℕ) (b : IpAddr)
        → IsAddr a
        → IsAddr b
        → (contains_from a len b ≡ true) ↔ SharesPrefix a len b
    go (v4 x) len (v4 y) h k =
        compare_masked (32 - min len 32) (masked_v4 len x h) (masked_v4 len y k)
    go (v6 x) len (v6 y) h k =
        compare_masked (128 - min len 128) (masked_v6 len x h) (masked_v6 len y k)
    go (v4 x) len (v6 y) h k = (λ e. cc, λ e. absurd e)
    go (v6 x) len (v4 y) h k = (λ e. cc, λ e. absurd e)
