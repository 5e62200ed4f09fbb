-- ===== src/Flow/Key.antt =====
-- The key of a connection.
use luci_app_overwatch.Base.{
  ℕ, ◌≡◌, ◌⊎◌, inl, inr, refl, sym, ap₂, true, false, arith, if◌then◌else◌,
}
use luci_app_overwatch.Base.Ip.{IpAddr, v4, v6}
use luci_app_overwatch.Flow.{Proto, End, before, as_u8, compute_flow_key}

-- Of two different ends exactly one comes first.
before_total : (a b : End) → (a ≡ b) ⊎ (before a b ≡ true) ⊎ (before b a ≡ true)
before_total (v4 a, p) (v4 b, q) = ground arith
before_total (v6 a, p) (v6 b, q) = ground arith
before_total (v4 a, p) (v6 b, q) = inr (inl refl)
before_total (v6 a, p) (v4 b, q) = inr (inr refl)

before_asym : (a b : End) → before a b ≡ true → before b a ≡ false
before_asym (v4 a, p) (v4 b, q) h = ground arith
before_asym (v6 a, p) (v6 b, q) h = ground arith
before_asym (v4 a, p) (v6 b, q) h = refl
before_asym (v6 a, p) (v4 b, q) h = cc

-- Whatever the hash function is, both directions of a connection have the same key.
pub compute_flow_key-swap :
    (hash : End → End → ℕ → ℕ) (a_ip : IpAddr) (a_port : ℕ) (b_ip : IpAddr) (b_port : ℕ)
    (proto : Proto)
    → compute_flow_key hash a_ip a_port b_ip b_port proto
      ≡ compute_flow_key hash b_ip b_port a_ip a_port proto
unfolding compute_flow_key
compute_flow_key-swap hash a_ip a_port b_ip b_port proto =
    let a : End = (a_ip, a_port) in
    let b : End = (b_ip, b_port) in
    elim (before_total a b) [
      | inl e ↦
          let both : End → End → ℕ =
            λ x y. if before y x then hash y x (as_u8 proto) else hash x y (as_u8 proto) in
          ap₂ both e (sym e)
      | inr h ↦ elim h [
        | inl h ↦ rw (h, before_asym a b h) refl
        | inr h ↦ rw (h, before_asym b a h) refl
      ]
    ]
