-- ===== src/Classify.antt =====
-- src/classify.rs: which end of a flow is a client of the local network, and what it moved.
pub mod Prefix
pub mod Attribute
mod Tests
use luci_app_overwatch.Base.{
  ℕ, ◌-◌, ◌*◌, ◌%◌, ◌^◌, min, Bool, true, false, ◌||◌, List, [], ◌∷◌, Option, none, some, ◌==◌,
  if◌then◌else◌,
}
use luci_app_overwatch.Base.Ip.{IpAddr, v4, v6}
use luci_app_overwatch.Flow.{Flow, Proto}
use Prim.Native.Nat.{bit_and}

-- `prefix_len` is a `u8`.
pub record IpNet : Type 0 where
  pub addr : IpAddr
  pub prefix_len : ℕ

-- `u32::MAX << (32 - len.min(32))`: what is shifted out is lost.
unfoldable pub prefix_mask_v4 : ℕ → ℕ
prefix_mask_v4 len = if len == 0 then 0 else (2 ^ 32 - 1) * 2 ^ (32 - min len 32) % 2 ^ 32

unfoldable pub prefix_mask_v6 : ℕ → ℕ
prefix_mask_v6 len = if len == 0 then 0 else (2 ^ 128 - 1) * 2 ^ (128 - min len 128) % 2 ^ 128

abbrev pub contains_from : IpAddr → ℕ → IpAddr → Bool
contains_from (v4 net) len (v4 host) =
    bit_and net (prefix_mask_v4 len) == bit_and host (prefix_mask_v4 len)
contains_from (v6 net) len (v6 host) =
    bit_and net (prefix_mask_v6 len) == bit_and host (prefix_mask_v6 len)
contains_from _ len _ = false

unfoldable pub contains : IpNet → IpAddr → Bool
unfolding prefix_mask_v4 prefix_mask_v6
contains n ip = contains_from n.addr n.prefix_len ip

pub record ClientDelta : Type 0 where
  pub client : IpAddr
  pub rx : ℕ
  pub tx : ℕ
  pub proto : Proto

pub record LanClassifier : Type 0 where
  pub prefixes : List IpNet

abbrev pub any_contains : List IpNet → IpAddr → Bool
any_contains [] ip = false
any_contains (n ∷ ns) ip = contains n ip || any_contains ns ip

unfoldable pub is_lan : LanClassifier → IpAddr → Bool
is_lan c ip = any_contains c.prefixes ip

unfoldable pub attribute : LanClassifier → Flow → Option ClientDelta
attribute c flow =
    if is_lan c flow.orig_src
    then some (record {
      client = flow.orig_src;
      rx = flow.reply_bytes;
      tx = flow.orig_bytes;
      proto = flow.proto;
    })
    else if is_lan c flow.orig_dst
    then some (record {
      client = flow.orig_dst;
      rx = flow.orig_bytes;
      tx = flow.reply_bytes;
      proto = flow.proto;
    })
    else none
