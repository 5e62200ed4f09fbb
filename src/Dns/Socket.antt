-- ===== src/Dns/Socket.antt =====
-- src/dns_capture.rs, the sockets: `open_capture_socket`, `recv_packet`, and how `run` opens them and
-- drains them. The system calls are parameters; what is modelled is which of them are made, and what
-- becomes of the descriptors.
pub mod Descriptors
mod Tests
use luci_app_overwatch.Base.{
  ℕ, Bool, true, false, ◌&&◌, ◌||◌, ◌==◌, List, [], ◌∷◌, ◌++◌, Option, none, some, if◌then◌else◌,
  take,
}
use luci_app_overwatch.Base.Int.{ℤ, pos, negsuc, ltb_ℤ, leb_ℤ}
use luci_app_overwatch.Base.Text.{Str}
use luci_app_overwatch.Dns.Loop.{Poll}

-- What the calls answer with: `socket` of a protocol, `if_nametoindex`, `bind` of a descriptor to a
-- protocol and an interface, and `fcntl` with `F_GETFL` and `F_SETFL`. `to_be` is the byte order of the
-- target, `or_nonblock` adds `O_NONBLOCK` to flags.
pub record Libc : Type 0 where
  pub to_be : ℕ → ℕ
  pub or_nonblock : ℤ → ℤ
  pub socket : ℕ → ℤ
  pub if_nametoindex : Str → ℕ
  pub bind : ℤ → ℕ → ℕ → ℤ
  pub get_flags : ℤ → ℤ
  pub set_flags : ℤ → ℤ → ℤ

-- The calls that open and close descriptors.
pub data Call : Type 0 where
  opened closed : ℤ → Call

-- A result with the calls made; `none` is an error.
abbrev pub Opening : Type 0
Opening = Option ℤ × List Call

-- `CString::new` fails on a text with a NUL.
abbrev pub has_nul : Str → Bool
has_nul [] = false
has_nul (c ∷ s) = c == 0 || has_nul s

abbrev pub is_negative : ℤ → Bool
is_negative n = ltb_ℤ n (pos 0)

abbrev pub give_up : ℤ → Opening
give_up fd = (none, opened fd ∷ closed fd ∷ [])

module _ (libc : Libc) where
  -- The socket has to be made non-blocking.
  abbrev pub set_nonblock : ℤ → ℤ → Opening
  set_nonblock fd flags =
      if is_negative flags || is_negative (libc.set_flags fd (libc.or_nonblock flags))
      then give_up fd
      else (some fd, opened fd ∷ [])

  abbrev pub bind_to : ℤ → ℕ → ℕ → Opening
  bind_to fd proto ifindex =
      if ifindex == 0
      then give_up fd
      else if is_negative (libc.bind fd proto ifindex)
      then give_up fd
      else set_nonblock fd (libc.get_flags fd)

  -- What is done with a descriptor that `socket` gave.
  abbrev pub with_fd : ℤ → Str → ℕ → Opening
  with_fd fd iface proto =
      if has_nul iface then (none, opened fd ∷ []) else bind_to fd proto (libc.if_nametoindex iface)

  unfoldable pub open_capture_socket : Str → ℕ → Opening
  open_capture_socket iface eth_proto =
      let proto = libc.to_be eth_proto in
      let fd = libc.socket proto in if is_negative fd then (none, []) else with_fd fd iface proto

-- `ETH_P_IP` and `ETH_P_IPV6`
abbrev pub eth_p_ip : ℕ
eth_p_ip = 0x0800

abbrev pub eth_p_ipv6 : ℕ
eth_p_ipv6 = 0x86DD

-- The descriptors that are polled: those that are not negative.
abbrev pub pollable : List ℤ → List ℤ
pollable [] = []
pollable (fd ∷ fds) = if leb_ℤ (pos 0) fd then fd ∷ pollable fds else pollable fds

-- Without the IPv4 socket there is no capture; without the IPv6 one it goes on alone.
abbrev pub or_minus_one : Option ℤ → ℤ
or_minus_one none = negsuc 0
or_minus_one (some fd) = fd

abbrev pub sockets : Option ℤ → Option ℤ → Option (List ℤ)
sockets none v6 = none
sockets (some v4) v6 = some (pollable (v4 ∷ or_minus_one v6 ∷ []))

unfoldable pub open_sockets : Libc → Str → Option (List ℤ) × List Call
unfolding open_capture_socket
open_sockets libc iface =
    let (v4, calls) = open_capture_socket libc iface eth_p_ip in
    elim v4 [
      | none ↦ (none, calls)
      | some fd ↦
          let (v6, more) = open_capture_socket libc iface eth_p_ipv6 in
          (sockets (some fd) v6, calls ++ more)
    ]

-- `buf`
abbrev pub buf_len : ℕ
buf_len = 4096

-- What `recv` gives: an error, or the datagram. An error and an empty one end the draining of a socket.
unfoldable pub drain_socket : List (Option (List ℕ)) → List (List ℕ)
drain_socket [] = []
drain_socket (none ∷ rest) = []
drain_socket (some [] ∷ rest) = []
drain_socket (some (b ∷ bs) ∷ rest) = take buf_len (b ∷ bs) ∷ drain_socket rest

-- A polled socket: whether it has `POLLIN`, and what is received from it.
pub record Polled : Type 0 where
  pub pollin : Bool
  pub received : List (Option (List ℕ))

abbrev pub drain_ready : List Polled → List (List ℕ)
unfolding drain_socket
drain_ready [] = []
drain_ready (s ∷ ss) =
    if s.pollin then drain_socket s.received ++ drain_ready ss else drain_ready ss

-- The packets of a round: `poll` says how many sockets are ready, or that it failed.
unfoldable pub packets_of : ℤ → List Polled → List (List ℕ)
unfolding drain_socket
packets_of n_ready fds = if ltb_ℤ (pos 0) n_ready then drain_ready fds else []

abbrev pub poll_of : ℤ → List Polled → ℤ → Str → Str → Bool → Poll
poll_of n_ready fds now leases arp commits = record {
  packets = packets_of n_ready fds;
  now = now;
  leases = leases;
  arp = arp;
  commits = commits;
}
