-- ===== src/Dns/Socket/Tests.antt =====
-- An interface that there is, and names that there are not.
use luci_app_overwatch.Base.{◌≡◌, refl, true, false, ite, [], ◌∷◌, some, none, ℕ_discrete}
use luci_app_overwatch.Base.Int.{pos, negsuc}
use luci_app_overwatch.Base.Text.{Str-discrete, text}
use luci_app_overwatch.Dns.Socket.{
  Libc, opened, closed, open_capture_socket, open_sockets, eth_p_ip, drain_socket, packets_of,
}
use luci_app_overwatch.Dns.Socket.Descriptors.{Outcomes, open_capture_socket-Outcomes}

-- Descriptor 3 for IPv4, none for IPv6.
abbrev libc : Libc
libc = record {
  to_be = λ n. n;
  or_nonblock = λ flags. flags;
  socket = λ proto. ite (ℕ_discrete proto eth_p_ip) (pos 3) (negsuc 0);
  if_nametoindex = λ name. ite (Str-discrete name (text "br-lan")) 7 0;
  bind = λ fd proto index. pos 0;
  get_flags = λ fd. pos 2;
  set_flags = λ fd flags. pos 0;
}

v4_only : open_sockets libc (text "br-lan") ≡ (some (pos 3 ∷ []), opened (pos 3) ∷ [])
unfolding open_sockets Str-discrete ℕ_discrete
v4_only = refl

no_interface :
    open_capture_socket libc (text "br0") eth_p_ip ≡ (none, opened (pos 3) ∷ closed (pos 3) ∷ [])
unfolding open_capture_socket Str-discrete ℕ_discrete
no_interface = refl

-- An error ends the draining of a socket, and a socket that is not ready is not drained.
two_sockets :
    packets_of (pos 1) (
      record { pollin = false; received = some (9 ∷ []) ∷ [] }
      ∷ record { pollin = true; received = some (1 ∷ 2 ∷ []) ∷ none ∷ some (3 ∷ []) ∷ [] }
      ∷ [])
    ≡ (1 ∷ 2 ∷ []) ∷ []
unfolding packets_of drain_socket
two_sockets = refl

open_example :
    Outcomes libc (text "br-lan") eth_p_ip (open_capture_socket libc (text "br-lan") eth_p_ip)
open_example = open_capture_socket-Outcomes libc (text "br-lan") eth_p_ip
