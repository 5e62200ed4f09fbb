-- ===== src/Dns/Socket/Descriptors.antt =====
-- Which descriptors stay open.
use luci_app_overwatch.Base.{
  ℕ, ◌≡◌, ◌≢◌, refl, sym, ◌∙◌, true, false, ◌==◌, ite, if_pos, List, [], ◌∷◌, none, some,
  Bool-cases, inl, inr, ==_iff,
}
use luci_app_overwatch.Base.Int.{ℤ, ℤ-discrete}
use luci_app_overwatch.Base.Text.{Str}
use luci_app_overwatch.Dns.Socket.{
  Libc, Call, opened, closed, Opening, has_nul, is_negative, give_up, set_nonblock,
  open_capture_socket,
}

abbrev remove : ℤ → List ℤ → List ℤ
remove fd [] = []
remove fd (f ∷ fs) = ite (ℤ-discrete f fd) fs (f ∷ remove fd fs)

-- The descriptors that are open after some calls, the newest first.
abbrev pub open_after : List ℤ → List Call → List ℤ
open_after fds [] = fds
open_after fds (opened fd ∷ calls) = open_after (fd ∷ fds) calls
open_after fds (closed fd ∷ calls) = open_after (remove fd fds) calls

-- A descriptor that is ready for the loop: on an interface that there is, bound, and non-blocking.
pub record IsReady (libc : Libc) (iface : Str) (eth_proto : ℕ) (fd : ℤ) : Type 0 where
  pub given : libc.socket (libc.to_be eth_proto) ≡ fd
  pub valid : is_negative fd ≡ false
  pub interface : libc.if_nametoindex iface ≢ 0
  pub bound : is_negative (libc.bind fd (libc.to_be eth_proto) (libc.if_nametoindex iface)) ≡ false
  pub nonblocking : is_negative (libc.set_flags fd (libc.or_nonblock (libc.get_flags fd))) ≡ false

-- What opening a socket may come to: a descriptor that is ready and open, an error that leaves no
-- descriptor open, or an error that leaves one, for a name with a NUL.
pub data Outcomes (libc : Libc) (iface : Str) (eth_proto : ℕ) : Opening → Type 0 where
  ready :
      (fd : ℤ) (calls : List Call)
      → IsReady libc iface eth_proto fd
      → open_after [] calls ≡ fd ∷ []
      → Outcomes libc iface eth_proto (some fd, calls)
  clean :
      (calls : List Call) → open_after [] calls ≡ [] → Outcomes libc iface eth_proto (none, calls)
  leaked :
      (fd : ℤ) (calls : List Call)
      → has_nul iface ≡ true
      → libc.socket (libc.to_be eth_proto) ≡ fd
      → open_after [] calls ≡ fd ∷ []
      → Outcomes libc iface eth_proto (none, calls)

give_up_lem :
    (libc : Libc) (iface : Str) (eth_proto : ℕ) (fd : ℤ)
    → Outcomes libc iface eth_proto (give_up fd)
give_up_lem libc iface eth_proto fd =
    clean (opened fd ∷ closed fd ∷ []) (if_pos (ℤ-discrete fd fd) refl [] (fd ∷ []))

nonblocking_lem :
    (libc : Libc) (iface : Str) (eth_proto : ℕ)
    → let fd = libc.socket (libc.to_be eth_proto) in
      is_negative fd ≡ false
      → libc.if_nametoindex iface ≢ 0
      → is_negative (libc.bind fd (libc.to_be eth_proto) (libc.if_nametoindex iface)) ≡ false
      → Outcomes libc iface eth_proto (set_nonblock libc fd (libc.get_flags fd))
nonblocking_lem libc iface eth_proto valid index bound =
    let fd : ℤ = libc.socket (libc.to_be eth_proto) in
    let flags : ℤ = libc.get_flags fd in
    let lost = give_up_lem libc iface eth_proto fd in
    elim (Bool-cases (is_negative flags)) [
      | inl e ↦ rw e lost
      | inr e ↦ rw e (elim (Bool-cases (is_negative (libc.set_flags fd (libc.or_nonblock flags)))) [
        | inl f ↦ rw f lost
        | inr f ↦
            let all : IsReady libc iface eth_proto fd = record {
              given = refl;
              valid = valid;
              interface = index;
              bound = bound;
              nonblocking = f;
            } in
            rw f (ready fd (opened fd ∷ []) all refl)
      ])
    ]

-- Opening a socket for packets gives a descriptor that is bound to the interface and non-blocking and
-- stays open, or an error after which no descriptor is open: every one that was opened is closed
-- again. The exception is a name of an interface with a NUL in it, for which the new descriptor is
-- lost.
pub open_capture_socket-Outcomes :
    (libc : Libc) (iface : Str) (eth_proto : ℕ)
    → Outcomes libc iface eth_proto (open_capture_socket libc iface eth_proto)
unfolding open_capture_socket
open_capture_socket-Outcomes libc iface eth_proto =
    let proto : ℕ = libc.to_be eth_proto in
    let fd : ℤ = libc.socket proto in
    let lost = give_up_lem libc iface eth_proto fd in
    elim (Bool-cases (is_negative fd)) [
      | inl a ↦ rw a (clean [] refl)
      | inr a ↦ rw a (elim (Bool-cases (has_nul iface)) [
        | inl b ↦ rw b (leaked fd (opened fd ∷ []) b refl refl)
        | inr b ↦ rw b (elim (Bool-cases (libc.if_nametoindex iface == 0)) [
          | inl c ↦ rw c lost
          | inr c ↦
              rw c
                (elim (Bool-cases (is_negative (libc.bind fd proto (libc.if_nametoindex iface)))) [
                  | inl d ↦ rw d lost
                  | inr d ↦
                      let index : libc.if_nametoindex iface ≢ 0 =
                        λ e. cc (sym c ∙ (==_iff (libc.if_nametoindex iface) 0).1 e) in
                      rw d (nonblocking_lem libc iface eth_proto a index d)
                ])
        ])
      ])
    ]
