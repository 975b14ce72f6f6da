-- ===== src/Network/Hosts/Addresses.antt =====
-- Which addresses a request is sent to.
use post_urbit.Prelude.{
  ℕ, Bytes, true, false, ◌≡◌, refl, arith, Option, some, List, [], ◌∷◌, nat_eq, All, Bool-cases,
  inl, inr, ◌++◌, ap, ◌*◌, ◌+◌, ◌∙◌, subst, Option-cases,
}
use post_urbit.Network.Errors.{ok}
use post_urbit.Network.Hosts.{
  IpAddr, v6, Ipv4Addr, Ipv6Addr, SocketAddr, is_blocked_ip, is_blocked_ipv6, is_loopback,
  first_allowed, resolve_allowed_ip,
}

-- every address in the list is blocked
abbrev pub AllBlocked : List SocketAddr → Type 0
AllBlocked = All (λ addr. is_blocked_ip addr.ip ≡ true)

first_allowed-parts :
    (addrs : List SocketAddr) (addr : SocketAddr)
    → first_allowed addrs ≡ ok addr
    → (before : List SocketAddr) × (behind : List SocketAddr) × (addrs ≡ before ++ (addr ∷ behind))
      × AllBlocked before
      × (is_blocked_ip addr.ip ≡ false)
unfolding first_allowed
first_allowed-parts [] addr h = cc
first_allowed-parts (x ∷ addrs) addr h = elim (Bool-cases (is_blocked_ip x.ip)) [
  | inl e ↦
      let (before, behind, p, q, r) = first_allowed-parts addrs addr (ground (arith, h, e)) in
      (x ∷ before, behind, ap (λ l. x ∷ l) p, (e, q), r)
  | inr e ↦
      let same : x ≡ addr = ground (arith, h, e) in
      ([], addrs, ap (λ y. y ∷ addrs) same, tt, subst (λ y. is_blocked_ip y.ip ≡ false) same e)
]

-- The address that a request is sent to is the first of the resolved ones that is not blocked.
pub resolve_allowed_ip-allowed :
    (to_socket_addrs : Bytes → ℕ → Option (List SocketAddr)) (host : Bytes) (port : ℕ)
    (addr : SocketAddr)
    → resolve_allowed_ip to_socket_addrs host port ≡ ok addr
    → (before : List SocketAddr) × (behind : List SocketAddr) × (to_socket_addrs host port
        ≡ some (before ++ (addr ∷ behind)))
      × AllBlocked before
      × (is_blocked_ip addr.ip ≡ false)
unfolding resolve_allowed_ip
resolve_allowed_ip-allowed to_socket_addrs host port addr h =
    elim (Option-cases (to_socket_addrs host port)) [
      | inl e ↦ cc
      | inr (addrs, e) ↦
          let (before, behind, p, q, r) = first_allowed-parts addrs addr (ground (arith, h, e)) in
          (before, behind, e ∙ ap some p, q, r)
    ]

-- `::ffff:a.b.c.d`, the form in which sockets of IPv6 reach an address of IPv4
abbrev pub to_ipv6_mapped : Ipv4Addr → Ipv6Addr
to_ipv6_mapped addr = record {
  s0 = 0;
  s1 = 0;
  s2 = 0;
  s3 = 0;
  s4 = 0;
  s5 = 0xffff;
  s6 = addr.a * 256 + addr.b;
  s7 = addr.c * 256 + addr.d;
}

first_allowed-open :
    (target : SocketAddr)
    → is_blocked_ip target.ip ≡ false
    → first_allowed (target ∷ []) ≡ ok target
unfolding first_allowed
first_allowed-open target e = rw e refl

mapped-open :
    (addr : Ipv4Addr) (ip : IpAddr) → ip ≡ v6 (to_ipv6_mapped addr) → is_blocked_ip ip ≡ false
unfolding is_blocked_ip is_blocked_ipv6 is_loopback
mapped-open addr ip e = rw e refl

-- No address of IPv4 is blocked in its mapped form, so that a name which resolves to the mapped
-- form of any address, blocked or not, is sent a request.
pub resolve_allowed_ip-mapped :
    (to_socket_addrs : Bytes → ℕ → Option (List SocketAddr)) (host : Bytes) (port : ℕ)
    (addr : Ipv4Addr) (target : SocketAddr)
    → to_socket_addrs host port ≡ some (target ∷ [])
    → target.ip ≡ v6 (to_ipv6_mapped addr)
    → resolve_allowed_ip to_socket_addrs host port ≡ ok target
unfolding resolve_allowed_ip
resolve_allowed_ip-mapped to_socket_addrs host port addr target h e =
    rw (h, resolve_allowed_ip) (first_allowed-open target (mapped-open addr target.ip e))
