-- ===== src/Network/Hosts.antt =====
-- network.rs: which destinations an application may reach. Names are bytes; the resolver of the
-- operating system and the parser of addresses are parameters.
pub mod Patterns
pub mod Addresses
use post_urbit.Prelude.{
  ℕ, Bytes, Bool, true, false, ◌&&◌, ◌||◌, ◌-◌, Option, none, some, List, [], ◌∷◌, ◌++◌, ◌==◌,
  nat_eq, list_eq, ltb, leb, if◌then◌else◌, length, drop, map, any, starts_with, ascii, bit_and,
}
use post_urbit.Mailbox.Urls.{to_lower, trim_end}
use post_urbit.Network.Errors.{NetworkResult, ok, fail, ◌>>=◌}

pub record Ipv4Addr : Type 0 where
  pub a : ℕ
  pub b : ℕ
  pub c : ℕ
  pub d : ℕ

-- eight segments of 16 bits
pub record Ipv6Addr : Type 0 where
  pub s0 : ℕ
  pub s1 : ℕ
  pub s2 : ℕ
  pub s3 : ℕ
  pub s4 : ℕ
  pub s5 : ℕ
  pub s6 : ℕ
  pub s7 : ℕ

pub data IpAddr : Type 0 where
  v4 : Ipv4Addr → IpAddr
  v6 : Ipv6Addr → IpAddr

pub record SocketAddr : Type 0 where
  pub ip : IpAddr
  pub port : ℕ

unfoldable pub is_blocked_ipv4 : Ipv4Addr → Bool
is_blocked_ipv4 addr =
    addr.a == 127
    || addr.a == 10
    || (addr.a == 192 && addr.b == 168)
    || (addr.a == 172 && (leb 16 addr.b && leb addr.b 31))
    || (addr.a == 169 && addr.b == 254)
    || (addr.a == 100 && addr.b == 100 && addr.c == 100 && addr.d == 200)
    || (addr.a == 169 && addr.b == 254 && addr.c == 169 && addr.d == 254)

-- `is_loopback`: `::1`
unfoldable pub is_loopback : Ipv6Addr → Bool
is_loopback addr =
    addr.s0 == 0
    && addr.s1 == 0
    && addr.s2 == 0
    && addr.s3 == 0
    && addr.s4 == 0
    && addr.s5 == 0
    && addr.s6 == 0
    && addr.s7 == 1

unfoldable pub is_blocked_ipv6 : Ipv6Addr → Bool
unfolding is_loopback
is_blocked_ipv6 addr =
    is_loopback addr || bit_and addr.s0 0xffc0 == 0xfe80 || bit_and addr.s0 0xfe00 == 0xfc00

unfoldable pub is_blocked_ip : IpAddr → Bool
unfolding is_blocked_ipv4 is_blocked_ipv6
is_blocked_ip (v4 addr) = is_blocked_ipv4 addr
is_blocked_ip (v6 addr) = is_blocked_ipv6 addr

unfoldable pub is_blocked_host : Bytes → Bool
unfolding ascii
is_blocked_host host =
    let name = trim_end b'.' (map to_lower host) in
    name == ascii "localhost"
    || name == ascii "metadata.google.internal"
    || name == ascii "metadata.azure.com"
    || name == ascii "instance-data.ec2.internal"

unfoldable pub ends_with : Bytes → Bytes → Bool
ends_with text suffix =
    if ltb (length text) (length suffix)
    then false
    else drop (length text - length suffix) text == suffix

unfoldable pub matches_domain_pattern : Bytes → Bytes → Bool
unfolding ends_with
matches_domain_pattern pattern host =
    let name = map to_lower host in
    let lowered = map to_lower pattern in
    if starts_with lowered (b'*' ∷ b'.' ∷ [])
    then (let rest = drop 2 lowered in if name == rest then false else ends_with name (b'.' ∷ rest))
    else name == lowered

-- what stands before the first separator, and what behind it
unfoldable pub split_once : ℕ → Bytes → Bytes × Option Bytes
split_once sep [] = ([], none)
split_once sep (c ∷ text) =
    let rest = split_once sep text in if c == sep then ([], some text) else (c ∷ rest.0, rest.1)

abbrev pub or_empty : Option Bytes → Bytes
or_empty none = []
or_empty (some text) = text

unfoldable pub scheme_allowed : Bytes → Bytes → Bool
unfolding ascii
scheme_allowed protocol scheme =
    if protocol == ascii "https"
    then scheme == ascii "https"
    else if protocol == ascii "http"
    then scheme == ascii "http"
    else if protocol == ascii "http+https"
    then scheme == ascii "http" || scheme == ascii "https"
    else false

-- `splitn(3, ':')`
unfoldable pub matches_capability : Bytes → Bytes → Bytes → Bool
unfolding ascii scheme_allowed
matches_capability cap scheme host =
    if starts_with cap (ascii "network:")
    then (let behind = split_once b':' (or_empty (split_once b':' cap).1) in
        if scheme_allowed behind.0 scheme
        then matches_domain_pattern (or_empty behind.1) host
        else false)
    else false

unfoldable pub capability_allows : List Bytes → Bytes → Bytes → Bool
unfolding matches_capability
capability_allows grants scheme host = any (λ cap. matches_capability cap scheme host) grants

-- the loop over the addresses that the resolver gives
unfoldable pub first_allowed : List SocketAddr → NetworkResult SocketAddr
first_allowed [] = fail "BLOCKED_DOMAIN" "Blocked destination"
first_allowed (addr ∷ addrs) =
    let rest = first_allowed addrs in if is_blocked_ip addr.ip then rest else ok addr

unfoldable pub resolve_allowed_ip :
    (Bytes → ℕ → Option (List SocketAddr)) → Bytes → ℕ → NetworkResult SocketAddr
unfolding first_allowed
resolve_allowed_ip to_socket_addrs host port = elim (to_socket_addrs host port) [
  | none ↦ fail "NETWORK_ERROR" "DNS resolution failed"
  | some addrs ↦ first_allowed addrs
]

unfoldable pub validate_network_scheme : Bytes → NetworkResult (Unit {0})
unfolding ascii
validate_network_scheme scheme =
    if scheme == ascii "http" || scheme == ascii "https"
    then ok tt
    else fail "INVALID_URL" "Invalid scheme"

unfoldable pub validate_host_not_blocked :
    (Bytes → Option IpAddr) → Bytes → NetworkResult (Unit {0})
unfolding is_blocked_host
validate_host_not_blocked parse_ip host =
    if is_blocked_host host
    then fail "BLOCKED_DOMAIN" "Blocked destination"
    else elim (parse_ip host) [
      | none ↦ ok tt
      | some ip ↦ if is_blocked_ip ip then fail "BLOCKED_DOMAIN" "Blocked destination" else ok tt
    ]
