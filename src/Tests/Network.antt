-- ===== src/Tests/Network.antt =====
-- Requests of one application to one domain, and a response in two pieces.
use post_urbit.Prelude.{
  ℕ, Bytes, refl, true, map, ◌++◌, ◌≡◌, ◌≤◌, ◌*◌, ◌↔◌, arith, none, some, Option, List, [], ◌∷◌,
  ascii, length, list_eq, nat_eq, pair_eq,
}
use post_urbit.Prelude.Dict
use post_urbit.Network.{ok}
use post_urbit.Network.Hosts.{Ipv4Addr, SocketAddr, v6, matches_domain_pattern, resolve_allowed_ip}
use post_urbit.Network.Hosts.Patterns.{matches_domain_pattern-wildcard}
use post_urbit.Network.Hosts.Addresses.{to_ipv6_mapped, resolve_allowed_ip-mapped}
use post_urbit.Mailbox.Urls.{to_lower}
use post_urbit.Network.Limits.{NetworkManager, Clock, default_requests_per_minute, from_secs}
use post_urbit.Network.Limits.Calls.{Call, request, response, total_admitted, AllWithin}
use post_urbit.Network.Limits.Window.{total_admitted-le}
use post_urbit.Network.Requests.{read_response}
use post_urbit.Network.Requests.Bodies.{whole, read_response-ok}

abbrev app : Bytes
app = ascii "notes"

abbrev site : Bytes
site = ascii "example.com"

abbrev unused : NetworkManager
unused = record { limiter = []; overrides = [] }

abbrev reading : ℕ → Clock
reading now = record {
  created = now;
  minute_read = now;
  minute_reset = now;
  day_read = now;
  day_reset = now;
}

unused-AllWithin : AllWithin unused
unfolding Dict.get
unused-AllWithin _ domain = tt

abbrev requests : List Call
requests =
    request (reading (from_secs 5)) app site 100
    ∷ response (reading (from_secs 6)) app site 2000
    ∷ request (reading (from_secs 64)) app site 100
    ∷ []

total_admitted-le_example :
    total_admitted app site requests unused ≤ 2 * default_requests_per_minute
total_admitted-le_example =
    total_admitted-le (from_secs 5) app site requests unused unused-AllWithin (omega arith)

abbrev pieces : List (Option Bytes)
pieces = some (1 ∷ 2 ∷ []) ∷ some (3 ∷ []) ∷ some [] ∷ none ∷ []

read_response-ok_example :
    (read_response pieces 3 ≡ ok (1 ∷ 2 ∷ 3 ∷ []))
    ↔ ((whole pieces ≡ some (1 ∷ 2 ∷ 3 ∷ [])) × (length {A = ℕ} (1 ∷ 2 ∷ 3 ∷ []) ≤ 3))
read_response-ok_example = read_response-ok pieces 3 (1 ∷ 2 ∷ 3 ∷ []) (omega arith)

abbrev host : Bytes
host = ascii "API.example.com"

matches_domain_pattern-wildcard_example :
    (matches_domain_pattern (b'*' ∷ b'.' ∷ site) host ≡ true)
    ↔ ((label : Bytes) × (map to_lower host ≡ label ++ (b'.' ∷ map to_lower site)))
matches_domain_pattern-wildcard_example = matches_domain_pattern-wildcard site host

abbrev loopback : Ipv4Addr
loopback = record { a = 127; b = 0; c = 0; d = 1 }

abbrev mapped : SocketAddr
mapped = record { ip = v6 (to_ipv6_mapped loopback); port = 443 }

resolve_allowed_ip-mapped_example :
    resolve_allowed_ip (λ name port. some (mapped ∷ [])) site 443 ≡ ok mapped
resolve_allowed_ip-mapped_example =
    resolve_allowed_ip-mapped (λ name port. some (mapped ∷ [])) site 443 loopback mapped refl refl
