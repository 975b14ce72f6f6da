-- ===== src/Nat.antt =====
-- nat.rs: the messages of STUN by which a node learns its public address. The random transaction
-- identifier is an argument; `response[offset..]` never lies outside, since every offset is
-- compared with the end first.
pub mod Attributes
pub mod Responses
use post_urbit.Prelude.{
  ℕ, zero, suc, Bytes, Bool, true, false, ◌+◌, ◌*◌, ◌/◌, ◌%◌, ◌++◌, ◌∷◌, [], ◌==◌, nat_eq,
  if◌then◌else◌, length, get_or, slice, ltb, leb, to_be_bytes, from_be_bytes, bit_xor, Result, ok,
  err, ◌>>=◌, ◌>>◌, guard, invalid_input,
}
use post_urbit.Network.Hosts.{Ipv4Addr, SocketAddr, v4}

abbrev pub stun_binding_request : ℕ
stun_binding_request = 1

abbrev pub stun_binding_response : ℕ
stun_binding_response = 257

abbrev pub stun_magic_cookie : ℕ
stun_magic_cookie = 554869826

abbrev pub attr_xor_mapped_address : ℕ
attr_xor_mapped_address = 32

abbrev pub attr_mapped_address : ℕ
attr_mapped_address = 1

unfoldable pub build_stun_request : Bytes → Bytes
build_stun_request transaction_id =
    to_be_bytes 2 stun_binding_request
    ++ (to_be_bytes 2 0 ++ (to_be_bytes 4 stun_magic_cookie ++ transaction_id))

-- `Ipv4Addr::from` a number of 32 bits
unfoldable pub ipv4_from : ℕ → Ipv4Addr
ipv4_from addr = record {
  a = addr / 16777216 % 256;
  b = addr / 65536 % 256;
  c = addr / 256 % 256;
  d = addr % 256;
}

unfoldable pub parse_xor_mapped_address : Bytes → Result SocketAddr
parse_xor_mapped_address bytes =
    guard (leb 8 (length bytes)) (invalid_input "XOR-MAPPED-ADDRESS too short")
    >> (let family = get_or bytes 1 0 in
        if family == 1
        then ok (record {
          ip = v4 (ipv4_from (bit_xor (from_be_bytes (slice 4 4 bytes)) stun_magic_cookie));
          port = bit_xor (from_be_bytes (slice 2 2 bytes)) (stun_magic_cookie / 65536);
        })
        else if family == 2
        then err (invalid_input "IPv6 XOR-MAPPED-ADDRESS not yet supported")
        else err (invalid_input "Unknown address family in XOR-MAPPED-ADDRESS"))

unfoldable pub parse_mapped_address : Bytes → Result SocketAddr
parse_mapped_address bytes =
    guard (leb 8 (length bytes)) (invalid_input "MAPPED-ADDRESS too short")
    >> (let family = get_or bytes 1 0 in
        if family == 1
        then ok (record {
          ip = v4 (ipv4_from (from_be_bytes (slice 4 4 bytes)));
          port = from_be_bytes (slice 2 2 bytes);
        })
        else if family == 2
        then err (invalid_input "IPv6 MAPPED-ADDRESS not yet supported")
        else err (invalid_input "Unknown address family in MAPPED-ADDRESS"))

-- `(attr_len + 3) & !3`
abbrev pub padded : ℕ → ℕ
padded attr_len = (attr_len + 3) / 4 * 4

abbrev no_address : Result SocketAddr
no_address = err (invalid_input "No mapped address in STUN response")

-- `while offset + 4 <= end`
unfoldable pub attribute_loop : ℕ → Bytes → ℕ → ℕ → Result SocketAddr
attribute_loop zero response offset end = no_address
attribute_loop (suc fuel) response offset end =
    let attr_type = from_be_bytes (slice offset 2 response) in
    let attr_len = from_be_bytes (slice (offset + 2) 2 response) in
    let rest = attribute_loop fuel response (offset + 4 + padded attr_len) end in
    if leb (offset + 4) end
    then if leb (offset + 4 + attr_len) end
      then if attr_type == attr_xor_mapped_address
        then parse_xor_mapped_address (slice (offset + 4) attr_len response)
        else if attr_type == attr_mapped_address
        then parse_mapped_address (slice (offset + 4) attr_len response)
        else rest
      else no_address
    else no_address

-- each round moves on by at least four bytes
unfoldable pub parse_stun_response : Bytes → Result SocketAddr
parse_stun_response response = do
  guard (leb 20 (length response)) (invalid_input "STUN response too short")
  guard (from_be_bytes (slice 0 2 response) == stun_binding_response)
      (invalid_input "Not a STUN binding response")
  let end = 20 + from_be_bytes (slice 2 2 response)
  guard (leb end (length response)) (invalid_input "STUN response truncated")
  guard (from_be_bytes (slice 4 4 response) == stun_magic_cookie)
      (invalid_input "Invalid STUN magic cookie")
  attribute_loop end response 20 end
