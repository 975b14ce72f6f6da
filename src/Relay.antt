-- ===== src/Relay.antt =====
-- relay.rs: the packets of a relay, and the signatures on an allocation and on its rebinding.
-- The crates sha2, ed25519-dalek, base64 and chrono are the parameter `Outside`. An array of a fixed
-- length is a byte string.
pub mod Packets
pub mod Signatures
use post_urbit.Prelude.{
  ℕ, Bytes, Bool, true, false, not, ◌&&◌, ◌||◌, ◌+◌, Option, [], ◌∷◌, ◌++◌, if◌then◌else◌, ltb, leb,
  length, take, drop, slice, get_or, all, contains, nat_eq, list_eq, ◌==◌, Result, ok, err, ◌>>=◌,
  ◌>>◌, ok_or, guard, invalid_input, invalid_encoding, crypto, String, Ed25519, to_be_bytes,
  from_be_bytes, ascii, ends_with_byte, List,
}
use post_urbit.Encoding.{Base64, base64_encode, base64_decode, validate_crockford_base32_lower}

pub record PurlPacket : Type 0 where
  pub packet_type : ℕ
  pub allocation_token : Bytes
  pub destination_iid : Bytes
  pub payload : Bytes

-- data, ping, pong, refresh, release, error, rebind, coordinate
abbrev pub purl_types : List ℕ
purl_types = 1 ∷ 2 ∷ 3 ∷ 5 ∷ 6 ∷ 7 ∷ 8 ∷ 9 ∷ []

unfoldable pub validate_purl_type : ℕ → Result (Unit {0})
validate_purl_type packet_type =
    guard (contains purl_types packet_type) (invalid_input "purl packet type")

unfoldable pub is_control_packet : ℕ → Bool
is_control_packet packet_type = contains (2 ∷ 3 ∷ 5 ∷ 6 ∷ 7 ∷ 8 ∷ []) packet_type

unfoldable pub validate_purl_packet : PurlPacket → Result (Unit {0})
validate_purl_packet packet = do
  validate_purl_type packet.packet_type
  guard (leb (length packet.payload) 1200) (invalid_input "purl payload too large")
  let dest_zero = all (λ b. b == 0) packet.destination_iid in
      if is_control_packet packet.packet_type
      then guard dest_zero (invalid_input "purl control destination")
      else guard (not dest_zero) (invalid_input "purl data destination")

unfoldable pub encode_purl : PurlPacket → Result Bytes
unfolding ascii
encode_purl packet = do
  validate_purl_packet packet
  guard (ltb (length packet.payload) 65536) (invalid_input "purl payload length")
  ok (
      ascii "PURL"
      ++ 1
        ∷ packet.packet_type
        ∷ (packet.allocation_token
            ++ (packet.destination_iid
                ++ (to_be_bytes 2 (length packet.payload) ++ packet.payload))))

unfoldable pub decode_purl : Bytes → Result PurlPacket
unfolding ascii
decode_purl bytes = do
  guard (leb 44 (length bytes)) (invalid_input "purl length")
  guard (take 4 bytes == ascii "PURL") (invalid_input "purl magic")
  guard (get_or bytes 4 0 == 1) (invalid_input "purl version")
  validate_purl_type (get_or bytes 5 0)
  let payload_len = from_be_bytes (slice 42 2 bytes) in
      do
        guard (leb payload_len 1200) (invalid_input "purl payload too large")
        guard (length bytes == 44 + payload_len) (invalid_input "purl payload length")
        let packet : PurlPacket = record {
          packet_type = get_or bytes 5 0;
          allocation_token = slice 6 16 bytes;
          destination_iid = slice 22 20 bytes;
          payload = drop 44 bytes;
        } in
            do validate_purl_packet packet; ok packet

pub record Outside : Type 0 where
  pub sha256 : Bytes → Bytes
  pub ed25519 : Ed25519
  -- `STANDARD_NO_PAD` and `URL_SAFE_NO_PAD`
  pub standard : Base64
  pub url_safe : Base64
  -- `parse::<DateTime<Utc>>`
  pub parse_time : Bytes → Option ℕ

module _ (o : Outside) where
  unfoldable pub validate_timestamp : Bytes → Result (Unit {0})
  validate_timestamp value = do
    guard (not (contains value b'.')) (invalid_input "timestamp fractional")
    guard (ends_with_byte value b'Z') (invalid_input "timestamp utc")
    parsed ← ok_or (o.parse_time value) (invalid_input "timestamp parse")
    ok tt

  unfoldable pub relay_allocation_signature_input : Bytes → ℕ → Bytes → Bytes → Result Bytes
  unfolding ascii
  relay_allocation_signature_input iid lifetime timestamp nonce = do
    validate_crockford_base32_lower iid
    validate_timestamp timestamp
    ok (
        ascii "post-urbit-relay-alloc-v1"
        ++ (iid ++ (to_be_bytes 4 lifetime ++ (timestamp ++ nonce))))

  unfoldable pub relay_rebind_signature_input : Bytes → Bytes → Bytes → Result Bytes
  unfolding ascii
  relay_rebind_signature_input allocation_id token_base64url timestamp = do
    validate_timestamp timestamp
    token ← ok_or (o.url_safe.decode token_base64url) (invalid_encoding "token base64url")
    guard (length token == 16) (invalid_input "token length")
    ok (ascii "post-urbit-rebind-v1" ++ (allocation_id ++ (token ++ timestamp)))

  -- the end of both `sign_*` functions
  unfoldable pub sign_payload : Bytes → Bytes → Bytes
  sign_payload signing_key payload =
      base64_encode o.standard (o.ed25519.sign signing_key (o.sha256 payload))

  -- the end of both `verify_*` functions
  unfoldable pub verify_payload : Bytes → Bytes → Bytes → String → Result (Unit {0})
  verify_payload signature_base64 signing_key_base64 payload refusal = do
    signature_bytes ← base64_decode o.standard signature_base64
    guard (length signature_bytes == 64) (invalid_input "signature length")
    key_bytes ← base64_decode o.standard signing_key_base64
    guard (length key_bytes == 32) (invalid_input "signing key length")
    guard (o.ed25519.is_key key_bytes) (invalid_input "signing key parse")
    guard (o.ed25519.verify_strict key_bytes (o.sha256 payload) signature_bytes) (crypto refusal)

  unfoldable pub sign_relay_allocation : Bytes → Bytes → ℕ → Bytes → Bytes → Result Bytes
  sign_relay_allocation signing_key iid lifetime timestamp nonce = do
    payload ← relay_allocation_signature_input iid lifetime timestamp nonce
    ok (sign_payload signing_key payload)

  unfoldable pub verify_relay_allocation :
      Bytes → Bytes → Bytes → ℕ → Bytes → Bytes → Result (Unit {0})
  verify_relay_allocation signature_base64 signing_key_base64 iid lifetime timestamp nonce = do
    payload ← relay_allocation_signature_input iid lifetime timestamp nonce
    verify_payload signature_base64 signing_key_base64 payload "relay allocation signature invalid"

  unfoldable pub sign_relay_rebind : Bytes → Bytes → Bytes → Bytes → Result Bytes
  sign_relay_rebind signing_key allocation_id token_base64url timestamp = do
    payload ← relay_rebind_signature_input allocation_id token_base64url timestamp
    ok (sign_payload signing_key payload)

  unfoldable pub verify_relay_rebind : Bytes → Bytes → Bytes → Bytes → Bytes → Result (Unit {0})
  verify_relay_rebind signature_base64 signing_key_base64 allocation_id token_base64url timestamp =
      do
        payload ← relay_rebind_signature_input allocation_id token_base64url timestamp
        verify_payload signature_base64 signing_key_base64 payload "relay rebind signature invalid"
