-- ===== src/Transport/Challenge.antt =====
-- transport.rs: the challenge that both sides of a handshake sign, and the checks of its messages.
-- Times count nanoseconds.
pub mod Binding
use post_urbit.Prelude.{
  ℕ, Bytes, String, Bool, true, false, not, ◌&&◌, ◌||◌, ◌+◌, ◌-◌, ◌/◌, ◌≡◌, refl, Option, none,
  some, List, [], ◌∷◌, ◌++◌, ◌==◌, nat_eq, if◌then◌else◌, length, ascii, contains, ends_with_byte,
  Result, ok, err, ◌>>=◌, ◌>>◌, guard, ok_or, invalid_input, crypto, ltb, leb, is_none, IsKeyPair,
}
use post_urbit.Encoding.{
  Base64, base64_encode, base64_decode, crockford_base32_decode, validate_crockford_base32_lower,
  base64_decode-encode, IsBase64,
}
use post_urbit.Identity.Documents.{Outside}
use post_urbit.Transport.Handshake.{ClientHello, ServerHello}

unfoldable pub validate_timestamp_canonical : (Bytes → Option ℕ) → Bytes → Result ℕ
validate_timestamp_canonical parse_time value = do
  guard (not (contains value b'.')) (invalid_input "timestamp fractional")
  guard (ends_with_byte value b'Z') (invalid_input "timestamp utc")
  ok_or (parse_time value) (invalid_input "timestamp parse")

-- `(parsed - now).num_seconds().abs()`, whole seconds towards zero
abbrev distance : ℕ → ℕ → ℕ
distance a b = ((a - b) + (b - a)) / 1000000000

unfoldable pub validate_handshake_timestamp_with_now :
    (Bytes → Option ℕ) → Bytes → ℕ → Result (Unit {0})
validate_handshake_timestamp_with_now parse_time ts now =
    validate_timestamp_canonical parse_time ts >>= λ parsed.
    guard (leb (distance parsed now) 300) (invalid_input "timestamp outside window")

-- the bytes that are signed: the signer's peer comes first
unfoldable pub challenge : Bool → Bytes → Bytes → Bytes → Bytes → Bytes → Bytes
unfolding ascii
challenge true client_nonce server_nonce tls_binding client_iid server_iid =
    ascii "post-urbit-handshake-v1"
    ++ (client_nonce ++ (server_nonce ++ (tls_binding ++ (client_iid ++ server_iid))))
challenge false client_nonce server_nonce tls_binding client_iid server_iid =
    ascii "post-urbit-handshake-v1"
    ++ (server_nonce ++ (client_nonce ++ (tls_binding ++ (server_iid ++ client_iid))))

module _ (o : Outside) where
  unfoldable pub create_challenge_signature :
      Bytes → Bytes → Bytes → Bytes → Bytes → Bytes → Bool → Result Bytes
  create_challenge_signature signing_key client_nonce server_nonce tls_binding client_iid server_iid
        is_server =
      do
        client_iid_raw ← crockford_base32_decode client_iid
        server_iid_raw ← crockford_base32_decode server_iid
        ok (
            base64_encode o.base64 (
              o.ed25519.sign signing_key (
                o.sha256 (
                  challenge is_server client_nonce server_nonce tls_binding client_iid_raw
                    server_iid_raw))))

  -- the end of both `verify_*` functions
  unfoldable pub verify_digest :
      Bytes → Bytes → Bytes → String → String → String → String → Result (Unit {0})
  verify_digest digest signature_base64 key_base64 short_signature short_key bad_key refusal = do
    signature_bytes ← base64_decode o.base64 signature_base64
    guard (length signature_bytes == 64) (invalid_input short_signature)
    key_bytes ← base64_decode o.base64 key_base64
    guard (length key_bytes == 32) (invalid_input short_key)
    guard (o.ed25519.is_key key_bytes) (invalid_input bad_key)
    guard (o.ed25519.verify_strict key_bytes digest signature_bytes) (crypto refusal)

  -- the nonces, the binding and the identifiers, decoded
  abbrev three_long : Bytes → Bytes → Bytes → Bool
  three_long a b c = length a == 32 && (length b == 32 && length c == 32)

  unfoldable pub verify_challenge_signature :
      Bytes → Bytes → Bytes → Bytes → Bytes → Bytes → Bytes → Bool → Result (Unit {0})
  verify_challenge_signature signature_base64 signing_key_base64 client_nonce server_nonce
        tls_binding client_iid server_iid server_signature =
      do
        validate_crockford_base32_lower client_iid
        validate_crockford_base32_lower server_iid
        client_nonce_raw ← base64_decode o.base64 client_nonce
        server_nonce_raw ← base64_decode o.base64 server_nonce
        tls_binding_raw ← base64_decode o.base64 tls_binding
        guard (three_long client_nonce_raw server_nonce_raw tls_binding_raw)
            (invalid_input "nonce or tls_binding length")
        client_iid_raw ← crockford_base32_decode client_iid
        server_iid_raw ← crockford_base32_decode server_iid
        guard (length client_iid_raw == 20 && length server_iid_raw == 20)
            (invalid_input "iid length")
        verify_digest
            (o.sha256 (
              challenge server_signature client_nonce_raw server_nonce_raw tls_binding_raw
                client_iid_raw server_iid_raw))
            signature_base64 signing_key_base64 "challenge signature length" "signing key length"
            "signing key parse" "challenge signature invalid"

  unfoldable pub verify_device_signature :
      Bytes → Bytes → Bytes → Bytes → Bytes → Bytes → Bytes → Result (Unit {0})
  unfolding ascii
  verify_device_signature signature_base64 device_signing_key_base64 client_nonce server_nonce
        tls_binding server_iid server_did =
      do
        validate_crockford_base32_lower server_iid
        validate_crockford_base32_lower server_did
        client_nonce_raw ← base64_decode o.base64 client_nonce
        server_nonce_raw ← base64_decode o.base64 server_nonce
        tls_binding_raw ← base64_decode o.base64 tls_binding
        guard (three_long client_nonce_raw server_nonce_raw tls_binding_raw)
            (invalid_input "nonce or tls_binding length")
        server_iid_raw ← crockford_base32_decode server_iid
        server_did_raw ← crockford_base32_decode server_did
        guard (length server_iid_raw == 20 && length server_did_raw == 20)
            (invalid_input "iid length")
        verify_digest
            (o.sha256 (
              ascii "post-urbit-device-v1"
              ++ (client_nonce_raw
                  ++ (server_nonce_raw
                      ++ (tls_binding_raw ++ (server_iid_raw ++ server_did_raw))))))
            signature_base64 device_signing_key_base64 "device signature length"
            "device signing key length" "device signing key parse" "device signature invalid"

  abbrev valid_if_present : Option Bytes → Result (Unit {0})
  valid_if_present none = ok tt
  valid_if_present (some text) = validate_crockford_base32_lower text

  -- the end of both `validate_*_hello` functions
  abbrev validate_lengths : Bytes → Bytes → Result (Unit {0})
  validate_lengths nonce tls_binding = base64_decode o.base64 nonce >>= λ nonce_raw.
      base64_decode o.base64 tls_binding >>= λ tls_binding_raw.
      guard (length nonce_raw == 32 && length tls_binding_raw == 32)
        (invalid_input "nonce or tls binding length")

  module _ (parse_time : Bytes → Option ℕ) where
    unfoldable pub validate_client_hello : ClientHello → ℕ → Result (Unit {0})
    validate_client_hello msg now = do
      validate_crockford_base32_lower msg.client_iid
      valid_if_present msg.client_did
      valid_if_present msg.expected_server_iid
      validate_handshake_timestamp_with_now parse_time msg.timestamp now
      validate_lengths msg.client_nonce msg.tls_binding

    unfoldable pub validate_server_hello :
        {Json : Type 0} → ServerHello Json → ℕ → Result (Unit {0})
    validate_server_hello msg now = do
      validate_crockford_base32_lower msg.server_iid
      elim msg.server_did [
        | none ↦ ok tt
        | some did ↦
            (validate_crockford_base32_lower did
              >> guard (not (is_none msg.device_document || is_none msg.device_signature))
                  (invalid_input "device fields missing"))
      ]
      validate_handshake_timestamp_with_now parse_time msg.timestamp now
      validate_lengths msg.server_nonce msg.tls_binding
