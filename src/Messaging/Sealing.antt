-- ===== src/Messaging/Sealing.antt =====
-- messaging.rs: the encryption and the signature of an envelope. The crates chacha20poly1305,
-- ed25519-dalek and base64 are parameters.
pub mod Layout
pub mod Opening
use post_urbit.Prelude.{
  ℕ, Bytes, Option, some, List, [], ◌∷◌, ◌++◌, ltb, leb, ◌-◌, ◌<◌, length, take, drop, nat_eq, ◌==◌,
  not, if◌then◌else◌, Result, ok, err, ◌>>=◌, ◌>>◌, ok_or, guard, invalid_input, crypto, Ed25519,
  ◌≡◌,
}
use post_urbit.Encoding.{Base64, base64_encode, base64_decode}
use post_urbit.Messaging.{PuseHeader, encode_puse_header}

-- the crate chacha20poly1305: key, nonce, associated data and text
pub record Aead : Type 0 where
  pub encrypt : Bytes → Bytes → Bytes → Bytes → Option Bytes
  pub decrypt : Bytes → Bytes → Bytes → Bytes → Option Bytes

pub record IsAead (a : Aead) : Type 0 where
  pub decrypt_encrypt :
      (key nonce aad plaintext ciphertext : Bytes)
      → a.encrypt key nonce aad plaintext ≡ some ciphertext
      → a.decrypt key nonce aad ciphertext ≡ some plaintext

unfoldable pub encrypt_puse_payload : Aead → Bytes → Bytes → Bytes → Bytes → Result Bytes
encrypt_puse_payload aead message_key header_extension nonce plaintext =
    ok_or (aead.encrypt message_key nonce header_extension plaintext) (crypto "puse encrypt")

unfoldable pub decrypt_puse_payload : Aead → Bytes → Bytes → Bytes → Bytes → Result Bytes
decrypt_puse_payload aead message_key header_extension nonce ciphertext =
    ok_or (aead.decrypt message_key nonce header_extension ciphertext) (crypto "puse decrypt")

unfoldable pub build_puse_envelope :
    Aead → Ed25519 → Bytes → PuseHeader → Bytes → Bytes → Result Bytes
build_puse_envelope aead ed25519 signing_key header message_key plaintext = do
  ciphertext ← encrypt_puse_payload aead message_key header.header_extension header.nonce plaintext
  guard (ltb (length ciphertext) 4294967296) (invalid_input "ciphertext length")
  encoded ← encode_puse_header (record header { ciphertext_length = length ciphertext })
  let bytes = encoded ++ ciphertext in ok (bytes ++ ed25519.sign signing_key bytes)

-- the loop over the keys, each decoded when its turn comes
unfoldable pub verify_with_keys : Base64 → Ed25519 → List Bytes → Bytes → Bytes → Result (Unit {0})
verify_with_keys engine ed25519 [] signed signature = err (crypto "puse signature invalid")
verify_with_keys engine ed25519 (key ∷ signing_keys) signed signature =
    let rest = verify_with_keys engine ed25519 signing_keys signed signature in
    do
      key_bytes ← base64_decode engine key
      if not (length key_bytes == 32) then rest else (do
        guard (ed25519.is_key key_bytes) (invalid_input "signing key parse")
        if ed25519.verify_strict key_bytes signed signature then ok tt else rest)

unfoldable pub verify_puse_signature : Base64 → Ed25519 → Bytes → List Bytes → Result (Unit {0})
verify_puse_signature engine ed25519 envelope_bytes signing_keys = do
  guard (leb 64 (length envelope_bytes)) (invalid_input "puse envelope too short")
  let signed_data_len = length envelope_bytes - 64 in
      verify_with_keys engine ed25519 signing_keys (take signed_data_len envelope_bytes)
        (drop signed_data_len envelope_bytes)

unfoldable pub base64_signature : Base64 → Bytes → Bytes
base64_signature engine signature = base64_encode engine signature

unfoldable pub decode_signature_b64 : Base64 → Bytes → Result Bytes
decode_signature_b64 engine signature = do
  bytes ← base64_decode engine signature
  guard (length bytes == 64) (invalid_input "signature length")
  ok bytes
