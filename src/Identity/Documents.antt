-- ===== src/Identity/Documents.antt =====
-- identity.rs: identity documents, the outside that their functions call, and their signatures.
use post_urbit.Prelude.{
  ℕ, Bytes, not, ◌&&◌, Option, none, some, List, [], ◌∷◌, ◌++◌, ◌==◌, nat_eq, list_eq,
  if◌then◌else◌, length, take, map, ascii, Ed25519, Result, ok, err, ◌>>=◌, ◌>>◌, guard, ok_or,
  invalid_input, crypto, starts_with, parse_u64, ltb,
}
use post_urbit.Encoding.{
  Base64, base64_encode, base64_decode, crockford_base32_encode, validate_crockford_base32_lower,
}
use post_urbit.CanonicalJson.{Json, canonical_json_value, without}
use post_urbit.Mailbox.Urls.{to_lower}

pub record SigningKeyHistory : Type 0 where
  pub key : Bytes
  pub valid_from : Bytes
  pub valid_until : Bytes
  pub expires_at : Bytes

pub record SigningKeys : Type 0 where
  pub genesis : Bytes
  pub current : Bytes
  pub previous : Option Bytes
  pub history : List SigningKeyHistory

pub record EncryptionKeyHistory : Type 0 where
  pub key : Bytes
  pub valid_from : Bytes
  pub valid_until : Bytes
  pub expires_at : Bytes

pub record EncryptionKeys : Type 0 where
  pub current : Bytes
  pub previous : List EncryptionKeyHistory

pub record Keys : Type 0 where
  pub signing : SigningKeys
  pub encryption : EncryptionKeys

pub record Endpoint : Type 0 where
  pub endpoint_type : Bytes
  pub host : Bytes
  pub port : ℕ
  pub priority : ℕ
  pub transport : Bytes
  pub relay_id : Option Bytes

pub record Claims : Type 0 where
  pub name : Option Bytes
  pub avatar : Option Bytes
  pub bio : Option Bytes

pub record Recovery : Type 0 where
  pub method : Bytes
  pub config : Json

pub record Signatures : Type 0 where
  pub current : Bytes
  pub previous : Option Bytes

pub record IdentityDocument : Type 0 where
  pub version : ℕ
  pub iid : Bytes
  pub sequence : Bytes
  pub timestamp : Bytes
  pub keys : Keys
  pub endpoints : List Endpoint
  pub claims : Claims
  pub recovery : Recovery
  pub extensions : Json
  pub recovery_proof : Option Json
  pub signatures : Signatures

-- the crates sha2, ed25519-dalek, x25519-dalek, hex and base64, and what serde derives for a document
pub record Outside : Type 0 where
  pub sha256 : Bytes → Bytes
  pub ed25519 : Ed25519
  -- the public halves of an Ed25519 and of an X25519 key
  pub verifying_key : Bytes → Bytes
  pub public_key : Bytes → Bytes
  pub hex_encode : Bytes → Bytes
  pub base64 : Base64
  pub to_string : Json → Option Bytes
  pub to_value : IdentityDocument → Option Json
  pub from_slice : Bytes → Option IdentityDocument

unfoldable pub parse_sequence : Bytes → Result ℕ
unfolding ascii
parse_sequence value =
    if starts_with value (b'0' ∷ []) && not (value == ascii "0")
    then err (invalid_input "sequence leading zeros")
    else ok_or (parse_u64 value) (invalid_input "sequence parse")

module _ (o : Outside) where
  -- of the 32 bytes of a verifying key
  unfoldable pub derive_iid : Bytes → Bytes
  derive_iid verifying_key =
      map to_lower (crockford_base32_encode (take 20 (o.sha256 verifying_key)))

  unfoldable pub signature_payload : IdentityDocument → Result Bytes
  unfolding ascii
  signature_payload document = do
    value ← ok_or (o.to_value document) (invalid_input "serialize idoc")
    canonical ← canonical_json_value o.to_string (without (ascii "signatures") value)
    ok (ascii "post-urbit:idoc:v1:" ++ canonical)

  unfoldable pub sign_idoc : IdentityDocument → Bytes → Result Bytes
  sign_idoc document signing_key = do
    signature_input ← signature_payload document
    ok (base64_encode o.base64 (o.ed25519.sign signing_key signature_input))

  unfoldable pub verify_signature_with_key : Bytes → Bytes → Bytes → Result (Unit {0})
  verify_signature_with_key payload signature_base64 key_base64 = do
    signature_bytes ← base64_decode o.base64 signature_base64
    guard (length signature_bytes == 64) (invalid_input "signature length")
    key_bytes ← base64_decode o.base64 key_base64
    guard (length key_bytes == 32) (invalid_input "signing key length")
    guard (o.ed25519.is_key key_bytes) (invalid_input "signing key parse")
    guard (o.ed25519.verify_strict key_bytes payload signature_bytes) (crypto "signature invalid")

  -- the identifier belongs to the genesis key
  unfoldable pub verify_genesis_key : IdentityDocument → Result (Unit {0})
  verify_genesis_key document = do
    genesis_key ← base64_decode o.base64 document.keys.signing.genesis
    guard (length genesis_key == 32) (invalid_input "genesis signing key length")
    guard (o.ed25519.is_key genesis_key) (invalid_input "invalid genesis signing key")
    guard (derive_iid genesis_key == document.iid)
        (invalid_input "iid not derived from genesis key")

  -- the current key signed the payload
  unfoldable pub verify_current : IdentityDocument → Bytes → Bytes → Result (Unit {0})
  verify_current document current_key signed_payload = do
    signature_bytes ← base64_decode o.base64 document.signatures.current
    guard (length signature_bytes == 64) (invalid_input "signature length")
    guard (o.ed25519.verify_strict current_key signed_payload signature_bytes)
        (crypto "signature verification failed")

  -- a document whose key is not the genesis key is signed by the key before as well
  unfoldable pub verify_rotation : IdentityDocument → Bytes → ℕ → Result (Unit {0})
  verify_rotation document signed_payload sequence =
      if ltb 0 sequence && not (document.keys.signing.current == document.keys.signing.genesis)
      then elim document.signatures.previous [
        | none ↦ err (invalid_input "key rotation requires previous signature")
        | some prev_sig ↦ elim document.keys.signing.previous [
          | none ↦ err (invalid_input "key rotation requires previous key")
          | some previous_key ↦ verify_signature_with_key signed_payload prev_sig previous_key
        ]
      ]
      else ok tt

  unfoldable pub verify_document : IdentityDocument → Result (Unit {0})
  verify_document document = do
    validate_crockford_base32_lower document.iid
    verify_genesis_key document
    current_key ← base64_decode o.base64 document.keys.signing.current
    guard (length current_key == 32) (invalid_input "signing key length")
    guard (o.ed25519.is_key current_key) (invalid_input "invalid signing key")
    signed_payload ← signature_payload document
    verify_current document current_key signed_payload
    sequence ← parse_sequence document.sequence
    verify_rotation document signed_payload sequence

  -- the part of `verify_document_extends` for a document with a new key
  unfoldable pub verify_continuity : IdentityDocument → IdentityDocument → Result (Unit {0})
  verify_continuity previous current = do
    current_previous ←
        ok_or current.keys.signing.previous (invalid_input "key rotation requires previous key")
    guard (current_previous == previous.keys.signing.current)
        (invalid_input "previous key mismatch")
    prev_sig ←
        ok_or current.signatures.previous (invalid_input "key rotation requires previous signature")
    signed_payload ← signature_payload current
    verify_signature_with_key signed_payload prev_sig previous.keys.signing.current

  unfoldable pub verify_document_extends : IdentityDocument → IdentityDocument → Result (Unit {0})
  verify_document_extends previous current = do
    guard (current.iid == previous.iid) (invalid_input "iid mismatch in chain")
    prev_seq ← parse_sequence previous.sequence
    curr_seq ← parse_sequence current.sequence
    guard (ltb prev_seq curr_seq) (invalid_input "sequence must increase")
    verify_document current
    (if not (current.keys.signing.current == previous.keys.signing.current)
        then verify_continuity previous current
        else ok tt)

  unfoldable pub verify_genesis_document : IdentityDocument → Bytes → Result (Unit {0})
  unfolding ascii
  verify_genesis_document doc expected_iid = do
    guard (doc.iid == expected_iid) (invalid_input "genesis iid mismatch")
    guard (doc.sequence == ascii "0") (invalid_input "genesis sequence must be 0")
    guard (doc.keys.signing.genesis == doc.keys.signing.current)
        (invalid_input "genesis key must equal current key")
    genesis_key ← base64_decode o.base64 doc.keys.signing.genesis
    guard (length genesis_key == 32) (invalid_input "genesis key length")
    guard (o.ed25519.is_key genesis_key) (invalid_input "invalid genesis key")
    guard (derive_iid genesis_key == doc.iid) (invalid_input "iid not derived from genesis key")
    verify_document doc
