-- ===== src/Identity/Revocations.antt =====
-- identity.rs: revocations, devices and attestations, and their signatures. What serde derives for
-- them and the parser of times are the parameter `Formats`; times count nanoseconds.
pub mod Devices
use post_urbit.Prelude.{
  ℕ, Bytes, String, Bool, true, false, not, ◌+◌, ◌*◌, Option, none, some, List, [], ◌∷◌, ◌++◌, ◌==◌,
  nat_eq, list_eq, if◌then◌else◌, length, take, map, ascii, Result, ok, err, is_ok, ◌>>=◌, ◌>>◌,
  guard, ok_or, invalid_input, crypto, ltb, leb,
}
use post_urbit.Encoding.{
  base64_encode, base64_decode, crockford_base32_encode, validate_crockford_base32_lower,
}
use post_urbit.Mailbox.Urls.{to_lower}
use post_urbit.CanonicalJson.{Json, canonical_json_value, without}
use post_urbit.Identity.Documents.{
  Outside, IdentityDocument, Endpoint, verify_signature_with_key, verify_document,
}

pub record KeyRevocationSignatures : Type 0 where
  pub by_current_signing_key : Option Bytes
  pub by_new_signing_key : Option Bytes

pub record KeyRevocation : Type 0 where
  pub iid : Bytes
  pub revoked_key : Bytes
  pub revoked_key_type : Bytes
  pub reason : Bytes
  pub effective_at : Bytes
  pub replacement_document : IdentityDocument
  pub signatures : KeyRevocationSignatures
  pub recovery_proof : Option Json

pub record IdentityRevocation : Type 0 where
  pub iid : Bytes
  pub reason : Bytes
  pub message : Option Bytes
  pub effective_at : Bytes
  pub successor_iid : Option Bytes
  pub signature : Bytes

pub data RevocationDocument : Type 0 where
  key_revocation : KeyRevocation → RevocationDocument
  identity_revocation : IdentityRevocation → RevocationDocument

pub record DeviceRevocation : Type 0 where
  pub did : Bytes
  pub iid : Bytes
  pub revoked_at : Bytes
  pub reason : Bytes
  pub signature_by_identity : Bytes

pub record DeviceDocument : Type 0 where
  pub version : ℕ
  pub did : Bytes
  pub iid : Bytes
  pub device_name : Option Bytes
  pub device_signing_key : Bytes
  pub endpoints : List Endpoint
  pub created_at : Bytes
  pub updated_at : Bytes
  pub expires_at : Option Bytes
  pub capabilities : List Bytes
  pub signature_by_identity : Bytes

pub record DeviceIndexEntry : Type 0 where
  pub did : Bytes
  pub device_name : Option Bytes
  pub last_seen : Bytes

pub record DeviceIndex : Type 0 where
  pub iid : Bytes
  pub devices : List DeviceIndexEntry
  pub updated_at : Bytes
  pub signature : Bytes

pub record RecoveryAttestation : Type 0 where
  pub target_iid : Bytes
  pub trustee_iid : Bytes
  pub new_signing_key : Bytes
  pub timestamp : Bytes
  pub signature : Bytes

-- `serde_json::to_value` and `from_slice`, and `parse::<DateTime<Utc>>`
pub record Formats : Type 0 where
  pub key_revocation_value : KeyRevocation → Option Json
  pub identity_revocation_value : IdentityRevocation → Option Json
  pub device_revocation_value : DeviceRevocation → Option Json
  pub device_document_value : DeviceDocument → Option Json
  pub device_index_value : DeviceIndex → Option Json
  pub attestation_value : RecoveryAttestation → Option Json
  pub read_revocation : Bytes → Option RevocationDocument
  pub read_device_document : Bytes → Option DeviceDocument
  pub read_device_revocation : Bytes → Option DeviceRevocation
  pub parse_time : Bytes → Option ℕ

module _ (o : Outside) (f : Formats) where
  unfoldable pub parse_rfc3339 : Bytes → Result ℕ
  parse_rfc3339 value = ok_or (f.parse_time value) (invalid_input "timestamp parse")

  unfoldable pub revocation_signature_payload : Json → Bytes → Result Bytes
  revocation_signature_payload value domain =
      canonical_json_value o.to_string value >>= λ canonical. ok (domain ++ canonical)

  -- the body of the `*_signature_input` functions
  unfoldable pub signature_input : Option Json → String → Bytes → Bytes → Result Bytes
  signature_input serialized refusal key domain =
      ok_or serialized (invalid_input refusal) >>= λ value.
      revocation_signature_payload (without key value) domain

  -- the body of the `sign_*` functions
  unfoldable pub sign_input : Result Bytes → Bytes → Result Bytes
  sign_input input signing_key =
      input >>= λ payload. ok (base64_encode o.base64 (o.ed25519.sign signing_key payload))

  unfoldable pub key_revocation_signature_input : KeyRevocation → Result Bytes
  unfolding ascii
  key_revocation_signature_input revocation =
      signature_input (f.key_revocation_value revocation) "serialize revocation"
        (ascii "signatures") (ascii "post-urbit:key-revocation:v1:")

  unfoldable pub identity_revocation_signature_input : IdentityRevocation → Result Bytes
  unfolding ascii
  identity_revocation_signature_input revocation =
      signature_input (f.identity_revocation_value revocation) "serialize revocation"
        (ascii "signature") (ascii "post-urbit:identity-revocation:v1:")

  unfoldable pub device_revocation_signature_input : DeviceRevocation → Result Bytes
  unfolding ascii
  device_revocation_signature_input revocation =
      signature_input (f.device_revocation_value revocation) "serialize revocation"
        (ascii "signature_by_identity") (ascii "post-urbit:device-revocation:v1:")

  unfoldable pub device_document_signature_input : DeviceDocument → Result Bytes
  unfolding ascii
  device_document_signature_input doc =
      signature_input (f.device_document_value doc) "serialize device doc"
        (ascii "signature_by_identity") (ascii "post-urbit:device-doc:v1:")

  unfoldable pub device_index_signature_input : DeviceIndex → Result Bytes
  unfolding ascii
  device_index_signature_input index =
      signature_input (f.device_index_value index) "serialize device index" (ascii "signature")
        (ascii "post-urbit:device-index:v1:")

  unfoldable pub recovery_attestation_signature_input : RecoveryAttestation → Result Bytes
  unfolding ascii
  recovery_attestation_signature_input attestation =
      signature_input (f.attestation_value attestation) "serialize attestation" (ascii "signature")
        (ascii "post-urbit:recovery-attestation:v1:")

  unfoldable pub sign_key_revocation : KeyRevocation → Bytes → Result Bytes
  sign_key_revocation revocation = sign_input (key_revocation_signature_input revocation)

  unfoldable pub sign_identity_revocation : IdentityRevocation → Bytes → Result Bytes
  sign_identity_revocation revocation = sign_input (identity_revocation_signature_input revocation)

  unfoldable pub sign_device_revocation : DeviceRevocation → Bytes → Result Bytes
  sign_device_revocation revocation = sign_input (device_revocation_signature_input revocation)

  unfoldable pub sign_recovery_attestation : RecoveryAttestation → Bytes → Result Bytes
  sign_recovery_attestation attestation =
      sign_input (recovery_attestation_signature_input attestation)

  unfoldable pub verify_device_revocation : DeviceRevocation → Bytes → Result (Unit {0})
  verify_device_revocation revocation signing_key_base64 = do
    validate_crockford_base32_lower revocation.iid
    validate_crockford_base32_lower revocation.did
    payload ← device_revocation_signature_input revocation
    verify_signature_with_key o payload revocation.signature_by_identity signing_key_base64

  unfoldable pub verify_identity_revocation : IdentityRevocation → Bytes → Result (Unit {0})
  verify_identity_revocation revocation signing_key = do
    validate_crockford_base32_lower revocation.iid
    payload ← identity_revocation_signature_input revocation
    verify_signature_with_key o payload revocation.signature signing_key

  -- the two types of keys
  unfoldable pub verify_signing_revocation : KeyRevocation → Bytes → Result (Unit {0})
  verify_signing_revocation revocation payload = do
    sig_new ← ok_or revocation.signatures.by_new_signing_key (invalid_input "missing new signature")
    verify_signature_with_key o payload sig_new revocation.replacement_document.keys.signing.current
    elim revocation.signatures.by_current_signing_key [
      | none ↦ ok tt
      | some sig_old ↦ verify_signature_with_key o payload sig_old revocation.revoked_key
    ]

  unfoldable pub verify_key_revocation : KeyRevocation → Result (Unit {0})
  unfolding ascii
  verify_key_revocation revocation = do
    validate_crockford_base32_lower revocation.iid
    guard (revocation.replacement_document.iid == revocation.iid)
        (invalid_input "revocation iid mismatch")
    verify_document o revocation.replacement_document
    payload ← key_revocation_signature_input revocation
    (if revocation.revoked_key_type == ascii "signing"
        then verify_signing_revocation revocation payload
        else if revocation.revoked_key_type == ascii "encryption"
        then (ok_or revocation.signatures.by_current_signing_key
              (invalid_input "missing current signature")
            >>= λ sig_current.
                verify_signature_with_key o payload sig_current
                  revocation.replacement_document.keys.signing.current)
        else err (invalid_input "revocation key type"))

  -- `trustee_signing_key` is the bytes of a verifying key
  unfoldable pub verify_recovery_attestation : RecoveryAttestation → Bytes → Result (Unit {0})
  verify_recovery_attestation attestation trustee_signing_key = do
    payload ← recovery_attestation_signature_input attestation
    verify_signature_with_key o payload attestation.signature
        (base64_encode o.base64 trustee_signing_key)
