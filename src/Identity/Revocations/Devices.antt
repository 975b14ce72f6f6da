-- ===== src/Identity/Revocations/Devices.antt =====
-- identity.rs: the documents of devices and the index of an identity's devices.
use post_urbit.Prelude.{
  ℕ, Bytes, Bool, true, false, ◌+◌, Option, none, some, List, [], ◌∷◌, ◌++◌, ◌==◌, nat_eq, list_eq,
  if◌then◌else◌, length, take, map, Result, ok, err, is_ok, ◌>>=◌, ◌>>◌, guard, invalid_input,
  crypto, ltb,
}
use post_urbit.Encoding.{base64_decode, crockford_base32_encode, validate_crockford_base32_lower}
use post_urbit.Mailbox.Urls.{to_lower}
use post_urbit.Identity.Documents.{Outside, IdentityDocument, verify_signature_with_key}
use post_urbit.Identity.Revocations.{
  Formats, DeviceDocument, DeviceIndex, DeviceIndexEntry, DeviceRevocation, parse_rfc3339,
  sign_input, device_document_signature_input, device_index_signature_input,
  verify_device_revocation,
}

module _ (o : Outside) (f : Formats) where
  unfoldable pub sign_device_document : DeviceDocument → Bytes → Result Bytes
  sign_device_document doc = sign_input o f (device_document_signature_input o f doc)

  unfoldable pub sign_device_index : DeviceIndex → Bytes → Result Bytes
  sign_device_index index = sign_input o f (device_index_signature_input o f index)

  unfoldable pub derive_device_did : Bytes → Result Bytes
  derive_device_did device_signing_key_b64 = do
    key_bytes ← base64_decode o.base64 device_signing_key_b64
    guard (length key_bytes == 32) (invalid_input "device signing key length")
    ok (map to_lower (crockford_base32_encode (take 20 (o.sha256 key_bytes))))

  -- the loop over the keys
  unfoldable pub accepted_by : Bytes → Bytes → List Bytes → Bool
  accepted_by payload signature [] = false
  accepted_by payload signature (key ∷ signing_keys) =
      let rest = accepted_by payload signature signing_keys in
      if is_ok (verify_signature_with_key o payload signature key) then true else rest

  abbrev not_expired : Option Bytes → ℕ → Result (Unit {0})
  not_expired none now = ok tt
  not_expired (some expires_at) now = parse_rfc3339 o f expires_at >>= λ expires.
      if ltb expires now then err (invalid_input "device doc expired") else ok tt

  unfoldable pub verify_device_document_with_keys :
      DeviceDocument → List Bytes → ℕ → Result (Unit {0})
  verify_device_document_with_keys doc signing_keys now = do
    validate_crockford_base32_lower doc.did
    validate_crockford_base32_lower doc.iid
    derived ← derive_device_did doc.device_signing_key
    guard (derived == doc.did) (invalid_input "device did mismatch")
    not_expired doc.expires_at now
    payload ← device_document_signature_input o f doc
    guard (accepted_by payload doc.signature_by_identity signing_keys)
        (crypto "device doc signature invalid")

  abbrev previous_key : Option Bytes → List Bytes
  previous_key none = []
  previous_key (some key) = key ∷ []

  -- the keys of an identity, the current one first
  unfoldable pub signing_keys_of : IdentityDocument → List Bytes
  signing_keys_of identity =
      identity.keys.signing.current
      ∷ (previous_key identity.keys.signing.previous
          ++ map (λ hist. hist.key) identity.keys.signing.history)

  unfoldable pub verify_device_document : DeviceDocument → IdentityDocument → ℕ → Result (Unit {0})
  verify_device_document doc identity =
      verify_device_document_with_keys doc (signing_keys_of identity)

  unfoldable pub verify_entries : List DeviceIndexEntry → ℕ → Result (Unit {0})
  verify_entries [] now = ok tt
  verify_entries (entry ∷ entries) now = do
    validate_crockford_base32_lower entry.did
    last_seen ← parse_rfc3339 o f entry.last_seen
    (if ltb (now + 300000000000) last_seen
        then err (invalid_input "device index future")
        else ok tt)
    verify_entries entries now

  unfoldable pub verify_device_index_with_keys : DeviceIndex → List Bytes → ℕ → Result (Unit {0})
  verify_device_index_with_keys index signing_keys now = do
    validate_crockford_base32_lower index.iid
    updated ← parse_rfc3339 o f index.updated_at
    verify_entries index.devices now
    payload ← device_index_signature_input o f index
    guard (accepted_by payload index.signature signing_keys)
        (crypto "device index signature invalid")

  -- what the loop of `fetch_device_document` has chosen so far
  abbrev newest :
      List Bytes → ℕ → DeviceDocument → Option (ℕ × DeviceDocument) → Option (ℕ × DeviceDocument)
  newest signing_keys now doc chosen =
      if is_ok (verify_device_document_with_keys doc signing_keys now)
      then elim (f.parse_time doc.updated_at) [
        | none ↦ chosen
        | some updated_at ↦ elim chosen [
          | none ↦ some (updated_at, doc)
          | some (current, held) ↦
              if ltb current updated_at then some (updated_at, doc) else some (current, held)
        ]
      ]
      else chosen

  unfoldable pub choose_device_document :
      List Bytes → ℕ → List Bytes → Option (ℕ × DeviceDocument) → Option (ℕ × DeviceDocument)
  choose_device_document signing_keys now [] chosen = chosen
  choose_device_document signing_keys now (value ∷ values) chosen =
      choose_device_document signing_keys now values (elim (f.read_device_document value) [
        | none ↦ chosen
        | some doc ↦ newest signing_keys now doc chosen
      ])

  -- the loop of `fetch_device_revocation`: the earliest of the valid ones
  abbrev earliest :
      Bytes → DeviceRevocation → Option (ℕ × DeviceRevocation) → Option (ℕ × DeviceRevocation)
  earliest signing_key doc chosen =
      if is_ok (verify_device_revocation o f doc signing_key)
      then elim (f.parse_time doc.revoked_at) [
        | none ↦ chosen
        | some ts ↦ elim chosen [
          | none ↦ some (ts, doc)
          | some (current, held) ↦ if ltb ts current then some (ts, doc) else some (current, held)
        ]
      ]
      else chosen

  unfoldable pub choose_device_revocation :
      Bytes → List Bytes → Option (ℕ × DeviceRevocation) → Option (ℕ × DeviceRevocation)
  choose_device_revocation signing_key [] chosen = chosen
  choose_device_revocation signing_key (value ∷ values) chosen =
      choose_device_revocation signing_key values (elim (f.read_device_revocation value) [
        | none ↦ chosen
        | some doc ↦ earliest signing_key doc chosen
      ])
