-- ===== src/Identity/Facts.antt =====
-- What the functions of identity.rs rely on outside, and what follows for signatures.
use post_urbit.Prelude.{
  ℕ, Bytes, true, ◌<◌, ◌≡◌, refl, sym, ap, ◌∙◌, arith, Option, none, some, [], ◌∷◌, ◌++◌, nat_eq,
  list_eq, length, take, map, ascii, All, All-take, length-take, Result, ok, ◌>>=◌, ok_or,
  invalid_input, IsKeyPair, Result-cases, inl, inr, Bool-cases, is_ok,
}
use post_urbit.Encoding.{
  IsBase64, base64_encode, base64_decode, base64_decode-encode, crockford_base32_encode,
  crockford_base32_decode, validate_crockford_base32_lower, validate_loop, valid_char,
}
use post_urbit.Encoding.RoundTrip.{decode-encode}
use post_urbit.Encoding.Window.{IsByte}
use post_urbit.Encoding.Validity.{is_ok-decode}
use post_urbit.Mailbox.Urls.{to_lower}
use post_urbit.CanonicalJson.{Json, without, canonical_json_value}
use post_urbit.Identity.Documents.{
  Outside, IdentityDocument, Signatures, signature_payload, verify_signature_with_key, derive_iid,
}

-- the value of a document without its signatures
abbrev pub unsigned : Option Json → Option Json
unsigned none = none
unsigned (some value) = some (without (ascii "signatures") value)

abbrev pub body : Outside → IdentityDocument → Option Json
body o document = unsigned (o.to_value document)

-- base 64 is read again, SHA-256 gives 32 bytes, and the signatures stand only under their own name
pub record IsOutside (o : Outside) : Type 0 where
  pub engine : IsBase64 o.base64
  pub sha256_long : (m : Bytes) → length (o.sha256 m) ≡ 32
  pub sha256_bytes : (m : Bytes) → All IsByte (o.sha256 m)
  pub signatures_apart :
      (document : IdentityDocument) (signatures : Signatures)
      → body o (record document { signatures = signatures }) ≡ body o document

to_lower-valid : (c : ℕ) → valid_char c ≡ true → to_lower c ≡ c
unfolding to_lower valid_char
to_lower-valid c h = ground (arith, h)

map-to_lower : (text : Bytes) → validate_loop text ≡ ok tt → map to_lower text ≡ text
unfolding validate_loop
map-to_lower [] h = refl
map-to_lower (c ∷ text) h = elim (Bool-cases (valid_char c)) [
  | inl e ↦
      ap (λ x. x ∷ map to_lower text) (to_lower-valid c e)
      ∙ ap (λ l. c ∷ l) (map-to_lower text (ground (arith, h, e)))
  | inr e ↦ ground (arith, h, e)
]

valid_encoding :
    (text bytes : Bytes)
    → crockford_base32_decode text ≡ ok bytes
    → 0 < length bytes
    → (validate_crockford_base32_lower text ≡ ok tt) × (map to_lower text ≡ text)
unfolding validate_crockford_base32_lower
valid_encoding [] bytes h k =
    unfold crockford_base32_decode post_urbit.Encoding.decode_loop in absurd (ground (arith, h))
valid_encoding (c ∷ text) bytes h k =
    let good : is_ok (validate_loop (c ∷ text)) ≡ true =
      sym (unfold validate_crockford_base32_lower in is_ok-decode c text) ∙ ap is_ok h in
    let valid : validate_loop (c ∷ text) ≡ ok tt = elim (Result-cases (validate_loop (c ∷ text))) [
      | inl (t, e) ↦ e
      | inr (x, e) ↦ absurd (ground (arith, good, e))
    ] in
    (valid, map-to_lower (c ∷ text) valid)

payload_of : Outside → Option Json → Result Bytes
payload_of o value = ok_or value (invalid_input "serialize idoc") >>= λ v.
    canonical_json_value o.to_string v >>= λ canonical.
    ok (ascii "post-urbit:idoc:v1:" ++ canonical)

payload_of-unsigned :
    (o : Outside) (v : Option Json)
    → (ok_or v (invalid_input "serialize idoc") >>= λ value.
        canonical_json_value o.to_string (without (ascii "signatures") value) >>= λ canonical.
        ok (ascii "post-urbit:idoc:v1:" ++ canonical))
      ≡ payload_of o (unsigned v)
unfolding payload_of
payload_of-unsigned o none = refl
payload_of-unsigned o (some v) = refl

signature_payload-body :
    (o : Outside) (document : IdentityDocument)
    → signature_payload o document ≡ payload_of o (body o document)
unfolding signature_payload
signature_payload-body o document = payload_of-unsigned o (o.to_value document)

module _ (o : Outside) (h : IsOutside o) where
  -- an identifier that is derived from a key is well formed
  pub validate-derive_iid :
      (key : Bytes) → validate_crockford_base32_lower (derive_iid o key) ≡ ok tt
  unfolding derive_iid
  validate-derive_iid key =
      let digest = take 20 (o.sha256 key) in
      let long : 0 < length digest =
        omega (arith, length-take 20 (o.sha256 key), h.sha256_long key) in
      let both =
        valid_encoding (crockford_base32_encode digest) digest
          (decode-encode digest (All-take IsByte 20 (o.sha256 key) (h.sha256_bytes key))) long in
      rw both.1 both.0

  pub signature_payload-signatures :
      (document : IdentityDocument) (signatures : Signatures)
      → signature_payload o (record document { signatures = signatures })
        ≡ signature_payload o document
  signature_payload-signatures document signatures =
      signature_payload-body o (record document { signatures = signatures })
      ∙ (ap (payload_of o) (h.signatures_apart document signatures)
          ∙ sym (signature_payload-body o document))

  -- what a key signed is accepted for its counterpart
  pub verify-sign :
      (signing_key verifying_key payload : Bytes)
      → IsKeyPair o.ed25519 signing_key verifying_key
      → verify_signature_with_key o payload
          (base64_encode o.base64 (o.ed25519.sign signing_key payload))
          (base64_encode o.base64 verifying_key)
        ≡ ok tt
  unfolding verify_signature_with_key
  verify-sign signing_key verifying_key payload pair =
      rw
        (
          base64_decode-encode o.base64 h.engine (o.ed25519.sign signing_key payload),
          base64_decode-encode o.base64 h.engine verifying_key,
          pair.signature_long payload,
          pair.key_long,
          pair.key_good,
          pair.accepts payload,
        )
        refl
