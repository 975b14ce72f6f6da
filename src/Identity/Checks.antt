-- ===== src/Identity/Checks.antt =====
-- identity.rs: what `verify_document` asks of a document, part by part.
use post_urbit.Prelude.{
  ℕ, Bytes, true, not, ◌&&◌, ◌<◌, ◌≡◌, ◌≢◌, refl, ap, ◌∙◌, subst, arith, Option, none, some, ◌==◌,
  nat_eq, list_eq, length, ok, err, IsKeyPair, list_beq_iff, ==_refl, ltb, invalid_input, >>=-eq-ok,
  passed, nat_beq_iff, Bool-cases, inl, inr,
}
use post_urbit.Encoding.{
  base64_encode, base64_decode, base64_decode-encode, validate_crockford_base32_lower,
}
use post_urbit.Identity.Documents.{
  Outside, IdentityDocument, Signatures, signature_payload, sign_idoc, verify_signature_with_key,
  derive_iid, verify_genesis_key, verify_current, verify_rotation, verify_document, parse_sequence,
}
use post_urbit.Identity.Facts.{IsOutside, validate-derive_iid, signature_payload-signatures}

-- the identifier of the document is that of the 32 bytes of its genesis key
pub record HasGenesis (o : Outside) (genesis : Bytes) (d : IdentityDocument) : Type 0 where
  pub genesis_text : d.keys.signing.genesis ≡ base64_encode o.base64 genesis
  pub genesis_long : length genesis ≡ 32
  pub genesis_good : o.ed25519.is_key genesis ≡ true
  pub iid_derived : derive_iid o genesis ≡ d.iid

module _ (o : Outside) where
  -- every check that `verify_document` makes holds
  pub record Passes (d : IdentityDocument) (key payload : Bytes) (sequence : ℕ) : Type 0 where
    pub iid_valid : validate_crockford_base32_lower d.iid ≡ ok tt
    pub genesis : verify_genesis_key o d ≡ ok tt
    pub key_read : base64_decode o.base64 d.keys.signing.current ≡ ok key
    pub key_long : length key ≡ 32
    pub key_good : o.ed25519.is_key key ≡ true
    pub payload_of : signature_payload o d ≡ ok payload
    pub signed : verify_current o d key payload ≡ ok tt
    pub sequence_read : parse_sequence d.sequence ≡ ok sequence

  pub verify_document-Passes :
      (d : IdentityDocument) (key payload : Bytes) (sequence : ℕ)
      → Passes d key payload sequence
      → verify_document o d ≡ verify_rotation o d payload sequence
  unfolding verify_document
  verify_document-Passes d key payload sequence p =
      rw
        (
          p.iid_valid, p.genesis, p.key_read, p.key_long, p.key_good, p.payload_of, p.signed,
          p.sequence_read,
        )
        refl

  pub Passes-verify_document :
      (d : IdentityDocument)
      → verify_document o d ≡ ok tt
      → (key : Bytes) × (payload : Bytes) × (sequence : ℕ) × Passes d key payload sequence
        × (verify_rotation o d payload sequence ≡ ok tt)
  unfolding verify_document
  Passes-verify_document d h =
      let (t, a, h1) = >>=-eq-ok (validate_crockford_base32_lower d.iid) _ h in
      let (u, b, h2) = >>=-eq-ok (verify_genesis_key o d) _ h1 in
      let (key, c, h3) = >>=-eq-ok (base64_decode o.base64 d.keys.signing.current) _ h2 in
      let (l, h4) = passed (length key == 32) "signing key length" _ h3 in
      let (g, h5) = passed (o.ed25519.is_key key) "invalid signing key" _ h4 in
      let (payload, e, h6) = >>=-eq-ok (signature_payload o d) _ h5 in
      let (v, f, h7) = >>=-eq-ok (verify_current o d key payload) _ h6 in
      let (sequence, i, h8) = >>=-eq-ok (parse_sequence d.sequence) _ h7 in
      (
        key,
        payload,
        sequence,
        record {
          iid_valid = a;
          genesis = b;
          key_read = c;
          key_long = (nat_beq_iff (length key) 32).0 l;
          key_good = g;
          payload_of = e;
          signed = f;
          sequence_read = i;
        },
        h8,
      )

  verify_genesis_key-HasGenesis :
      (genesis : Bytes) (d : IdentityDocument)
      → IsOutside o
      → HasGenesis o genesis d
      → verify_genesis_key o d ≡ ok tt
  unfolding verify_genesis_key
  verify_genesis_key-HasGenesis genesis d h k =
      rw
        (
          k.genesis_text,
          base64_decode-encode o.base64 h.engine genesis,
          k.genesis_long,
          k.genesis_good,
          k.iid_derived,
          ==_refl d.iid,
        )
        refl

  verify_current-signed :
      (d : IdentityDocument) (signing_key verifying_key payload : Bytes)
      → IsOutside o
      → IsKeyPair o.ed25519 signing_key verifying_key
      → d.signatures.current ≡ base64_encode o.base64 (o.ed25519.sign signing_key payload)
      → verify_current o d verifying_key payload ≡ ok tt
  unfolding verify_current
  verify_current-signed d signing_key verifying_key payload h pair e =
      rw
        (
          e,
          base64_decode-encode o.base64 h.engine (o.ed25519.sign signing_key payload),
          pair.signature_long payload,
          pair.accepts payload,
        )
        refl

  pub sign_idoc-parts :
      (d : IdentityDocument) (signing_key signature : Bytes)
      → sign_idoc o d signing_key ≡ ok signature
      → (payload : Bytes) × (signature_payload o d ≡ ok payload)
        × (signature ≡ base64_encode o.base64 (o.ed25519.sign signing_key payload))
  unfolding sign_idoc
  sign_idoc-parts d signing_key signature e =
      let (payload, p, q) = >>=-eq-ok (signature_payload o d) _ e in (payload, p, ground (arith, q))

  -- a document that is signed with the key it names passes the checks, whatever stands for the
  -- signature of the key before
  pub signed-Passes :
      (genesis : Bytes) (d : IdentityDocument) (signing_key verifying_key payload : Bytes)
      (sequence : ℕ) (signature : Bytes) (previous : Option Bytes)
      → IsOutside o
      → HasGenesis o genesis d
      → IsKeyPair o.ed25519 signing_key verifying_key
      → d.keys.signing.current ≡ base64_encode o.base64 verifying_key
      → signature_payload o d ≡ ok payload
      → signature ≡ base64_encode o.base64 (o.ed25519.sign signing_key payload)
      → parse_sequence d.sequence ≡ ok sequence
      → Passes
          (record d { signatures = record { current = signature; previous = previous } })
          verifying_key
          payload
          sequence
  signed-Passes genesis d signing_key verifying_key payload sequence signature previous h k pair c p
        e s =
      let signatures : Signatures = record { current = signature; previous = previous } in
      let after : IdentityDocument = record d { signatures = signatures } in
      record {
        iid_valid =
            subst (λ iid. validate_crockford_base32_lower iid ≡ ok tt) k.iid_derived
              (validate-derive_iid o h genesis);
        genesis = verify_genesis_key-HasGenesis genesis after h (record {
          genesis_text = k.genesis_text;
          genesis_long = k.genesis_long;
          genesis_good = k.genesis_good;
          iid_derived = k.iid_derived;
        });
        key_read =
            ap (base64_decode o.base64) c ∙ base64_decode-encode o.base64 h.engine verifying_key;
        key_long = pair.key_long;
        key_good = pair.key_good;
        payload_of = signature_payload-signatures o h d signatures ∙ p;
        signed = verify_current-signed after signing_key verifying_key payload h pair e;
        sequence_read = s;
      }

  pub verify_rotation-unrotated :
      (d : IdentityDocument) (payload : Bytes) (sequence : ℕ)
      → d.keys.signing.current ≡ d.keys.signing.genesis
      → verify_rotation o d payload sequence ≡ ok tt
  unfolding verify_rotation
  verify_rotation-unrotated d payload sequence e =
      ground (arith, list_beq_iff d.keys.signing.current d.keys.signing.genesis, e)

  pub verify_rotation-previous :
      (d : IdentityDocument) (payload key signature : Bytes) (sequence : ℕ)
      → d.keys.signing.previous ≡ some key
      → d.signatures.previous ≡ some signature
      → verify_signature_with_key o payload signature key ≡ ok tt
      → verify_rotation o d payload sequence ≡ ok tt
  unfolding verify_rotation
  verify_rotation-previous d payload key signature sequence p q v =
      elim (Bool-cases (ltb 0 sequence && not (d.keys.signing.current == d.keys.signing.genesis))) [
        | inl e ↦ rw (e, q, p) v
        | inr e ↦ rw e refl
      ]

  pub verify_rotation-missing :
      (d : IdentityDocument) (payload : Bytes) (sequence : ℕ)
      → 0 < sequence
      → d.keys.signing.current ≢ d.keys.signing.genesis
      → d.signatures.previous ≡ none
      → verify_rotation o d payload sequence
        ≡ err (invalid_input "key rotation requires previous signature")
  unfolding verify_rotation
  verify_rotation-missing d payload sequence n c q =
      ground (arith, list_beq_iff d.keys.signing.current d.keys.signing.genesis, c, q, n)
