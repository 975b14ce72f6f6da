-- ===== src/Relay/Signatures.antt =====
-- relay.rs: what is signed is accepted.
use post_urbit.Prelude.{ℕ, Bytes, ◌≡◌, refl, ok, ◌>>=◌, >>=-eq-ok, String, subst, IsKeyPair}
use post_urbit.Encoding.{base64_encode, IsBase64, base64_decode-encode}
use post_urbit.Relay.{
  Outside, sign_payload, verify_payload, relay_allocation_signature_input,
  relay_rebind_signature_input, sign_relay_allocation, verify_relay_allocation, sign_relay_rebind,
  verify_relay_rebind,
}

module _ (o : Outside) (engine : IsBase64 o.standard) (signing_key verifying_key : Bytes)
    (pair : IsKeyPair o.ed25519 signing_key verifying_key) where
  abbrev published : Bytes
  published = base64_encode o.standard verifying_key

  verify-sign_payload :
      (payload : Bytes) (refusal : String)
      → verify_payload o (sign_payload o signing_key payload) published payload refusal ≡ ok tt
  unfolding verify_payload sign_payload
  verify-sign_payload payload refusal =
      let digest = o.sha256 payload in
      rw
        (
          base64_decode-encode o.standard engine (o.ed25519.sign signing_key digest),
          base64_decode-encode o.standard engine verifying_key,
          pair.signature_long digest,
          pair.key_long,
          pair.key_good,
          pair.accepts digest,
        )
        refl

  -- A signature that `sign_relay_allocation` returns is accepted for the same fields and the
  -- verifying key of the signing key.
  pub verify-sign_relay_allocation :
      (iid : Bytes) (lifetime : ℕ) (timestamp nonce signature : Bytes)
      → sign_relay_allocation o signing_key iid lifetime timestamp nonce ≡ ok signature
      → verify_relay_allocation o signature published iid lifetime timestamp nonce ≡ ok tt
  unfolding sign_relay_allocation verify_relay_allocation
  verify-sign_relay_allocation iid lifetime timestamp nonce signature h =
      let input = >>=-eq-ok (relay_allocation_signature_input o iid lifetime timestamp nonce) _ h in
      rw input.1 (
        subst
          (λ r.
            (r >>= λ s. verify_payload o s published input.0 "relay allocation signature invalid")
            ≡ ok tt)
          input.2 (verify-sign_payload input.0 _))

  -- A signature that `sign_relay_rebind` returns is accepted for the same fields and the verifying
  -- key of the signing key.
  pub verify-sign_relay_rebind :
      (allocation_id token_base64url timestamp signature : Bytes)
      → sign_relay_rebind o signing_key allocation_id token_base64url timestamp ≡ ok signature
      → verify_relay_rebind o signature published allocation_id token_base64url timestamp ≡ ok tt
  unfolding sign_relay_rebind verify_relay_rebind
  verify-sign_relay_rebind allocation_id token_base64url timestamp signature h =
      let input =
        >>=-eq-ok (relay_rebind_signature_input o allocation_id token_base64url timestamp) _ h in
      rw input.1 (
        subst
          (λ r.
            (r >>= λ s. verify_payload o s published input.0 "relay rebind signature invalid")
            ≡ ok tt)
          input.2 (verify-sign_payload input.0 _))
