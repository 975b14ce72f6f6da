-- ===== src/Transport/Challenge/Binding.antt =====
-- transport.rs: a challenge that is signed is verified, and stands for one handshake only.
use post_urbit.Prelude.{
  Bytes, String, Bool, true, false, ◌≡◌, refl, sym, ◌∙◌, subst, arith, [], ◌∷◌, ◌++◌, nat_eq,
  length, ascii, ok, IsKeyPair,
}
use post_urbit.Encoding.{
  base64_encode, crockford_base32_decode, validate_crockford_base32_lower, base64_decode-encode,
  IsBase64,
}
use post_urbit.Identity.Documents.{Outside}
use post_urbit.Transport.Challenge.{
  challenge, create_challenge_signature, verify_challenge_signature, verify_digest,
}

-- an identifier in text, of 20 bytes
pub record IsIid (iid raw : Bytes) : Type 0 where
  pub valid : validate_crockford_base32_lower iid ≡ ok tt
  pub decoded : crockford_base32_decode iid ≡ ok raw
  pub long : length raw ≡ 20

append-cancel : (a b x y : Bytes) → length a ≡ length b → a ++ x ≡ b ++ y → (a ≡ b) × (x ≡ y)
append-cancel [] [] x y l h = (refl, h)
append-cancel [] (c ∷ b) x y l h = absurd (omega (arith, l))
append-cancel (c ∷ a) [] x y l h = absurd (omega (arith, l))
append-cancel (c ∷ a) (d ∷ b) x y l h =
    let (p, q) = append-cancel a b x y (omega (arith, l)) (ground (arith, h)) in
    (ground (arith, h, p), q)

-- The challenge of a role determines the nonces, the binding and the identifiers that it was made
-- of, as long as they have their lengths.
pub challenge-injective :
    (is_server : Bool) (cn sn tls ci si cn' sn' tls' ci' si' : Bytes)
    → (length cn ≡ 32) × (length sn ≡ 32) × (length tls ≡ 32) × (length ci ≡ 20) × (length si ≡ 20)
    → (length cn' ≡ 32)
      × (length sn' ≡ 32)
      × (length tls' ≡ 32)
      × (length ci' ≡ 20)
      × (length si' ≡ 20)
    → challenge is_server cn sn tls ci si ≡ challenge is_server cn' sn' tls' ci' si'
    → (cn ≡ cn') × (sn ≡ sn') × (tls ≡ tls') × (ci ≡ ci') × (si ≡ si')
unfolding challenge ascii
challenge-injective true cn sn tls ci si cn' sn' tls' ci' si' (a, b, c, d, e) (a', b', c', d', e')
      h =
    let (z, h0) =
      append-cancel (ascii "post-urbit-handshake-v1") (ascii "post-urbit-handshake-v1") _ _ refl
        h in
    let (p, h1) = append-cancel cn cn' _ _ (a ∙ sym a') h0 in
    let (q, h2) = append-cancel sn sn' _ _ (b ∙ sym b') h1 in
    let (r, h3) = append-cancel tls tls' _ _ (c ∙ sym c') h2 in
    let (s, t) = append-cancel ci ci' si si' (d ∙ sym d') h3 in (p, q, r, s, t)
challenge-injective false cn sn tls ci si cn' sn' tls' ci' si' (a, b, c, d, e) (a', b', c', d', e')
      h =
    let (z, h0) =
      append-cancel (ascii "post-urbit-handshake-v1") (ascii "post-urbit-handshake-v1") _ _ refl
        h in
    let (q, h1) = append-cancel sn sn' _ _ (b ∙ sym b') h0 in
    let (p, h2) = append-cancel cn cn' _ _ (a ∙ sym a') h1 in
    let (r, h3) = append-cancel tls tls' _ _ (c ∙ sym c') h2 in
    let (t, s) = append-cancel si si' ci ci' (e ∙ sym e') h3 in (p, q, r, s, t)

module _ (o : Outside) (engine : IsBase64 o.base64) (signing_key verifying_key : Bytes)
    (pair : IsKeyPair o.ed25519 signing_key verifying_key) where
  verify-sign_digest :
      (digest : Bytes) (a b c d : String)
      → verify_digest o digest
          (base64_encode o.base64 (o.ed25519.sign signing_key digest))
          (base64_encode o.base64 verifying_key)
          a
          b
          c
          d
        ≡ ok tt
  unfolding verify_digest
  verify-sign_digest digest a b c d =
      rw
        (
          base64_decode-encode o.base64 engine (o.ed25519.sign signing_key digest),
          base64_decode-encode o.base64 engine verifying_key,
          pair.signature_long digest,
          pair.key_long,
          pair.key_good,
          pair.accepts digest,
        )
        refl

  pub created :
      (is_server : Bool) (cn sn tls client_iid server_iid ci si : Bytes)
      → IsIid client_iid ci
      → IsIid server_iid si
      → create_challenge_signature o signing_key cn sn tls client_iid server_iid is_server
        ≡ ok (
            base64_encode o.base64
              (o.ed25519.sign signing_key (o.sha256 (challenge is_server cn sn tls ci si))))
  unfolding create_challenge_signature
  created is_server cn sn tls client_iid server_iid ci si client server =
      rw (client.decoded, server.decoded) refl

  checked :
      (is_server : Bool) (cn sn tls client_iid server_iid ci si signature key : Bytes)
      → (length cn ≡ 32) × (length sn ≡ 32) × (length tls ≡ 32)
      → IsIid client_iid ci
      → IsIid server_iid si
      → verify_challenge_signature o signature key
          (base64_encode o.base64 cn)
          (base64_encode o.base64 sn)
          (base64_encode o.base64 tls)
          client_iid
          server_iid
          is_server
        ≡ verify_digest o
            (o.sha256 (challenge is_server cn sn tls ci si))
            signature
            key
            "challenge signature length"
            "signing key length"
            "signing key parse"
            "challenge signature invalid"
  unfolding verify_challenge_signature
  checked is_server cn sn tls client_iid server_iid ci si signature key (a, b, c) client server =
      rw
        (
          client.valid,
          server.valid,
          base64_decode-encode o.base64 engine cn,
          base64_decode-encode o.base64 engine sn,
          base64_decode-encode o.base64 engine tls,
          a,
          b,
          c,
          client.decoded,
          server.decoded,
          client.long,
          server.long,
        )
        refl

  -- What either side signs is accepted by the other for the same nonces, the same binding to the
  -- connection and the same identifiers.
  pub verify-create_challenge_signature :
      (is_server : Bool) (cn sn tls client_iid server_iid ci si signature : Bytes)
      → (length cn ≡ 32) × (length sn ≡ 32) × (length tls ≡ 32)
      → IsIid client_iid ci
      → IsIid server_iid si
      → create_challenge_signature o signing_key cn sn tls client_iid server_iid is_server
        ≡ ok signature
      → verify_challenge_signature o signature
          (base64_encode o.base64 verifying_key)
          (base64_encode o.base64 cn)
          (base64_encode o.base64 sn)
          (base64_encode o.base64 tls)
          client_iid
          server_iid
          is_server
        ≡ ok tt
  verify-create_challenge_signature is_server cn sn tls client_iid server_iid ci si signature long
        client server h =
      let digest = o.sha256 (challenge is_server cn sn tls ci si) in
      let made = base64_encode o.base64 (o.ed25519.sign signing_key digest) in
      let same : made ≡ signature =
        ground (
          arith,
          sym (created is_server cn sn tls client_iid server_iid ci si client server) ∙ h,
        ) in
      subst
        (λ s.
          verify_challenge_signature o s (base64_encode o.base64 verifying_key)
            (base64_encode o.base64 cn) (base64_encode o.base64 sn) (base64_encode o.base64 tls)
            client_iid server_iid is_server
          ≡ ok tt)
        same
        (checked is_server cn sn tls client_iid server_iid ci si made _ long client server
          ∙ verify-sign_digest digest _ _ _ _)
