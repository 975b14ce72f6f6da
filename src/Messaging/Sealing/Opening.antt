-- ===== src/Messaging/Sealing/Opening.antt =====
-- messaging.rs: an envelope that was built is opened and its signature accepted.
use post_urbit.Prelude.{
  All, Bytes, true, ◌≤◌, ◌<◌, List, [], ◌∷◌, ◌++◌, ◌≡◌, refl, sym, ap, ◌∙◌, subst, length, ltb,
  nat_eq, list_eq, ok, >>=-eq-ok, passed, arith, ascii, to_be_bytes, length-append, append_assoc,
  le→leb, Ed25519, IsKeyPair, ltb→lt, Option-cases, some, inl, inr, drop-append, take-append, ◌-◌,
}
use post_urbit.Messaging.{
  PuseHeader, PuseEnvelope, encode_puse_header, decode_puse_envelope, validate_header_extension,
}
use post_urbit.Messaging.Sealing.Layout.{IsSendable, layout, decode-layout}
use post_urbit.Encoding.{Base64, IsBase64, base64_encode, base64_decode, base64_decode-encode}
use post_urbit.Messaging.Sealing.{
  verify_with_keys, verify_puse_signature, Aead, IsAead, encrypt_puse_payload, decrypt_puse_payload,
  build_puse_envelope,
}

abbrev built : Ed25519 → Bytes → PuseHeader → Bytes → Bytes → PuseEnvelope
built ed25519 signing_key header encoded ciphertext = record {
  header = record header { ciphertext_length = length ciphertext };
  ciphertext = ciphertext;
  signature = ed25519.sign signing_key (encoded ++ ciphertext);
}

-- the three parts of what `build_puse_envelope` returns
build_parts :
    (aead : Aead) (ed25519 : Ed25519) (signing_key : Bytes) (header : PuseHeader)
    (message_key plaintext bytes : Bytes)
    → build_puse_envelope aead ed25519 signing_key header message_key plaintext ≡ ok bytes
    → (ciphertext : Bytes) × (encoded : Bytes) × (encrypt_puse_payload aead message_key
          header.header_extension header.nonce plaintext
        ≡ ok ciphertext)
      × (encode_puse_header (record header { ciphertext_length = length ciphertext }) ≡ ok encoded)
      × (bytes ≡ (encoded ++ ciphertext) ++ ed25519.sign signing_key (encoded ++ ciphertext))
unfolding build_puse_envelope
build_parts aead ed25519 signing_key header message_key plaintext bytes h =
    let sealed =
      >>=-eq-ok
        (encrypt_puse_payload aead message_key header.header_extension header.nonce plaintext) _
        h in
    let fits = passed (ltb (length sealed.0) 4294967296) "ciphertext length" _ sealed.2 in
    let encoded =
      >>=-eq-ok (encode_puse_header (record header { ciphertext_length = length sealed.0 })) _
        fits.1 in
    let same : ok ((encoded.0 ++ sealed.0) ++ ed25519.sign signing_key (encoded.0 ++ sealed.0))
        ≡ ok bytes =
      encoded.2 in
    (sealed.0, encoded.0, sealed.1, encoded.1, cc)

encode_parts :
    (e : PuseEnvelope) (encoded : Bytes)
    → encode_puse_header e.header ≡ ok encoded
    → (validate_header_extension e.header.header_extension ≡ ok tt)
      × (length e.header.header_extension < 65536)
      × ((encoded ++ e.ciphertext) ++ e.signature ≡ layout e)
unfolding encode_puse_header ascii
encode_parts e encoded h =
    let valid = >>=-eq-ok (validate_header_extension e.header.header_extension) _ h in
    let short =
      passed (ltb (length e.header.header_extension) 65536) "header extension length" _ valid.2 in
    let head : encoded
        ≡ 80
          ∷ 85
          ∷ 83
          ∷ 69
          ∷ 1
          ∷ e.header.flags
          ∷ (e.header.sender_iid
              ++ (e.header.recipient_iid
                  ++ (e.header.message_id
                      ++ (to_be_bytes 2 (length e.header.header_extension)
                          ++ (e.header.header_extension
                              ++ (e.header.nonce ++ to_be_bytes 4 e.header.ciphertext_length)))))) =
      cc in
    (
      valid.1,
      ltb→lt (length e.header.header_extension) 65536 short.0,
      rw head (simp append_assoc refl),
    )

open_payload :
    (aead : Aead)
    → IsAead aead
    → (message_key header_extension nonce plaintext ciphertext : Bytes)
    → encrypt_puse_payload aead message_key header_extension nonce plaintext ≡ ok ciphertext
    → decrypt_puse_payload aead message_key header_extension nonce ciphertext ≡ ok plaintext
unfolding encrypt_puse_payload decrypt_puse_payload
open_payload aead law key extension nonce plaintext ciphertext h =
    elim (Option-cases (aead.encrypt key nonce extension plaintext)) [
      | inl e ↦ let bad = rw e at h in cc
      | inr (c, e) ↦
          let same : c ≡ ciphertext = let good = rw e at h in cc in
          rw (law.decrypt_encrypt key nonce extension plaintext ciphertext (e ∙ ap some same)) refl
    ]

-- For a key pair, and a cipher that decrypts what it encrypts: where `build_puse_envelope` returns
-- at most 1 MiB for a header that can be sent and a text, that is decoded to an envelope with the
-- header, up to the length of the ciphertext, which is set, and the ciphertext is decrypted to the
-- text.
pub decode-build_puse_envelope :
    (aead : Aead) (ed25519 : Ed25519) (signing_key verifying_key : Bytes) (header : PuseHeader)
    (message_key plaintext bytes : Bytes)
    → IsAead aead
    → IsKeyPair ed25519 signing_key verifying_key
    → IsSendable header
    → build_puse_envelope aead ed25519 signing_key header message_key plaintext ≡ ok bytes
    → length bytes ≤ 1048576
    → (e : PuseEnvelope) × (decode_puse_envelope bytes ≡ ok e)
      × (e.header ≡ record header { ciphertext_length = length e.ciphertext })
      × (decrypt_puse_payload aead message_key e.header.header_extension e.header.nonce e.ciphertext
          ≡ ok plaintext)
decode-build_puse_envelope aead ed25519 signing_key verifying_key header message_key plaintext bytes
      law pair s h small =
    let (ciphertext, encoded, sealed, head, all) =
      build_parts aead ed25519 signing_key header message_key plaintext bytes h in
    let e = built ed25519 signing_key header encoded ciphertext in
    let (valid, short, flat) = encode_parts e encoded head in
    let sendable : IsSendable e.header = record {
      sender_long = s.sender_long;
      recipient_long = s.recipient_long;
      id_long = s.id_long;
      nonce_long = s.nonce_long;
      flags_good = s.flags_good;
      kind_good = s.kind_good;
    } in
    let same = all ∙ flat in
    (
      e,
      subst (λ b. decode_puse_envelope b ≡ ok e) (sym same)
          (decode-layout e sendable valid short refl (pair.signature_long _)
            (subst (λ b. length b ≤ 1048576) same small)),
      refl,
      open_payload aead law message_key header.header_extension header.nonce plaintext ciphertext
          sealed,
    )

-- a key that the loop passes over or tries
abbrev IsReadable : Base64 → Ed25519 → Bytes → Type 0
IsReadable engine ed25519 key =
    (bytes : Bytes) × (base64_decode engine key ≡ ok bytes)
    × (length bytes ≡ 32 → ed25519.is_key bytes ≡ true)

verify_with_signer :
    (engine : Base64) (ed25519 : Ed25519) (signing_key verifying_key : Bytes)
    (before after : List Bytes) (message : Bytes)
    → IsBase64 engine
    → IsKeyPair ed25519 signing_key verifying_key
    → All (IsReadable engine ed25519) before
    → verify_with_keys engine ed25519
        (before ++ (base64_encode engine verifying_key ∷ after))
        message
        (ed25519.sign signing_key message)
      ≡ ok tt
unfolding verify_with_keys
verify_with_signer engine ed25519 signing_key verifying_key [] after message b64 pair h =
    rw
      (
        base64_decode-encode engine b64 verifying_key,
        pair.key_long,
        pair.key_good,
        pair.accepts message,
      )
      refl
verify_with_signer engine ed25519 signing_key verifying_key (key ∷ before) after message b64 pair
      ((bytes, read, good), h) =
    let rest =
      verify_with_signer engine ed25519 signing_key verifying_key before after message b64 pair h in
    rw read (ground (arith, good, rest))

-- For a key pair, and a base 64 that reads what it writes: the signature of what
-- `build_puse_envelope` returns is accepted for any list of keys that has the verifying key in it
-- behind keys that can be read, whatever keys follow.
pub verify-build_puse_envelope :
    (aead : Aead) (engine : Base64) (ed25519 : Ed25519) (signing_key verifying_key : Bytes)
    (header : PuseHeader) (message_key plaintext bytes : Bytes) (before after : List Bytes)
    → IsBase64 engine
    → IsKeyPair ed25519 signing_key verifying_key
    → All (IsReadable engine ed25519) before
    → build_puse_envelope aead ed25519 signing_key header message_key plaintext ≡ ok bytes
    → verify_puse_signature engine ed25519 bytes
        (before ++ (base64_encode engine verifying_key ∷ after))
      ≡ ok tt
unfolding verify_puse_signature
verify-build_puse_envelope aead engine ed25519 signing_key verifying_key header message_key
      plaintext bytes before after b64 pair readable h =
    let (ciphertext, encoded, sealed, head, all) =
      build_parts aead ed25519 signing_key header message_key plaintext bytes h in
    let signed = encoded ++ ciphertext in
    let signature = ed25519.sign signing_key signed in
    let long = pair.signature_long signed in
    let total = length-append signed signature in
    let at : length (signed ++ signature) - 64 ≡ length signed = omega (arith, long, total) in
    rw
      (
        all,
        le→leb 64 (length (signed ++ signature)) (omega (arith, long, total)),
        at,
        take-append signed signature,
        drop-append signed signature,
      )
      (verify_with_signer engine ed25519 signing_key verifying_key before after signed b64 pair
        readable)
