-- ===== src/Identity/Manager/Rotations.antt =====
-- identity.rs: a new signing key, as peers see it.
use post_urbit.Prelude.{
  ℕ, Bytes, true, ◌+◌, ◌^◌, ◌<◌, ◌≡◌, refl, ap, ◌∙◌, subst, arith, some, ◌==◌, nat_eq, list_eq, ok,
  IsKeyPair, list_beq_iff, ==_refl, lt→ltb, >>=-eq-ok, Bool-cases, inl, inr, u64, print_u64,
}
use post_urbit.Encoding.{base64_encode}
use post_urbit.Identity.Documents.{
  Outside, IdentityDocument, signature_payload, sign_idoc, verify_signature_with_key,
  verify_document, verify_document_extends, verify_continuity, parse_sequence,
}
use post_urbit.Identity.Facts.{IsOutside, signature_payload-signatures, verify-sign}
use post_urbit.Identity.Checks.{
  HasGenesis, verify_document-Passes, sign_idoc-parts, signed-Passes, verify_rotation-previous,
}
use post_urbit.Identity.Manager.{IdentityState, rotated}
use post_urbit.Identity.Manager.Signed.{IsOwned, next_parsed}

module _ (o : Outside) where
  verify_own :
      (signing_key verifying_key payload signature text : Bytes)
      → IsOutside o
      → IsKeyPair o.ed25519 signing_key verifying_key
      → signature ≡ base64_encode o.base64 (o.ed25519.sign signing_key payload)
      → text ≡ base64_encode o.base64 verifying_key
      → verify_signature_with_key o payload signature text ≡ ok tt
  verify_own signing_key verifying_key payload signature text h pair s t =
      rw (s, t) (verify-sign o h signing_key verifying_key payload pair)

  -- A document that two keys signed, the one it names as current and any other that it names as
  -- previous, is accepted, whatever the genesis key is and whoever holds it: the previous key need
  -- not come from the genesis key.
  pub verify-signed_twice :
      (genesis : Bytes) (d : IdentityDocument)
      (current_key current_public previous_key previous_public : Bytes)
      (current_signature previous_signature : Bytes) (sequence : ℕ)
      → IsOutside o
      → HasGenesis o genesis d
      → IsKeyPair o.ed25519 current_key current_public
      → IsKeyPair o.ed25519 previous_key previous_public
      → d.keys.signing.current ≡ base64_encode o.base64 current_public
      → d.keys.signing.previous ≡ some (base64_encode o.base64 previous_public)
      → parse_sequence d.sequence ≡ ok sequence
      → sign_idoc o d current_key ≡ ok current_signature
      → sign_idoc o d previous_key ≡ ok previous_signature
      → verify_document o (record d {
        signatures = record { current = current_signature; previous = some previous_signature };
      })
        ≡ ok tt
  verify-signed_twice genesis d current_key current_public previous_key previous_public
        current_signature previous_signature sequence h k pair pair' c c' q e e' =
      let (payload, p, r) = sign_idoc-parts o d current_key current_signature e in
      let (payload', p', r') = sign_idoc-parts o d previous_key previous_signature e' in
      let same : payload' ≡ payload = ground (arith, p, p') in
      let after : IdentityDocument = record d {
        signatures = record { current = current_signature; previous = some previous_signature };
      } in
      verify_document-Passes o after current_public payload sequence (
        signed-Passes o genesis d current_key current_public payload sequence current_signature
          (some previous_signature) h k pair c p r q)
      ∙ verify_rotation-previous o after payload (base64_encode o.base64 previous_public)
          previous_signature sequence c' refl
          (verify_own previous_key previous_public payload previous_signature _ h pair'
            (subst
              (λ x. previous_signature ≡ base64_encode o.base64 (o.ed25519.sign previous_key x))
              same r')
            refl)

  extends-parts :
      (previous current : IdentityDocument) (prev_seq curr_seq : ℕ)
      → current.iid ≡ previous.iid
      → parse_sequence previous.sequence ≡ ok prev_seq
      → parse_sequence current.sequence ≡ ok curr_seq
      → prev_seq < curr_seq
      → verify_document o current ≡ ok tt
      → verify_continuity o previous current ≡ ok tt
      → verify_document_extends o previous current ≡ ok tt
  unfolding verify_document_extends
  extends-parts previous current prev_seq curr_seq i p c l v w =
      let same : (current.iid == previous.iid) ≡ true =
        (list_beq_iff current.iid previous.iid).1 i in
      elim (Bool-cases (current.keys.signing.current == previous.keys.signing.current)) [
        | inl b ↦ rw (same, p, c, lt→ltb prev_seq curr_seq l, v, b) refl
        | inr b ↦ rw (same, p, c, lt→ltb prev_seq curr_seq l, v, b) w
      ]

  continuity-parts :
      (previous current : IdentityDocument) (payload signature : Bytes)
      → current.keys.signing.previous ≡ some previous.keys.signing.current
      → current.signatures.previous ≡ some signature
      → signature_payload o current ≡ ok payload
      → verify_signature_with_key o payload signature previous.keys.signing.current ≡ ok tt
      → verify_continuity o previous current ≡ ok tt
  unfolding verify_continuity
  continuity-parts previous current payload signature k s p v =
      rw (p, s, k, ==_refl previous.keys.signing.current) v

  -- A rotation of the signing key makes a document that peers accept as an extension of the one
  -- before, as long as sequences stay below 2^64.
  pub verify-rotated :
      (genesis new_signing_key now : Bytes) (s : IdentityState) (sequence : ℕ)
      (d : IdentityDocument)
      → IsOutside o
      → IsOwned o genesis s
      → IsKeyPair o.ed25519 new_signing_key (o.verifying_key new_signing_key)
      → parse_sequence s.document.sequence ≡ ok sequence
      → sequence + 1 < 2 ^ 64
      → rotated o new_signing_key now s ≡ ok d
      → verify_document_extends o s.document d ≡ ok tt
  unfolding rotated
  verify-rotated genesis new_signing_key now s sequence d h own pair q n e =
      let (read, f, e1) = >>=-eq-ok (parse_sequence s.document.sequence) _ e in
      let next : ℕ → IdentityDocument = λ m. record s.document {
        sequence = print_u64 (u64 (m + 1));
        timestamp = now;
        keys = record s.document.keys {
          signing = record s.document.keys.signing {
            previous = some s.document.keys.signing.current;
            current = base64_encode o.base64 (o.verifying_key new_signing_key);
          };
        };
      } in
      let (current, g, e2) = >>=-eq-ok (sign_idoc o (next read) new_signing_key) _ e1 in
      let (previous, g', e3) = >>=-eq-ok (sign_idoc o (next read) s.signing_key) _ e2 in
      let same : read ≡ sequence = ground (arith, f, q) in
      let signed : IdentityDocument = record (next sequence) {
        signatures = record { current = current; previous = some previous };
      } in
      let at : (key signature : Bytes)
          → sign_idoc o (next read) key ≡ ok signature
          → sign_idoc o (next sequence) key ≡ ok signature =
        λ key signature x. subst (λ m. sign_idoc o (next m) key ≡ ok signature) same x in
      let result : record (next read) {
        signatures = record { current = current; previous = some previous };
      }
          ≡ d =
        ground (arith, e3) in
      let origin : HasGenesis o genesis (next sequence) = record {
        genesis_text = own.from_genesis.genesis_text;
        genesis_long = own.from_genesis.genesis_long;
        genesis_good = own.from_genesis.genesis_good;
        iid_derived = own.from_genesis.iid_derived;
      } in
      let (payload, p, r) =
        sign_idoc-parts o (next sequence) s.signing_key previous (at s.signing_key previous g') in
      subst (λ x. verify_document_extends o s.document x ≡ ok tt)
        (subst
          (λ m.
            record (next m) { signatures = record { current = current; previous = some previous } }
            ≡ d)
          same result)
        (extends-parts s.document signed sequence (sequence + 1) refl q (next_parsed sequence n)
          (omega arith)
          (verify-signed_twice genesis (next sequence) new_signing_key
            (o.verifying_key new_signing_key) s.signing_key (o.verifying_key s.signing_key) current
            previous (sequence + 1) h origin pair own.pair refl (ap some own.current_own)
            (next_parsed sequence n) (at new_signing_key current g) (at s.signing_key previous g'))
          (continuity-parts s.document signed payload previous refl refl
            (signature_payload-signatures o h (next sequence) signed.signatures ∙ p)
            (verify_own s.signing_key (o.verifying_key s.signing_key) payload previous _ h own.pair
              r own.current_own)))
