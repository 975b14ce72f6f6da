-- ===== src/Identity/Chains.antt =====
-- identity.rs: what a document that extends another has in common with it.
use post_urbit.Prelude.{
  ℕ, Bytes, not, ◌<◌, ◌≡◌, ◌⊎◌, ◌∙◌, arith, some, List, [], ◌∷◌, ◌==◌, nat_eq, list_eq,
  if◌then◌else◌, ok, ok_or, list_beq_iff, ltb, ltb→lt, >>=-eq-ok, passed, Bool-cases, inl, inr,
  invalid_input, subst, ok_or-some,
}
use post_urbit.Identity.Documents.{
  Outside, IdentityDocument, signature_payload, verify_signature_with_key, verify_document,
  verify_document_extends, verify_continuity, parse_sequence,
}

module _ (o : Outside) where
  -- the previous document's key signed the document as well
  abbrev pub IsHandedOver : IdentityDocument → IdentityDocument → Type 0
  IsHandedOver previous current =
      (payload : Bytes) × (signature : Bytes) × (signature_payload o current ≡ ok payload)
      × (current.signatures.previous ≡ some signature)
      × (verify_signature_with_key o payload signature previous.keys.signing.current ≡ ok tt)

  verify_continuity-IsHandedOver :
      (previous current : IdentityDocument)
      → verify_continuity o previous current ≡ ok tt
      → IsHandedOver previous current
  unfolding verify_continuity
  verify_continuity-IsHandedOver previous current h =
      let (key, a, h1) =
        >>=-eq-ok
          (ok_or current.keys.signing.previous (invalid_input "key rotation requires previous key"))
          _ h in
      let (b, h2) = passed (key == previous.keys.signing.current) "previous key mismatch" _ h1 in
      let (signature, c, h3) =
        >>=-eq-ok
          (ok_or current.signatures.previous
            (invalid_input "key rotation requires previous signature"))
          _ h2 in
      let (payload, d, h4) = >>=-eq-ok (signature_payload o current) _ h3 in
      (payload, signature, d, ok_or-some current.signatures.previous _ c, h4)

  -- A document that is accepted as an extension of another has the same identifier and a greater
  -- sequence, is accepted by itself, and either keeps the signing key or is signed by the key of the
  -- document that it extends.
  pub verify_document_extends-Extends :
      (previous current : IdentityDocument)
      → verify_document_extends o previous current ≡ ok tt
      → (before : ℕ) × (after : ℕ) × (current.iid ≡ previous.iid)
        × (parse_sequence previous.sequence ≡ ok before)
        × (parse_sequence current.sequence ≡ ok after)
        × (before < after)
        × (verify_document o current ≡ ok tt)
        × ((current.keys.signing.current ≡ previous.keys.signing.current)
            ⊎ IsHandedOver previous current)
  unfolding verify_document_extends
  verify_document_extends-Extends previous current h =
      let (i, h1) = passed (current.iid == previous.iid) "iid mismatch in chain" _ h in
      let (before, p, h2) = >>=-eq-ok (parse_sequence previous.sequence) _ h1 in
      let (after, c, h3) = >>=-eq-ok (parse_sequence current.sequence) _ h2 in
      let (l, h4) = passed (ltb before after) "sequence must increase" _ h3 in
      let (t, v, h5) = >>=-eq-ok (verify_document o current) _ h4 in
      let keys = list_beq_iff current.keys.signing.current previous.keys.signing.current in
      (
        before,
        after,
        (list_beq_iff current.iid previous.iid).0 i,
        p,
        c,
        ltb→lt before after l,
        v,
        elim (Bool-cases (current.keys.signing.current == previous.keys.signing.current)) [
          | inl b ↦ inl (keys.0 b)
          | inr b ↦ inr (
              verify_continuity-IsHandedOver previous current (
                subst
                  (λ same.
                    (if not same then verify_continuity o previous current else ok tt) ≡ ok tt)
                  b h5))
        ],
      )

  -- each document is accepted as an extension of the one before
  abbrev pub IsChain : IdentityDocument → List IdentityDocument → Type 0
  IsChain first [] = Unit
  IsChain first (next ∷ rest) = (verify_document_extends o first next ≡ ok tt) × IsChain next rest

  abbrev pub last : IdentityDocument → List IdentityDocument → IdentityDocument
  last first [] = first
  last first (next ∷ rest) = last next rest

  -- Along a chain of accepted extensions, however long, the identifier stays the same and every
  -- document behind the first has a greater sequence than the first.
  pub IsChain-last :
      (first next : IdentityDocument) (rest : List IdentityDocument)
      → IsChain first (next ∷ rest)
      → (before : ℕ) × (after : ℕ) × ((last next rest).iid ≡ first.iid)
        × (parse_sequence first.sequence ≡ ok before)
        × (parse_sequence (last next rest).sequence ≡ ok after)
        × (before < after)
  IsChain-last first next [] (h, t) =
      let (before, after, i, p, c, l, v, w) = verify_document_extends-Extends first next h in
      (before, after, i, p, c, l)
  IsChain-last first next (more ∷ rest) (h, t) =
      let (before, after, i, p, c, l, v, w) = verify_document_extends-Extends first next h in
      let (mid, end, j, q, r, m) = IsChain-last next more rest t in
      let same : mid ≡ after = ground (arith, q, c) in
      (before, end, j ∙ i, p, r, omega (arith, l, m, same))
