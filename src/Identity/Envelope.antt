-- ===== src/Identity/Envelope.antt =====
-- identity.rs: the bytes of a document, and the limits on its fields.
use post_urbit.Prelude.{
  ℕ, zero, suc, Bytes, Bool, true, false, not, ◌&&◌, ◌||◌, ◌+◌, ◌^◌, ◌≤◌, ◌<◌, ◌≡◌, refl, sym, ap,
  ◌∙◌, subst, arith, Option, none, some, List, [], ◌∷◌, ◌++◌, append_assoc, ◌==◌, nat_eq, list_eq,
  if◌then◌else◌, length, take, drop, get_or, slice, ascii, Result, ok, err, ◌>>=◌, ◌>>◌, guard,
  ok_or, invalid_input, ltb, leb, to_be_bytes, from_be_bytes, passed, leb→le, le→leb, length-append,
  length-to_be_bytes, from-to_be_bytes4, slice_at, take_exact, drop_exact, >>=-eq-ok, ok_or-some,
  lt→ltb, is_some, list_beq_iff, ==_refl,
}
use post_urbit.CanonicalJson.{canonical_json_from, get, as_array, as_u64, array_length, Json}
use post_urbit.Identity.Documents.{Outside, IdentityDocument, Recovery}

-- `chars().count()`: a byte 0b10xxxxxx continues a character
unfoldable pub chars_count : Bytes → ℕ
chars_count [] = 0
chars_count (b ∷ text) =
    let rest = chars_count text in if leb 128 b && ltb b 192 then rest else rest + 1

-- `as_ref().map_or(..)`: a limit on a text that may be left out
abbrev fits : Option Bytes → ℕ → Bool
fits none limit = true
fits (some text) limit = leb (chars_count text) limit

-- `and_then` on what the configuration may have under a key
abbrev pub field : {A : Type 0} → Bytes → (Json → Option A) → Json → Option A
field key read config = elim (get key config) [ none ↦ none | some value ↦ read value ]

abbrev in_range : Option ℕ → Bool
in_range none = true
in_range (some cooldown) = leb 24 cooldown && leb cooldown 720

unfoldable pub validate_recovery_config : Recovery → Result (Unit {0})
unfolding ascii
validate_recovery_config recovery =
    if recovery.method == ascii "social"
    then (ok_or (field (ascii "trustees") as_array recovery.config)
          (invalid_input "social recovery requires trustees")
        >>= λ trustees.
            ok_or (field (ascii "threshold") as_u64 recovery.config)
              (invalid_input "social recovery requires threshold")
            >>= λ threshold.
                guard (leb 2 threshold) (invalid_input "social recovery threshold must be >= 2")
                >> (guard (leb threshold (array_length trustees))
                      (invalid_input "social recovery needs more trustees than threshold")
                    >> guard (in_range (field (ascii "cooldown_hours") as_u64 recovery.config))
                        (invalid_input "social recovery cooldown out of range")))
    else ok tt

unfoldable pub validate_idoc_constraints : IdentityDocument → Result (Unit {0})
validate_idoc_constraints doc = do
  guard (leb (length doc.endpoints) 10) (invalid_input "idoc too many endpoints")
  guard (leb (length doc.keys.signing.history) 10) (invalid_input "idoc signing history too large")
  guard (leb (length doc.keys.encryption.previous) 5)
      (invalid_input "idoc encryption history too large")
  guard (fits doc.claims.name 64) (invalid_input "idoc name too long")
  guard (fits doc.claims.bio 256) (invalid_input "idoc bio too long")
  validate_recovery_config doc.recovery

module _ (o : Outside) where
  unfoldable pub encode_idoc_envelope : IdentityDocument → Result Bytes
  unfolding ascii
  encode_idoc_envelope document = do
    payload ← canonical_json_from o.to_string (o.to_value document)
    guard (ltb (length payload) (2 ^ 32)) (invalid_input "idoc length")
    ok (ascii "IDOC" ++ (1 ∷ (to_be_bytes 4 (length payload) ++ payload)))

  unfoldable pub decode_idoc_envelope : Bytes → Result IdentityDocument
  unfolding ascii
  decode_idoc_envelope bytes = do
    guard (leb (length bytes) 16384) (invalid_input "idoc too large")
    guard (leb 9 (length bytes)) (invalid_input "idoc envelope too short")
    guard (take 4 bytes == ascii "IDOC") (invalid_input "idoc magic")
    guard (get_or bytes 4 0 == 1) (invalid_input "idoc version")
    guard (length bytes == 9 + from_be_bytes (slice 5 4 bytes))
        (invalid_input "idoc length mismatch")
    doc ← ok_or (o.from_slice (drop 9 bytes)) (invalid_input "idoc json")
    validate_idoc_constraints doc
    ok doc

  -- the bytes of an envelope around a payload
  abbrev envelope : Bytes → Bytes
  envelope payload = b'I' ∷ b'D' ∷ b'O' ∷ b'C' ∷ 1 ∷ (to_be_bytes 4 (length payload) ++ payload)

  length-envelope : (payload : Bytes) → length (envelope payload) ≡ 9 + length payload
  length-envelope payload =
      let n = length payload in
      omega (arith, length-append (to_be_bytes 4 n) payload, length-to_be_bytes 4 n)

  decode-envelope :
      (payload : Bytes) (doc : IdentityDocument)
      → length payload ≤ 16375
      → o.from_slice payload ≡ some doc
      → validate_idoc_constraints doc ≡ ok tt
      → decode_idoc_envelope (envelope payload) ≡ ok doc
  unfolding decode_idoc_envelope ascii post_urbit.Prelude.list_beq
  decode-envelope payload doc l r v =
      let n = length payload in
      let long = length-envelope payload in
      rw
        (
          take_exact 4 (to_be_bytes 4 n) payload (length-to_be_bytes 4 n),
          drop_exact 4 (to_be_bytes 4 n) payload (length-to_be_bytes 4 n),
          from-to_be_bytes4 n (omega arith),
          long,
          le→leb (9 + n) 16384 (omega arith),
          le→leb 9 (9 + n) (omega arith),
          ==_refl (9 + n),
          r,
          v,
        )
        refl

  -- what `encode_idoc_envelope` writes for a document is read as the same document by serde
  abbrev pub IsReadable : IdentityDocument → Type 0
  IsReadable doc =
      (payload : Bytes)
      → canonical_json_from o.to_string (o.to_value doc) ≡ ok payload
      → o.from_slice payload ≡ some doc

  -- The envelope of a document that keeps to the limits on its fields is decoded to the document,
  -- unless it has more than 16 KiB.
  pub decode-encode_idoc_envelope :
      (doc : IdentityDocument) (bytes : Bytes)
      → IsReadable doc
      → validate_idoc_constraints doc ≡ ok tt
      → encode_idoc_envelope doc ≡ ok bytes
      → length bytes ≤ 16384
      → decode_idoc_envelope bytes ≡ ok doc
  unfolding encode_idoc_envelope ascii
  decode-encode_idoc_envelope doc bytes r v e l =
      let (payload, p, e1) = >>=-eq-ok (canonical_json_from o.to_string (o.to_value doc)) _ e in
      let (small, e2) = passed (ltb (length payload) (2 ^ 32)) "idoc length" _ e1 in
      let same : envelope payload ≡ bytes = ground (arith, e2) in
      let fits : length payload ≤ 16375 =
        omega (arith, ap length same, length-envelope payload, l) in
      subst (λ x. decode_idoc_envelope x ≡ ok doc) same
        (decode-envelope payload doc fits (r payload p) v)
