-- ===== src/Identity/Manager/Signed.antt =====
-- identity.rs: whether the documents that a manager makes are accepted by its peers.
use post_urbit.Prelude.{
  ℕ, Bytes, Bool, true, false, not, ◌+◌, ◌^◌, ◌<◌, ◌≤◌, ◌≡◌, ◌≢◌, refl, sym, ap, ◌∙◌, subst, arith,
  Option, none, some, ◌==◌, nat_eq, list_eq, if◌then◌else◌, length, Result, ok, err, is_ok,
  and_then, ◌>>=◌, ◌>>◌, guard, IsKeyPair, list_beq_iff, ==_refl, ltb, >>=-eq-ok, Bool-cases, inl,
  inr, u64, print_u64, parse-print_u64, print_u64-Leads, starts-first, ascii, list_beq,
  Result-cases, passed, lt→ltb, invalid_input, starts_with, ok_or, [], ◌∷◌, ◌&&◌,
}
use post_urbit.Encoding.{base64_encode, base64_decode, base64_decode-encode}
use post_urbit.Identity.Documents.{
  Outside, IdentityDocument, sign_idoc, derive_iid, verify_document, verify_genesis_document,
  parse_sequence,
}
use post_urbit.Identity.Facts.{IsOutside}
use post_urbit.Identity.Checks.{
  HasGenesis, verify_document-Passes, sign_idoc-parts, signed-Passes, verify_rotation-unrotated,
  verify_rotation-missing,
}
use post_urbit.Identity.Manager.{
  IdentityState, unsigned_genesis, create_genesis_document, sign_current, update_claims,
}

-- the next sequence is read as the number that it is
pub parse_sequence-print : (n : ℕ) → 0 < n → n < 2 ^ 64 → parse_sequence (print_u64 n) ≡ ok n
unfolding parse_sequence
parse_sequence-print n h k =
    let (c, rest, p, q, r) = print_u64-Leads n h k in
    rw (ap (λ t. starts_with t (b'0' ∷ [])) p ∙ starts-first c rest q, parse-print_u64 n h k) refl

module _ (o : Outside) where
  -- the state of a manager whose key is that of its document
  pub record IsOwned (genesis : Bytes) (s : IdentityState) : Type 0 where
    pub from_genesis : HasGenesis o genesis s.document
    pub pair : IsKeyPair o.ed25519 s.signing_key (o.verifying_key s.signing_key)
    pub current_own :
        s.document.keys.signing.current ≡ base64_encode o.base64 (o.verifying_key s.signing_key)

  genesis-verifies :
      (genesis : Bytes) (d : IdentityDocument)
      → IsOutside o
      → HasGenesis o genesis d
      → d.sequence ≡ ascii "0"
      → d.keys.signing.genesis ≡ d.keys.signing.current
      → verify_document o d ≡ ok tt
      → verify_genesis_document o d d.iid ≡ ok tt
  unfolding verify_genesis_document
  genesis-verifies genesis d h k q c v =
      let at_zero : (d.sequence == ascii "0") ≡ true = (list_beq_iff d.sequence (ascii "0")).1 q in
      let unrotated : (d.keys.signing.genesis == d.keys.signing.current) ≡ true =
        (list_beq_iff d.keys.signing.genesis d.keys.signing.current).1 c in
      let read : base64_decode o.base64 d.keys.signing.genesis ≡ ok genesis =
        ap (base64_decode o.base64) k.genesis_text
        ∙ base64_decode-encode o.base64 h.engine genesis in
      let derived : (derive_iid o genesis == d.iid) ≡ true =
        (list_beq_iff (derive_iid o genesis) d.iid).1 k.iid_derived in
      rw (==_refl d.iid, at_zero, unrotated, read, k.genesis_long, k.genesis_good, derived) v

  -- a document that is signed by its own key, which is the genesis key
  unrotated-verifies :
      (genesis : Bytes) (d : IdentityDocument) (signing_key verifying_key signature : Bytes)
      (sequence : ℕ) (previous : Option Bytes)
      → IsOutside o
      → HasGenesis o genesis d
      → IsKeyPair o.ed25519 signing_key verifying_key
      → d.keys.signing.current ≡ base64_encode o.base64 verifying_key
      → d.keys.signing.current ≡ d.keys.signing.genesis
      → parse_sequence d.sequence ≡ ok sequence
      → sign_idoc o d signing_key ≡ ok signature
      → verify_document o
          (record d { signatures = record { current = signature; previous = previous } })
        ≡ ok tt
  unrotated-verifies genesis d signing_key verifying_key signature sequence previous h k pair c g q
        e =
      let (payload, p, r) = sign_idoc-parts o d signing_key signature e in
      let after : IdentityDocument = record d {
        signatures = record { current = signature; previous = previous };
      } in
      verify_document-Passes o after verifying_key payload sequence (
        signed-Passes o genesis d signing_key verifying_key payload sequence signature previous h k
          pair c p r q)
      ∙ verify_rotation-unrotated o after payload sequence g

  created-HasGenesis :
      (signing_key encryption_key now : Bytes)
      → IsKeyPair o.ed25519 signing_key (o.verifying_key signing_key)
      → HasGenesis o
          (o.verifying_key signing_key)
          (unsigned_genesis o signing_key encryption_key now)
  unfolding unsigned_genesis
  created-HasGenesis signing_key encryption_key now pair = record {
    genesis_text = refl;
    genesis_long = pair.key_long;
    genesis_good = pair.key_good;
    iid_derived = refl;
  }

  zero_read : parse_sequence (ascii "0") ≡ ok 0
  unfolding parse_sequence post_urbit.Prelude.parse_u64 post_urbit.Prelude.parse_digits ascii
      starts_with list_beq
  zero_read = refl

  -- An identity that is created is accepted as a genesis document for its own identifier.
  pub verify-create_genesis_document :
      (signing_key encryption_key now : Bytes) (written : Result (Unit {0})) (d : IdentityDocument)
      → IsOutside o
      → IsKeyPair o.ed25519 signing_key (o.verifying_key signing_key)
      → create_genesis_document o signing_key encryption_key now written ≡ ok d
      → verify_genesis_document o d d.iid ≡ ok tt
  unfolding create_genesis_document
  verify-create_genesis_document signing_key encryption_key now written d h pair e =
      let start = unsigned_genesis o signing_key encryption_key now in
      let (signature, a, e1) = >>=-eq-ok (sign_idoc o start signing_key) _ e in
      let (t, b, e2) = >>=-eq-ok written _ e1 in
      let signed : IdentityDocument = record start {
        signatures = record { current = signature; previous = none };
      } in
      let same : signed ≡ d = ground (arith, e2) in
      let key = o.verifying_key signing_key in
      let origin = created-HasGenesis signing_key encryption_key now pair in
      subst (λ x. verify_genesis_document o x x.iid ≡ ok tt) same
        (unfold unsigned_genesis in
          genesis-verifies key signed h
            (record {
              genesis_text = origin.genesis_text;
              genesis_long = origin.genesis_long;
              genesis_good = origin.genesis_good;
              iid_derived = origin.iid_derived;
            })
            refl refl
            (unrotated-verifies key start signing_key key signature 0 none h origin pair refl refl
              zero_read a))

  missing-refused :
      (genesis : Bytes) (d : IdentityDocument) (signing_key verifying_key signature : Bytes)
      (sequence : ℕ)
      → IsOutside o
      → HasGenesis o genesis d
      → IsKeyPair o.ed25519 signing_key verifying_key
      → d.keys.signing.current ≡ base64_encode o.base64 verifying_key
      → d.keys.signing.current ≢ d.keys.signing.genesis
      → parse_sequence d.sequence ≡ ok sequence
      → 0 < sequence
      → sign_idoc o d signing_key ≡ ok signature
      → verify_document o
          (record d { signatures = record { current = signature; previous = none } })
        ≡ err (invalid_input "key rotation requires previous signature")
  missing-refused genesis d signing_key verifying_key signature sequence h k pair c g q n e =
      let (payload, p, r) = sign_idoc-parts o d signing_key signature e in
      let after : IdentityDocument = record d {
        signatures = record { current = signature; previous = none };
      } in
      verify_document-Passes o after verifying_key payload sequence (
        signed-Passes o genesis d signing_key verifying_key payload sequence signature none h k pair
          c p r q)
      ∙ verify_rotation-missing o after payload sequence n g refl

  -- what `sign_current` makes is accepted exactly if its key is the genesis key
  verify-sign_current :
      (genesis : Bytes) (next : IdentityDocument) (signing_key verifying_key : Bytes) (sequence : ℕ)
      (d : IdentityDocument)
      → IsOutside o
      → HasGenesis o genesis next
      → IsKeyPair o.ed25519 signing_key verifying_key
      → next.keys.signing.current ≡ base64_encode o.base64 verifying_key
      → parse_sequence next.sequence ≡ ok sequence
      → 0 < sequence
      → sign_current o next signing_key ≡ ok d
      → is_ok (verify_document o d) ≡ (next.keys.signing.current == next.keys.signing.genesis)
  unfolding sign_current
  verify-sign_current genesis next signing_key verifying_key sequence d h k pair c q n e =
      let (signature, f, e1) = >>=-eq-ok (sign_idoc o next signing_key) _ e in
      let signed : IdentityDocument = record next {
        signatures = record { current = signature; previous = none };
      } in
      let same : signed ≡ d = ground (arith, e1) in
      let keys = list_beq_iff next.keys.signing.current next.keys.signing.genesis in
      let result : is_ok (verify_document o signed)
          ≡ (next.keys.signing.current == next.keys.signing.genesis) =
        elim (Bool-cases (next.keys.signing.current == next.keys.signing.genesis)) [
          | inl b ↦
              ap is_ok (
                unrotated-verifies genesis next signing_key verifying_key signature sequence none h
                  k pair c (keys.0 b) q f)
              ∙ sym b
          | inr b ↦
              ap is_ok (
                missing-refused genesis next signing_key verifying_key signature sequence h k pair c
                  (λ x. ground (arith, b, keys.1 x)) q n f)
              ∙ sym b
        ] in
      subst
        (λ x.
          is_ok (verify_document o x) ≡ (next.keys.signing.current == next.keys.signing.genesis))
        same result

kept :
    (signed : Result IdentityDocument) (written : Result (Unit {0})) (s : IdentityState)
    (next : IdentityDocument → IdentityState → IdentityState) (d : IdentityDocument)
    → (and_then (signed, s) (λ document t. (written >> ok document, next document t))).0 ≡ ok d
    → signed ≡ ok d
kept (err x) written s next d e = cc
kept (ok c) (err x) s next d e = cc
kept (ok c) (ok t) s next d e = e

pub next_parsed :
    (sequence : ℕ)
    → sequence + 1 < 2 ^ 64
    → parse_sequence (print_u64 (u64 (sequence + 1))) ≡ ok (sequence + 1)
next_parsed sequence n =
    let same : u64 (sequence + 1) ≡ sequence + 1 = omega arith in
    rw same (parse_sequence-print (sequence + 1) (omega arith) n)

-- Claims that the owner of an identity changes are accepted by peers exactly if the key is the
-- genesis key: after a rotation of the key the document that the manager returns is refused.
pub verify-update_claims :
    (o : Outside) (genesis : Bytes) (name avatar bio : Option Bytes) (now : Bytes)
    (written : Result (Unit {0})) (s : IdentityState) (sequence : ℕ) (d : IdentityDocument)
    → IsOutside o
    → IsOwned o genesis s
    → parse_sequence s.document.sequence ≡ ok sequence
    → sequence + 1 < 2 ^ 64
    → (update_claims o name avatar bio now written s).0 ≡ ok d
    → is_ok (verify_document o d)
      ≡ (s.document.keys.signing.current == s.document.keys.signing.genesis)
unfolding update_claims
verify-update_claims o genesis name avatar bio now written s sequence d h own q n e =
    let next : IdentityDocument = record s.document {
      sequence = print_u64 (u64 (sequence + 1));
      timestamp = now;
      claims = record { name = name; avatar = avatar; bio = bio };
    } in
    let signed = kept _ written s (λ document t. record t { document = document }) d e in
    let (read, f, g) = >>=-eq-ok (parse_sequence s.document.sequence) _ signed in
    let same : read ≡ sequence = ground (arith, f, q) in
    verify-sign_current o genesis next s.signing_key (o.verifying_key s.signing_key) (sequence + 1)
      d h
      (record {
        genesis_text = own.from_genesis.genesis_text;
        genesis_long = own.from_genesis.genesis_long;
        genesis_good = own.from_genesis.genesis_good;
        iid_derived = own.from_genesis.iid_derived;
      })
      own.pair own.current_own (next_parsed sequence n) (omega arith)
      (subst
        (λ m.
          sign_current o
            (record s.document {
              sequence = print_u64 (u64 (m + 1));
              timestamp = now;
              claims = record { name = name; avatar = avatar; bio = bio };
            })
            s.signing_key
          ≡ ok d)
        same g)
