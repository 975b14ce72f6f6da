-- ===== src/Identity/Fetch.antt =====
-- identity.rs: which document a reader of the distributed hash table takes for an identity. The table
-- is the function `get_all`, which each key is read by once.
pub mod Latest
use post_urbit.Prelude.{
  ℕ, Bytes, Bool, true, false, not, ◌&&◌, ◌||◌, Option, none, some, List, [], ◌∷◌, ◌++◌, ◌==◌,
  nat_eq, list_eq, if◌then◌else◌, ascii, Result, ok, err, is_ok, ◌>>=◌, ◌>>◌, guard, ok_or,
  invalid_input, ltb,
}
use post_urbit.Encoding.{validate_crockford_base32_lower}
use post_urbit.Dht.{dht_key_identity, dht_key_genesis, dht_key_revocation}
use post_urbit.Identity.Documents.{
  Outside, IdentityDocument, parse_sequence, verify_document, verify_genesis_document,
}
use post_urbit.Identity.Envelope.{decode_idoc_envelope}
use post_urbit.Identity.Revocations.{
  Formats, RevocationDocument, key_revocation, identity_revocation, parse_rfc3339,
  verify_key_revocation, verify_identity_revocation,
}

-- the best document so far: `best_seq`, `best_raw` and `best`
pub record Best : Type 0 where
  pub best_seq : ℕ
  pub best_raw : Bytes
  pub best : IdentityDocument

abbrev pub best_of : Bytes → IdentityDocument × ℕ → Best
best_of value (doc, seq) = record { best_seq = seq; best_raw = value; best = doc }

abbrev pub fits_genesis : Option IdentityDocument → IdentityDocument → Bool
fits_genesis none doc = true
fits_genesis (some genesis) doc = doc.keys.signing.genesis == genesis.keys.signing.current

-- the comparison at the end of the loop's body
unfoldable pub compare_best : Bytes → IdentityDocument × ℕ → Option Best → Result (Option Best)
compare_best value found none = ok (some (best_of value found))
compare_best value found (some best) =
    if ltb best.best_seq found.1
    then ok (some (best_of value found))
    else if found.1 == best.best_seq && not (best.best_raw == value)
    then err (invalid_input "identity conflict at same sequence")
    else ok (some best)

module _ (o : Outside) where
  -- `find_map` over the values under the genesis key
  unfoldable pub verified_genesis : Bytes → List Bytes → Option IdentityDocument
  verified_genesis iid [] = none
  verified_genesis iid (value ∷ values) =
      let rest = verified_genesis iid values in
      elim (decode_idoc_envelope o value) [
        | err e ↦ rest
        | ok doc ↦ if is_ok (verify_genesis_document o doc iid) then some doc else rest
      ]

  -- the tests before a value is compared with the best: its document and its sequence
  unfoldable pub candidate : Option IdentityDocument → Bytes → Result (IdentityDocument × ℕ)
  candidate genesis value = do
    doc ← decode_idoc_envelope o value
    verify_document o doc
    guard (fits_genesis genesis doc) (invalid_input "hijack")
    seq ← parse_sequence doc.sequence
    ok (doc, seq)

  abbrev one_value : Option IdentityDocument → Bytes → Option Best → Result (Option Best)
  one_value genesis value best = elim (candidate genesis value) [
    | err e ↦ ok best
    | ok found ↦ compare_best value found best
  ]

  unfoldable pub choose_best :
      Option IdentityDocument → List Bytes → Option Best → Result (Option Best)
  choose_best genesis [] best = ok best
  choose_best genesis (value ∷ values) best =
      one_value genesis value best >>= λ more. choose_best genesis values more

-- what the chosen revocation makes of the best document
unfoldable pub apply_revocation :
    IdentityDocument → Option (ℕ × RevocationDocument) → Result (Option IdentityDocument)
apply_revocation best none = ok (some best)
apply_revocation best (some (ts, identity_revocation doc)) = err (invalid_input "identity revoked")
apply_revocation best (some (ts, key_revocation doc)) = ok (some doc.replacement_document)

module _ (o : Outside) (f : Formats) where
  unfoldable pub fetch_revocations : List Bytes → List RevocationDocument
  fetch_revocations [] = []
  fetch_revocations (value ∷ values) =
      let rest = fetch_revocations values in
      elim (f.read_revocation value) [ none ↦ rest | some doc ↦ doc ∷ rest ]

  -- a revocation that holds, with its time
  unfoldable pub effective : Bytes → RevocationDocument → Result ℕ
  effective signing_key (key_revocation doc) =
      verify_key_revocation o f doc >> parse_rfc3339 o f doc.effective_at
  effective signing_key (identity_revocation doc) =
      verify_identity_revocation o f doc signing_key >> parse_rfc3339 o f doc.effective_at

  -- the earliest of the revocations that hold
  unfoldable pub choose_revocation :
      Bytes
      → List RevocationDocument
      → Option (ℕ × RevocationDocument)
      → Option (ℕ × RevocationDocument)
  choose_revocation signing_key [] chosen = chosen
  choose_revocation signing_key (revocation ∷ revocations) chosen =
      choose_revocation signing_key revocations (elim (effective signing_key revocation) [
        | err e ↦ chosen
        | ok effective_at ↦ elim chosen [
          | none ↦ some (effective_at, revocation)
          | some (current, held) ↦
              if ltb effective_at current
              then some (effective_at, revocation)
              else some (current, held)
        ]
      ])

  module _ (get_all : Bytes → Result (List Bytes)) where
    -- the end of `fetch_identity`
    unfoldable pub with_revocations : Bytes → Option Best → Result (Option IdentityDocument)
    with_revocations iid none = ok none
    with_revocations iid (some best) = do
      values ← get_all (dht_key_revocation o.sha256 iid)
      apply_revocation best.best
          (choose_revocation best.best.keys.signing.current (fetch_revocations values) none)

    -- what follows where there are values under the identity's key
    unfoldable pub choose_identity : Bytes → List Bytes → Result (Option IdentityDocument)
    choose_identity iid values = do
      genesis_values ← get_all (dht_key_genesis o.sha256 iid)
      best ← choose_best o (verified_genesis o iid genesis_values) values none
      with_revocations iid best

    unfoldable pub fetch_identity : Bytes → Result (Option IdentityDocument)
    fetch_identity iid = do
      validate_crockford_base32_lower iid
      values ← get_all (dht_key_identity o.sha256 iid)
      elim values [ [] ↦ ok none | value ∷ rest ↦ choose_identity iid (value ∷ rest) ]
