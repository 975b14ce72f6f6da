-- ===== src/Tests/Identities.antt =====
-- Two identities, documents that are made of them, and their handshake.
use post_urbit.Prelude.{
  ℕ, Bytes, Bool, ◌≡◌, ◌+◌, ◌^◌, ◌<◌, ◌≤◌, refl, arith, none, some, Option, List, [], ◌∷◌, ◌++◌,
  ◌==◌, length, list_eq, nat_eq, Result, ok, err, is_ok, All, ascii, map, IsKeyPair, u64, print_u64,
}
use post_urbit.Tests.Toys.{zeros, toy_ed25519, toy_base64, toy-IsBase64}
use post_urbit.Encoding.{base64_encode, validate_crockford_base32_lower}
use post_urbit.CanonicalJson.{Json, null}
use post_urbit.Identity.Documents.{
  Outside, IdentityDocument, sign_idoc, derive_iid, verify_document, verify_document_extends,
  parse_sequence, signature_payload,
}
use post_urbit.Identity.Facts.{IsOutside}
use post_urbit.Identity.Checks.{HasGenesis}
use post_urbit.Identity.Chains.{last, IsChain-last}
use post_urbit.Identity.Manager.{IdentityState, unsigned_genesis, update_claims, rotated}
use post_urbit.Identity.Manager.Signed.{IsOwned, verify-update_claims}
use post_urbit.Identity.Manager.Rotations.{verify-signed_twice, verify-rotated}

-- serde, which here reads every text as the document `stored`
abbrev toy_outside : IdentityDocument → Outside
toy_outside stored = record {
  sha256 = λ m. zeros 32;
  ed25519 = toy_ed25519;
  verifying_key = λ key. zeros 32;
  public_key = λ key. zeros 32;
  hex_encode = λ m. m;
  base64 = toy_base64;
  to_string = λ value. some [];
  to_value = λ document. some null;
  from_slice = λ text. some stored;
}

toy-IsOutside : (stored : IdentityDocument) → IsOutside (toy_outside stored)
toy-IsOutside stored = record {
  engine = toy-IsBase64;
  sha256_long = λ m. refl;
  sha256_bytes = λ m. omega arith;
  signatures_apart = λ document signatures. refl;
}

abbrev key_text : Bytes
key_text = map (λ b. b + 100) (zeros 32)

toy-pair : (key : Bytes) → IsKeyPair toy_ed25519 key (zeros 32)
toy-pair key = record {
  key_long = refl;
  key_good = refl;
  signature_long = λ message. refl;
  accepts = λ message. refl;
}

-- the genesis key is another than the current one
abbrev first_key : Bytes
first_key = 1 ∷ zeros 31

abbrev iid : Bytes
iid = ascii "00000000000000000000000000000000"

abbrev document : Bytes → IdentityDocument
document sequence = record {
  version = 1;
  iid = iid;
  sequence = sequence;
  timestamp = [];
  keys = record {
    signing = record {
      genesis = base64_encode toy_base64 first_key;
      current = base64_encode toy_base64 (zeros 32);
      previous = some (base64_encode toy_base64 (zeros 32));
      history = [];
    };
    encryption = record { current = []; previous = [] };
  };
  endpoints = [];
  claims = record { name = none; avatar = none; bio = none };
  recovery = record { method = ascii "none"; config = null };
  extensions = null;
  recovery_proof = none;
  signatures = record {
    current = base64_encode toy_base64 (zeros 64);
    previous = some (base64_encode toy_base64 (zeros 64));
  };
}

abbrev seventh : IdentityDocument
seventh = document (ascii "7")

abbrev o : Outside
o = toy_outside seventh

document-HasGenesis : (sequence : Bytes) → HasGenesis o first_key (document sequence)
unfolding ascii derive_iid post_urbit.Encoding.crockford_base32_encode
    post_urbit.Mailbox.Urls.to_lower
document-HasGenesis sequence = record {
  genesis_text = refl;
  genesis_long = refl;
  genesis_good = refl;
  iid_derived = refl;
}

abbrev state : IdentityState
state = record {
  document = seventh;
  signing_key = [];
  encryption_key = [];
  signing_key_valid_from = 0;
  encryption_key_valid_from = 0;
}

state-IsOwned : IsOwned o first_key state
state-IsOwned = record {
  from_genesis = document-HasGenesis (ascii "7");
  pair = toy-pair [];
  current_own = refl;
}

seventh_read : parse_sequence (ascii "7") ≡ ok 7
unfolding parse_sequence post_urbit.Prelude.starts_with post_urbit.Prelude.parse_u64
seventh_read = refl

-- what the toy signs is always the text of 64 zeros
abbrev signature : Bytes
signature = base64_encode toy_base64 (zeros 64)

abbrev updated : IdentityDocument
updated = record seventh {
  sequence = print_u64 (u64 8);
  timestamp = ascii "now";
  claims = record { name = some (ascii "Ann"); avatar = none; bio = none };
  signatures = record { current = signature; previous = none };
}

updated_made :
    (update_claims o (some (ascii "Ann")) none none (ascii "now") (ok tt) state).0 ≡ ok updated
unfolding update_claims parse_sequence post_urbit.Prelude.starts_with post_urbit.Prelude.parse_u64
    post_urbit.Identity.Manager.sign_current sign_idoc signature_payload
    post_urbit.CanonicalJson.canonical_json_value
updated_made = refl

verify-update_claims_example :
    is_ok (verify_document o updated)
    ≡ (seventh.keys.signing.current == seventh.keys.signing.genesis)
verify-update_claims_example =
    verify-update_claims o first_key (some (ascii "Ann")) none none (ascii "now") (ok tt) state 7
      updated (toy-IsOutside seventh) state-IsOwned seventh_read (omega arith) updated_made

seventh_signed : sign_idoc o seventh [] ≡ ok signature
unfolding sign_idoc signature_payload post_urbit.CanonicalJson.canonical_json_value
seventh_signed = refl

verify-signed_twice_example : verify_document o seventh ≡ ok tt
verify-signed_twice_example =
    verify-signed_twice o first_key seventh [] (zeros 32) [] (zeros 32) signature signature 7
      (toy-IsOutside seventh) (document-HasGenesis (ascii "7")) (toy-pair []) (toy-pair []) refl
      refl seventh_read seventh_signed seventh_signed

abbrev turned : IdentityDocument
turned = record seventh {
  sequence = print_u64 (u64 8);
  timestamp = ascii "now";
  signatures = record { current = signature; previous = some signature };
}

turned_made : rotated o (5 ∷ []) (ascii "now") state ≡ ok turned
unfolding rotated parse_sequence post_urbit.Prelude.starts_with post_urbit.Prelude.parse_u64
    sign_idoc signature_payload post_urbit.CanonicalJson.canonical_json_value
turned_made = refl

verify-rotated_example : verify_document_extends o seventh turned ≡ ok tt
verify-rotated_example =
    verify-rotated o first_key (5 ∷ []) (ascii "now") state 7 turned (toy-IsOutside seventh)
      state-IsOwned (toy-pair (5 ∷ [])) seventh_read (omega arith) turned_made

IsChain-last_example :
    (before : ℕ) × (after : ℕ) × ((last o turned []).iid ≡ seventh.iid)
    × (parse_sequence seventh.sequence ≡ ok before)
    × (parse_sequence (last o turned []).sequence ≡ ok after)
    × (before < after)
IsChain-last_example = IsChain-last o seventh turned [] (
  verify-rotated o first_key (5 ∷ []) (ascii "now") state 7 turned (toy-IsOutside seventh)
      state-IsOwned (toy-pair (5 ∷ [])) seventh_read (omega arith) turned_made,
  tt,
)
