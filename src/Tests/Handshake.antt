-- ===== src/Tests/Handshake.antt =====
-- Two identities with keys of their own, a table that holds their documents, and their handshake.
use post_urbit.Prelude.{
  ℕ, Bytes, Bool, ◌≡◌, ◌≤◌, subst, refl, arith, none, some, Option, List, [], ◌∷◌, ◌++◌, ◌==◌,
  length, list_eq, nat_eq, Result, ok, err, All, ascii, if◌then◌else◌, IsKeyPair,
}
use post_urbit.Tests.Toys.{zeros, toy_ed25519, toy_base64, toy-IsBase64}
use post_urbit.Encoding.{base64_encode, crockford_base32_decode, validate_crockford_base32_lower}
use post_urbit.CanonicalJson.{Json, null, string, object, empty}
use post_urbit.Dht.{dht_key_identity, dht_key_genesis, dht_key_revocation}
use post_urbit.Identity.Documents.{Outside, IdentityDocument, verify_document, parse_sequence}
use post_urbit.Identity.Envelope.{
  encode_idoc_envelope, decode_idoc_envelope, validate_idoc_constraints, IsReadable,
  decode-encode_idoc_envelope,
}
use post_urbit.Identity.Revocations.{Formats}
use post_urbit.Identity.Fetch.{Best, candidate, verified_genesis, fetch_identity}
use post_urbit.Identity.Fetch.Latest.{IsBelow, IsFound, fetch_identity-latest, fetch_identity-other}
use post_urbit.Identity.Manager.{IdentityState}
use post_urbit.Transport.Handshake.{HandshakeMessage, client_hello}
use post_urbit.Transport.Challenge.{validate_handshake_timestamp_with_now}
use post_urbit.Transport.Session.{
  HandshakeResult, Exchange, client_start, server_answer, client_answer, server_finish,
  client_finish,
}
use post_urbit.Transport.Session.Agreement.{IsParty, handshake_agrees}

abbrev ann_key : Bytes
ann_key = zeros 32

abbrev ben_key : Bytes
ben_key = 1 ∷ zeros 31

abbrev ann_iid : Bytes
ann_iid = ascii "00000000000000000000000000000000"

abbrev ben_iid : Bytes
ben_iid = ascii "04000000000000000000000000000000"

abbrev genesis_document : Bytes → Bytes → IdentityDocument
genesis_document iid key = record {
  version = 1;
  iid = iid;
  sequence = ascii "0";
  timestamp = [];
  keys = record {
    signing = record {
      genesis = base64_encode toy_base64 key;
      current = base64_encode toy_base64 key;
      previous = none;
      history = [];
    };
    encryption = record { current = []; previous = [] };
  };
  endpoints = [];
  claims = record { name = none; avatar = none; bio = none };
  recovery = record { method = ascii "none"; config = object empty };
  extensions = object empty;
  recovery_proof = none;
  signatures = record { current = base64_encode toy_base64 (zeros 64); previous = none };
}

abbrev ann : IdentityDocument
ann = genesis_document ann_iid ann_key

abbrev ben : IdentityDocument
ben = genesis_document ben_iid ben_key

-- a document is written as its identifier, and the digest of a text is the text
abbrev o : Outside
o = record {
  sha256 = λ m. m;
  ed25519 = toy_ed25519;
  verifying_key = λ key. elim key [ [] ↦ ann_key | c ∷ cs ↦ ben_key ];
  public_key = λ key. key;
  hex_encode = λ m. m;
  base64 = toy_base64;
  to_string = λ value. elim value [ string text ↦ some text | other ↦ none ];
  to_value = λ document. some (string document.iid);
  from_slice = λ text. if text == ann_iid then some ann else some ben;
}

ben_written : encode_idoc_envelope o ben ≡ ok (ascii "IDOC" ++ (1 ∷ 0 ∷ 0 ∷ 0 ∷ 32 ∷ ben_iid))
unfolding encode_idoc_envelope post_urbit.CanonicalJson.canonical_json_from
    post_urbit.CanonicalJson.canonical_json_value post_urbit.Prelude.to_be_bytes
ben_written = refl

ben-IsReadable : IsReadable o ben
unfolding post_urbit.CanonicalJson.canonical_json_from post_urbit.CanonicalJson.canonical_json_value
    post_urbit.CanonicalJson.normalize_value ascii post_urbit.Prelude.list_beq
ben-IsReadable payload h =
    let same : ben_iid ≡ payload = cc in subst (λ text. o.from_slice text ≡ some ben) same refl

ben_fits : validate_idoc_constraints ben ≡ ok tt
unfolding validate_idoc_constraints post_urbit.Identity.Envelope.validate_recovery_config
    post_urbit.Prelude.list_beq
ben_fits = refl

abbrev ben_bytes : Bytes
ben_bytes = ascii "IDOC" ++ (1 ∷ 0 ∷ 0 ∷ 0 ∷ 32 ∷ ben_iid)

decode-encode_idoc_envelope_example : decode_idoc_envelope o ben_bytes ≡ ok ben
unfolding ascii
decode-encode_idoc_envelope_example =
    decode-encode_idoc_envelope o ben ben_bytes ben-IsReadable ben_fits ben_written (omega arith)

-- the table gives the document of Ben for every identity
abbrev table : Bytes → Result (List Bytes)
table key = if key == dht_key_identity (λ m. m) ann_iid then ok (ben_bytes ∷ []) else ok []

abbrev formats : Formats
formats = record {
  key_revocation_value = λ x. none;
  identity_revocation_value = λ x. none;
  device_revocation_value = λ x. none;
  device_document_value = λ x. none;
  device_index_value = λ x. none;
  attestation_value = λ x. none;
  read_revocation = λ x. none;
  read_device_document = λ x. none;
  read_device_revocation = λ x. none;
  parse_time = λ x. none;
}

ann_valid : validate_crockford_base32_lower ann_iid ≡ ok tt
unfolding validate_crockford_base32_lower ascii
ann_valid = refl

values_of : table (dht_key_identity o.sha256 ann_iid) ≡ ok (ben_bytes ∷ [])
unfolding post_urbit.Prelude.list_beq dht_key_identity
values_of = refl

genesis_of : table (dht_key_genesis o.sha256 ann_iid) ≡ ok []
unfolding post_urbit.Prelude.list_beq dht_key_genesis dht_key_identity
genesis_of = refl

revocations_of : table (dht_key_revocation o.sha256 ann_iid) ≡ ok []
unfolding post_urbit.Prelude.list_beq dht_key_revocation dht_key_identity
revocations_of = refl

ben_verified : verify_document o ben ≡ ok tt
unfolding verify_document post_urbit.Identity.Documents.verify_genesis_key
    post_urbit.Identity.Documents.signature_payload post_urbit.CanonicalJson.canonical_json_value
    post_urbit.CanonicalJson.without post_urbit.Identity.Documents.verify_current parse_sequence
    post_urbit.Encoding.valid_char post_urbit.Encoding.validate_loop validate_crockford_base32_lower
    post_urbit.Identity.Documents.verify_rotation post_urbit.Prelude.parse_digits
    post_urbit.Prelude.parse_u64 post_urbit.Encoding.base64_decode post_urbit.Prelude.contains
    post_urbit.Identity.Documents.derive_iid post_urbit.Encoding.crockford_base32_encode
    post_urbit.Mailbox.Urls.to_lower post_urbit.Prelude.list_beq ascii
    post_urbit.Prelude.starts_with post_urbit.CanonicalJson.normalize_value base64_encode
ben_verified = refl

ben_first : parse_sequence ben.sequence ≡ ok 0
unfolding parse_sequence post_urbit.Prelude.starts_with post_urbit.Prelude.list_beq
    post_urbit.Prelude.parse_u64
ben_first = refl

fetch_identity-other_example : fetch_identity o formats table ann_iid ≡ ok (some ben)
fetch_identity-other_example =
    fetch_identity-other o formats table ann_iid ben_bytes ben 0 ann_valid values_of genesis_of
      revocations_of decode-encode_idoc_envelope_example ben_verified ben_first

fetch_identity-latest_example :
    (b : Best) × (b.best ≡ ben)
    × IsFound o (verified_genesis o ann_iid []) (ben_bytes ∷ []) b
    × (verify_document o ben ≡ ok tt)
    × All
        (λ value. IsBelow b.best_seq (candidate o (verified_genesis o ann_iid []) value))
        (ben_bytes ∷ [])
fetch_identity-latest_example =
    fetch_identity-latest o formats table ann_iid (ben_bytes ∷ []) [] ben values_of genesis_of
      revocations_of fetch_identity-other_example

abbrev state_of : IdentityDocument → Bytes → IdentityState
state_of document signing_key = record {
  document = document;
  signing_key = signing_key;
  encryption_key = [];
  signing_key_valid_from = 0;
  encryption_key_valid_from = 0;
}

abbrev ann_state : IdentityState
ann_state = state_of ann []

abbrev ben_state : IdentityState
ben_state = state_of ben (7 ∷ [])

ann_verified : verify_document o ann ≡ ok tt
unfolding verify_document post_urbit.Identity.Documents.verify_genesis_key
    post_urbit.Identity.Documents.signature_payload post_urbit.CanonicalJson.canonical_json_value
    post_urbit.CanonicalJson.without post_urbit.Identity.Documents.verify_current parse_sequence
    post_urbit.Encoding.valid_char post_urbit.Encoding.validate_loop validate_crockford_base32_lower
    post_urbit.Identity.Documents.verify_rotation post_urbit.Prelude.parse_digits
    post_urbit.Prelude.parse_u64 post_urbit.Encoding.base64_decode post_urbit.Prelude.contains
    post_urbit.Identity.Documents.derive_iid post_urbit.Encoding.crockford_base32_encode
    post_urbit.Mailbox.Urls.to_lower post_urbit.Prelude.list_beq ascii
    post_urbit.Prelude.starts_with post_urbit.CanonicalJson.normalize_value base64_encode
ann_verified = refl

ann_decoded : crockford_base32_decode ann_iid ≡ ok (zeros 20)
unfolding crockford_base32_decode ascii
ann_decoded = refl

ben_decoded : crockford_base32_decode ben_iid ≡ ok (1 ∷ zeros 19)
unfolding crockford_base32_decode ascii
ben_decoded = refl

ben_valid : validate_crockford_base32_lower ben_iid ≡ ok tt
unfolding validate_crockford_base32_lower ascii
ben_valid = refl

ann_read : o.from_slice ann_iid ≡ some ann
unfolding post_urbit.Prelude.list_beq ascii
ann_read = refl

ben_read : o.from_slice ben_iid ≡ some ben
unfolding post_urbit.Prelude.list_beq ascii
ben_read = refl

ann-IsParty : IsParty o ann_state (zeros 20) (string ann_iid) ann_iid
unfolding base64_encode
ann-IsParty = record {
  pair = record {
    key_long = refl;
    key_good = refl;
    signature_long = λ message. refl;
    accepts = λ message. refl;
  };
  current_own = refl;
  verified = ann_verified;
  iid = record { valid = ann_valid; decoded = ann_decoded; long = refl };
  written = refl;
  printed = refl;
  read = ann_read;
}

ben-IsParty : IsParty o ben_state (1 ∷ zeros 19) (string ben_iid) ben_iid
unfolding base64_encode
ben-IsParty = record {
  pair = record {
    key_long = refl;
    key_good = refl;
    signature_long = λ message. refl;
    accepts = λ message. refl;
  };
  current_own = refl;
  verified = ben_verified;
  iid = record { valid = ben_valid; decoded = ben_decoded; long = refl };
  written = refl;
  printed = refl;
  read = ben_read;
}

-- the clock reads every time as the first second
abbrev clock : Bytes → Option ℕ
clock text = some 1000000000

timely : validate_handshake_timestamp_with_now clock (b'Z' ∷ []) 2000000000 ≡ ok tt
unfolding validate_handshake_timestamp_with_now
    post_urbit.Transport.Challenge.validate_timestamp_canonical post_urbit.Prelude.contains
    post_urbit.Prelude.ends_with_byte
timely = refl

abbrev ann_knows : HandshakeResult
ann_knows = record { peer_iid = ben_iid; peer_did = none; peer_identity_document = ben }

abbrev ben_knows : HandshakeResult
ben_knows = record { peer_iid = ann_iid; peer_did = none; peer_identity_document = ann }

handshake_agrees_example :
    (x : Exchange) × (reply proof done : HandshakeMessage Json) × (server_answer o clock
        (zeros 32)
        ben_state
        (zeros 32)
        (b'Z' ∷ [])
        2000000000
        (client_hello
          (client_start o clock (zeros 32) ann_state (zeros 32) (b'Z' ∷ []) (some ben_iid)))
        []
      ≡ (ok x, reply ∷ []))
    × (client_answer o clock (zeros 32) ann_state (zeros 32) (some ben_iid) 2000000000 reply []
        ≡ (ok ann_knows, proof ∷ []))
    × (server_finish o clock (zeros 32) ben_state (zeros 32) x proof [] ≡ (ok ben_knows, done ∷ []))
    × (client_finish ann_knows done ≡ ok ann_knows)
handshake_agrees_example =
    handshake_agrees o toy-IsBase64 clock (zeros 32) refl ann_state ben_state (zeros 20)
      (1 ∷ zeros 19) (string ann_iid) (string ben_iid) ann_iid ben_iid ann-IsParty ben-IsParty
      (zeros 32) (zeros 32) refl refl (b'Z' ∷ []) (b'Z' ∷ []) 2000000000 2000000000 timely timely
