-- ===== src/Identity/Manager.antt =====
-- identity.rs: `IdentityManager`. New keys, the clock's text and the outcome of writing the files are
-- arguments; a change of the state stays when the files are not written. The lock is left out.
pub mod Signed
pub mod Rotations
use post_urbit.Prelude.{
  ℕ, Bytes, String, Bool, true, ◌+◌, Option, none, some, List, [], ◌∷◌, ◌++◌, ◌==◌, nat_eq, length,
  ascii, Result, ok, err, ◌>>=◌, ◌>>◌, guard, invalid_input, and_then, print_u64, u64,
}
use post_urbit.Encoding.{base64_encode, base64_decode}
use post_urbit.CanonicalJson.{object, empty}
use post_urbit.Identity.Documents.{
  Outside, IdentityDocument, Keys, SigningKeys, EncryptionKeys, EncryptionKeyHistory, Claims,
  Recovery, Signatures, parse_sequence, sign_idoc, derive_iid,
}

pub record IdentityState : Type 0 where
  pub document : IdentityDocument
  pub signing_key : Bytes
  pub encryption_key : Bytes
  pub signing_key_valid_from : ℕ
  pub encryption_key_valid_from : ℕ

pub record KeyRotationResult : Type 0 where
  pub success : Bool
  pub new_key_fingerprint : Bytes
  pub previous_key_fingerprint : Bytes
  pub rotated_at : Bytes

module _ (o : Outside) where
  unfoldable pub fingerprint_key : Bytes → Result Bytes
  unfolding ascii
  fingerprint_key base64_key = do
    raw ← base64_decode o.base64 base64_key
    guard (length raw == 32) (invalid_input "key length")
    ok (ascii "sha256:" ++ o.hex_encode (o.sha256 raw))

  -- the document before it is signed
  unfoldable pub unsigned_genesis : Bytes → Bytes → Bytes → IdentityDocument
  unfolding ascii
  unsigned_genesis signing_key encryption_key now =
      let public = base64_encode o.base64 (o.verifying_key signing_key) in
      record {
        version = 1;
        iid = derive_iid o (o.verifying_key signing_key);
        sequence = ascii "0";
        timestamp = now;
        keys = record {
          signing = record { genesis = public; current = public; previous = none; history = [] };
          encryption = record {
            current = base64_encode o.base64 (o.public_key encryption_key);
            previous = [];
          };
        };
        endpoints = [];
        claims = record { name = none; avatar = none; bio = none };
        recovery = record { method = ascii "none"; config = object empty };
        extensions = object empty;
        recovery_proof = none;
        signatures = record { current = []; previous = none };
      }

  unfoldable pub create_genesis_document :
      Bytes → Bytes → Bytes → Result (Unit {0}) → Result IdentityDocument
  create_genesis_document signing_key encryption_key now written = do
    let document = unsigned_genesis signing_key encryption_key now
    signature ← sign_idoc o document signing_key
    written
    ok (record document { signatures = record { current = signature; previous = none } })

  -- `document.signatures.current = sign_idoc(..)?; document.signatures.previous = None;`
  unfoldable pub sign_current : IdentityDocument → Bytes → Result IdentityDocument
  sign_current document signing_key = do
    signature ← sign_idoc o document signing_key
    ok (record document { signatures = record { current = signature; previous = none } })

  -- `state.document = document.clone(); self.persist_state(&state).await?; Ok(document)`
  abbrev keep :
      Result IdentityDocument
      → Result (Unit {0})
      → IdentityState
      → Result IdentityDocument × IdentityState
  keep signed written s =
      and_then (signed, s)
        (λ document t. (written >> ok document, record t { document = document }))

  -- the next sequence and time
  abbrev advanced : IdentityDocument → Bytes → ℕ → IdentityDocument
  advanced document now sequence = record document {
    sequence = print_u64 (u64 (sequence + 1));
    timestamp = now;
  }

  unfoldable pub update_claims :
      Option Bytes
      → Option Bytes
      → Option Bytes
      → Bytes
      → Result (Unit {0})
      → IdentityState
      → Result IdentityDocument × IdentityState
  update_claims name avatar bio now written s =
      keep
        (parse_sequence s.document.sequence >>= λ sequence.
          sign_current
            (record (advanced s.document now sequence) {
              claims = record { name = name; avatar = avatar; bio = bio };
            })
            s.signing_key)
        written s

  unfoldable pub update_recovery :
      Recovery → Bytes → Result (Unit {0}) → IdentityState → Result IdentityDocument × IdentityState
  update_recovery recovery now written s =
      keep
        (parse_sequence s.document.sequence >>= λ sequence.
          sign_current (record (advanced s.document now sequence) { recovery = recovery })
            s.signing_key)
        written s

  -- the document with the new key, signed with both
  unfoldable pub rotated : Bytes → Bytes → IdentityState → Result IdentityDocument
  rotated new_signing_key now s = do
    sequence ← parse_sequence s.document.sequence
    let document = record (advanced s.document now sequence) {
      keys = record s.document.keys {
        signing = record s.document.keys.signing {
          previous = some s.document.keys.signing.current;
          current = base64_encode o.base64 (o.verifying_key new_signing_key);
        };
      };
    }
    current ← sign_idoc o document new_signing_key
    previous ← sign_idoc o document s.signing_key
    ok (record document { signatures = record { current = current; previous = some previous } })

  -- what both rotations return
  unfoldable pub rotation_result : Bytes → Bytes → Bytes → Result KeyRotationResult
  rotation_result new_key previous_key now = do
    new_fingerprint ← fingerprint_key new_key
    previous_fingerprint ← fingerprint_key previous_key
    ok (record {
      success = true;
      new_key_fingerprint = new_fingerprint;
      previous_key_fingerprint = previous_fingerprint;
      rotated_at = now;
    })

  unfoldable pub rotate_signing_key :
      Bytes → Bytes → Result (Unit {0}) → IdentityState → Result KeyRotationResult × IdentityState
  rotate_signing_key new_signing_key now written s =
      and_then (rotated new_signing_key now s, s)
        (λ document t.
          and_then (parse_sequence s.document.sequence, t)
            (λ sequence t. (
              written
                  >> rotation_result document.keys.signing.current s.document.keys.signing.current
                      now,
              record t {
                signing_key = new_signing_key;
                signing_key_valid_from = u64 (sequence + 1);
                document = document;
              },
            )))

  -- the document with the new encryption key
  unfoldable pub encryption_rotated :
      Bytes → Bytes → Bytes → ℕ → IdentityState → Result IdentityDocument
  encryption_rotated new_secret now expires_at sequence s =
      sign_current
        (record (advanced s.document now sequence) {
          keys = record s.document.keys {
            encryption = record {
              current = base64_encode o.base64 (o.public_key new_secret);
              previous =
                  s.document.keys.encryption.previous
                  ++ record {
                    key = s.document.keys.encryption.current;
                    valid_from = print_u64 s.encryption_key_valid_from;
                    valid_until = print_u64 (u64 (sequence + 1));
                    expires_at = expires_at;
                  }
                    ∷ [];
            };
          };
        })
        s.signing_key

  unfoldable pub rotate_encryption_key :
      Bytes
      → Bytes
      → Bytes
      → Result (Unit {0})
      → IdentityState
      → Result KeyRotationResult × IdentityState
  rotate_encryption_key new_secret now expires_at written s =
      and_then (parse_sequence s.document.sequence, s)
        (λ sequence t.
          and_then (encryption_rotated new_secret now expires_at sequence s, t)
            (λ document t. (
              written
                  >> rotation_result document.keys.encryption.current
                      s.document.keys.encryption.current now,
              record t {
                encryption_key = new_secret;
                encryption_key_valid_from = u64 (sequence + 1);
                document = document;
              },
            )))

  -- `sign_data`
  unfoldable pub sign_data : Bytes → IdentityState → Bytes
  sign_data message s = o.ed25519.sign s.signing_key message
