-- ===== src/Sync/Signing.antt =====
-- sync.rs: an operation that was signed is accepted.
use post_urbit.Prelude.{
  ℕ, Bytes, true, List, [], ◌∷◌, ◌++◌, nat_eq, ok, ◌≡◌, length, All, arith, IsKeyPair,
}
use post_urbit.Sync.{Outside, sign_sync_operation, verify_sync_operation, verify_with}

-- a key that the loop passes over or tries
abbrev pub IsReadable : Outside → Bytes → Type 0
IsReadable o key = length key ≡ 32 → o.ed25519.is_key key ≡ true

module _ (o : Outside) (signing_key verifying_key : Bytes)
    (p : IsKeyPair o.ed25519 signing_key verifying_key) where
  verify_with_signed :
      (before after : List Bytes) (message : Bytes)
      → All (IsReadable o) before
      → verify_with o (before ++ verifying_key ∷ after) message (o.ed25519.sign signing_key message)
        ≡ ok tt
  unfolding verify_with
  verify_with_signed [] after message h = ground (arith, p.key_long, p.key_good, p.accepts message)
  verify_with_signed (k ∷ before) after message h =
      ground (arith, h.0, verify_with_signed before after message h.1)

  -- An operation that is signed with a key is verified by any list of keys that has the key's
  -- counterpart in it behind keys that can be read, whatever keys follow.
  pub sign-verify :
      (before after : List Bytes) (document_id origin : Bytes) (physical_ms logical : ℕ)
      (operation_bytes : Bytes) (dependencies : List Bytes)
      → All (IsReadable o) before
      → let signed =
          sign_sync_operation o document_id origin physical_ms logical operation_bytes dependencies
            signing_key in
        verify_sync_operation o
          (record {
            id = signed.0;
            origin = origin;
            document_id = document_id;
            physical_ms = physical_ms;
            logical = logical;
            operation = operation_bytes;
            dependencies = dependencies;
            signature = signed.1;
          })
          (before ++ verifying_key ∷ after)
        ≡ ok tt
  unfolding verify_sync_operation sign_sync_operation
  sign-verify before after document_id origin physical_ms logical operation_bytes dependencies h =
      rw (p.signature_long _) (verify_with_signed before after _ h)
