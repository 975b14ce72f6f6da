-- ===== src/Prelude/Signing.antt =====
-- The crate ed25519-dalek as a parameter.
use mathlib.Core.Path.{◌≡◌}
use mathlib.Core.Bool.{Bool, true}
use post_urbit.Prelude.Lists.{length}
use post_urbit.Prelude.Order.{Bytes}

pub record Ed25519 : Type 0 where
  -- a signing key and a message
  pub sign : Bytes → Bytes → Bytes
  -- `VerifyingKey::from_bytes` accepts these 32 bytes
  pub is_key : Bytes → Bool
  -- `verify_strict` of a verifying key, a message and a signature
  pub verify_strict : Bytes → Bytes → Bytes → Bool

-- the verifying key of a signing key accepts what that signs
pub record IsKeyPair (e : Ed25519) (signing_key verifying_key : Bytes) : Type 0 where
  pub key_long : length verifying_key ≡ 32
  pub key_good : e.is_key verifying_key ≡ true
  pub signature_long : (m : Bytes) → length (e.sign signing_key m) ≡ 64
  pub accepts : (m : Bytes) → e.verify_strict verifying_key m (e.sign signing_key m) ≡ true
