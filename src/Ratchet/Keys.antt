-- ===== src/Ratchet/Keys.antt =====
-- ratchet.rs: the key derivations. A private key, a public key and a derived key are byte strings.
use post_urbit.Prelude.{
  ℕ, Bytes, Option, [], ◌∷◌, ◌++◌, ◌≡◌, if◌then◌else◌, take, drop, nat_eq, list_eq, Result, ok,
  ◌>>=◌, ok_or, crypto, compare_bytes, is_lt, ascii,
}

abbrev pub Key : Type 0
Key = Bytes

-- Third-party primitives. `hkdf_expand` takes the salt, the input, the info and the length.
pub record Crypto : Type 0 where
  pub hmac_sha256 : Key → Bytes → Key
  pub hkdf_expand : Bytes → Bytes → Bytes → ℕ → Option Bytes
  pub public_of : Key → Key
  pub diffie_hellman : Key → Key → Bytes

-- Both parties of an X25519 exchange compute the same secret.
abbrev pub DhAgrees : Crypto → Type 0
DhAgrees c = (a b : Key) → c.diffie_hellman a (c.public_of b) ≡ c.diffie_hellman b (c.public_of a)

pub ratchet_info : Bytes
ratchet_info = ascii "post-urbit-ratchet-v1"

pub x3dh_info : Bytes
x3dh_info = ascii "post-urbit-x3dh-v1"

pub sender_key_info : Bytes
sender_key_info = ascii "post-urbit-sender-key-v1:"

module _ (c : Crypto) where
  open c use {hmac_sha256, hkdf_expand, public_of, diffie_hellman}

  -- the new chain key and the message key
  unfoldable pub kdf_chain_step : Key → Key × Key
  kdf_chain_step chain_key = (hmac_sha256 chain_key (0x02 ∷ []), hmac_sha256 chain_key (0x01 ∷ []))

  -- the first and the second 32 bytes of an output of 64
  abbrev split_output : Bytes → Key × Key
  split_output out = (take 32 out, drop 32 out)

  unfoldable pub kdf_root : Key → Bytes → Result (Key × Key)
  kdf_root root_key dh_output = do
    out ← ok_or (hkdf_expand root_key dh_output ratchet_info 64) (crypto "ratchet hkdf")
    ok (split_output out)

  unfoldable pub kdf_initial : Key → Key → Bytes → Bytes → Result (Key × Key)
  kdf_initial dh1 dh2 iid_a iid_b = do
    let salt = if is_lt (compare_bytes iid_a iid_b) then iid_a ++ iid_b else iid_b ++ iid_a
    out ← ok_or (hkdf_expand salt (dh1 ++ dh2) x3dh_info 64) (crypto "x3dh hkdf")
    ok (split_output out)

  unfoldable pub kdf_sender_key : Key → Bytes → Bytes → Bytes → Key × Key
  kdf_sender_key chain_key group_id sender_iid key_id =
      let info = sender_key_info ++ (group_id ++ (b':' ∷ (sender_iid ++ (b':' ∷ key_id)))) in
      (hmac_sha256 chain_key (0x02 ∷ info), hmac_sha256 chain_key (0x01 ∷ info))

  unfoldable pub two_dh_initiator : Key → Key → Key → Bytes × Bytes
  two_dh_initiator identity_private ephemeral_private peer_identity_public = (
    diffie_hellman identity_private peer_identity_public,
    diffie_hellman ephemeral_private peer_identity_public,
  )

  unfoldable pub two_dh_responder : Key → Key → Key → Bytes × Bytes
  two_dh_responder identity_private peer_identity_public peer_ephemeral_public = (
    diffie_hellman identity_private peer_identity_public,
    diffie_hellman identity_private peer_ephemeral_public,
  )
