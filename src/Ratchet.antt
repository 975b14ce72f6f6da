-- ===== src/Ratchet.antt =====
-- ratchet.rs: the key derivations, the first agreement and the double ratchet of a session.
-- A private key, a public key and a derived key are byte strings. The primitives (HMAC, HKDF,
-- X25519) are the parameter `Crypto`; the private key that `ratchet_encrypt` draws is an argument.
-- A method on `&mut self` returns its result beside the state it leaves, also when it fails.
pub mod Keys
mod Cases
pub mod Chain
pub mod Bounds
pub mod Delivery
pub mod Session
pub mod Agreement
pub mod Turns
pub mod Replay
use post_urbit.Prelude.{
  ℕ, zero, suc, ◌+◌, ◌-◌, Bytes, Bool, true, ◌&&◌, Option, none, some, [], ◌∷◌, ◌++◌, ◌≡◌, ◌↔◌,
  arith, ltb, leb, if◌then◌else◌, length, take, drop, Eq, ◌==◌, list_beq_iff, nat_eq, list_eq,
  and_then, Result, ok, err, ◌>>=◌, ok_or, invalid_input, crypto, compare_bytes, is_lt, is_none,
  u32, ascii,
}
unfoldable pub use Keys.*
use post_urbit.Prelude.Dict
use post_urbit.Prelude.Dict.{Dict}

pub record RatchetKeyPair : Type 0 where
  pub private : Key
  pub public : Key

pub record ReceivingChain : Type 0 where
  pub chain_key : Key
  pub chain_index : ℕ

pub record SkippedKeyId : Type 0 where
  pub dh_public : Key
  pub n : ℕ

-- the derived `PartialEq`
unfoldable pub same_id : SkippedKeyId → SkippedKeyId → Bool
same_id a b = a.dh_public == b.dh_public && a.n == b.n

pub same_id_iff : (a b : SkippedKeyId) → (same_id a b ≡ true) ↔ (a ≡ b)
unfolding same_id
same_id_iff a b = ground (arith, list_beq_iff a.dh_public b.dh_public)

instance abbrev pub skipped_eq : Eq SkippedKeyId
skipped_eq = record { beq = same_id; beq_iff = same_id_iff }

abbrev pub SkippedKeys : Type 0
SkippedKeys = Dict SkippedKeyId Key

pub record RatchetState : Type 0 where
  pub peer_iid : Bytes
  pub dh_sending_key : RatchetKeyPair
  pub dh_receiving_key : Key
  pub root_key : Key
  pub sending_chain_key : Option Key
  pub sending_chain_index : ℕ
  pub previous_sending_chain_length : ℕ
  pub receiving_chains : Dict Key ReceivingChain
  pub skipped_keys : SkippedKeys
  pub max_skip : ℕ

pub record RatchetHeader : Type 0 where
  pub dh_public : Key
  pub pn : ℕ
  pub n : ℕ

pub record InitialMessage : Type 0 where
  pub ephemeral_public : Key
  pub message_key : Key

-- the key under which the message key of a header is kept
abbrev pub skipped_id : RatchetHeader → SkippedKeyId
skipped_id header = record { dh_public = header.dh_public; n = header.n }

module _ (c : Crypto) where
  open c use {hmac_sha256, hkdf_expand, public_of, diffie_hellman}

  -- the new chain key and the message key
  unfoldable pub initialize_initiator : Key → Key → Key → Bytes → Key → RatchetState
  initialize_initiator root_key initial_chain_key peer_identity_key peer_iid ephemeral_private =
      record {
        peer_iid = peer_iid;
        dh_sending_key = record {
          private = ephemeral_private;
          public = public_of ephemeral_private;
        };
        dh_receiving_key = peer_identity_key;
        root_key = root_key;
        sending_chain_key = some initial_chain_key;
        sending_chain_index = 0;
        previous_sending_chain_length = 0;
        receiving_chains = [];
        skipped_keys = [];
        max_skip = 100;
      }

  unfoldable pub initialize_responder : Key → Key → Key → Bytes → Key → RatchetState
  initialize_responder root_key initial_chain_key peer_ephemeral_key peer_iid sending_private =
      record {
        peer_iid = peer_iid;
        dh_sending_key = record { private = sending_private; public = public_of sending_private };
        dh_receiving_key = peer_ephemeral_key;
        root_key = root_key;
        sending_chain_key = none;
        sending_chain_index = 0;
        previous_sending_chain_length = 0;
        receiving_chains =
            Dict.insert [] peer_ephemeral_key
              (record { chain_key = initial_chain_key; chain_index = 0 });
        skipped_keys = [];
        max_skip = 100;
      }

  unfoldable pub initial_message_key : RatchetState → Result InitialMessage × RatchetState
  initial_message_key s = elim s.sending_chain_key [
    | none ↦ (err (invalid_input "missing sending chain"), s)
    | some chain_key ↦
        let (new_chain, key) = kdf_chain_step c chain_key in
        (
          ok (record { ephemeral_public = s.dh_sending_key.public; message_key = key }),
          record s {
            sending_chain_key = some new_chain;
            sending_chain_index =
                if s.sending_chain_index == 0 then 1 else u32 (s.sending_chain_index + 1);
          },
        )
  ]

  unfoldable pub initial_receive_message_key : RatchetState → Result Key × RatchetState
  initial_receive_message_key s = elim (Dict.get s.receiving_chains s.dh_receiving_key) [
    | none ↦ (err (invalid_input "missing receiving chain"), s)
    | some chain ↦
        let (new_chain, key) = kdf_chain_step c chain.chain_key in
        (
          ok key,
          record s {
            receiving_chains =
                Dict.insert s.receiving_chains s.dh_receiving_key
                  (record { chain_key = new_chain; chain_index = u32 (chain.chain_index + 1) });
          },
        )
  ]

  -- the first block of `ratchet_encrypt`: a DH step, where there is no sending chain
  unfoldable pub start_sending_chain : Key → RatchetState → Result (Unit {0}) × RatchetState
  start_sending_chain new_private s =
      let s' = record s {
        previous_sending_chain_length = s.sending_chain_index;
        dh_sending_key = record { private = new_private; public = public_of new_private };
      } in
      elim (kdf_root c s.root_key (diffie_hellman new_private s.dh_receiving_key)) [
        | err e ↦ (err e, s')
        | ok (new_root, chain_key) ↦ (
          ok tt,
          record s' {
            root_key = new_root;
            sending_chain_key = some chain_key;
            sending_chain_index = 0;
          },
        )
      ]

  -- the rest of `ratchet_encrypt`
  unfoldable pub next_sending_key : RatchetState → Result (RatchetHeader × Key) × RatchetState
  next_sending_key s = elim s.sending_chain_key [
    | none ↦ (err (invalid_input "missing sending chain"), s)
    | some chain_key ↦
        let (new_chain, key) = kdf_chain_step c chain_key in
        (
          ok (
            record {
              dh_public = s.dh_sending_key.public;
              pn = s.previous_sending_chain_length;
              n = s.sending_chain_index;
            },
            key,
          ),
          record s {
            sending_chain_key = some new_chain;
            sending_chain_index = u32 (s.sending_chain_index + 1);
          },
        )
  ]

  unfoldable pub ratchet_encrypt : Key → RatchetState → Result (RatchetHeader × Key) × RatchetState
  unfolding start_sending_chain next_sending_key
  ratchet_encrypt new_private s =
      if is_none s.sending_chain_key
      then and_then (start_sending_chain new_private s) (λ _ s'. next_sending_key s')
      else next_sending_key s

  -- `while chain.chain_index < until { … }`, over the chain and the skipped keys that it writes.
  -- The fuel is what is left of `until`; an index below a `u32` never wraps here.
  unfoldable pub skip_loop :
      ℕ
      → Key
      → ℕ
      → ℕ
      → ReceivingChain
      → SkippedKeys
      → Result (Unit {0}) × ReceivingChain × SkippedKeys
  skip_loop zero dh_public until max_skip chain skipped = (ok tt, chain, skipped)
  skip_loop (suc fuel) dh_public until max_skip chain skipped =
      let (new_chain, key) = kdf_chain_step c chain.chain_key in
      let rest =
        skip_loop fuel dh_public until max_skip
          (record { chain_key = new_chain; chain_index = u32 (chain.chain_index + 1) })
          (Dict.insert skipped (record { dh_public = dh_public; n = chain.chain_index }) key) in
      if ltb chain.chain_index until
      then (if leb max_skip (u32 (length skipped))
          then (err (invalid_input "too many skipped"), chain, skipped)
          else rest)
      else (ok tt, chain, skipped)

  -- a run of the loop on a chain of the state, which the source holds by a mutable reference
  unfoldable pub skip_chain :
      Key → ℕ → ReceivingChain → RatchetState → Result ReceivingChain × RatchetState
  unfolding skip_loop
  skip_chain dh_public until chain s =
      let (r, chain', skipped) =
        skip_loop (until - chain.chain_index) dh_public until s.max_skip chain s.skipped_keys in
      (
        r >>= (λ _. ok chain'),
        record s {
          receiving_chains = Dict.insert s.receiving_chains dh_public chain';
          skipped_keys = skipped;
        },
      )

  unfoldable pub skip_message_keys : Key → ℕ → RatchetState → Result (Unit {0}) × RatchetState
  unfolding skip_chain
  skip_message_keys dh_public until s = elim (Dict.get s.receiving_chains dh_public) [
    | none ↦ (ok tt, s)
    | some chain ↦ and_then (skip_chain dh_public until chain s) (λ _ s'. (ok tt, s'))
  ]

  -- the DH step for the public key of a header, after the old chain has been skipped to its end
  unfoldable pub start_receiving_chain : Key → RatchetState → Result (Unit {0}) × RatchetState
  start_receiving_chain dh_public s =
      let s' = record s { dh_receiving_key = dh_public } in
      elim (kdf_root c s.root_key (diffie_hellman s.dh_sending_key.private dh_public)) [
        | err e ↦ (err e, s')
        | ok (new_root, receiving_chain_key) ↦ (
          ok tt,
          record s' {
            root_key = new_root;
            sending_chain_key = none;
            receiving_chains =
                Dict.insert s.receiving_chains dh_public
                  (record { chain_key = receiving_chain_key; chain_index = 0 });
          },
        )
      ]

  -- the block of `ratchet_decrypt` for a header with a new public key
  unfoldable pub dh_ratchet : RatchetHeader → RatchetState → Result (Unit {0}) × RatchetState
  unfolding skip_message_keys start_receiving_chain
  dh_ratchet header s =
      and_then (skip_message_keys s.dh_receiving_key header.pn s)
        (λ _ s'. start_receiving_chain header.dh_public s')

  -- the last three lines of `ratchet_decrypt`
  unfoldable pub take_key : Key → ReceivingChain → RatchetState → Result Key × RatchetState
  take_key dh_public chain s =
      let (new_chain, key) = kdf_chain_step c chain.chain_key in
      (
        ok key,
        record s {
          receiving_chains =
              Dict.insert s.receiving_chains dh_public
                (record { chain_key = new_chain; chain_index = u32 (chain.chain_index + 1) });
        },
      )

  -- the end of `ratchet_decrypt`: skip up to the header's number and take the next key
  unfoldable pub receive_key : RatchetHeader → RatchetState → Result Key × RatchetState
  unfolding skip_chain take_key
  receive_key header s = elim (Dict.get s.receiving_chains header.dh_public) [
    | none ↦ (err (invalid_input "missing receiving chain"), s)
    | some chain ↦
        and_then (skip_chain header.dh_public header.n chain s)
          (λ chain' s'. take_key header.dh_public chain' s')
  ]

  unfoldable pub ratchet_decrypt : RatchetHeader → RatchetState → Result Key × RatchetState
  unfolding dh_ratchet receive_key
  ratchet_decrypt header s = elim (Dict.get s.skipped_keys (skipped_id header)) [
    | some key ↦
        (ok key, record s { skipped_keys = Dict.remove s.skipped_keys (skipped_id header) })
    | none ↦
        if header.dh_public == s.dh_receiving_key
        then receive_key header s
        else and_then (dh_ratchet header s) (λ _ s'. receive_key header s')
  ]
