-- ===== src/Ratchet/Agreement.antt =====
-- ratchet.rs: the first contact, where both sides derive keys from two Diffie-Hellman exchanges.
use post_urbit.Prelude.{
  ℕ, ◌+◌, Bytes, ◌≡◌, refl, some, arith, ok, ==_refl, nat_eq, list_eq, u32, compare_bytes_eq,
  compare_bytes-swap,
}
use post_urbit.Prelude.Dict
use post_urbit.Ratchet.{
  Key, Crypto, DhAgrees, RatchetState, kdf_chain_step, kdf_initial, two_dh_initiator,
  two_dh_responder, initialize_initiator, initialize_responder, initial_message_key,
  initial_receive_message_key, skipped_eq,
}
use post_urbit.Ratchet.Delivery.{chain_of}
use post_urbit.Ratchet.Session.{InStep}

module _ (c : Crypto) where
  initial_receive_found :
      (s : RatchetState) (ck : Key) (index : ℕ)
      → Dict.get s.receiving_chains s.dh_receiving_key ≡ some (chain_of ck index)
      → initial_receive_message_key c s ≡ (
        ok (kdf_chain_step c ck).1,
        record s {
          receiving_chains =
              Dict.insert s.receiving_chains s.dh_receiving_key
                (chain_of (kdf_chain_step c ck).0 (u32 (index + 1)));
        },
      )
  unfolding initial_receive_message_key
  initial_receive_found s ck index e = rw (e, initial_receive_message_key)

  responder_chain :
      (root chain peer : Key) (iid : Bytes) (other : Key)
      → Dict.get (initialize_responder c root chain peer iid other).receiving_chains peer
        ≡ some (chain_of chain 0)
  unfolding initialize_responder
  responder_chain root chain peer iid other = simp (Dict.get-insert, ==_refl)

  -- The salt does not depend on who starts.
  pub kdf_initial_comm :
      (dh1 dh2 : Key) (a b : Bytes) → kdf_initial c dh1 dh2 a b ≡ kdf_initial c dh1 dh2 b a
  unfolding kdf_initial
  kdf_initial_comm dh1 dh2 a b = ground (arith, compare_bytes-swap a b, compare_bytes_eq a b)

  module _ (agrees : DhAgrees c) where
    two_dh_agree :
        (ik_a ek_a ik_b : Key)
        → two_dh_initiator c ik_a ek_a (c.public_of ik_b)
          ≡ two_dh_responder c ik_b (c.public_of ik_a) (c.public_of ek_a)
    unfolding two_dh_initiator two_dh_responder
    two_dh_agree ik_a ek_a ik_b = ground (arith, agrees ik_a ik_b, agrees ek_a ik_b)

    -- The first contact: the initiator, from its two private keys, and the responder, from its own
    -- and the two public keys that it is sent, derive the same root and chain key; the initiator's
    -- first message key is the one that the responder receives, and both then stand in step.
    pub first_message_agrees :
        (ik_a ek_a ik_b other : Key) (iid_a iid_b : Bytes) (root chain : Key)
        → (let (dh1, dh2) = two_dh_initiator c ik_a ek_a (c.public_of ik_b) in
            kdf_initial c dh1 dh2 iid_a iid_b)
          ≡ ok (root, chain)
        → let alice = initialize_initiator c root chain (c.public_of ik_b) iid_b ek_a in
          let bob = initialize_responder c root chain (c.public_of ek_a) iid_a other in
          ((let (dh1, dh2) = two_dh_responder c ik_b (c.public_of ik_a) (c.public_of ek_a) in
              kdf_initial c dh1 dh2 iid_b iid_a)
            ≡ ok (root, chain))
          × ((initial_message_key c alice).0
              ≡ ok (record {
                ephemeral_public = c.public_of ek_a;
                message_key = (kdf_chain_step c chain).1;
              }))
          × ((initial_receive_message_key c bob).0 ≡ ok (kdf_chain_step c chain).1)
          × InStep
              (initial_message_key c alice).1
              (initial_receive_message_key c bob).1
              (kdf_chain_step c chain).0
              1
    unfolding initial_message_key initialize_initiator initialize_responder
    first_message_agrees ik_a ek_a ik_b other iid_a iid_b root chain e =
        let bob = initialize_responder c root chain (c.public_of ek_a) iid_a other in
        let got =
          initial_receive_found bob chain 0
            (responder_chain root chain (c.public_of ek_a) iid_a other) in
        (
          rw (← two_dh_agree ik_a ek_a ik_b, kdf_initial_comm) e,
          refl,
          rw got refl,
          record {
            sending = refl;
            place = refl;
            named = rw got refl;
            chain = rw got (simp (Dict.get-insert, ==_refl));
            unseen = λ n h. rw got (unfold Dict.get in refl);
            width = rw got (omega arith);
          },
        )
