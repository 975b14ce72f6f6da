-- ===== src/Ratchet/Bounds.antt =====
-- ratchet.rs: the number of message keys that a session keeps for messages that are yet to come.
use post_urbit.Prelude.{
  ℕ, ◌-◌, ◌≤◌, Bytes, List, [], ◌∷◌, ◌≡◌, refl, arith, length, Option-cases, inl, inr,
  and_then_keeps, Bool-cases, ◌==◌, nat_eq, list_eq,
}
use post_urbit.Prelude.Dict
use post_urbit.Ratchet.{
  Key, Crypto, RatchetState, RatchetHeader, ReceivingChain, initialize_initiator,
  initialize_responder, initial_message_key, initial_receive_message_key, ratchet_encrypt,
  skip_chain, skip_message_keys, start_receiving_chain, dh_ratchet, take_key, receive_key,
  ratchet_decrypt, skipped_id, skipped_eq,
}
use post_urbit.Ratchet.Cases.{
  receive_key_missing, receive_key_found, ratchet_decrypt_stored, ratchet_decrypt_current,
  ratchet_decrypt_new, skip_message_keys_missing, skip_message_keys_found,
}
use post_urbit.Ratchet.Chain.{skip_loop-length-le}

pub record IsBounded (s : RatchetState) : Type 0 where
  pub limit : s.max_skip ≡ 100
  pub kept : length s.skipped_keys ≤ s.max_skip

-- the methods that change a session, as calls with their arguments
pub data Call : Type 0 where
  encrypts : Key → Call
  decrypts : RatchetHeader → Call
  starts_sending starts_receiving : Call

module _ (c : Crypto) where
  pub step : RatchetState → Call → RatchetState
  step s (encrypts new_private) = (ratchet_encrypt c new_private s).1
  step s (decrypts header) = (ratchet_decrypt c header s).1
  step s starts_sending = (initial_message_key c s).1
  step s starts_receiving = (initial_receive_message_key c s).1

  pub run : RatchetState → List Call → RatchetState
  run s [] = s
  run s (call ∷ calls) = run (step s call) calls

  skip_chain-IsBounded :
      (dh : Key) (until : ℕ) (chain : ReceivingChain) (s : RatchetState)
      → IsBounded s
      → IsBounded (skip_chain c dh until chain s).1
  unfolding skip_chain
  skip_chain-IsBounded dh until chain s b = record {
    limit = b.limit;
    kept =
        skip_loop-length-le c (until - chain.chain_index) dh until s.max_skip chain s.skipped_keys
          (omega arith) b.kept;
  }

  skip_message_keys-IsBounded :
      (dh : Key) (until : ℕ) (s : RatchetState)
      → IsBounded s
      → IsBounded (skip_message_keys c dh until s).1
  skip_message_keys-IsBounded dh until s b = elim (Option-cases (Dict.get s.receiving_chains dh)) [
    | inl e ↦ rw (skip_message_keys_missing c dh until s e) b
    | inr (chain, e) ↦ rw (skip_message_keys_found c dh until s chain e) (
        and_then_keeps IsBounded (skip_chain c dh until chain s) _
          (skip_chain-IsBounded dh until chain s b) (λ _ _ h. h))
  ]

  start_receiving_chain-IsBounded :
      (dh : Key) (s : RatchetState) → IsBounded s → IsBounded (start_receiving_chain c dh s).1
  unfolding start_receiving_chain
  start_receiving_chain-IsBounded dh s b = ground arith

  dh_ratchet-IsBounded :
      (h : RatchetHeader) (s : RatchetState) → IsBounded s → IsBounded (dh_ratchet c h s).1
  unfolding dh_ratchet
  dh_ratchet-IsBounded h s b =
      and_then_keeps IsBounded (skip_message_keys c s.dh_receiving_key h.pn s) _
        (skip_message_keys-IsBounded s.dh_receiving_key h.pn s b)
        (λ _ s' k. start_receiving_chain-IsBounded h.dh_public s' k)

  receive_key-IsBounded :
      (h : RatchetHeader) (s : RatchetState) → IsBounded s → IsBounded (receive_key c h s).1
  receive_key-IsBounded h s b = elim (Option-cases (Dict.get s.receiving_chains h.dh_public)) [
    | inl e ↦ rw (receive_key_missing c h s e) b
    | inr (chain, e) ↦ rw (receive_key_found c h s chain e) (
        and_then_keeps IsBounded (skip_chain c h.dh_public h.n chain s) _
          (skip_chain-IsBounded h.dh_public h.n chain s b)
          (λ chain' s' k. unfold take_key in record { limit = k.limit; kept = k.kept }))
  ]

  -- Decrypting, whether it returns a key or an error, never keeps more keys than `max_skip`.
  pub ratchet_decrypt-IsBounded :
      (h : RatchetHeader) (s : RatchetState) → IsBounded s → IsBounded (ratchet_decrypt c h s).1
  ratchet_decrypt-IsBounded h s b = elim (Option-cases (Dict.get s.skipped_keys (skipped_id h))) [
    | inr (key, e) ↦ rw (ratchet_decrypt_stored c h s key e) (record {
      limit = b.limit;
      kept = omega (arith, b.kept, Dict.length-remove-le s.skipped_keys (skipped_id h));
    })
    | inl e ↦ elim (Bool-cases (h.dh_public == s.dh_receiving_key)) [
      | inl same ↦ rw (ratchet_decrypt_current c h s e same) (receive_key-IsBounded h s b)
      | inr new ↦ rw (ratchet_decrypt_new c h s e new) (
          and_then_keeps IsBounded (dh_ratchet c h s) _ (dh_ratchet-IsBounded h s b)
            (λ _ s' k. receive_key-IsBounded h s' k))
    ]
  ]

  step-IsBounded : (s : RatchetState) (call : Call) → IsBounded s → IsBounded (step s call)
  unfolding step
  step-IsBounded s (encrypts new_private) b = unfold ratchet_encrypt in ground arith
  step-IsBounded s (decrypts header) b = ratchet_decrypt-IsBounded header s b
  step-IsBounded s starts_sending b = unfold initial_message_key in ground arith
  step-IsBounded s starts_receiving b = unfold initial_receive_message_key in ground arith

  run-IsBounded : (s : RatchetState) (calls : List Call) → IsBounded s → IsBounded (run s calls)
  unfolding run
  run-IsBounded s [] b = b
  run-IsBounded s (call ∷ calls) b = run-IsBounded (step s call) calls (step-IsBounded s call b)

-- Whatever calls a session sees from its start, it never keeps more than 100 message keys.
pub length-skipped_keys-le :
    (c : Crypto) (root chain peer_key : Key) (peer_iid : Bytes) (private : Key) (calls : List Call)
    → (length
          (run c (initialize_initiator c root chain peer_key peer_iid private) calls).skipped_keys
        ≤ 100)
      × (length
            (run c (initialize_responder c root chain peer_key peer_iid private) calls).skipped_keys
          ≤ 100)
unfolding initialize_initiator initialize_responder
length-skipped_keys-le c root chain peer_key peer_iid private calls =
    let first =
      run-IsBounded c (initialize_initiator c root chain peer_key peer_iid private) calls
        (record { limit = refl; kept = omega arith }) in
    let second =
      run-IsBounded c (initialize_responder c root chain peer_key peer_iid private) calls
        (record { limit = refl; kept = omega arith }) in
    (omega (arith, first.limit, first.kept), omega (arith, second.limit, second.kept))
