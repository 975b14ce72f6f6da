-- ===== src/Ratchet/Cases.antt =====
-- ratchet.rs: each method with its tests decided, one equation for each branch.
use post_urbit.Prelude.{◌≡◌, true, false, none, some, ok, err, ◌==◌, nat_eq, list_eq, and_then}
use post_urbit.Prelude.{invalid_input, ℕ}
use post_urbit.Prelude.Dict
use post_urbit.Ratchet.{
  Key, Crypto, RatchetState, RatchetHeader, ReceivingChain, skip_chain, skip_message_keys,
  dh_ratchet, take_key, receive_key, ratchet_decrypt, skipped_id, skipped_eq,
}

module _ (c : Crypto) (h : RatchetHeader) (s : RatchetState) where
  pub receive_key_missing :
      Dict.get s.receiving_chains h.dh_public ≡ none
      → receive_key c h s ≡ (err (invalid_input "missing receiving chain"), s)
  unfolding receive_key
  receive_key_missing e = rw (e, receive_key)

  pub receive_key_found :
      (chain : ReceivingChain)
      → Dict.get s.receiving_chains h.dh_public ≡ some chain
      → receive_key c h s
        ≡ and_then
            (skip_chain c h.dh_public h.n chain s)
            (λ chain' s'. take_key c h.dh_public chain' s')
  unfolding receive_key
  receive_key_found chain e = rw (e, receive_key)

  pub ratchet_decrypt_stored :
      (key : Key)
      → Dict.get s.skipped_keys (skipped_id h) ≡ some key
      → ratchet_decrypt c h s
        ≡ (ok key, record s { skipped_keys = Dict.remove s.skipped_keys (skipped_id h) })
  unfolding ratchet_decrypt
  ratchet_decrypt_stored key e = rw (e, ratchet_decrypt)

  pub ratchet_decrypt_current :
      Dict.get s.skipped_keys (skipped_id h) ≡ none
      → (h.dh_public == s.dh_receiving_key) ≡ true
      → ratchet_decrypt c h s ≡ receive_key c h s
  unfolding ratchet_decrypt
  ratchet_decrypt_current e same = rw (e, ratchet_decrypt) (rw same)

  pub ratchet_decrypt_new :
      Dict.get s.skipped_keys (skipped_id h) ≡ none
      → (h.dh_public == s.dh_receiving_key) ≡ false
      → ratchet_decrypt c h s ≡ and_then (dh_ratchet c h s) (λ _ s'. receive_key c h s')
  unfolding ratchet_decrypt
  ratchet_decrypt_new e new = rw (e, ratchet_decrypt) (rw new)

module _ (c : Crypto) (dh : Key) (until : ℕ) (s : RatchetState) where
  pub skip_message_keys_missing :
      Dict.get s.receiving_chains dh ≡ none → skip_message_keys c dh until s ≡ (ok tt, s)
  unfolding skip_message_keys
  skip_message_keys_missing e = rw (e, skip_message_keys)

  pub skip_message_keys_found :
      (chain : ReceivingChain)
      → Dict.get s.receiving_chains dh ≡ some chain
      → skip_message_keys c dh until s
        ≡ and_then (skip_chain c dh until chain s) (λ _ s'. (ok tt, s'))
  unfolding skip_message_keys
  skip_message_keys_found chain e = rw (e, skip_message_keys)
