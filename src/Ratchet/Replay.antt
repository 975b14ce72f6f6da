-- ===== src/Ratchet/Replay.antt =====
-- ratchet.rs: a header whose number lies behind its chain, such as that of a message received
-- before.
use post_urbit.Prelude.{
  ℕ, ◌+◌, ◌-◌, ◌^◌, ◌<◌, ◌≡◌, ◌∙◌, refl, ap, none, some, arith, ok, ==_refl, list_beq_iff, nat_eq,
  list_eq, u32,
}
use post_urbit.Prelude.Dict
use post_urbit.Ratchet.{
  Key, Crypto, RatchetState, RatchetHeader, kdf_chain_step, ratchet_decrypt, skip_chain, skip_loop,
  take_key, skipped_id, skipped_eq,
}
use post_urbit.Ratchet.Cases.{receive_key_found, ratchet_decrypt_current}
use post_urbit.Ratchet.Chain.{chain_at, message_key_at}
use post_urbit.Ratchet.Delivery.{chain_of}

-- The header names the current receiving chain, at `index` with chain key `ck`, and no key is kept
-- for it.
pub record IsOnChain (h : RatchetHeader) (s : RatchetState) (ck : Key) (index : ℕ) : Type 0 where
  pub current : h.dh_public ≡ s.dh_receiving_key
  pub new : Dict.get s.skipped_keys (skipped_id h) ≡ none
  pub chain : Dict.get s.receiving_chains h.dh_public ≡ some (chain_of ck index)

module _ (c : Crypto) (h : RatchetHeader) (s : RatchetState) (ck : Key) (index : ℕ) where
  abbrev advanced : RatchetState
  advanced = record s {
    receiving_chains =
        Dict.insert (Dict.insert s.receiving_chains h.dh_public (chain_of ck index)) h.dh_public
          (chain_of (kdf_chain_step c ck).0 (u32 (index + 1)));
  }

  -- where the loop has nothing to do, the next key of the chain is taken
  ratchet_decrypt-advanced :
      IsOnChain h s ck index
      → h.n - index ≡ 0
      → ratchet_decrypt c h s ≡ (ok (message_key_at c ck 0), advanced)
  unfolding skip_chain skip_loop take_key message_key_at chain_at
  ratchet_decrypt-advanced o e =
      rw
        (
          ratchet_decrypt_current c h s o.new ((list_beq_iff _ _).1 o.current),
          receive_key_found c h s (chain_of ck index) o.chain,
          e,
        )
        refl

-- A replayed header is not refused: one that lies behind its chain is given the key of the next
-- message, and the next message, when it comes, is given the key of the one after it.
pub replay_shifts_keys :
    (c : Crypto) (h next : RatchetHeader) (s : RatchetState) (ck : Key) (index : ℕ)
    → IsOnChain h s ck index
    → h.n < index
    → index + 1 < 2 ^ 32
    → next.dh_public ≡ h.dh_public
    → next.n ≡ index
    → Dict.get s.skipped_keys (skipped_id next) ≡ none
    → ((ratchet_decrypt c h s).0 ≡ ok (message_key_at c ck 0))
      × ((ratchet_decrypt c next (ratchet_decrypt c h s).1).0 ≡ ok (message_key_at c ck 1))
replay_shifts_keys c h next s ck index o behind fits same place unseen =
    let first = ratchet_decrypt-advanced c h s ck index o (omega arith) in
    let on_chain : IsOnChain next (advanced c h s ck index) (kdf_chain_step c ck).0
        (u32 (index + 1)) =
      record {
        current = same ∙ o.current;
        new = unseen;
        chain =
            ap (Dict.get (advanced c h s ck index).receiving_chains) same
            ∙ simp (Dict.get-insert, ==_refl) refl;
      } in
    let second =
      ratchet_decrypt-advanced c next (advanced c h s ck index) (kdf_chain_step c ck).0
        (u32 (index + 1)) on_chain (omega arith) in
    (rw first refl, rw (first, second) (unfold message_key_at chain_at in refl))
