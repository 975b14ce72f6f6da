-- ===== src/Ratchet/Delivery.antt =====
-- ratchet.rs: what the receiver of a chain computes is what the sender computed, in any order.
use post_urbit.Prelude.{
  ℕ, suc, ◌+◌, ◌-◌, ◌^◌, ◌≤◌, ◌<◌, ◌&&◌, ◌≡◌, refl, none, some, arith, length, ok, ltb, leb,
  if◌then◌else◌, ◌==◌, ==_refl, nat_eq, list_eq, list_beq_iff, u32,
}
use post_urbit.Prelude.Dict
use post_urbit.Ratchet.{
  Key, Crypto, RatchetState, RatchetHeader, ReceivingChain, SkippedKeyId, kdf_chain_step, skip_loop,
  skip_chain, take_key, ratchet_decrypt, skipped_id, skipped_eq,
}
use post_urbit.Ratchet.Cases.{receive_key_found, ratchet_decrypt_current}
use post_urbit.Ratchet.Chain.{
  chain_at, message_key_at, chain_at-suc, skip_loop_reaches, get-skip_loop,
}

-- The header names the current receiving chain, which stands at `index` with chain key `ck`; the
-- message is not one of those skipped before, lies ahead, and leaves room for what it skips.
pub record IsAhead (h : RatchetHeader) (s : RatchetState) (ck : Key) (index : ℕ) : Type 0 where
  pub current : h.dh_public ≡ s.dh_receiving_key
  pub new : Dict.get s.skipped_keys (skipped_id h) ≡ none
  pub chain :
      Dict.get s.receiving_chains h.dh_public
      ≡ some (record { chain_key = ck; chain_index = index })
  pub ahead : index ≤ h.n
  pub fits : h.n < 2 ^ 32
  pub width : s.max_skip < 2 ^ 32
  pub room : length s.skipped_keys + (h.n - index) ≤ s.max_skip

abbrev pub chain_of : Key → ℕ → ReceivingChain
chain_of ck index = record { chain_key = ck; chain_index = index }

module _ (c : Crypto) (h : RatchetHeader) (s : RatchetState) (ck : Key) (index : ℕ) where
  -- the state after the loop, and the state after the key is taken
  abbrev pub skipped_to : RatchetState
  skipped_to = record s {
    receiving_chains =
        Dict.insert s.receiving_chains h.dh_public (chain_of (chain_at c ck (h.n - index)) h.n);
    skipped_keys =
        (skip_loop c (h.n - index) h.dh_public h.n s.max_skip (chain_of ck index) s.skipped_keys).2;
  }

  abbrev pub received : RatchetState
  received = record skipped_to {
    receiving_chains =
        Dict.insert skipped_to.receiving_chains h.dh_public
          (chain_of (kdf_chain_step c (chain_at c ck (h.n - index))).0 (u32 (h.n + 1)));
  }

  module _ (a : IsAhead h s ck index) where
    skip_chain_reaches :
        skip_chain c h.dh_public h.n (chain_of ck index) s
        ≡ (ok (chain_of (chain_at c ck (h.n - index)) h.n), skipped_to)
    unfolding skip_chain
    skip_chain_reaches =
        let e =
          skip_loop_reaches c (h.n - index) h.dh_public h.n s.max_skip (chain_of ck index)
            s.skipped_keys a.width a.fits (omega (arith, a.ahead)) a.room in
        rw (e.0, e.1) refl

    pub ratchet_decrypt-received :
        ratchet_decrypt c h s ≡ (ok (message_key_at c ck (h.n - index)), received)
    unfolding take_key message_key_at
    ratchet_decrypt-received =
        rw
          (
            ratchet_decrypt_current c h s a.new ((list_beq_iff _ _).1 a.current),
            receive_key_found c h s (chain_of ck index) a.chain,
            skip_chain_reaches,
          )
          refl

    -- A message that lies ahead on the current chain gets the key of its number; the chain moves
    -- past it, and the key of each number in between is kept, while no other entry changes.
    pub ratchet_decrypt_ahead :
        ((ratchet_decrypt c h s).0 ≡ ok (message_key_at c ck (h.n - index)))
        × (Dict.get (ratchet_decrypt c h s).1.receiving_chains h.dh_public
            ≡ some (chain_of (chain_at c ck (suc (h.n - index))) (u32 (h.n + 1))))
        × ((id : SkippedKeyId)
            → Dict.get (ratchet_decrypt c h s).1.skipped_keys id ≡ (
                if id.dh_public == h.dh_public && (leb index id.n && ltb id.n h.n)
                then some (message_key_at c ck (id.n - index))
                else Dict.get s.skipped_keys id))
    ratchet_decrypt_ahead = rw ratchet_decrypt-received (
      refl,
      simp (Dict.get-insert, ==_refl, chain_at-suc) refl,
      λ id.
          get-skip_loop c (h.n - index) h.dh_public h.n s.max_skip (chain_of ck index)
            s.skipped_keys id a.width a.fits (omega (arith, a.ahead)) a.room,
    )

    pub ratchet_decrypt_frame :
        ((ratchet_decrypt c h s).1.dh_receiving_key ≡ s.dh_receiving_key)
        × ((ratchet_decrypt c h s).1.max_skip ≡ s.max_skip)
    ratchet_decrypt_frame = rw ratchet_decrypt-received (refl, refl)
