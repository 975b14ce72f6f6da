-- ===== src/Ratchet/Chain.antt =====
-- ratchet.rs: a symmetric chain as a sequence of keys, and the loop that skips along it.
-- `chain_at` and `message_key_at` are the specification: the chain key after n steps, and the
-- message key of the n-th message.
use post_urbit.Prelude.{
  ℕ, zero, suc, ◌+◌, ◌-◌, ◌^◌, ◌≤◌, ◌<◌, ◌&&◌, some, ◌≡◌, refl, ap, arith, ltb, leb, if◌then◌else◌,
  length, ◌==◌, ok, list_beq_iff, list_eq, nat_eq, u32,
}
use post_urbit.Prelude.Dict
use post_urbit.Ratchet.{
  Key, Crypto, ReceivingChain, SkippedKeyId, SkippedKeys, kdf_chain_step, skip_loop, same_id,
  skipped_eq,
}

sub_past : (i n : ℕ) → i < suc n → suc n - i ≡ suc (n - i)
sub_past i n h = omega arith

module _ (c : Crypto) where
  unfoldable pub chain_at : Key → ℕ → Key
  chain_at ck zero = ck
  chain_at ck (suc n) = chain_at (kdf_chain_step c ck).0 n

  unfoldable pub message_key_at : Key → ℕ → Key
  message_key_at ck n = (kdf_chain_step c (chain_at ck n)).1

  pub chain_at-suc : (ck : Key) (n : ℕ) → chain_at ck (suc n) ≡ (kdf_chain_step c (chain_at ck n)).0
  unfolding chain_at
  chain_at-suc ck zero = refl
  chain_at-suc ck (suc n) = chain_at-suc (kdf_chain_step c ck).0 n

  chain_at_past :
      (ck : Key) (i n : ℕ)
      → i < n
      → chain_at ck (n - i) ≡ chain_at (kdf_chain_step c ck).0 (n - suc i)
  unfolding chain_at
  chain_at_past ck i zero h = absurd (omega arith)
  chain_at_past ck i (suc n) h =
      let e : n - i ≡ suc n - suc i = omega arith in
      rw (sub_past i n h) (ap (chain_at (kdf_chain_step c ck).0) e)

  -- one round of the loop
  abbrev next_chain : ReceivingChain → ReceivingChain
  next_chain chain = record {
    chain_key = (kdf_chain_step c chain.chain_key).0;
    chain_index = u32 (chain.chain_index + 1);
  }

  abbrev next_skipped : Key → ReceivingChain → SkippedKeys → SkippedKeys
  next_skipped dh chain skipped =
      Dict.insert skipped (record { dh_public = dh; n = chain.chain_index })
        (kdf_chain_step c chain.chain_key).1

  -- the loop keeps the number of skipped keys within the limit
  pub skip_loop-length-le :
      (fuel : ℕ) (dh : Key) (until max : ℕ) (chain : ReceivingChain) (skipped : SkippedKeys)
      → max < 2 ^ 32
      → length skipped ≤ max
      → length (skip_loop c fuel dh until max chain skipped).2 ≤ max
  unfolding skip_loop
  skip_loop-length-le zero dh until max chain skipped w h = h
  skip_loop-length-le (suc fuel) dh until max chain skipped w h = ground (
    arith,
    Dict.length-insert-le skipped (record { dh_public = dh; n = chain.chain_index })
        (kdf_chain_step c chain.chain_key).1,
    skip_loop-length-le fuel dh until max (next_chain chain) (next_skipped dh chain skipped),
  )

  -- with room for every key that is left out, the loop reaches its end
  pub skip_loop_reaches :
      (fuel : ℕ) (dh : Key) (until max : ℕ) (chain : ReceivingChain) (skipped : SkippedKeys)
      → max < 2 ^ 32
      → until < 2 ^ 32
      → chain.chain_index + fuel ≡ until
      → length skipped + fuel ≤ max
      → ((skip_loop c fuel dh until max chain skipped).0 ≡ ok tt)
        × ((skip_loop c fuel dh until max chain skipped).1
            ≡ record { chain_key = chain_at chain.chain_key fuel; chain_index = until })
  unfolding skip_loop chain_at
  skip_loop_reaches zero dh until max chain skipped w u e h = (refl, ground arith)
  skip_loop_reaches (suc fuel) dh until max chain skipped w u e h = ground (
    arith,
    Dict.length-insert-le skipped (record { dh_public = dh; n = chain.chain_index })
        (kdf_chain_step c chain.chain_key).1,
    skip_loop_reaches fuel dh until max (next_chain chain) (next_skipped dh chain skipped),
  )

  -- and then it has stored the key of each number that it passed, and no other
  pub get-skip_loop :
      (fuel : ℕ) (dh : Key) (until max : ℕ) (chain : ReceivingChain) (skipped : SkippedKeys)
      (id : SkippedKeyId)
      → max < 2 ^ 32
      → until < 2 ^ 32
      → chain.chain_index + fuel ≡ until
      → length skipped + fuel ≤ max
      → Dict.get (skip_loop c fuel dh until max chain skipped).2 id ≡ (
          if id.dh_public == dh && (leb chain.chain_index id.n && ltb id.n until)
          then some (message_key_at chain.chain_key (id.n - chain.chain_index))
          else Dict.get skipped id)
  unfolding skip_loop chain_at message_key_at same_id
  get-skip_loop zero dh until max chain skipped id w u e h = ground arith
  get-skip_loop (suc fuel) dh until max chain skipped id w u e h = ground (
    arith,
    Dict.length-insert-le skipped (record { dh_public = dh; n = chain.chain_index })
        (kdf_chain_step c chain.chain_key).1,
    Dict.get-insert skipped (record { dh_public = dh; n = chain.chain_index }) id
        (kdf_chain_step c chain.chain_key).1,
    list_beq_iff dh id.dh_public,
    list_beq_iff id.dh_public dh,
    chain_at_past chain.chain_key chain.chain_index id.n,
    get-skip_loop fuel dh until max (next_chain chain) (next_skipped dh chain skipped) id,
  )
