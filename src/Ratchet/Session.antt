-- ===== src/Ratchet/Session.antt =====
-- ratchet.rs: a sender and a receiver that share a chain.
use post_urbit.Prelude.{
  ℕ, zero, suc, ◌+◌, ◌-◌, ◌^◌, ◌≤◌, ◌<◌, ◌≡◌, ◌∙◌, refl, sym, ap, none, some, arith, length, ok,
  ==_refl, nat_eq, list_eq, u32,
}
use post_urbit.Prelude.Dict
use post_urbit.Ratchet.{
  Key, Crypto, RatchetState, RatchetHeader, kdf_chain_step, ratchet_decrypt, ratchet_encrypt,
  skipped_id, skipped_eq,
}
use post_urbit.Ratchet.Cases.{ratchet_decrypt_stored}
use post_urbit.Ratchet.Delivery.{IsAhead, chain_of, ratchet_decrypt_ahead, ratchet_decrypt_frame}
use post_urbit.Ratchet.Chain.{chain_at, message_key_at}

-- `sender` sends on the chain that `receiver` receives on: both stand at `index` with chain key
-- `ck`, and the receiver holds no key for a message that is not sent yet.
pub record InStep (sender receiver : RatchetState) (ck : Key) (index : ℕ) : Type 0 where
  pub sending : sender.sending_chain_key ≡ some ck
  pub place : sender.sending_chain_index ≡ index
  pub named : sender.dh_sending_key.public ≡ receiver.dh_receiving_key
  pub chain :
      Dict.get receiver.receiving_chains receiver.dh_receiving_key ≡ some (chain_of ck index)
  pub unseen :
      (n : ℕ)
      → index ≤ n
      → Dict.get receiver.skipped_keys (record { dh_public = receiver.dh_receiving_key; n = n })
        ≡ none
  pub width : receiver.max_skip < 2 ^ 32

-- the header of the message that is sent after `n` others
abbrev pub header_after : RatchetState → ℕ → RatchetHeader
header_after s n = record {
  dh_public = s.dh_sending_key.public;
  pn = s.previous_sending_chain_length;
  n = s.sending_chain_index + n;
}

module _ (c : Crypto) (draw : Key) where
  -- the sender after `n` messages
  unfoldable pub sends : ℕ → RatchetState → RatchetState
  sends zero s = s
  sends (suc n) s = sends n (ratchet_encrypt c draw s).1

  ratchet_encrypt_on_chain :
      (s : RatchetState) (ck : Key)
      → s.sending_chain_key ≡ some ck
      → ratchet_encrypt c draw s ≡ (
        ok (header_after s 0, message_key_at c ck 0),
        record s {
          sending_chain_key = some (kdf_chain_step c ck).0;
          sending_chain_index = u32 (s.sending_chain_index + 1);
        },
      )
  unfolding ratchet_encrypt message_key_at chain_at
  ratchet_encrypt_on_chain s ck e = ground arith

  -- The (n+1)-th message from here has number `index + n` and the n-th key of the chain.
  pub sends-key :
      (n : ℕ) (s : RatchetState) (ck : Key)
      → s.sending_chain_key ≡ some ck
      → s.sending_chain_index + n < 2 ^ 32
      → (ratchet_encrypt c draw (sends n s)).0 ≡ ok (header_after s n, message_key_at c ck n)
  unfolding sends
  sends-key zero s ck e w = rw (ratchet_encrypt_on_chain s ck e) refl
  sends-key (suc n) s ck e w =
      let step = ratchet_encrypt_on_chain s ck e in
      let rest =
        sends-key n (ratchet_encrypt c draw s).1 (kdf_chain_step c ck).0 (rw step refl)
          (rw step (omega arith)) in
      rw (rest, step) (unfold message_key_at chain_at in ground arith)

  module _ {sender receiver : RatchetState} {ck : Key} {index : ℕ}
      (i : InStep sender receiver ck index) where
    InStep-IsAhead :
        (n : ℕ)
        → index + n < 2 ^ 32
        → length receiver.skipped_keys + n ≤ receiver.max_skip
        → IsAhead (header_after sender n) receiver ck index
    InStep-IsAhead n w r = record {
      current = i.named;
      new = rw (i.named, i.place) (i.unseen (index + n) (omega arith));
      chain = rw i.named i.chain;
      ahead = omega (arith, i.place);
      fits = omega (arith, i.place);
      width = i.width;
      room = omega (arith, i.place);
    }

    -- Sending one message and receiving it gives both sides the same key, and keeps them in step.
    pub exchange_one :
        index + 1 < 2 ^ 32
        → length receiver.skipped_keys ≤ receiver.max_skip
        → ((ratchet_encrypt c draw sender).0 ≡ ok (header_after sender 0, message_key_at c ck 0))
          × ((ratchet_decrypt c (header_after sender 0) receiver).0 ≡ ok (message_key_at c ck 0))
          × InStep
              (ratchet_encrypt c draw sender).1
              (ratchet_decrypt c (header_after sender 0) receiver).1
              (kdf_chain_step c ck).0
              (index + 1)
    exchange_one w r =
        let sent = ratchet_encrypt_on_chain sender ck i.sending in
        let a = InStep-IsAhead 0 (omega arith) (omega arith) in
        let got = ratchet_decrypt_ahead c (header_after sender 0) receiver ck index a in
        let frame = ratchet_decrypt_frame c (header_after sender 0) receiver ck index a in
        let none_left : sender.sending_chain_index + 0 - index ≡ 0 = omega (arith, i.place) in
        (
          rw sent refl,
          rw got.0 (rw none_left refl),
          record {
            sending = rw sent refl;
            place = rw sent (omega (arith, i.place));
            named = rw (sent, frame.0) i.named;
            chain =
                ap
                  (Dict.get (ratchet_decrypt c (header_after sender 0) receiver).1.receiving_chains)
                  (frame.0 ∙ sym i.named)
                ∙ got.1
                ∙ rw none_left (unfold chain_at in ground (arith, i.place));
            unseen = λ n h. rw (frame.0, got.2) (ground (arith, i.place, i.unseen n (omega arith)));
            width = rw frame.1 i.width;
          },
        )

    -- A message that is overtaken by a later one still gets the key under which it was sent: of two
    -- messages of a chain, the later received first, both keys agree with the sender's.
    pub overtaken_agrees :
        (late ahead : ℕ)
        → late < ahead
        → index + ahead < 2 ^ 32
        → length receiver.skipped_keys + ahead ≤ receiver.max_skip
        → ((ratchet_encrypt c draw (sends ahead sender)).0
            ≡ ok (header_after sender ahead, message_key_at c ck ahead))
          × ((ratchet_encrypt c draw (sends late sender)).0
              ≡ ok (header_after sender late, message_key_at c ck late))
          × ((ratchet_decrypt c (header_after sender ahead) receiver).0
              ≡ ok (message_key_at c ck ahead))
          × ((ratchet_decrypt c
                (header_after sender late)
                (ratchet_decrypt c (header_after sender ahead) receiver).1).0
              ≡ ok (message_key_at c ck late))
    overtaken_agrees late ahead l w r =
        let a = InStep-IsAhead ahead w r in
        let gap : (n : ℕ) → sender.sending_chain_index + n - index ≡ n =
          λ n. omega (arith, i.place) in
        let got = ratchet_decrypt_ahead c (header_after sender ahead) receiver ck index a in
        let stored : Dict.get
              (ratchet_decrypt c (header_after sender ahead) receiver).1.skipped_keys
              (skipped_id (header_after sender late))
            ≡ some (message_key_at c ck late) =
          rw (got.2, ==_refl) (ground (arith, i.place, gap late)) in
        (
          sends-key ahead sender ck i.sending (omega (arith, i.place)),
          sends-key late sender ck i.sending (omega (arith, i.place)),
          rw got.0 (ap ok (ap (message_key_at c ck) (gap ahead))),
          rw
              (ratchet_decrypt_stored c (header_after sender late)
                (ratchet_decrypt c (header_after sender ahead) receiver).1
                (message_key_at c ck late) stored)
              refl,
        )
