-- ===== src/Ratchet/Turns.antt =====
-- ratchet.rs: the change of direction, at which both sides draw new keys from a Diffie-Hellman
-- exchange.
use post_urbit.Prelude.{
  ℕ, ◌≡◌, ◌∙◌, and_then_ok, refl, ap, ap₂, subst₂, PostUrbitError, false, none, some, arith, ok,
  err, inl, inr, ◌==◌, ==_refl, nat_eq, list_eq, and_then, and_then_keeps, Result-cases,
  Option-cases,
}
use post_urbit.Prelude.Dict
use post_urbit.Ratchet.{
  Key, Crypto, DhAgrees, RatchetState, RatchetKeyPair, RatchetHeader, kdf_chain_step, kdf_root,
  ratchet_encrypt, skip_message_keys, skip_chain, skip_loop, ratchet_decrypt, dh_ratchet,
  receive_key, take_key, start_receiving_chain, start_sending_chain, next_sending_key, skipped_eq,
}
use post_urbit.Ratchet.Cases.{
  ratchet_decrypt_new, receive_key_found, skip_message_keys_found, skip_message_keys_missing,
}
use post_urbit.Ratchet.Delivery.{chain_of}

-- It is the turn of `speaker`, which has no sending chain: it knows the key that `listener` sends
-- under, both share the root key, and the listener's key pair fits.
pub record Turn (c : Crypto) (speaker listener : RatchetState) : Type 0 where
  pub silent : speaker.sending_chain_key ≡ none
  pub root : listener.root_key ≡ speaker.root_key
  pub named : speaker.dh_receiving_key ≡ listener.dh_sending_key.public
  pub pair : listener.dh_sending_key.public ≡ c.public_of listener.dh_sending_key.private

module _ (c : Crypto) where
  -- what skipping leaves alone
  skip_message_keys_frame :
      (dh : Key) (until : ℕ) (s : RatchetState)
      → ((skip_message_keys c dh until s).1.root_key ≡ s.root_key)
        × ((skip_message_keys c dh until s).1.dh_sending_key ≡ s.dh_sending_key)
  skip_message_keys_frame dh until s = elim (Option-cases (Dict.get s.receiving_chains dh)) [
    | inl e ↦ rw (skip_message_keys_missing c dh until s e) (refl, refl)
    | inr (chain, e) ↦ rw (skip_message_keys_found c dh until s chain e) (
        and_then_keeps (λ s'. (s'.root_key ≡ s.root_key) × (s'.dh_sending_key ≡ s.dh_sending_key))
          (skip_chain c dh until chain s) _ (unfold skip_chain in (refl, refl)) (λ _ _ h. h))
  ]

  start_sending_first :
      (new root ck : Key) (s : RatchetState)
      → kdf_root c s.root_key (c.diffie_hellman new s.dh_receiving_key) ≡ ok (root, ck)
      → start_sending_chain c new s ≡ (
        ok tt,
        record s {
          previous_sending_chain_length = s.sending_chain_index;
          dh_sending_key = record { private = new; public = c.public_of new };
          root_key = root;
          sending_chain_key = some ck;
          sending_chain_index = 0;
        },
      )
  unfolding start_sending_chain
  start_sending_first new root ck s k = rw (k, start_sending_chain)

  ratchet_encrypt_start :
      (new : Key) (s : RatchetState)
      → s.sending_chain_key ≡ none
      → ratchet_encrypt c new s
        ≡ and_then (start_sending_chain c new s) (λ _ s'. next_sending_key c s')
  unfolding ratchet_encrypt
  ratchet_encrypt_start new s e = ground arith

  ratchet_encrypt_fails :
      (new : Key) (bad : PostUrbitError) (s : RatchetState)
      → s.sending_chain_key ≡ none
      → kdf_root c s.root_key (c.diffie_hellman new s.dh_receiving_key) ≡ err bad
      → (ratchet_encrypt c new s).0 ≡ err bad
  unfolding start_sending_chain
  ratchet_encrypt_fails new bad s e k =
      rw (ratchet_encrypt_start new s e) (rw (k, start_sending_chain) refl)

  start_receiving_first :
      (root ck dh : Key) (s : RatchetState)
      → kdf_root c s.root_key (c.diffie_hellman s.dh_sending_key.private dh) ≡ ok (root, ck)
      → start_receiving_chain c dh s ≡ (
        ok tt,
        record s {
          dh_receiving_key = dh;
          root_key = root;
          sending_chain_key = none;
          receiving_chains = Dict.insert s.receiving_chains dh (chain_of ck 0);
        },
      )
  unfolding start_receiving_chain
  start_receiving_first root ck dh s k = rw (k, start_receiving_chain)

  -- the first message of a new sending chain
  ratchet_encrypt_first :
      (new root ck : Key) (s : RatchetState)
      → s.sending_chain_key ≡ none
      → kdf_root c s.root_key (c.diffie_hellman new s.dh_receiving_key) ≡ ok (root, ck)
      → ratchet_encrypt c new s ≡ (
        ok (
          record { dh_public = c.public_of new; pn = s.sending_chain_index; n = 0 },
          (kdf_chain_step c ck).1,
        ),
        record s {
          previous_sending_chain_length = s.sending_chain_index;
          dh_sending_key = record { private = new; public = c.public_of new };
          root_key = root;
          sending_chain_key = some (kdf_chain_step c ck).0;
          sending_chain_index = 1;
        },
      )
  ratchet_encrypt_first new root ck s e k =
      ratchet_encrypt_start new s e
      ∙ rw (start_sending_first new root ck s k) (unfold next_sending_key in refl)

  module _ (agrees : DhAgrees c) (new : Key) {speaker listener : RatchetState}
      (turn : Turn c speaker listener)
      (fresh : (c.public_of new == listener.dh_receiving_key) ≡ false)
      (unseen : Dict.get listener.skipped_keys (record { dh_public = c.public_of new; n = 0 })
        ≡ none)
      (room : (skip_message_keys c listener.dh_receiving_key speaker.sending_chain_index listener).0
        ≡ ok tt) where
    -- both sides compute one Diffie-Hellman secret
    same_secret :
        c.diffie_hellman listener.dh_sending_key.private (c.public_of new)
        ≡ c.diffie_hellman new speaker.dh_receiving_key
    same_secret = rw (turn.named, turn.pair) (agrees listener.dh_sending_key.private new)

    -- the listener after the DH step, with the new root and chain key
    abbrev turned : Key → Key → RatchetState
    turned root ck =
        let s =
          (skip_message_keys c listener.dh_receiving_key speaker.sending_chain_index listener).1 in
        record s {
          dh_receiving_key = c.public_of new;
          root_key = root;
          sending_chain_key = none;
          receiving_chains = Dict.insert s.receiving_chains (c.public_of new) (chain_of ck 0);
        }

    abbrev first_header : RatchetHeader
    first_header = record { dh_public = c.public_of new; pn = speaker.sending_chain_index; n = 0 }

    dh_ratchet-turned :
        (root ck : Key)
        → kdf_root c speaker.root_key (c.diffie_hellman new speaker.dh_receiving_key)
          ≡ ok (root, ck)
        → dh_ratchet c first_header listener ≡ (ok tt, turned root ck)
    unfolding dh_ratchet
    dh_ratchet-turned root ck k =
        let frame =
          skip_message_keys_frame listener.dh_receiving_key speaker.sending_chain_index listener in
        and_then_ok
          (skip_message_keys c listener.dh_receiving_key speaker.sending_chain_index listener) _
          room
        ∙ start_receiving_first root ck (c.public_of new)
            (skip_message_keys c listener.dh_receiving_key speaker.sending_chain_index listener).1
            (ap₂ (kdf_root c) (frame.0 ∙ turn.root) (
                ap (λ (p : RatchetKeyPair). c.diffie_hellman p.private (c.public_of new)) frame.1
                ∙ same_secret)
              ∙ k)

    receive_first :
        (root ck : Key)
        → receive_key c first_header (turned root ck)
          ≡ take_key c
              (c.public_of new)
              (chain_of ck 0)
              (skip_chain c (c.public_of new) 0 (chain_of ck 0) (turned root ck)).1
    receive_first root ck =
        rw
          (receive_key_found c first_header (turned root ck) (chain_of ck 0)
            (simp (Dict.get-insert, ==_refl)))
          (and_then_ok (skip_chain c (c.public_of new) 0 (chain_of ck 0) (turned root ck)) _
            (unfold skip_chain skip_loop in refl))

    decrypt_first :
        (root ck : Key)
        → kdf_root c speaker.root_key (c.diffie_hellman new speaker.dh_receiving_key)
          ≡ ok (root, ck)
        → ratchet_decrypt c first_header listener
          ≡ take_key c
              (c.public_of new)
              (chain_of ck 0)
              (skip_chain c (c.public_of new) 0 (chain_of ck 0) (turned root ck)).1
    decrypt_first root ck k =
        rw (ratchet_decrypt_new c first_header listener unseen fresh, dh_ratchet-turned root ck k)
          (receive_first root ck)

    Turn-passes_first :
        (root ck : Key)
        → kdf_root c speaker.root_key (c.diffie_hellman new speaker.dh_receiving_key)
          ≡ ok (root, ck)
        → ((ratchet_decrypt c first_header listener).0 ≡ ok (kdf_chain_step c ck).1)
          × Turn c (ratchet_decrypt c first_header listener).1 (ratchet_encrypt c new speaker).1
    unfolding take_key skip_chain
    Turn-passes_first root ck k =
        rw (decrypt_first root ck k, ratchet_encrypt_first new root ck speaker turn.silent k)
          (refl, record { silent = refl; root = refl; named = refl; pair = refl })

    -- When a side that has only listened speaks, under a new key pair, the other side gets the same
    -- message key, and after it the turn has passed, with the root keys equal again.
    pub Turn-passes :
        (h : RatchetHeader) (key : Key)
        → (ratchet_encrypt c new speaker).0 ≡ ok (h, key)
        → ((ratchet_decrypt c h listener).0 ≡ ok key)
          × Turn c (ratchet_decrypt c h listener).1 (ratchet_encrypt c new speaker).1
    Turn-passes h key e =
        elim (Result-cases
          (kdf_root c speaker.root_key (c.diffie_hellman new speaker.dh_receiving_key))) [
            | inl ((root, ck), k) ↦
                let sent = ratchet_encrypt_first new root ck speaker turn.silent k in
                let headers : first_header ≡ h = ground (arith, sent, e) in
                let keys : (kdf_chain_step c ck).1 ≡ key = ground (arith, sent, e) in
                subst₂
                  (λ x y.
                    ((ratchet_decrypt c x listener).0 ≡ ok y)
                    × Turn c (ratchet_decrypt c x listener).1 (ratchet_encrypt c new speaker).1)
                  headers keys (Turn-passes_first root ck k)
            | inr (bad, k) ↦ absurd (cc (ratchet_encrypt_fails new bad speaker turn.silent k, e))
          ]
