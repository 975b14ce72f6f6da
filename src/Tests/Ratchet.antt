-- ===== src/Tests/Ratchet.antt =====
-- Two small sessions, with primitives that are easily computed.
use post_urbit.Prelude.{
  ℕ, Bytes, ◌+◌, ◌-◌, ◌≤◌, ◌<◌, ◌^◌, List, [], ◌∷◌, ◌++◌, ◌≡◌, refl, ap, none, some, ok, arith,
  get_or, length, Result, true, false, suc, nat_eq, list_eq, if◌then◌else◌, ◌==◌, ◌&&◌, leb, ltb,
  u32,
}
use post_urbit.Prelude.Dict
use post_urbit.Ratchet.{
  Crypto, DhAgrees, Key, RatchetState, RatchetHeader, SkippedKeyId, skipped_eq, ratchet_encrypt,
  ratchet_decrypt, kdf_chain_step, kdf_initial, two_dh_initiator, two_dh_responder,
  initialize_initiator, initialize_responder, initial_message_key, initial_receive_message_key,
  skip_message_keys,
}
use post_urbit.Ratchet.Chain.{message_key_at, chain_at}
use post_urbit.Ratchet.Delivery.{IsAhead, chain_of, ratchet_decrypt_ahead}
use post_urbit.Ratchet.Session.{InStep, header_after, sends, exchange_one, overtaken_agrees}
use post_urbit.Ratchet.Agreement.{first_message_agrees}
use post_urbit.Ratchet.Turns.{Turn, Turn-passes}
use post_urbit.Ratchet.Bounds.{length-skipped_keys-le, run, encrypts, decrypts}
use post_urbit.Ratchet.Replay.{IsOnChain, replay_shifts_keys}

abbrev toy : Crypto
toy = record {
  hmac_sha256 = λ key message. key ++ message;
  hkdf_expand = λ salt input info n. some (salt ++ input);
  public_of = λ key. key;
  diffie_hellman = λ a b. (get_or a 0 0 + get_or b 0 0) ∷ [];
}

toy-DhAgrees : DhAgrees toy
toy-DhAgrees a b = ap (λ n. n ∷ []) (omega arith)

abbrev alice : RatchetState
alice = record {
  peer_iid = 98 ∷ [];
  dh_sending_key = record { private = 9 ∷ []; public = 9 ∷ [] };
  dh_receiving_key = 2 ∷ [];
  root_key = 4 ∷ [];
  sending_chain_key = some (5 ∷ []);
  sending_chain_index = 0;
  previous_sending_chain_length = 0;
  receiving_chains = [];
  skipped_keys = [];
  max_skip = 100;
}

abbrev bob : RatchetState
bob = record {
  peer_iid = 97 ∷ [];
  dh_sending_key = record { private = 2 ∷ []; public = 2 ∷ [] };
  dh_receiving_key = 9 ∷ [];
  root_key = 4 ∷ [];
  sending_chain_key = none;
  sending_chain_index = 0;
  previous_sending_chain_length = 0;
  receiving_chains = (9 ∷ [], chain_of (5 ∷ []) 0) ∷ [];
  skipped_keys = [];
  max_skip = 100;
}

alice-bob-InStep : InStep alice bob (5 ∷ []) 0
unfolding Dict.get post_urbit.Prelude.list_beq
alice-bob-InStep = record {
  sending = refl;
  place = refl;
  named = refl;
  chain = refl;
  unseen = λ n h. refl;
  width = omega arith;
}

overtaken_agrees_example :
    ((ratchet_encrypt toy [] (sends toy [] 2 alice)).0
      ≡ ok (header_after alice 2, message_key_at toy (5 ∷ []) 2))
    × ((ratchet_encrypt toy [] (sends toy [] 0 alice)).0
        ≡ ok (header_after alice 0, message_key_at toy (5 ∷ []) 0))
    × ((ratchet_decrypt toy (header_after alice 2) bob).0 ≡ ok (message_key_at toy (5 ∷ []) 2))
    × ((ratchet_decrypt toy
          (header_after alice 0)
          (ratchet_decrypt toy (header_after alice 2) bob).1).0
        ≡ ok (message_key_at toy (5 ∷ []) 0))
overtaken_agrees_example =
    overtaken_agrees toy [] alice-bob-InStep 0 2 (omega arith) (omega arith) (omega arith)

exchange_one_example :
    ((ratchet_encrypt toy [] alice).0 ≡ ok (header_after alice 0, message_key_at toy (5 ∷ []) 0))
    × ((ratchet_decrypt toy (header_after alice 0) bob).0 ≡ ok (message_key_at toy (5 ∷ []) 0))
    × InStep
        (ratchet_encrypt toy [] alice).1
        (ratchet_decrypt toy (header_after alice 0) bob).1
        (kdf_chain_step toy (5 ∷ [])).0
        1
exchange_one_example = exchange_one toy [] alice-bob-InStep (omega arith) (omega arith)

bob-alice-Turn : Turn toy bob alice
bob-alice-Turn = record { silent = refl; root = refl; named = refl; pair = refl }

abbrev first_header : RatchetHeader
first_header = record { dh_public = 3 ∷ []; pn = 0; n = 0 }

abbrev first_key : Key
first_key = 1 ∷ []

bob_speaks : (ratchet_encrypt toy (3 ∷ []) bob).0 ≡ ok (first_header, first_key)
unfolding ratchet_encrypt post_urbit.Ratchet.kdf_root kdf_chain_step
bob_speaks = refl

alice_has_room : (skip_message_keys toy (2 ∷ []) 0 alice).0 ≡ ok tt
unfolding skip_message_keys Dict.get
alice_has_room = refl

Turn-passes_example :
    ((ratchet_decrypt toy first_header alice).0 ≡ ok first_key)
    × Turn toy (ratchet_decrypt toy first_header alice).1 (ratchet_encrypt toy (3 ∷ []) bob).1
unfolding post_urbit.Prelude.list_beq Dict.get
Turn-passes_example =
    Turn-passes toy toy-DhAgrees (3 ∷ []) bob-alice-Turn refl refl alice_has_room first_header
      first_key bob_speaks

abbrev alice_started : RatchetState
alice_started = initialize_initiator toy (97 ∷ 98 ∷ 4 ∷ 5 ∷ []) [] (3 ∷ []) (98 ∷ []) (2 ∷ [])

abbrev bob_started : RatchetState
bob_started = initialize_responder toy (97 ∷ 98 ∷ 4 ∷ 5 ∷ []) [] (2 ∷ []) (97 ∷ []) (6 ∷ [])

abbrev secrets : Bytes × Bytes
secrets = two_dh_initiator toy (1 ∷ []) (2 ∷ []) (3 ∷ [])

secrets_derive :
    kdf_initial toy secrets.0 secrets.1 (97 ∷ []) (98 ∷ []) ≡ ok (97 ∷ 98 ∷ 4 ∷ 5 ∷ [], [])
unfolding kdf_initial two_dh_initiator post_urbit.Prelude.compare_bytes
secrets_derive = refl

first_message_agrees_example :
    (kdf_initial toy
        (two_dh_responder toy (3 ∷ []) (1 ∷ []) (2 ∷ [])).0
        (two_dh_responder toy (3 ∷ []) (1 ∷ []) (2 ∷ [])).1
        (98 ∷ [])
        (97 ∷ [])
      ≡ ok (97 ∷ 98 ∷ 4 ∷ 5 ∷ [], []))
    × ((initial_message_key toy alice_started).0
        ≡ ok (record { ephemeral_public = 2 ∷ []; message_key = (kdf_chain_step toy []).1 }))
    × ((initial_receive_message_key toy bob_started).0 ≡ ok (kdf_chain_step toy []).1)
    × InStep
        (initial_message_key toy alice_started).1
        (initial_receive_message_key toy bob_started).1
        (kdf_chain_step toy []).0
        1
first_message_agrees_example =
    first_message_agrees toy toy-DhAgrees (1 ∷ []) (2 ∷ []) (3 ∷ []) (6 ∷ []) (97 ∷ []) (98 ∷ [])
      (97 ∷ 98 ∷ 4 ∷ 5 ∷ []) [] secrets_derive

header_two-IsAhead : IsAhead (header_after alice 2) bob (5 ∷ []) 0
unfolding Dict.get post_urbit.Prelude.list_beq
header_two-IsAhead = record {
  current = refl;
  new = refl;
  chain = refl;
  ahead = omega arith;
  fits = omega arith;
  width = omega arith;
  room = omega arith;
}

ratchet_decrypt_ahead_example :
    ((ratchet_decrypt toy (header_after alice 2) bob).0 ≡ ok (message_key_at toy (5 ∷ []) 2))
    × (Dict.get (ratchet_decrypt toy (header_after alice 2) bob).1.receiving_chains (9 ∷ [])
        ≡ some (chain_of (chain_at toy (5 ∷ []) 3) 3))
    × ((id : SkippedKeyId)
        → Dict.get (ratchet_decrypt toy (header_after alice 2) bob).1.skipped_keys id ≡ (
            if id.dh_public == 9 ∷ [] && (leb 0 id.n && ltb id.n 2)
            then some (message_key_at toy (5 ∷ []) (id.n - 0))
            else Dict.get bob.skipped_keys id))
ratchet_decrypt_ahead_example =
    ratchet_decrypt_ahead toy (header_after alice 2) bob (5 ∷ []) 0 header_two-IsAhead

length-skipped_keys-le_example :
    (length
        (run toy
          (initialize_initiator toy [] [] (3 ∷ []) [] (2 ∷ []))
          (decrypts (header_after alice 2) ∷ encrypts (7 ∷ []) ∷ [])).skipped_keys
      ≤ 100)
    × (length
          (run toy
            (initialize_responder toy [] [] (3 ∷ []) [] (2 ∷ []))
            (decrypts (header_after alice 2) ∷ encrypts (7 ∷ []) ∷ [])).skipped_keys
        ≤ 100)
length-skipped_keys-le_example =
    length-skipped_keys-le toy [] [] (3 ∷ []) [] (2 ∷ [])
      (decrypts (header_after alice 2) ∷ encrypts (7 ∷ []) ∷ [])

abbrev bob_later : RatchetState
bob_later = record bob { receiving_chains = (9 ∷ [], chain_of (5 ∷ []) 1) ∷ [] }

replayed-IsOnChain : IsOnChain (header_after alice 0) bob_later (5 ∷ []) 1
unfolding Dict.get post_urbit.Prelude.list_beq
replayed-IsOnChain = record { current = refl; new = refl; chain = refl }

replay_shifts_keys_example :
    ((ratchet_decrypt toy (header_after alice 0) bob_later).0 ≡ ok (message_key_at toy (5 ∷ []) 0))
    × ((ratchet_decrypt toy
          (header_after alice 1)
          (ratchet_decrypt toy (header_after alice 0) bob_later).1).0
        ≡ ok (message_key_at toy (5 ∷ []) 1))
unfolding Dict.get
replay_shifts_keys_example =
    replay_shifts_keys toy (header_after alice 0) (header_after alice 1) bob_later (5 ∷ []) 1
      replayed-IsOnChain (omega arith) (omega arith) refl refl refl
