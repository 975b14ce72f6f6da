-- ===== src/Tests/Transport.antt =====
-- Frames, the order of the handshake's messages, and two peers that connect to each other.
use post_urbit.Prelude.{
  ℕ, Bytes, Bool, ◌≡◌, ◌≢◌, ◌↔◌, refl, arith, not, none, some, List, [], ◌∷◌, ◌++◌, length, list_eq,
  nat_eq, ok, option_eq, pair_eq,
}
use post_urbit.Prelude.Dict
use post_urbit.Transport.Frames.{write_frames, read_frames, read-write_frames}
use post_urbit.Transport.Handshake.{client_hello, handshake_complete, client, new, complete}
use post_urbit.Transport.Handshake.Order.{
  Event, sends, receives, Act, script, run, admitted, run-complete,
}
use post_urbit.Transport.Glare.{
  Peer, ConnectionInfo, ConnectionTracker, keeps_ours, resolve_glare, tuple_less_than,
  resolve_glare_agrees,
}

abbrev payloads : List Bytes
payloads = (1 ∷ 2 ∷ []) ∷ [] ∷ (3 ∷ []) ∷ []

read-write_frames_example :
    (stream : Bytes) × (write_frames payloads [] ≡ ok stream)
    × (read_frames 16 (length payloads) (stream ++ 9 ∷ []) ≡ ok (payloads, 9 ∷ []))
read-write_frames_example = read-write_frames 16 payloads (9 ∷ []) (omega arith) (omega arith)

-- a greeting, and an end that comes too early
abbrev events : List (Event ℕ)
events =
    sends (
      client_hello (record {
        version = 1;
        client_iid = [];
        client_did = none;
        expected_server_iid = none;
        client_nonce = [];
        timestamp = [];
        tls_binding = [];
      }))
    ∷ receives (handshake_complete (record { version = 1; success = Bool.true; error = none }))
    ∷ []

run-complete_example :
    ((rest : List Act) × (admitted events (new client) ++ rest ≡ script client))
    × (((run events (new client)).state ≡ complete)
        ↔ (admitted events (new client) ≡ script client))
run-complete_example = run-complete client events

abbrev alice : Peer
alice = (1 ∷ [], none)

abbrev bob : Peer
bob = (1 ∷ [], some (2 ∷ []))

abbrev ours : ConnectionInfo
ours = record { we_initiated = Bool.true; established_at = 4 }

abbrev at_alice : ConnectionTracker
at_alice = (bob, ours) ∷ []

abbrev at_bob : ConnectionTracker
at_bob = (alice, ours) ∷ []

different : alice ≢ bob
different h = cc

found_at_alice : Dict.get at_alice bob ≡ some ours
unfolding Dict.get post_urbit.Prelude.pair_beq post_urbit.Prelude.list_beq
    post_urbit.Prelude.option_beq
found_at_alice = refl

found_at_bob : Dict.get at_bob alice ≡ some ours
unfolding Dict.get post_urbit.Prelude.pair_beq post_urbit.Prelude.list_beq
    post_urbit.Prelude.option_beq
found_at_bob = refl

resolve_glare_agrees_example :
    (keeps_ours ours (resolve_glare alice bob at_alice).0 ≡ tuple_less_than alice bob)
    × (keeps_ours ours (resolve_glare bob alice at_bob).0 ≡ not (tuple_less_than alice bob))
resolve_glare_agrees_example =
    resolve_glare_agrees alice bob at_alice at_bob ours ours different found_at_alice found_at_bob
