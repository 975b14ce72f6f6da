-- ===== src/Tests/Envelopes.antt =====
-- Envelopes that are built and opened, and packets and signatures of a relay.
use post_urbit.Prelude.{
  ℕ, Bytes, ◌+◌, ◌≤◌, ◌<◌, List, [], ◌∷◌, ◌++◌, ◌≡◌, refl, ok, some, arith, All, length, ascii, all,
  ltb, true, &&-eq-true, ltb→lt,
}
use post_urbit.Encoding.{base64_encode, base64_decode}
use post_urbit.Messaging.{PuseHeader, PuseEnvelope, decode_puse_envelope}
use post_urbit.Messaging.Sealing.{build_puse_envelope, verify_puse_signature, decrypt_puse_payload}
use post_urbit.Messaging.Sealing.Layout.{IsSendable}
use post_urbit.Messaging.Sealing.Opening.{decode-build_puse_envelope, verify-build_puse_envelope}
use post_urbit.Relay.{
  PurlPacket, encode_purl, decode_purl, Outside, sign_relay_rebind, verify_relay_rebind,
}
use post_urbit.Relay.Packets.{encode-decode_purl}
use post_urbit.Tests.Toys.{
  zeros, toy_ed25519, toy-IsKeyPair, toy_base64, toy-IsBase64, toy_aead, toy-IsAead,
}

abbrev header : PuseHeader
header = record {
  flags = 0;
  sender_iid = zeros 20;
  recipient_iid = zeros 20;
  message_id = zeros 16;
  header_extension = zeros 33;
  nonce = zeros 12;
  ciphertext_length = 0;
}

header-IsSendable : IsSendable header
unfolding post_urbit.Messaging.check_recipient_type
header-IsSendable = record {
  sender_long = refl;
  recipient_long = refl;
  id_long = refl;
  nonce_long = refl;
  flags_good = refl;
  kind_good = refl;
}

abbrev sealed : Bytes
sealed =
    b'P' ∷ b'U' ∷ b'S' ∷ b'E' ∷ 1 ∷ 0 ∷ zeros 56
    ++ (0 ∷ 33 ∷ zeros 33)
    ++ (zeros 12 ++ (0 ∷ 0 ∷ 0 ∷ 2 ∷ 8 ∷ 9 ∷ zeros 64))

header_builds :
    build_puse_envelope toy_aead toy_ed25519 [] header (zeros 32) (8 ∷ 9 ∷ []) ≡ ok sealed
unfolding build_puse_envelope post_urbit.Messaging.Sealing.encrypt_puse_payload
    post_urbit.Messaging.encode_puse_header post_urbit.Messaging.validate_header_extension
    post_urbit.Prelude.to_be_bytes
header_builds = refl

decode-build_puse_envelope_example :
    (e : PuseEnvelope) × (decode_puse_envelope sealed ≡ ok e)
    × (e.header ≡ record header { ciphertext_length = length e.ciphertext })
    × (decrypt_puse_payload toy_aead
          (zeros 32)
          e.header.header_extension
          e.header.nonce
          e.ciphertext
        ≡ ok (8 ∷ 9 ∷ []))
decode-build_puse_envelope_example =
    decode-build_puse_envelope toy_aead toy_ed25519 [] (zeros 32) header (zeros 32) (8 ∷ 9 ∷ [])
      sealed toy-IsAead toy-IsKeyPair header-IsSendable header_builds (omega arith)

key_reads : base64_decode toy_base64 (103 ∷ []) ≡ ok (3 ∷ [])
unfolding base64_decode post_urbit.Prelude.contains
key_reads = refl

verify-build_puse_envelope_example :
    verify_puse_signature toy_base64 toy_ed25519 sealed
      ((103 ∷ []) ∷ base64_encode toy_base64 (zeros 32) ∷ [])
    ≡ ok tt
verify-build_puse_envelope_example =
    verify-build_puse_envelope toy_aead toy_base64 toy_ed25519 [] (zeros 32) header (zeros 32)
      (8 ∷ 9 ∷ []) sealed ((103 ∷ []) ∷ []) [] toy-IsBase64 toy-IsKeyPair
      ((3 ∷ [], key_reads, λ h. refl), tt) header_builds

-- a packet of data with two bytes
abbrev packet : PurlPacket
packet = record {
  packet_type = 1;
  allocation_token = zeros 16;
  destination_iid = 1 ∷ zeros 19;
  payload = 8 ∷ 9 ∷ [];
}

abbrev packet_bytes : Bytes
packet_bytes =
    b'P' ∷ b'U' ∷ b'R' ∷ b'L' ∷ 1 ∷ 1 ∷ (zeros 16 ++ (1 ∷ (zeros 19 ++ (0 ∷ 2 ∷ 8 ∷ 9 ∷ []))))

packet_encodes : encode_purl packet ≡ ok packet_bytes
unfolding encode_purl post_urbit.Relay.validate_purl_packet post_urbit.Relay.validate_purl_type
    post_urbit.Prelude.contains post_urbit.Relay.is_control_packet all
    post_urbit.Prelude.to_be_bytes
packet_encodes = refl

packet_decodes : decode_purl packet_bytes ≡ ok packet
unfolding decode_purl post_urbit.Prelude.list_beq post_urbit.Relay.validate_purl_type
    post_urbit.Prelude.contains post_urbit.Prelude.from_be_bytes
    post_urbit.Relay.validate_purl_packet post_urbit.Relay.is_control_packet all
packet_decodes = refl

small : (bytes : Bytes) → all (λ b. ltb b 256) bytes ≡ true → All (λ b. b < 256) bytes
unfolding all
small [] h = tt
small (b ∷ bytes) h =
    let both = &&-eq-true (ltb b 256) (all (λ x. ltb x 256) bytes) h in
    (ltb→lt b 256 both.0, small bytes both.1)

encode-decode_purl_example : encode_purl packet ≡ ok packet_bytes
unfolding all
encode-decode_purl_example =
    encode-decode_purl packet_bytes packet (small packet_bytes refl) packet_decodes

abbrev relay : Outside
relay = record {
  sha256 = λ message. zeros 32;
  ed25519 = toy_ed25519;
  standard = toy_base64;
  url_safe = toy_base64;
  parse_time = λ text. some 0;
}

abbrev token : Bytes
token = base64_encode toy_base64 (zeros 16)

rebind_signs :
    sign_relay_rebind relay [] (ascii "a1") token (ascii "2026Z")
    ≡ ok (base64_encode toy_base64 (zeros 64))
unfolding sign_relay_rebind post_urbit.Relay.relay_rebind_signature_input
    post_urbit.Relay.validate_timestamp post_urbit.Prelude.contains
    post_urbit.Prelude.ends_with_byte base64_encode post_urbit.Relay.sign_payload
rebind_signs = refl
