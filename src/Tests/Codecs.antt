-- ===== src/Tests/Codecs.antt =====
-- Encodings and messages.
use post_urbit.Prelude.{
  ℕ, zero, suc, Bytes, ◌+◌, ◌≤◌, ◌<◌, List, [], ◌∷◌, ◌++◌, ◌≡◌, refl, ok, err, is_ok, arith, length,
  ◌>>=◌, if◌then◌else◌, ◌==◌, nat_eq, invalid_input, ascii,
}
use post_urbit.Encoding.{
  crockford_base32_encode, crockford_base32_decode, validate_crockford_base32_lower,
}
use post_urbit.Encoding.RoundTrip.{decode-encode}
use post_urbit.Encoding.Validity.{is_ok-decode}
use post_urbit.Messaging.{
  PuseEnvelope, initial, ratchet, group, build_initial_extension, build_ratchet_extension,
  build_group_extension, parse_header_extension, decode_puse_envelope,
}
use post_urbit.Messaging.Extensions.{parse-build_extension}
use post_urbit.Messaging.Lengths.{decode-length}

decode-encode_example :
    crockford_base32_decode (crockford_base32_encode (255 ∷ 0 ∷ 7 ∷ [])) ≡ ok (255 ∷ 0 ∷ 7 ∷ [])
decode-encode_example =
    decode-encode (255 ∷ 0 ∷ 7 ∷ []) (omega arith, (omega arith, (omega arith, tt)))

is_ok-decode_example :
    is_ok (crockford_base32_decode (b'u' ∷ b'7' ∷ []))
    ≡ is_ok (validate_crockford_base32_lower (b'u' ∷ b'7' ∷ []))
is_ok-decode_example = is_ok-decode b'u' (b'7' ∷ [])

abbrev zeros : ℕ → Bytes
zeros zero = []
zeros (suc n) = 0 ∷ zeros n

parse-build_extension_example :
    (parse_header_extension (build_initial_extension (zeros 32)) ≡ ok (initial (zeros 32)))
    × (parse_header_extension (build_ratchet_extension (zeros 32) 5 70000)
        ≡ ok (ratchet (zeros 32) 5 70000))
    × ((build_group_extension (zeros 16) 70000 >>= parse_header_extension)
        ≡ ok (group (zeros 16) 70000))
parse-build_extension_example =
    parse-build_extension (zeros 32) (zeros 16) 5 70000 refl refl (omega arith) (omega arith)

-- an envelope with an initial extension and two bytes of ciphertext
abbrev envelope_bytes : Bytes
envelope_bytes =
    b'P' ∷ b'U' ∷ b'S' ∷ b'E' ∷ 1 ∷ 0 ∷ zeros 56
    ++ (0 ∷ 33 ∷ zeros 33)
    ++ (zeros 12 ++ (0 ∷ 0 ∷ 0 ∷ 2 ∷ 8 ∷ 9 ∷ zeros 64))

abbrev envelope : PuseEnvelope
envelope = record {
  header = record {
    flags = 0;
    sender_iid = zeros 20;
    recipient_iid = zeros 20;
    message_id = zeros 16;
    header_extension = zeros 33;
    nonce = zeros 12;
    ciphertext_length = 2;
  };
  ciphertext = 8 ∷ 9 ∷ [];
  signature = zeros 64;
}

envelope_decodes : decode_puse_envelope envelope_bytes ≡ ok envelope
unfolding decode_puse_envelope post_urbit.Prelude.list_beq post_urbit.Prelude.from_be_bytes
    post_urbit.Messaging.validate_header_extension post_urbit.Messaging.check_recipient_type
envelope_decodes = refl

decode-length_example :
    (length envelope_bytes ≤ 1048576)
    × (length envelope_bytes
        ≡ 144 + length envelope.header.header_extension + length envelope.ciphertext)
decode-length_example = decode-length envelope_bytes envelope envelope_decodes
