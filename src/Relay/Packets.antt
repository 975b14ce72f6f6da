-- ===== src/Relay/Packets.antt =====
-- relay.rs: a packet and its bytes determine each other.
use post_urbit.Prelude.{
  ℕ, All, Bytes, true, ◌≤◌, ◌<◌, ◌+◌, [], ◌∷◌, ◌++◌, ◌≡◌, refl, sym, ap, ◌∙◌, length, take, drop,
  slice, get_or, leb, ltb, guard, nat_eq, list_eq, ◌==◌, Result, ok, err, ◌>>=◌, ◌>>◌, >>=-eq-ok,
  guard-eq-ok, arith, ascii, leb→le, lt→ltb, length-drop, le→leb, subst, from-to_be_bytes2,
  drop_past, length-append, to_be_bytes, from_be_bytes, length-to_be_bytes, length-append,
  append_assoc, slice_at, slice-drop, take-drop, All-drop, All-take, length-slice,
  to-from_be_bytes2, eq_of_==, nat_beq_iff, slice_last, take_exact, drop_exact, invalid_input,
  ==_refl, passed,
}
use post_urbit.Relay.{
  PurlPacket, encode_purl, decode_purl, validate_purl_packet, validate_purl_type,
}

validate_purl_packet-ok :
    (packet : PurlPacket)
    → validate_purl_packet packet ≡ ok tt
    → (validate_purl_type packet.packet_type ≡ ok tt) × (leb (length packet.payload) 1200 ≡ true)
unfolding validate_purl_packet
validate_purl_packet-ok packet h =
    let kind = >>=-eq-ok (validate_purl_type packet.packet_type) _ h in
    let small = passed (leb (length packet.payload) 1200) "purl payload too large" _ kind.2 in
    (kind.1, small.0)

decode_parts :
    (bytes : Bytes) (packet : PurlPacket)
    → leb 44 (length bytes) ≡ true
    → take 4 bytes ≡ ascii "PURL"
    → get_or bytes 4 0 ≡ 1
    → get_or bytes 5 0 ≡ packet.packet_type
    → from_be_bytes (slice 42 2 bytes) ≡ length packet.payload
    → length bytes ≡ 44 + length packet.payload
    → slice 6 16 bytes ≡ packet.allocation_token
    → slice 22 20 bytes ≡ packet.destination_iid
    → drop 44 bytes ≡ packet.payload
    → validate_purl_packet packet ≡ ok tt
    → decode_purl bytes ≡ ok packet
unfolding decode_purl ascii post_urbit.Prelude.list_beq
decode_parts bytes packet long magic version kind len total token dest payload valid =
    let fine = validate_purl_packet-ok packet valid in
    rw
      (
        long,
        magic,
        version,
        kind,
        len,
        total,
        token,
        dest,
        payload,
        fine.0,
        fine.1,
        ==_refl (44 + length packet.payload),
        valid,
      )
      refl

-- A packet with a token of 16 bytes and a destination of 20 that is encoded is decoded again.
pub decode-encode_purl :
    (packet : PurlPacket) (bytes : Bytes)
    → length packet.allocation_token ≡ 16
    → length packet.destination_iid ≡ 20
    → encode_purl packet ≡ ok bytes
    → decode_purl bytes ≡ ok packet
unfolding encode_purl ascii
decode-encode_purl packet bytes long_token long_dest h =
    let valid = >>=-eq-ok (validate_purl_packet packet) _ h in
    let small = (validate_purl_packet-ok packet valid.1).1 in
    let limit = leb→le (length packet.payload) 1200 small in
    let fits = passed (ltb (length packet.payload) 65536) "purl payload length" _ valid.2 in
    let len = to_be_bytes 2 (length packet.payload) in
    let len_long = length-to_be_bytes 2 (length packet.payload) in
    let tail = len ++ packet.payload in
    let same : ok (
          80
          ∷ 85
          ∷ 82
          ∷ 76
          ∷ 1
          ∷ packet.packet_type
          ∷ (packet.allocation_token ++ (packet.destination_iid ++ tail)))
        ≡ ok bytes =
      fits.1 in
    let long_rest = length-append packet.destination_iid tail in
    let long_tail = length-append len packet.payload in
    let long_all = length-append packet.allocation_token (packet.destination_iid ++ tail) in
    subst (λ r. (r >>= decode_purl) ≡ ok packet) same
      (decode_parts _ packet
        (le→leb 44 _
          (omega (arith, long_all, long_rest, long_tail, len_long, long_token, long_dest)))
        refl refl refl
        (ap from_be_bytes (
            ap (take 2) (
              drop_past 16 20 packet.allocation_token (packet.destination_iid ++ tail) long_token
              ∙ drop_exact 20 packet.destination_iid tail long_dest)
            ∙ take_exact 2 len packet.payload len_long)
          ∙ from-to_be_bytes2 (length packet.payload) (omega (arith, limit)))
        (omega (arith, long_all, long_rest, long_tail, len_long, long_token, long_dest))
        (take_exact 16 packet.allocation_token _ long_token)
        (slice_at 16 20 packet.allocation_token packet.destination_iid tail long_token long_dest)
        (drop_past 16 22 packet.allocation_token (packet.destination_iid ++ tail) long_token
          ∙ (drop_past 20 2 packet.destination_iid tail long_dest
              ∙ drop_exact 2 len packet.payload len_long))
        valid.1)

pieces :
    (bytes : Bytes)
    → 44 ≤ length bytes
    → bytes
      ≡ take 4 bytes
        ++ (get_or bytes 4 0
            ∷ get_or bytes 5 0
            ∷ (slice 6 16 bytes ++ (slice 22 20 bytes ++ (slice 42 2 bytes ++ drop 44 bytes))))
pieces (a ∷ b ∷ c ∷ d ∷ e ∷ f ∷ rest) h =
    ap (λ r. a ∷ b ∷ c ∷ d ∷ e ∷ f ∷ r)
      (sym (
        ap (λ r. take 16 rest ++ r)
          (ap (λ r. slice 16 20 rest ++ r) (slice-drop 36 2 rest) ∙ slice-drop 16 20 rest)
        ∙ take-drop 16 rest))
pieces bytes h = ground (arith, h)

encode_parts :
    (bytes : Bytes) (packet : PurlPacket)
    → validate_purl_packet packet ≡ ok tt
    → bytes
      ≡ ascii "PURL"
        ++ (1
            ∷ packet.packet_type
            ∷ (packet.allocation_token
                ++ (packet.destination_iid
                    ++ (to_be_bytes 2 (length packet.payload) ++ packet.payload))))
    → encode_purl packet ≡ ok bytes
unfolding encode_purl
encode_parts bytes packet valid layout =
    let limit = leb→le (length packet.payload) 1200 (validate_purl_packet-ok packet valid).1 in
    let fits = lt→ltb (length packet.payload) 65536 (omega (arith, limit)) in
    rw (valid, fits, layout) refl

-- The bytes that are decoded are those that the packet is encoded to.
pub encode-decode_purl :
    (bytes : Bytes) (packet : PurlPacket)
    → All (λ b. b < 256) bytes
    → decode_purl bytes ≡ ok packet
    → encode_purl packet ≡ ok bytes
unfolding decode_purl encode_purl
encode-decode_purl bytes packet bounds h =
    let payload_len = from_be_bytes (slice 42 2 bytes) in
    let read : PurlPacket = record {
      packet_type = get_or bytes 5 0;
      allocation_token = slice 6 16 bytes;
      destination_iid = slice 22 20 bytes;
      payload = drop 44 bytes;
    } in
    let long = passed (leb 44 (length bytes)) "purl length" _ h in
    let magic = passed (take 4 bytes == ascii "PURL") "purl magic" _ long.1 in
    let version = passed (get_or bytes 4 0 == 1) "purl version" _ magic.1 in
    let kind = >>=-eq-ok (validate_purl_type (get_or bytes 5 0)) _ version.1 in
    let small = passed (leb payload_len 1200) "purl payload too large" _ kind.2 in
    let total = passed (length bytes == 44 + payload_len) "purl payload length" _ small.1 in
    let valid = >>=-eq-ok (validate_purl_packet read) _ total.1 in
    let same : ok read ≡ ok packet = valid.2 in
    let fits = leb→le 44 (length bytes) long.0 in
    let all_read : length bytes ≡ 44 + payload_len = eq_of_== total.0 in
    let marked : take 4 bytes ≡ ascii "PURL" = eq_of_== magic.0 in
    let first : get_or bytes 4 0 ≡ 1 = eq_of_== version.0 in
    let long_len = length-slice 42 2 bytes (omega (arith, fits)) in
    let payload_long : payload_len ≡ length (drop 44 bytes) =
      omega (arith, length-drop 44 bytes fits, all_read) in
    let len =
      ap (to_be_bytes 2) (sym payload_long)
      ∙ to-from_be_bytes2 (slice 42 2 bytes) long_len
          (All-take _ 2 _ (All-drop _ 42 bytes bounds)) in
    subst (λ r. (r >>= encode_purl) ≡ ok bytes) same
      (encode_parts bytes read valid.1 (pieces bytes fits ∙ rw (marked, first, len) refl))
