-- ===== src/Messaging/Lengths.antt =====
-- messaging.rs: an envelope that is decoded accounts for all of its bytes.
use post_urbit.Prelude.{
  slice, passed, length-slice, ℕ, Bytes, ◌+◌, ◌≤◌, ◌≡◌, length, Result, ok, err, arith, leb, leb→le,
  nat_beq_iff, from_be_bytes, take, get_or, bit_and, list_eq, ascii, ap, >>=-eq-ok, nat_eq, ◌==◌,
  sym, ◌∙◌,
}
use post_urbit.Messaging.{
  PuseEnvelope, decode_puse_envelope, validate_header_extension, check_recipient_type,
}

abbrev lengths : Result PuseEnvelope → ℕ × ℕ × ℕ
lengths (ok e) = (length e.header.header_extension, length e.ciphertext, length e.header.sender_iid)
lengths (err e) = (0, 0, 0)

decode_lengths :
    (bytes : Bytes) (envelope : PuseEnvelope)
    → decode_puse_envelope bytes ≡ ok envelope
    → (length bytes ≤ 1048576)
      × (length bytes ≡ 144 + length envelope.header.header_extension + length envelope.ciphertext)
      × (length envelope.header.sender_iid ≡ 20)
unfolding decode_puse_envelope
decode_lengths bytes envelope h =
    let ext_len = from_be_bytes (slice 62 2 bytes) in
    let ext = slice 64 ext_len bytes in
    let ct_len = from_be_bytes (slice (64 + ext_len + 12) 4 bytes) in
    let small = passed (leb (length bytes) 1048576) "puse envelope too large" _ h in
    let long = passed (leb 145 (length bytes)) "puse envelope too short" _ small.1 in
    let magic = passed (take 4 bytes == ascii "PUSE") "puse magic" _ long.1 in
    let version = passed (get_or bytes 4 0 == 1) "puse version" _ magic.1 in
    let flags =
      passed (bit_and (get_or bytes 5 0) 224 == 0) "puse reserved flags not zero" _ version.1 in
    let extension =
      passed (leb (64 + ext_len + 12 + 4 + 64) (length bytes)) "puse envelope length" _ flags.1 in
    let valid = >>=-eq-ok (validate_header_extension ext) _ extension.1 in
    let kind =
      >>=-eq-ok (check_recipient_type (bit_and (get_or bytes 5 0) 3) (get_or ext 0 0)) _ valid.2 in
    let ciphertext =
      passed (leb (64 + ext_len + 16 + ct_len + 64) (length bytes)) "puse ciphertext length" _
        kind.2 in
    let all_read =
      passed (64 + ext_len + 16 + ct_len + 64 == length bytes) "puse trailing bytes" _
        ciphertext.1 in
    let same = ap lengths all_read.1 in
    let read = leb→le (64 + ext_len + 12 + 4 + 64) (length bytes) extension.0 in
    let total = (nat_beq_iff (64 + ext_len + 16 + ct_len + 64) (length bytes)).0 all_read.0 in
    let ext_read = length-slice 64 ext_len bytes (omega (arith, read)) in
    let ct_read = length-slice (64 + ext_len + 16) ct_len bytes (omega (arith, total)) in
    (
      leb→le (length bytes) 1048576 small.0,
      omega (
        arith,
        total,
        ext_read,
        ct_read,
        ap (λ (x : ℕ × ℕ × ℕ). x.0) same,
        ap (λ (x : ℕ × ℕ × ℕ). x.1) same,
      ),
      sym (ap (λ (x : ℕ × ℕ × ℕ). x.2) same) ∙ length-slice 6 20 bytes (omega (arith, read)),
    )

-- A decoded envelope has at most 1 MiB, which are those of its extension, those of its ciphertext
-- and 144 more.
pub decode-length :
    (bytes : Bytes) (envelope : PuseEnvelope)
    → decode_puse_envelope bytes ≡ ok envelope
    → (length bytes ≤ 1048576)
      × (length bytes ≡ 144 + length envelope.header.header_extension + length envelope.ciphertext)
decode-length bytes envelope h =
    let (small, whole, sender) = decode_lengths bytes envelope h in (small, whole)

-- The identifier of the sender in a decoded envelope has 20 bytes.
pub decoded_sender :
    (bytes : Bytes) (envelope : PuseEnvelope)
    → decode_puse_envelope bytes ≡ ok envelope
    → length envelope.header.sender_iid ≡ 20
decoded_sender bytes envelope h = (decode_lengths bytes envelope h).2
