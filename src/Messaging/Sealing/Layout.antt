-- ===== src/Messaging/Sealing/Layout.antt =====
-- messaging.rs: where the parts of an envelope lie in its bytes.
use post_urbit.Prelude.{
  ℕ, All, Bytes, true, ◌≤◌, ◌<◌, ◌+◌, List, [], ◌∷◌, ◌++◌, ◌≡◌, refl, sym, ap, ◌∙◌, subst, length,
  take, drop, slice, get_or, leb, ltb, guard, nat_eq, list_eq, ◌==◌, Result, ok, err, ◌>>=◌, ◌>>◌,
  >>=-eq-ok, passed, arith, ascii, to_be_bytes, from_be_bytes, length-to_be_bytes, length-append,
  append_assoc, slice_step, drop_step, take_all, invalid_input, ==_refl, leb→le, le→leb,
  from-to_be_bytes2, from-to_be_bytes4, bit_and, Ed25519, IsKeyPair, ltb→lt,
}
use post_urbit.Messaging.{
  PuseHeader, PuseEnvelope, decode_puse_envelope, validate_header_extension, check_recipient_type,
}

-- the arrays have their lengths, the reserved flags are 0, and the kind of the extension fits the
-- type of the recipient
pub record IsSendable (h : PuseHeader) : Type 0 where
  pub sender_long : length h.sender_iid ≡ 20
  pub recipient_long : length h.recipient_iid ≡ 20
  pub id_long : length h.message_id ≡ 16
  pub nonce_long : length h.nonce ≡ 12
  pub flags_good : bit_and h.flags 224 ≡ 0
  pub kind_good : check_recipient_type (bit_and h.flags 3) (get_or h.header_extension 0 0) ≡ ok tt

-- the bytes behind the magic, the version and the flags
abbrev pub body : PuseEnvelope → Bytes
body e =
    e.header.sender_iid
    ++ (e.header.recipient_iid
        ++ (e.header.message_id
            ++ (to_be_bytes 2 (length e.header.header_extension)
                ++ (e.header.header_extension
                    ++ (e.header.nonce
                        ++ (to_be_bytes 4 e.header.ciphertext_length
                            ++ (e.ciphertext ++ e.signature)))))))

abbrev pub layout : PuseEnvelope → Bytes
layout e = 80 ∷ 85 ∷ 83 ∷ 69 ∷ 1 ∷ e.header.flags ∷ body e

validate_header_extension-filled :
    (extension : Bytes) → validate_header_extension extension ≡ ok tt → 1 ≤ length extension
unfolding validate_header_extension
validate_header_extension-filled [] h = ground (arith, h)
validate_header_extension-filled (kind ∷ rest) h = omega arith

decode_parts :
    (bytes : Bytes) (e : PuseEnvelope)
    → let n = length e.header.header_extension in
      let c = length e.ciphertext in
      leb (length bytes) 1048576 ≡ true
      → leb 145 (length bytes) ≡ true
      → leb (64 + n + 12 + 4 + 64) (length bytes) ≡ true
      → leb (64 + n + 16 + c + 64) (length bytes) ≡ true
      → 64 + n + 16 + c + 64 ≡ length bytes
      → take 4 bytes ≡ ascii "PUSE"
      → get_or bytes 4 0 ≡ 1
      → get_or bytes 5 0 ≡ e.header.flags
      → slice 6 20 bytes ≡ e.header.sender_iid
      → slice 26 20 bytes ≡ e.header.recipient_iid
      → slice 46 16 bytes ≡ e.header.message_id
      → from_be_bytes (slice 62 2 bytes) ≡ n
      → slice 64 n bytes ≡ e.header.header_extension
      → slice (64 + n) 12 bytes ≡ e.header.nonce
      → from_be_bytes (slice (64 + n + 12) 4 bytes) ≡ c
      → slice (64 + n + 16) c bytes ≡ e.ciphertext
      → slice (64 + n + 16 + c) 64 bytes ≡ e.signature
      → c ≡ e.header.ciphertext_length
      → IsSendable e.header
      → validate_header_extension e.header.header_extension ≡ ok tt
      → decode_puse_envelope bytes ≡ ok e
unfolding decode_puse_envelope ascii post_urbit.Prelude.list_beq
decode_parts bytes e small long header all_parts total magic version flags sender recipient id n ext
      nonce c ciphertext sig same s valid =
    rw
      (
        small,
        long,
        magic,
        version,
        flags,
        s.flags_good,
        n,
        header,
        ext,
        valid,
        s.kind_good,
        c,
        all_parts,
        total,
        ==_refl (length bytes),
        sender,
        recipient,
        id,
        nonce,
        ciphertext,
        sig,
      )
      (rw same refl)

pub decode-layout :
    (e : PuseEnvelope)
    → IsSendable e.header
    → validate_header_extension e.header.header_extension ≡ ok tt
    → length e.header.header_extension < 65536
    → e.header.ciphertext_length ≡ length e.ciphertext
    → length e.signature ≡ 64
    → length (layout e) ≤ 1048576
    → decode_puse_envelope (layout e) ≡ ok e
unfolding decode_puse_envelope ascii post_urbit.Prelude.list_beq
decode-layout e s valid short same sig small =
    let h = e.header in
    let n = length h.header_extension in
    let bytes = layout e in
    let at_sig = e.signature in
    let at_ct = e.ciphertext ++ at_sig in
    let ctb = to_be_bytes 4 h.ciphertext_length in
    let at_nonce = h.nonce ++ (ctb ++ at_ct) in
    let at_ext = h.header_extension ++ at_nonce in
    let extb = to_be_bytes 2 n in
    let at_id = h.message_id ++ (extb ++ at_ext) in
    let at_recipient = h.recipient_iid ++ at_id in
    let d26 : drop 26 bytes ≡ at_recipient =
      drop_step 6 20 bytes h.sender_iid _ refl s.sender_long in
    let d46 : drop 46 bytes ≡ at_id =
      drop_step 26 20 bytes h.recipient_iid _ d26 s.recipient_long in
    let d62 : drop 62 bytes ≡ extb ++ at_ext = drop_step 46 16 bytes h.message_id _ d46 s.id_long in
    let d64 : drop 64 bytes ≡ at_ext = drop_step 62 2 bytes extb _ d62 (length-to_be_bytes 2 n) in
    let dn : drop (64 + n) bytes ≡ at_nonce = drop_step 64 n bytes h.header_extension _ d64 refl in
    let c = length e.ciphertext in
    let dl : drop (64 + n + 12) bytes ≡ ctb ++ at_ct =
      drop_step (64 + n) 12 bytes h.nonce _ dn s.nonce_long in
    let dc : drop (64 + n + 16) bytes ≡ at_ct =
      subst (λ k. drop k bytes ≡ at_ct) (omega arith)
        (drop_step (64 + n + 12) 4 bytes ctb _ dl (length-to_be_bytes 4 h.ciphertext_length)) in
    let ds : drop (64 + n + 16 + c) bytes ≡ at_sig =
      drop_step (64 + n + 16) c bytes e.ciphertext _ dc refl in
    let filled = validate_header_extension-filled h.header_extension valid in
    let total : 64 + n + 16 + c + 64 ≡ length bytes = omega (
      arith,
      sig,
      s.sender_long,
      s.recipient_long,
      s.id_long,
      s.nonce_long,
      length-append h.sender_iid at_recipient,
      length-append h.recipient_iid at_id,
      length-append h.message_id (extb ++ at_ext),
      length-append extb at_ext,
      length-append h.header_extension at_nonce,
      length-append h.nonce (ctb ++ at_ct),
      length-append ctb at_ct,
      length-append e.ciphertext at_sig,
      length-to_be_bytes 2 n,
      length-to_be_bytes 4 h.ciphertext_length,
    ) in
    decode_parts bytes e (le→leb (length bytes) 1048576 small)
      (le→leb 145 (length bytes) (omega (arith, total, filled)))
      (le→leb (64 + n + 12 + 4 + 64) (length bytes) (omega (arith, total)))
      (le→leb (64 + n + 16 + c + 64) (length bytes) (omega (arith, total))) total refl refl refl
      (slice_step 6 20 bytes h.sender_iid _ refl s.sender_long)
      (slice_step 26 20 bytes h.recipient_iid _ d26 s.recipient_long)
      (slice_step 46 16 bytes h.message_id _ d46 s.id_long)
      (ap from_be_bytes (slice_step 62 2 bytes extb _ d62 (length-to_be_bytes 2 n))
        ∙ from-to_be_bytes2 n short)
      (slice_step 64 n bytes h.header_extension _ d64 refl)
      (slice_step (64 + n) 12 bytes h.nonce _ dn s.nonce_long)
      (ap from_be_bytes (slice_step (64 + n + 12) 4 bytes ctb _ dl (length-to_be_bytes 4 _))
        ∙ (from-to_be_bytes4 h.ciphertext_length (omega (arith, same, total, small)) ∙ same))
      (slice_step (64 + n + 16) c bytes e.ciphertext _ dc refl)
      (ap (take 64) ds ∙ take_all 64 at_sig sig) (sym same) s valid
