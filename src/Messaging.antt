-- ===== src/Messaging.antt =====
-- messaging.rs: the bytes of an envelope, its header and its header extension.
-- An array of a fixed length is a byte string.
pub mod Sealing
pub mod Extensions
pub mod Lengths
use post_urbit.Prelude.{
  ℕ, Bytes, Bool, true, false, not, ◌&&◌, ◌||◌, ◌+◌, ◌*◌, ◌<◌, List, [], ◌∷◌, ◌++◌, if◌then◌else◌,
  ltb, leb, length, take, slice, get_or, nat_eq, list_eq, ◌==◌, Result, ok, err, ◌>>=◌, ◌>>◌, guard,
  invalid_input, to_be_bytes, from_be_bytes, bit_and, ascii,
}

pub record PuseHeader : Type 0 where
  pub flags : ℕ
  pub sender_iid : Bytes
  pub recipient_iid : Bytes
  pub message_id : Bytes
  pub header_extension : Bytes
  pub nonce : Bytes
  pub ciphertext_length : ℕ

pub record PuseEnvelope : Type 0 where
  pub header : PuseHeader
  pub ciphertext : Bytes
  pub signature : Bytes

pub data HeaderExtension : Type 0 where
  initial : (ephemeral : Bytes) → HeaderExtension
  ratchet : (dh_public : Bytes) (pn n : ℕ) → HeaderExtension
  group : (key_id : Bytes) (iteration : ℕ) → HeaderExtension

unfoldable pub build_initial_extension : Bytes → Bytes
build_initial_extension ephemeral = 0 ∷ ephemeral

unfoldable pub build_ratchet_extension : Bytes → ℕ → ℕ → Bytes
build_ratchet_extension dh_public pn n = 1 ∷ dh_public ++ to_be_bytes 4 pn ++ to_be_bytes 4 n

unfoldable pub build_group_extension : Bytes → ℕ → Result Bytes
build_group_extension key_id iteration = do
  guard (not (iteration == 0)) (invalid_input "group iteration")
  ok (2 ∷ key_id ++ to_be_bytes 4 iteration)

unfoldable pub validate_header_extension : Bytes → Result (Unit {0})
unfolding from_be_bytes
validate_header_extension [] = err (invalid_input "header extension required")
validate_header_extension (kind ∷ rest) =
    let extension = kind ∷ rest in
    if ltb 1024 (length extension)
    then err (invalid_input "header extension too large")
    else if kind == 0
    then guard (length extension == 33) (invalid_input "initial extension length")
    else if kind == 1
    then guard (length extension == 41) (invalid_input "ratchet extension length")
    else if kind == 2
    then (do
      guard (length extension == 21) (invalid_input "group extension length")
      guard (not (from_be_bytes (slice 17 4 extension) == 0)) (invalid_input "group iteration"))
    else ok tt

unfoldable pub parse_header_extension : Bytes → Result HeaderExtension
parse_header_extension extension = do
  validate_header_extension extension
  let kind = get_or extension 0 0 in
      if kind == 0
      then ok (initial (slice 1 32 extension))
      else if kind == 1
      then ok (
          ratchet (slice 1 32 extension) (from_be_bytes (slice 33 4 extension))
            (from_be_bytes (slice 37 4 extension)))
      else if kind == 2
      then (let iteration = from_be_bytes (slice 17 4 extension) in
          do
            guard (not (iteration == 0)) (invalid_input "group iteration")
            ok (group (slice 1 16 extension) iteration))
      else err (invalid_input "unknown header extension")

unfoldable pub encode_puse_header : PuseHeader → Result Bytes
unfolding ascii
encode_puse_header h = do
  validate_header_extension h.header_extension
  guard (ltb (length h.header_extension) 65536) (invalid_input "header extension length")
  ok (
      ascii "PUSE"
      ++ (1
          ∷ h.flags
          ∷ (h.sender_iid
              ++ (h.recipient_iid
                  ++ (h.message_id
                      ++ (to_be_bytes 2 (length h.header_extension)
                          ++ (h.header_extension
                              ++ (h.nonce ++ to_be_bytes 4 h.ciphertext_length))))))))

-- `match recipient_type`
unfoldable pub check_recipient_type : ℕ → ℕ → Result (Unit {0})
check_recipient_type recipient_type ext_type =
    if recipient_type == 0
    then guard (ext_type == 0 || ext_type == 1) (invalid_input "puse invalid extension for 1:1")
    else if recipient_type == 1
    then guard (ext_type == 2) (invalid_input "puse invalid extension for group")
    else err (invalid_input "puse reserved recipient type")

unfoldable pub decode_puse_envelope : Bytes → Result PuseEnvelope
unfolding ascii
decode_puse_envelope bytes = do
  guard (leb (length bytes) 1048576) (invalid_input "puse envelope too large")
  guard (leb 145 (length bytes)) (invalid_input "puse envelope too short")
  guard (take 4 bytes == ascii "PUSE") (invalid_input "puse magic")
  guard (get_or bytes 4 0 == 1) (invalid_input "puse version")
  let flags = get_or bytes 5 0 in
      do
        guard (bit_and flags 224 == 0) (invalid_input "puse reserved flags not zero")
        let ext_len = from_be_bytes (slice 62 2 bytes) in
            do
              guard (leb (64 + ext_len + 12 + 4 + 64) (length bytes))
                  (invalid_input "puse envelope length")
              let header_extension = slice 64 ext_len bytes in
                  do
                    validate_header_extension header_extension
                    check_recipient_type (bit_and flags 3) (get_or header_extension 0 0)
                    let ct_len = from_be_bytes (slice (64 + ext_len + 12) 4 bytes) in
                        let idx = 64 + ext_len + 16 in
                        do
                          guard (leb (idx + ct_len + 64) (length bytes))
                              (invalid_input "puse ciphertext length")
                          guard (idx + ct_len + 64 == length bytes)
                              (invalid_input "puse trailing bytes")
                          ok (record {
                            header = record {
                              flags = flags;
                              sender_iid = slice 6 20 bytes;
                              recipient_iid = slice 26 20 bytes;
                              message_id = slice 46 16 bytes;
                              header_extension = header_extension;
                              nonce = slice (64 + ext_len) 12 bytes;
                              ciphertext_length = ct_len;
                            };
                            ciphertext = slice idx ct_len bytes;
                            signature = slice (idx + ct_len) 64 bytes;
                          })
