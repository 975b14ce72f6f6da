-- ===== src/Mailbox/Tokens.antt =====
-- mailbox.rs: the two kinds of tokens. The crates sha2, hmac, ed25519-dalek, base64, chrono and url,
-- and the JSON text of a token, are the parameter `Outside`. Times are nanoseconds.
pub mod Window
use post_urbit.Prelude.{
  ℕ, Bytes, Bool, true, false, not, Option, none, some, List, [], ◌∷◌, ◌++◌, ◌+◌, ◌*◌, ◌/◌, ◌==◌,
  ◌≡◌, nat_eq, list_eq, ltb, leb, if◌then◌else◌, length, contains, ends_with_byte, Result, ok, err,
  ◌>>=◌, ◌>>◌, guard, ok_or, invalid_input, invalid_encoding, crypto, ascii, Ed25519, String,
}
use post_urbit.Encoding.{
  Base64, base64_encode, base64_decode, crockford_base32_decode, validate_crockford_base32_lower,
}
use post_urbit.Mailbox.Urls.{Url, canonicalize_mailbox_url}

pub record MailboxToken : Type 0 where
  pub iid : Bytes
  pub mailbox_url : Bytes
  pub expires_at : Bytes
  pub nonce : Bytes
  pub signature : Bytes

pub record Outside : Type 0 where
  pub sha256 : Bytes → Bytes
  -- a key and a message
  pub hmac : Bytes → Bytes → Bytes
  pub ed25519 : Ed25519
  pub standard : Base64
  pub url_safe : Base64
  -- `parse::<DateTime<Utc>>`, and the format with seconds and `Z`
  pub parse_time : Bytes → Option ℕ
  pub format_time : ℕ → Bytes
  pub parse_url : Bytes → Option Url
  pub print_port : ℕ → Bytes
  -- `canonical_json_from` and `serde_json::from_slice`
  pub to_json : MailboxToken → Result Bytes
  pub from_json : Bytes → Option MailboxToken

abbrev pub five_minutes : ℕ
five_minutes = 300 * 1000000000

abbrev pub hour : ℕ
hour = 3600 * 1000000000

module _ (o : Outside) where
  unfoldable pub mailbox_signature_input : Bytes → Bytes → Bytes → Bytes → Result Bytes
  unfolding ascii
  mailbox_signature_input iid mailbox_url expires_at nonce = do
    iid_raw ← crockford_base32_decode iid
    guard (length iid_raw == 20) (invalid_input "iid decode")
    ok (ascii "post-urbit-mailbox-token-v1" ++ (iid_raw ++ (mailbox_url ++ (expires_at ++ nonce))))

  unfoldable pub mailbox_signature : Bytes → Bytes → Bytes → Bytes → Bytes → Result Bytes
  mailbox_signature iid mailbox_url expires_at nonce signing_key = do
    signature_input ← mailbox_signature_input iid mailbox_url expires_at nonce
    ok (base64_encode o.standard (o.ed25519.sign signing_key (o.sha256 signature_input)))

  -- the loop over the keys
  unfoldable pub verify_with_keys : List Bytes → Bytes → Bytes → Result (Unit {0})
  verify_with_keys [] digest signature = err (crypto "mailbox signature invalid")
  verify_with_keys (key ∷ signing_keys) digest signature =
      let rest = verify_with_keys signing_keys digest signature in
      do
        key_bytes ← base64_decode o.standard key
        if not (length key_bytes == 32) then rest else (do
          guard (o.ed25519.is_key key_bytes) (invalid_input "signing key parse")
          if o.ed25519.verify_strict key_bytes digest signature then ok tt else rest)

  unfoldable pub verify_mailbox_signature : MailboxToken → Bytes → List Bytes → Result (Unit {0})
  verify_mailbox_signature token nonce signing_keys = do
    signature_input ← mailbox_signature_input token.iid token.mailbox_url token.expires_at nonce
    signature ← base64_decode o.standard token.signature
    guard (length signature == 64) (invalid_input "signature length")
    verify_with_keys signing_keys (o.sha256 signature_input) signature

  unfoldable pub create_mailbox_token : Bytes → Bytes → ℕ → Bytes → Bytes → Result Bytes
  create_mailbox_token iid mailbox_url expires_at nonce signing_key = do
    validate_crockford_base32_lower iid
    url ← canonicalize_mailbox_url o.parse_url o.print_port mailbox_url
    signature ← mailbox_signature iid url (o.format_time expires_at) nonce signing_key
    canonical ← o.to_json (record {
      iid = iid;
      mailbox_url = url;
      expires_at = o.format_time expires_at;
      nonce = o.url_safe.encode nonce;
      signature = signature;
    })
    ok (o.url_safe.encode canonical)

  -- `validate_token_expiry` and `validate_bearer_token_expiry`, with their two messages
  unfoldable pub validate_expiry : String → String → Bytes → ℕ → Result (Unit {0})
  validate_expiry expired too_long expires_at now = do
    guard (not (contains expires_at b'.')) (invalid_input "expires_at fractional")
    guard (ends_with_byte expires_at b'Z') (invalid_input "expires_at not UTC")
    expires ← ok_or (o.parse_time expires_at) (invalid_input "expires_at parse")
    guard (not (ltb (expires + five_minutes) now)) (invalid_input expired)
    guard (not (ltb (now + 24 * hour) expires)) (invalid_input too_long)

  unfoldable pub validate_token_expiry : Bytes → ℕ → Result (Unit {0})
  validate_token_expiry = validate_expiry "token expired" "token lifetime too long"

  unfoldable pub validate_bearer_token_expiry : Bytes → ℕ → Result (Unit {0})
  validate_bearer_token_expiry =
      validate_expiry "bearer token expired" "bearer token lifetime too long"

  unfoldable pub verify_mailbox_token_with_time : Bytes → List Bytes → ℕ → Result MailboxToken
  verify_mailbox_token_with_time token_b64 signing_keys now = do
    token_bytes ← ok_or (o.url_safe.decode token_b64) (invalid_encoding "token base64url")
    token ← ok_or (o.from_json token_bytes) (invalid_input "token json")
    validate_crockford_base32_lower token.iid
    url ← canonicalize_mailbox_url o.parse_url o.print_port token.mailbox_url
    guard (url == token.mailbox_url) (invalid_input "mailbox url canonicalization")
    nonce ← ok_or (o.url_safe.decode token.nonce) (invalid_encoding "token nonce")
    guard (length nonce == 16) (invalid_input "token nonce length")
    validate_token_expiry token.expires_at now
    verify_mailbox_signature token nonce signing_keys
    ok token

  unfoldable pub bearer_input : Bytes → Bytes → Bytes → Bytes
  unfolding ascii
  bearer_input recipient_raw sender_raw expires_at =
      ascii "post-urbit:mailbox-token:v1:" ++ (recipient_raw ++ (sender_raw ++ expires_at))

  unfoldable pub generate_token_with_time : Bytes → Bytes → Bytes → ℕ → ℕ → Result (Bytes × Bytes)
  generate_token_with_time secret recipient_iid sender_iid validity_hours now = do
    validate_crockford_base32_lower recipient_iid
    validate_crockford_base32_lower sender_iid
    guard (not (validity_hours == 0)) (invalid_input "validity_hours must be > 0")
    guard (not (ltb 24 validity_hours)) (invalid_input "validity_hours max 24")
    recipient_raw ← crockford_base32_decode recipient_iid
    sender_raw ← crockford_base32_decode sender_iid
    let expires_at = o.format_time (now + validity_hours * hour) in
        ok (
          o.url_safe.encode (o.hmac secret (bearer_input recipient_raw sender_raw expires_at)),
          expires_at,
        )

  unfoldable pub verify_token_with_time :
      Bytes → Bytes → Bytes → Bytes → Bytes → ℕ → Result (Unit {0})
  verify_token_with_time secret token recipient_iid sender_iid expires_at now = do
    validate_crockford_base32_lower recipient_iid
    validate_crockford_base32_lower sender_iid
    validate_bearer_token_expiry expires_at now
    token_bytes ← ok_or (o.url_safe.decode token) (invalid_encoding "bearer token base64url")
    guard (length token_bytes == 32) (invalid_input "bearer token length")
    recipient_raw ← crockford_base32_decode recipient_iid
    sender_raw ← crockford_base32_decode sender_iid
    guard (o.hmac secret (bearer_input recipient_raw sender_raw expires_at) == token_bytes)
        (crypto "bearer token invalid")
