-- ===== src/Mailbox/Tokens/Window.antt =====
-- mailbox.rs: when a bearer token is accepted.
use post_urbit.Prelude.{
  ℕ, Bytes, Bool, true, false, not, ◌&&◌, some, ◌+◌, ◌*◌, ◌/◌, ◌==◌, ◌≡◌, refl, ◌∙◌, nat_eq,
  list_eq, ltb, leb, length, contains, ends_with_byte, Result, ok, err, ◌>>◌, guard, is_ok,
  invalid_input, arith, >>=-eq-ok, passed, ==_refl, String,
}
use post_urbit.Encoding.{IsBase64, crockford_base32_decode, validate_crockford_base32_lower}
use post_urbit.Mailbox.Tokens.{
  Outside, five_minutes, hour, validate_expiry, validate_bearer_token_expiry, bearer_input,
  generate_token_with_time, verify_token_with_time,
}

-- A text of the clock has no fraction, ends in `Z`, and is read as its second; a digest has 32 bytes.
pub record IsOutside (o : Outside) : Type 0 where
  pub parse_format : (t : ℕ) → o.parse_time (o.format_time t) ≡ some (t / 1000000000 * 1000000000)
  pub no_fraction : (t : ℕ) → contains (o.format_time t) b'.' ≡ false
  pub utc : (t : ℕ) → ends_with_byte (o.format_time t) b'Z' ≡ true
  pub hmac_long : (key message : Bytes) → length (o.hmac key message) ≡ 32

-- from 24 hours before the instant to five minutes behind it
abbrev pub in_window : ℕ → ℕ → Bool
in_window expires now = leb now (expires + five_minutes) && leb expires (now + 24 * hour)

is_ok-then : (first rest : Result (Unit {0})) → rest ≡ ok tt → is_ok (first >> rest) ≡ is_ok first
is_ok-then (ok tt) rest h = rw h refl
is_ok-then (err e) rest h = refl

module _ (o : Outside) (law : IsOutside o) where
  is_ok-validate_expiry :
      (expired too_long : String) (t now : ℕ)
      → is_ok (validate_expiry o expired too_long (o.format_time t) now)
        ≡ in_window (t / 1000000000 * 1000000000) now
  unfolding validate_expiry
  is_ok-validate_expiry expired too_long t now =
      rw (law.no_fraction t, law.utc t, law.parse_format t)
        (two_tests (t / 1000000000 * 1000000000) now)
    where
      two_tests :
          (e n : ℕ)
          → is_ok (
              (guard (not (ltb (e + five_minutes) n)) (invalid_input expired))
              >> guard (not (ltb (n + 24 * hour) e)) (invalid_input too_long))
            ≡ in_window e n
      two_tests e n = ground arith

  made_token :
      (secret recipient sender recipient_raw sender_raw expires_at : Bytes) (later : ℕ)
      → IsBase64 o.url_safe
      → validate_crockford_base32_lower recipient ≡ ok tt
      → validate_crockford_base32_lower sender ≡ ok tt
      → crockford_base32_decode recipient ≡ ok recipient_raw
      → crockford_base32_decode sender ≡ ok sender_raw
      → let digest = o.hmac secret (bearer_input o recipient_raw sender_raw expires_at) in
        is_ok (
          verify_token_with_time o secret
            (o.url_safe.encode digest)
            recipient
            sender
            expires_at
            later)
        ≡ is_ok (validate_bearer_token_expiry o expires_at later)
  unfolding verify_token_with_time
  made_token secret recipient sender recipient_raw sender_raw expires_at later b64 h k l m =
      let digest = o.hmac secret (bearer_input o recipient_raw sender_raw expires_at) in
      rw (h, k)
        (is_ok-then (validate_bearer_token_expiry o expires_at later) _ (
          rw
            (
              b64.decode_encode digest,
              law.hmac_long secret (bearer_input o recipient_raw sender_raw expires_at),
              l,
              m,
              ==_refl digest,
            )
            refl))

  -- Where times, digests and base 64 are read as they are written: a bearer token that
  -- `generate_token_with_time` returns is accepted for the same recipient and sender exactly from 24
  -- hours before the second at which it expires to five minutes behind it.
  pub verify-generate_token :
      (secret recipient sender : Bytes) (hours now later : ℕ) (token expires_at : Bytes)
      → IsBase64 o.url_safe
      → generate_token_with_time o secret recipient sender hours now ≡ ok (token, expires_at)
      → is_ok (verify_token_with_time o secret token recipient sender expires_at later)
        ≡ in_window ((now + hours * hour) / 1000000000 * 1000000000) later
  unfolding generate_token_with_time validate_bearer_token_expiry
  verify-generate_token secret recipient sender hours now later token expires_at b64 h =
      let valid_recipient = >>=-eq-ok (validate_crockford_base32_lower recipient) _ h in
      let valid_sender = >>=-eq-ok (validate_crockford_base32_lower sender) _ valid_recipient.2 in
      let some_hours = passed (not (hours == 0)) "validity_hours must be > 0" _ valid_sender.2 in
      let few_hours = passed (not (ltb 24 hours)) "validity_hours max 24" _ some_hours.1 in
      let recipient_raw = >>=-eq-ok (crockford_base32_decode recipient) _ few_hours.1 in
      let sender_raw = >>=-eq-ok (crockford_base32_decode sender) _ recipient_raw.2 in
      let expires = o.format_time (now + hours * hour) in
      let digest = o.hmac secret (bearer_input o recipient_raw.0 sender_raw.0 expires) in
      let made : ok (o.url_safe.encode digest, expires) ≡ ok (token, expires_at) = sender_raw.2 in
      let same_token : token ≡ o.url_safe.encode digest = cc in
      let same_time : expires_at ≡ expires = cc in
      rw (same_token, same_time)
        (made_token secret recipient sender recipient_raw.0 sender_raw.0 expires later b64
            valid_recipient.1 valid_sender.1 recipient_raw.1 sender_raw.1
          ∙ is_ok-validate_expiry "bearer token expired" "bearer token lifetime too long"
              (now + hours * hour) later)
