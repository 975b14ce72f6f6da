-- ===== src/Tests/Mailbox.antt =====
-- Inboxes, tokens and addresses.
use post_urbit.Prelude.{
  ℕ, Bytes, Bool, ◌+◌, ◌*◌, ◌/◌, List, [], ◌∷◌, ◌++◌, ◌≡◌, refl, ok, err, some, none, true, false,
  All, length, ascii, is_ok, invalid_encoding, invalid_input, list_eq, nat_eq, contains,
  ends_with_byte, arith, get_or, ◌-◌,
}
use post_urbit.Prelude.Dict.{get}
use post_urbit.Encoding.{
  crockford_base32_decode, crockford_base32_encode, validate_crockford_base32_lower,
}
use post_urbit.Mailbox.Store.{inbox_of, StoredMessage, store_group_message}
use post_urbit.Mailbox.Store.Admission.{letter, sent_by}
use post_urbit.Mailbox.Store.Log.{IsLogOf, mine}
use post_urbit.Mailbox.Store.Calls.{
  Call, stores, deletes, stores_group, retrieves, retrieves_from, lists_senders, counts, run,
  log_run, run-log,
}
use post_urbit.Mailbox.Store.Fanout.{HasDelivered, store_group_message-partial}
use post_urbit.Mailbox.Urls.{normalize_percent_encoding}
use post_urbit.Mailbox.Urls.Escapes.{normalize-normalize_percent_encoding}
use post_urbit.Mailbox.Tokens.{Outside, hour, generate_token_with_time, verify_token_with_time}
use post_urbit.Mailbox.Tokens.Window.{IsOutside, in_window, verify-generate_token}
use post_urbit.Tests.Toys.{zeros, toy_ed25519, toy_base64, toy-IsBase64}

-- the text of 20 zeros
abbrev anna : Bytes
anna = ascii "00000000000000000000000000000000"

abbrev boris : Bytes
boris = ascii "00000000000000000000000000000001"

-- an envelope of 20 zeros
abbrev letter_bytes : Bytes
letter_bytes =
    b'P' ∷ b'U' ∷ b'S' ∷ b'E' ∷ 1 ∷ 0 ∷ zeros 56
    ++ (0 ∷ 33 ∷ zeros 33)
    ++ (zeros 12 ++ (0 ∷ 0 ∷ 0 ∷ 2 ∷ 8 ∷ 9 ∷ zeros 64))

abbrev same_id : Bytes → Bytes
same_id id = id

abbrev calls : List Call
calls =
    stores boris anna letter_bytes (ascii "t1")
    ∷ stores_group ((boris, ascii "t2") ∷ (anna, ascii "t3") ∷ []) anna letter_bytes
    ∷ retrieves anna
    ∷ retrieves_from boris anna
    ∷ lists_senders anna
    ∷ counts boris
    ∷ deletes boris (zeros 16 ∷ [])
    ∷ []

nothing : IsLogOf [] []
unfolding inbox_of mine get
nothing o = refl

run-log_example :
    ((run same_id [] calls).0 ≡ (log_run same_id [] calls).0)
    × IsLogOf (log_run same_id [] calls).1 (run same_id [] calls).1
run-log_example = run-log same_id calls [] [] nothing

abbrev letter_at : Bytes → StoredMessage
letter_at time = record {
  message_id = zeros 16;
  stored_at = time;
  sender_iid = anna;
  size = length letter_bytes;
  envelope = letter_bytes;
}

letter_accepted : letter same_id anna letter_bytes ≡ some letter_at
unfolding letter sent_by validate_crockford_base32_lower ascii
    post_urbit.Messaging.decode_puse_envelope post_urbit.Prelude.list_beq
    post_urbit.Prelude.from_be_bytes post_urbit.Messaging.validate_header_extension
    post_urbit.Messaging.check_recipient_type crockford_base32_decode
letter_accepted = refl

boris_valid : validate_crockford_base32_lower boris ≡ ok tt
unfolding validate_crockford_base32_lower ascii
boris_valid = refl

bad_refused :
    validate_crockford_base32_lower (ascii "U") ≡ err (invalid_encoding "invalid base32 character")
unfolding ascii validate_crockford_base32_lower post_urbit.Encoding.validate_loop
    post_urbit.Encoding.valid_char
bad_refused = refl

store_group_message-partial_example :
    let s =
      store_group_message same_id []
        ((boris, ascii "t2") ∷ (ascii "U", ascii "t3") ∷ (anna, ascii "t4") ∷ [])
        anna
        letter_bytes in
    (s.0 ≡ err (invalid_encoding "invalid base32 character"))
    × HasDelivered letter_at ((boris, ascii "t2") ∷ []) [] s.1
store_group_message-partial_example =
    store_group_message-partial same_id [] ((boris, ascii "t2") ∷ []) ((anna, ascii "t4") ∷ [])
      (ascii "U") (ascii "t3") anna letter_bytes letter_at
      (invalid_encoding "invalid base32 character") letter_accepted (boris_valid, tt) bad_refused

escaped : normalize_percent_encoding (ascii "/%7ea%2f") ≡ ok (ascii "/~a%2F")
unfolding normalize_percent_encoding ascii post_urbit.Mailbox.Urls.is_hex_digit
    post_urbit.Mailbox.Urls.escape post_urbit.Mailbox.Urls.is_unreserved
    post_urbit.Mailbox.Urls.hex_value post_urbit.Mailbox.Urls.to_upper
escaped = refl

normalize-normalize_percent_encoding_example :
    normalize_percent_encoding (ascii "/~a%2F") ≡ ok (ascii "/~a%2F")
normalize-normalize_percent_encoding_example =
    normalize-normalize_percent_encoding (ascii "/%7ea%2f") (ascii "/~a%2F") escaped

-- an instant is written as its second, a letter `Z` behind it
abbrev clock : ℕ → Bytes
clock t = (t / 1000000000 + 100) ∷ b'Z' ∷ []

abbrev outside : Outside
outside = record {
  sha256 = λ message. zeros 32;
  hmac = λ key message. zeros 32;
  ed25519 = toy_ed25519;
  standard = toy_base64;
  url_safe = toy_base64;
  parse_time = λ text. some ((get_or text 0 0 - 100) * 1000000000);
  format_time = clock;
  parse_url = λ text. none;
  print_port = λ port. [];
  to_json = λ token. ok [];
  from_json = λ text. none;
}

outside-IsOutside : IsOutside outside
unfolding contains ends_with_byte
outside-IsOutside = record {
  parse_format =
      λ t. let e : t / 1000000000 + 100 - 100 ≡ t / 1000000000 = omega arith in rw e refl;
  no_fraction = λ t. ground arith;
  utc = λ t. refl;
  hmac_long = λ key message. refl;
}

token_made :
    generate_token_with_time outside [] boris anna 2 5000000000
    ≡ ok (toy_base64.encode (zeros 32), clock (5000000000 + 2 * hour))
unfolding generate_token_with_time validate_crockford_base32_lower ascii crockford_base32_decode
token_made = refl

verify-generate_token_example :
    is_ok (
      verify_token_with_time outside []
        (toy_base64.encode (zeros 32))
        boris
        anna
        (clock (5000000000 + 2 * hour))
        6000000000)
    ≡ in_window ((5000000000 + 2 * hour) / 1000000000 * 1000000000) 6000000000
verify-generate_token_example =
    verify-generate_token outside outside-IsOutside [] boris anna 2 5000000000 6000000000
      (toy_base64.encode (zeros 32)) (clock (5000000000 + 2 * hour)) toy-IsBase64 token_made
