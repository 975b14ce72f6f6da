-- ===== src/Messaging/Extensions.antt =====
-- messaging.rs: reading a header extension that was built.
use post_urbit.Prelude.{
  ℕ, Bytes, ◌<◌, ◌++◌, ◌≡◌, ◌∙◌, if◌then◌else◌, length, nat_eq, ◌==◌, ok, err, invalid_input, ◌>>=◌,
  arith, to_be_bytes, length-to_be_bytes, from-to_be_bytes4, take_exact, take_all, drop_exact,
  append_assoc, length-append,
}
use post_urbit.Messaging.{
  initial, ratchet, group, build_initial_extension, build_ratchet_extension, build_group_extension,
  parse_header_extension, validate_header_extension,
}

parse_initial :
    (key : Bytes)
    → length key ≡ 32
    → parse_header_extension (build_initial_extension key) ≡ ok (initial key)
unfolding parse_header_extension build_initial_extension validate_header_extension
parse_initial key k = ground (arith, k, take_all 32 key k)

parse_ratchet :
    (key : Bytes) (pn n : ℕ)
    → length key ≡ 32
    → pn < 4294967296
    → n < 4294967296
    → parse_header_extension (build_ratchet_extension key pn n) ≡ ok (ratchet key pn n)
unfolding parse_header_extension build_ratchet_extension validate_header_extension
parse_ratchet key pn n k p q =
    let a = to_be_bytes 4 pn in
    let b = to_be_bytes 4 n in
    let la = length-to_be_bytes 4 pn in
    let lb = length-to_be_bytes 4 n in
    ground (
      arith,
      k,
      la,
      lb,
      length-append key (a ++ b),
      length-append a b,
      append_assoc key a b,
      take_exact 32 key (a ++ b) k,
      drop_exact 32 key (a ++ b) k,
      take_exact 4 a b la,
      take_all 4 b lb,
      drop_exact 36 (key ++ a) b (length-append key a ∙ omega (arith, k, la)),
      from-to_be_bytes4 pn p,
      from-to_be_bytes4 n q,
    )

parse_group :
    (key_id : Bytes) (n : ℕ)
    → length key_id ≡ 16
    → n < 4294967296
    → (build_group_extension key_id n >>= parse_header_extension)
      ≡ (if n == 0 then err (invalid_input "group iteration") else ok (group key_id n))
unfolding parse_header_extension build_group_extension validate_header_extension
parse_group key_id n i q =
    let a = to_be_bytes 4 n in
    let la = length-to_be_bytes 4 n in
    ground (
      arith,
      i,
      la,
      length-append key_id a,
      take_exact 16 key_id a i,
      drop_exact 16 key_id a i,
      take_all 4 a la,
      from-to_be_bytes4 n q,
    )

-- An extension that was built is read as what it was built from, where its keys have 32 bytes and
-- its key identifier 16, its counters are below 2 ^ 32 and a group's iteration is not zero.
pub parse-build_extension :
    (key key_id : Bytes) (pn n : ℕ)
    → length key ≡ 32
    → length key_id ≡ 16
    → pn < 4294967296
    → n < 4294967296
    → (parse_header_extension (build_initial_extension key) ≡ ok (initial key))
      × (parse_header_extension (build_ratchet_extension key pn n) ≡ ok (ratchet key pn n))
      × ((build_group_extension key_id n >>= parse_header_extension)
          ≡ (if n == 0 then err (invalid_input "group iteration") else ok (group key_id n)))
parse-build_extension key key_id pn n k i p q =
    (parse_initial key k, parse_ratchet key pn n k p q, parse_group key_id n i q)
