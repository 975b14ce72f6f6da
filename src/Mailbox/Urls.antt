-- ===== src/Mailbox/Urls.antt =====
-- mailbox.rs: the canonical form of a mailbox's address. The crate url is the parameter `parse_url`.
pub mod Escapes
use post_urbit.Prelude.{
  ℕ, Bytes, Bool, true, false, not, ◌&&◌, ◌||◌, Option, none, some, List, [], ◌∷◌, ◌++◌, ◌+◌, ◌-◌,
  ◌*◌, ◌==◌, nat_eq, list_eq, ltb, leb, if◌then◌else◌, length, map, all, contains, starts_with,
  ends_with_byte, Result, ok, err, ◌>>=◌, ◌>>◌, guard, ok_or, invalid_input, ascii, is_some,
}
use post_urbit.Encoding.{validate_crockford_base32_lower}

abbrev between : ℕ → ℕ → ℕ → Bool
between lo hi ch = leb lo ch && leb ch hi

unfoldable pub is_unreserved : ℕ → Bool
is_unreserved c =
    between b'0' b'9' c
    || between b'a' b'z' c
    || between b'A' b'Z' c
    || c == b'-'
    || c == b'.'
    || c == b'_'
    || c == b'~'

-- `is_ascii_hexdigit`, `from_str_radix(_, 16)` of one digit and `to_uppercase`
unfoldable pub is_hex_digit : ℕ → Bool
is_hex_digit c = between b'0' b'9' c || between b'a' b'f' c || between b'A' b'F' c

unfoldable pub hex_value : ℕ → ℕ
hex_value c = if leb c b'9' then c - b'0' else if leb c b'F' then c - 55 else c - 87

unfoldable pub to_upper : ℕ → ℕ
to_upper c = if between b'a' b'z' c then c - 32 else c

unfoldable pub to_lower : ℕ → ℕ
to_lower c = if between b'A' b'Z' c then c + 32 else c

-- what an escape of two digits is written as
unfoldable pub escape : ℕ → ℕ → Bytes → Bytes
escape a b rest =
    let byte_val = hex_value a * 16 + hex_value b in
    if is_unreserved byte_val then byte_val ∷ rest else b'%' ∷ to_upper a ∷ to_upper b ∷ rest

-- the loop over `i`
unfoldable pub normalize_percent_encoding : Bytes → Result Bytes
normalize_percent_encoding [] = ok []
normalize_percent_encoding (c ∷ []) =
    if c == b'%' then err (invalid_input "truncated percent-escape") else ok (c ∷ [])
normalize_percent_encoding (c ∷ a ∷ []) = elim (c == b'%') [
  | true ↦ err (invalid_input "truncated percent-escape")
  | false ↦ (normalize_percent_encoding (a ∷ []) >>= λ r. ok (c ∷ r))
]
normalize_percent_encoding (c ∷ a ∷ b ∷ s) = elim (c == b'%') [
  | true ↦ elim (is_hex_digit a && is_hex_digit b) [
    | true ↦ (normalize_percent_encoding s >>= λ r. ok (escape a b r))
    | false ↦ err (invalid_input "invalid percent-escape")
  ]
  | false ↦ (normalize_percent_encoding (a ∷ b ∷ s) >>= λ r. ok (c ∷ r))
]

pub record Url : Type 0 where
  pub scheme : Bytes
  pub username : Bytes
  pub password : Option Bytes
  pub query : Option Bytes
  pub fragment : Option Bytes
  pub host_str : Option Bytes
  -- without the scheme's default
  pub port : Option ℕ
  pub path : Bytes

-- `while path.ends_with(c) { path.pop(); }`
unfoldable pub trim_end : ℕ → Bytes → Bytes
trim_end c [] = []
trim_end c (x ∷ xs) = elim (trim_end c xs) [
  | [] ↦ if x == c then [] else x ∷ []
  | y ∷ ys ↦ x ∷ y ∷ ys
]

unfoldable pub trim_path : Bytes → Bytes
trim_path path =
    if ltb 1 (length path)
    then elim (trim_end b'/' path) [ [] ↦ b'/' ∷ [] | c ∷ cs ↦ c ∷ cs ]
    else path

module _ (parse_url : Bytes → Option Url) (print_port : ℕ → Bytes) where
  unfoldable pub print_url : Bytes → Option ℕ → Bytes → Bytes
  unfolding ascii
  print_url host port path =
      ascii "https://"
      ++ ((if contains host b':' && not (starts_with host (b'[' ∷ []))
            then b'[' ∷ (host ++ (b']' ∷ []))
            else host)
          ++ ((elim port [
            | none ↦ []
            | some p ↦ if not (p == 443) then b':' ∷ print_port p else []
          ])
              ++ path))

  unfoldable pub canonicalize_mailbox_url : Bytes → Result Bytes
  unfolding ascii
  canonicalize_mailbox_url input = do
    guard (all (λ c. ltb c 128) input) (invalid_input "mailbox url ascii")
    url ← ok_or (parse_url input) (invalid_input "mailbox url")
    guard (map to_lower url.scheme == ascii "https") (invalid_input "mailbox url scheme")
    guard (url.username == [] && not (is_some url.password)) (invalid_input "mailbox url userinfo")
    guard (not (is_some url.query) && not (is_some url.fragment))
        (invalid_input "mailbox url query")
    host ← ok_or url.host_str (invalid_input "mailbox url host")
    guard (all (λ c. ltb c 128) host) (invalid_input "mailbox url host ascii")
    path ← (if url.path == [] then ok (b'/' ∷ []) else normalize_percent_encoding url.path)
    ok (print_url (trim_end b'.' (map to_lower host)) url.port (trim_path path))

  unfoldable pub canonicalize_mailbox_url_for_iid : Bytes → Bytes → Result Bytes
  canonicalize_mailbox_url_for_iid base_url iid = do
    validate_crockford_base32_lower iid
    canonicalize_mailbox_url base_url
