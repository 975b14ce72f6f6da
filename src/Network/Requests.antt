-- ===== src/Network/Requests.antt =====
-- network.rs: the parts of a request and the body of its response. A duration counts milliseconds;
-- the names and values of headers are parsed by the crate http, and the response is read by the
-- crate reqwest in pieces of at most 8192 bytes, of which the list is an argument.
pub mod Bodies
use post_urbit.Prelude.{
  ℕ, Bytes, Bool, true, false, ◌||◌, ◌+◌, ◌*◌, ◌^◌, ◌-◌, min, Option, none, some, List, [], ◌∷◌,
  ◌++◌, ◌==◌, nat_eq, list_eq, ltb, if◌then◌else◌, length, map, ascii,
}
use post_urbit.Mailbox.Urls.{to_lower}
use post_urbit.Network.Errors.{NetworkResult, ok, fail, ◌>>=◌}
use post_urbit.Network.Limits.{saturating_add}

abbrev pub max_request_bytes : ℕ
max_request_bytes = 52428800

abbrev pub max_response_bytes : ℕ
max_response_bytes = 52428800

abbrev pub default_response_bytes : ℕ
default_response_bytes = 10485760

abbrev pub max_timeout_secs : ℕ
max_timeout_secs = 300

abbrev pub default_timeout_secs : ℕ
default_timeout_secs = 30

unfoldable pub is_disallowed_header : Bytes → Bool
unfolding ascii
is_disallowed_header name =
    let lowered = map to_lower name in
    lowered == ascii "host"
    || lowered == ascii "content-length"
    || lowered == ascii "transfer-encoding"
    || lowered == ascii "connection"
    || lowered == ascii "proxy-connection"
    || lowered == ascii "keep-alive"
    || lowered == ascii "upgrade"
    || lowered == ascii "te"
    || lowered == ascii "trailer"

-- the loop over the headers; `insert` is that of `HeaderMap`
module _ {HeaderName HeaderValue HeaderMap : Type 0} (from_bytes : Bytes → Option HeaderName)
    (from_str : Bytes → Option HeaderValue)
    (insert : HeaderName → HeaderValue → HeaderMap → HeaderMap) where
  abbrev add_header : Bytes × Bytes → HeaderMap → NetworkResult HeaderMap
  add_header (key, value) headers =
      if is_disallowed_header key
      then fail "INVALID_REQUEST" "Disallowed header"
      else elim (from_bytes key) [
        | none ↦ fail "INVALID_REQUEST" "Invalid header"
        | some name ↦ elim (from_str value) [
          | none ↦ fail "INVALID_REQUEST" "Invalid header"
          | some parsed ↦ ok (insert name parsed headers)
        ]
      ]

  unfoldable pub build_headers : List (Bytes × Bytes) → HeaderMap → NetworkResult HeaderMap
  unfolding is_disallowed_header
  build_headers [] headers = ok headers
  build_headers (h ∷ rest) headers = add_header h headers >>= λ more. build_headers rest more

-- the loop over the pieces that the reader gives; `none` is a failure of the reader
unfoldable pub read_loop : ℕ → ℕ → Bytes → List (Option Bytes) → NetworkResult Bytes
read_loop max_bytes total body [] = ok body
read_loop max_bytes total body (none ∷ pieces) = fail "NETWORK_ERROR" "Response read failed"
read_loop max_bytes total body (some [] ∷ pieces) = ok body
read_loop max_bytes total body (some (c ∷ piece) ∷ pieces) =
    let more = saturating_add total (length (c ∷ piece)) in
    let rest = read_loop max_bytes more (body ++ (c ∷ piece)) pieces in
    if ltb max_bytes more then fail "RESPONSE_TOO_LARGE" "Response too large" else rest

unfoldable pub read_response : List (Option Bytes) → ℕ → NetworkResult Bytes
unfolding read_loop
read_response pieces max_bytes = read_loop max_bytes 0 [] pieces

unfoldable pub normalize_request_timeout : Option ℕ → ℕ
normalize_request_timeout none = min (default_timeout_secs * 1000) (max_timeout_secs * 1000)
normalize_request_timeout (some value) = min value (max_timeout_secs * 1000)

unfoldable pub normalize_max_response_bytes : Option ℕ → ℕ
normalize_max_response_bytes none = min default_response_bytes max_response_bytes
normalize_max_response_bytes (some limit) = min limit max_response_bytes

unfoldable pub normalize_method : Option Bytes → Bytes
unfolding ascii
normalize_method none = ascii "GET"
normalize_method (some method) = method

unfoldable pub normalize_request_body : Option Bytes → NetworkResult (Option Bytes)
normalize_request_body none = ok none
normalize_request_body (some body) =
    if ltb max_request_bytes (length body)
    then fail "INVALID_REQUEST" "Request body too large"
    else ok (some body)

unfoldable pub validate_request_body_size : Option Bytes → ℕ → NetworkResult (Unit {0})
validate_request_body_size none max_bytes = ok tt
validate_request_body_size (some body) max_bytes =
    if ltb max_bytes (length body) then fail "INVALID_REQUEST" "Request body too large" else ok tt
