-- ===== src/Nat/Responses.antt =====
-- nat.rs: which attribute of a whole response is read.
use post_urbit.Prelude.{
  ℕ, zero, suc, Bytes, ◌+◌, ◌-◌, ◌≤◌, ◌<◌, ◌≡◌, refl, sym, ap, ◌∙◌, arith, List, [], ◌∷◌, ◌++◌,
  append_assoc, nat_eq, length, drop, slice, All, le→leb, to_be_bytes, from_be_bytes,
  length-to_be_bytes, from-to_be_bytes2, from-to_be_bytes4, length-append, slice_step, drop_step,
}
use post_urbit.Nat.{
  attribute_loop, padded, parse_stun_response, stun_binding_response, stun_magic_cookie,
}
use post_urbit.Nat.Attributes.{
  Attribute, attribute_bytes, all_bytes, IsOther, attribute-IsAt, address_of, IsAddress, reads,
  passes, zeros, length-zeros,
}

length-attribute_bytes : (a : Attribute) → length (attribute_bytes a) ≡ 4 + padded (length a.value)
length-attribute_bytes a =
    let n = length a.value in
    let pad = zeros (padded n - n) in
    omega (
      arith,
      length-append (to_be_bytes 2 a.attr_type) (to_be_bytes 2 n ++ (a.value ++ pad)),
      length-append (to_be_bytes 2 n) (a.value ++ pad),
      length-append a.value pad,
      length-zeros (padded n - n),
      length-to_be_bytes 2 a.attr_type,
      length-to_be_bytes 2 n,
    )

loop-reads :
    (fuel : ℕ) (response : Bytes) (offset end : ℕ) (skipped : List Attribute) (a : Attribute)
    (after : Bytes)
    → All IsOther skipped
    → IsAddress a
    → drop offset response ≡ all_bytes skipped ++ (attribute_bytes a ++ after)
    → offset + length (all_bytes skipped) + 4 + length a.value ≤ end
    → length skipped < fuel
    → attribute_loop fuel response offset end ≡ address_of a
loop-reads zero response offset end skipped a after o k h l f = absurd (omega (arith, f))
loop-reads (suc fuel) response offset end [] a after o k h l f =
    reads fuel response offset end a after (attribute-IsAt response offset a after k.0 h)
      (omega (arith, l)) k.1
loop-reads (suc fuel) response offset end (s ∷ skipped) a after (o, more) k h l f =
    let rest = all_bytes skipped ++ (attribute_bytes a ++ after) in
    let at =
      attribute-IsAt response offset s rest o.0
        (h ∙ append_assoc (attribute_bytes s) (all_bytes skipped) (attribute_bytes a ++ after)) in
    let long = length-append (attribute_bytes s) (all_bytes skipped) in
    let whole = length-attribute_bytes s in
    passes fuel response offset end s rest at (omega (arith, l, long, whole)) o.1 o.2
    ∙ loop-reads fuel response (offset + 4 + padded (length s.value)) end skipped a after more k
        at.behind (omega (arith, l, long, whole)) (omega (arith, f))

-- The bytes of a response with the attributes, of which something may follow.
abbrev pub response_bytes : Bytes → List Attribute → Bytes → Bytes
response_bytes transaction_id attributes after =
    to_be_bytes 2 stun_binding_response
    ++ (to_be_bytes 2 (length (all_bytes attributes))
        ++ (to_be_bytes 4 stun_magic_cookie ++ (transaction_id ++ (all_bytes attributes ++ after))))

record HasHeader (response : Bytes) (size : ℕ) (rest : Bytes) : Type 0 where
  type_read : from_be_bytes (slice 0 2 response) ≡ stun_binding_response
  size_read : from_be_bytes (slice 2 2 response) ≡ size
  cookie_read : from_be_bytes (slice 4 4 response) ≡ stun_magic_cookie
  behind : drop 20 response ≡ rest

response-HasHeader :
    (transaction_id : Bytes) (size : ℕ) (rest : Bytes)
    → length transaction_id ≡ 12
    → size < 65536
    → HasHeader
        (to_be_bytes 2 stun_binding_response
          ++ (to_be_bytes 2 size ++ (to_be_bytes 4 stun_magic_cookie ++ (transaction_id ++ rest))))
        size
        rest
response-HasHeader transaction_id size rest l s =
    let kind : Bytes = to_be_bytes 2 stun_binding_response in
    let len : Bytes = to_be_bytes 2 size in
    let cookie : Bytes = to_be_bytes 4 stun_magic_cookie in
    let response = kind ++ (len ++ (cookie ++ (transaction_id ++ rest))) in
    let d2 =
      drop_step 0 2 response kind (len ++ (cookie ++ (transaction_id ++ rest))) refl
        (length-to_be_bytes 2 stun_binding_response) in
    let d4 =
      drop_step 2 2 response len (cookie ++ (transaction_id ++ rest)) d2
        (length-to_be_bytes 2 size) in
    let d8 =
      drop_step 4 4 response cookie (transaction_id ++ rest) d4
        (length-to_be_bytes 4 stun_magic_cookie) in
    record {
      type_read =
          ap from_be_bytes (
            slice_step 0 2 response kind (len ++ (cookie ++ (transaction_id ++ rest))) refl
              (length-to_be_bytes 2 stun_binding_response))
          ∙ from-to_be_bytes2 stun_binding_response (omega arith);
      size_read =
          ap from_be_bytes (
            slice_step 2 2 response len (cookie ++ (transaction_id ++ rest)) d2
              (length-to_be_bytes 2 size))
          ∙ from-to_be_bytes2 size s;
      cookie_read =
          ap from_be_bytes (
            slice_step 4 4 response cookie (transaction_id ++ rest) d4
              (length-to_be_bytes 4 stun_magic_cookie))
          ∙ from-to_be_bytes4 stun_magic_cookie (omega arith);
      behind = drop_step 8 12 response transaction_id rest d8 l;
    }

parsed :
    (response : Bytes) (size : ℕ) (rest : Bytes)
    → HasHeader response size rest
    → 20 + size ≤ length response
    → parse_stun_response response ≡ attribute_loop (20 + size) response 20 (20 + size)
unfolding parse_stun_response
parsed response size rest h l =
    rw
      (
        h.type_read,
        h.size_read,
        h.cookie_read,
        le→leb 20 (length response) (omega arith),
        le→leb (20 + size) (length response) l,
      )
      refl

all_bytes-append : (xs ys : List Attribute) → all_bytes (xs ++ ys) ≡ all_bytes xs ++ all_bytes ys
all_bytes-append [] ys = refl
all_bytes-append (x ∷ xs) ys =
    ap (λ l. attribute_bytes x ++ l) (all_bytes-append xs ys)
    ∙ sym (append_assoc (attribute_bytes x) (all_bytes xs) (all_bytes ys))

length-all_bytes-le : (xs : List Attribute) → length xs ≤ length (all_bytes xs)
length-all_bytes-le [] = omega arith
length-all_bytes-le (x ∷ xs) = omega (
  arith,
  length-append (attribute_bytes x) (all_bytes xs),
  length-attribute_bytes x,
  length-all_bytes-le xs,
)

length-response_bytes :
    (transaction_id : Bytes) (attributes : List Attribute) (after : Bytes)
    → length transaction_id ≡ 12
    → 20 + length (all_bytes attributes) ≤ length (response_bytes transaction_id attributes after)
length-response_bytes transaction_id attributes after t =
    let rest = all_bytes attributes ++ after in
    let size : Bytes = to_be_bytes 2 (length (all_bytes attributes)) in
    let cookie : Bytes = to_be_bytes 4 stun_magic_cookie in
    omega (
      arith,
      length-append (to_be_bytes 2 stun_binding_response)
          (size ++ (cookie ++ (transaction_id ++ rest))),
      length-append size (cookie ++ (transaction_id ++ rest)),
      length-append cookie (transaction_id ++ rest),
      length-append transaction_id rest,
      length-append (all_bytes attributes) after,
      length-to_be_bytes 2 stun_binding_response,
      length-to_be_bytes 2 (length (all_bytes attributes)),
      length-to_be_bytes 4 stun_magic_cookie,
    )

-- A response is read by the first of its attributes that holds an address, mapped or mapped by XOR,
-- whatever other attributes stand before it and whatever comes behind: also where a mapped address
-- stands before one that is mapped by XOR.
pub parse_stun_response-first :
    (transaction_id : Bytes) (skipped : List Attribute) (a : Attribute) (more : List Attribute)
    (after : Bytes)
    → length transaction_id ≡ 12
    → All IsOther skipped
    → IsAddress a
    → length (all_bytes (skipped ++ (a ∷ more))) < 65536
    → parse_stun_response (response_bytes transaction_id (skipped ++ (a ∷ more)) after)
      ≡ address_of a
parse_stun_response-first transaction_id skipped a more after t o k s =
    let attributes = skipped ++ (a ∷ more) in
    let size = length (all_bytes attributes) in
    let response = response_bytes transaction_id attributes after in
    let header = response-HasHeader transaction_id size (all_bytes attributes ++ after) t s in
    let split : all_bytes attributes ≡ all_bytes skipped ++ (attribute_bytes a ++ all_bytes more) =
      all_bytes-append skipped (a ∷ more) in
    let long : size
        ≡ length (all_bytes skipped) + (4 + padded (length a.value) + length (all_bytes more)) =
      ap length split
      ∙ omega (
        arith,
        length-append (all_bytes skipped) (attribute_bytes a ++ all_bytes more),
        length-append (attribute_bytes a) (all_bytes more),
        length-attribute_bytes a,
      ) in
    parsed response size (all_bytes attributes ++ after) header
      (length-response_bytes transaction_id attributes after t)
    ∙ loop-reads (20 + size) response 20 (20 + size) skipped a (all_bytes more ++ after) o k
        (header.behind
          ∙ (ap (λ l. l ++ after) split
              ∙ (append_assoc (all_bytes skipped) (attribute_bytes a ++ all_bytes more) after
                  ∙ ap (λ l. all_bytes skipped ++ l)
                      (append_assoc (attribute_bytes a) (all_bytes more) after))))
        (omega (arith, long)) (omega (arith, long, length-all_bytes-le skipped))
