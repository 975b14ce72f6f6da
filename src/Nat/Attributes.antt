-- ===== src/Nat/Attributes.antt =====
-- nat.rs: which attribute of a response is read, and that the rounds are enough.
use post_urbit.Prelude.{
  ℕ, zero, suc, Bytes, ◌+◌, ◌-◌, ◌*◌, ◌≤◌, ◌<◌, ◌≡◌, ◌≢◌, ◌⊎◌, refl, ap, ◌∙◌, subst, arith, List,
  [], ◌∷◌, ◌++◌, append_assoc, ◌==◌, nat_eq, if◌then◌else◌, length, drop, slice, le→leb,
  to_be_bytes, from_be_bytes, length-to_be_bytes, from-to_be_bytes2, length-append, slice_step,
  drop_step, Result, nat_beq_iff, suc_plus,
}
use post_urbit.Network.Hosts.{SocketAddr}
use post_urbit.Nat.{
  attribute_loop, padded, parse_xor_mapped_address, parse_mapped_address, attr_xor_mapped_address,
  attr_mapped_address,
}

-- The number of rounds that the loop is given makes no difference from the distance to the end on:
-- it always ends by itself.
pub attribute_loop_enough :
    (fuel more : ℕ) (response : Bytes) (offset end : ℕ)
    → end < offset + fuel * 4
    → attribute_loop (fuel + more) response offset end ≡ attribute_loop fuel response offset end
unfolding attribute_loop
attribute_loop_enough zero zero response offset end h = refl
attribute_loop_enough zero (suc more) response offset end h = ground arith
attribute_loop_enough (suc fuel) more response offset end h =
    let attr_len = from_be_bytes (slice (offset + 2) 2 response) in
    rw (suc_plus fuel more) (
      ground (
        arith,
        attribute_loop_enough fuel more response (offset + 4 + padded attr_len) end (omega arith),
      ))

pub record Attribute : Type 0 where
  pub attr_type : ℕ
  pub value : Bytes

abbrev pub zeros : ℕ → Bytes
zeros zero = []
zeros (suc n) = 0 ∷ zeros n

pub length-zeros : (n : ℕ) → length (zeros n) ≡ n
length-zeros zero = refl
length-zeros (suc n) = omega (arith, length-zeros n)

-- the bytes of an attribute, filled up to a multiple of four
abbrev pub attribute_bytes : Attribute → Bytes
attribute_bytes a =
    to_be_bytes 2 a.attr_type
    ++ (to_be_bytes 2 (length a.value)
        ++ (a.value ++ zeros (padded (length a.value) - length a.value)))

abbrev pub all_bytes : List Attribute → Bytes
all_bytes [] = []
all_bytes (a ∷ attributes) = attribute_bytes a ++ all_bytes attributes

abbrev pub Fits : Attribute → Type 0
Fits a = (a.attr_type < 65536) × (length a.value < 65536)

-- neither of the two types that the loop reads
abbrev pub IsOther : Attribute → Type 0
IsOther a = Fits a × (a.attr_type ≢ attr_xor_mapped_address) × (a.attr_type ≢ attr_mapped_address)

-- what the loop reads at an attribute that lies at an offset
pub record IsAt (response : Bytes) (offset : ℕ) (a : Attribute) (after : Bytes) : Type 0 where
  pub type_read : from_be_bytes (slice offset 2 response) ≡ a.attr_type
  pub length_read : from_be_bytes (slice (offset + 2) 2 response) ≡ length a.value
  pub value_read : slice (offset + 4) (length a.value) response ≡ a.value
  pub behind : drop (offset + 4 + padded (length a.value)) response ≡ after

four : (offset : ℕ) → offset + 2 + 2 ≡ offset + 4
four offset = omega arith

pub attribute-IsAt :
    (response : Bytes) (offset : ℕ) (a : Attribute) (after : Bytes)
    → Fits a
    → drop offset response ≡ attribute_bytes a ++ after
    → IsAt response offset a after
attribute-IsAt response offset a after (t, l) h =
    let n = length a.value in
    let pad = zeros (padded n - n) in
    let two : Bytes = to_be_bytes 2 a.attr_type in
    let len : Bytes = to_be_bytes 2 n in
    let h0 : drop offset response ≡ two ++ (len ++ ((a.value ++ pad) ++ after)) =
      h
      ∙ (append_assoc two (len ++ (a.value ++ pad)) after
          ∙ ap (λ x. two ++ x) (append_assoc len (a.value ++ pad) after)) in
    let h2 =
      drop_step offset 2 response two (len ++ ((a.value ++ pad) ++ after)) h0
        (length-to_be_bytes 2 a.attr_type) in
    let h4 : drop (offset + 4) response ≡ (a.value ++ pad) ++ after =
      subst (λ m. drop m response ≡ (a.value ++ pad) ++ after) (four offset)
        (drop_step (offset + 2) 2 response len ((a.value ++ pad) ++ after) h2
          (length-to_be_bytes 2 n)) in
    let filled : length (a.value ++ pad) ≡ padded n =
      omega (arith, length-append a.value pad, length-zeros (padded n - n)) in
    record {
      type_read =
          ap from_be_bytes (
            slice_step offset 2 response two (len ++ ((a.value ++ pad) ++ after)) h0
              (length-to_be_bytes 2 a.attr_type))
          ∙ from-to_be_bytes2 a.attr_type t;
      length_read =
          ap from_be_bytes (
            slice_step (offset + 2) 2 response len ((a.value ++ pad) ++ after) h2
              (length-to_be_bytes 2 n))
          ∙ from-to_be_bytes2 n l;
      value_read =
          slice_step (offset + 4) n response a.value (pad ++ after)
            (h4 ∙ append_assoc a.value pad after) refl;
      behind = drop_step (offset + 4) (padded n) response (a.value ++ pad) after h4 filled;
    }

-- the parser of an attribute with an address
abbrev pub address_of : Attribute → Result SocketAddr
address_of a =
    if a.attr_type == attr_xor_mapped_address
    then parse_xor_mapped_address a.value
    else parse_mapped_address a.value

abbrev pub IsAddress : Attribute → Type 0
IsAddress a =
    Fits a × ((a.attr_type ≡ attr_xor_mapped_address) ⊎ (a.attr_type ≡ attr_mapped_address))

pub reads :
    (fuel : ℕ) (response : Bytes) (offset end : ℕ) (a : Attribute) (after : Bytes)
    → IsAt response offset a after
    → offset + 4 + length a.value ≤ end
    → (a.attr_type ≡ attr_xor_mapped_address) ⊎ (a.attr_type ≡ attr_mapped_address)
    → attribute_loop (suc fuel) response offset end ≡ address_of a
unfolding attribute_loop
reads fuel response offset end a after at l k =
    rw
      (
        at.type_read,
        at.length_read,
        at.value_read,
        le→leb (offset + 4) end (omega arith),
        le→leb (offset + 4 + length a.value) end l,
      )
      (ground (
        arith,
        k,
        nat_beq_iff a.attr_type attr_xor_mapped_address,
        nat_beq_iff a.attr_type attr_mapped_address,
      ))

pub passes :
    (fuel : ℕ) (response : Bytes) (offset end : ℕ) (a : Attribute) (after : Bytes)
    → IsAt response offset a after
    → offset + 4 + length a.value ≤ end
    → a.attr_type ≢ attr_xor_mapped_address
    → a.attr_type ≢ attr_mapped_address
    → attribute_loop (suc fuel) response offset end
      ≡ attribute_loop fuel response (offset + 4 + padded (length a.value)) end
unfolding attribute_loop
passes fuel response offset end a after at l x m =
    rw
      (
        at.type_read,
        at.length_read,
        le→leb (offset + 4) end (omega arith),
        le→leb (offset + 4 + length a.value) end l,
      )
      (ground (
        arith,
        x,
        m,
        nat_beq_iff a.attr_type attr_xor_mapped_address,
        nat_beq_iff a.attr_type attr_mapped_address,
      ))
