-- ===== src/Tests/Nat.antt =====
-- A response of STUN that holds both kinds of address.
use post_urbit.Prelude.{
  ℕ, Bytes, ◌≡◌, ◌≢◌, refl, arith, List, [], ◌∷◌, ◌++◌, inr, Result, ok, nat_eq,
}
use post_urbit.Nat.{parse_stun_response}
use post_urbit.Nat.Attributes.{Attribute, zeros, address_of}
use post_urbit.Nat.Responses.{response_bytes, parse_stun_response-first}

-- 192.0.2.1, port 4660
abbrev address : Bytes
address = 0 ∷ 1 ∷ 18 ∷ 52 ∷ 192 ∷ 0 ∷ 2 ∷ 1 ∷ []

abbrev software : Attribute
software = record { attr_type = 32802; value = 65 ∷ 66 ∷ 67 ∷ [] }

abbrev mapped : Attribute
mapped = record { attr_type = 1; value = address }

abbrev xor_mapped : Attribute
xor_mapped = record { attr_type = 32; value = address }

parse_stun_response-first_example :
    parse_stun_response (response_bytes (zeros 12) (software ∷ mapped ∷ xor_mapped ∷ []) (9 ∷ []))
    ≡ address_of mapped
unfolding post_urbit.Prelude.to_be_bytes
parse_stun_response-first_example =
    parse_stun_response-first (zeros 12) (software ∷ []) mapped (xor_mapped ∷ []) (9 ∷ []) refl
      (((omega arith, omega arith), omega arith, omega arith), tt)
      ((omega arith, omega arith), inr refl) (omega arith)
