-- ===== src/Mailbox/Urls/Escapes.antt =====
-- mailbox.rs: what is normalized is left as it is when it is normalized again.
use post_urbit.Prelude.{
  ℕ, Bytes, true, false, ◌&&◌, [], ◌∷◌, ◌==◌, ◌≡◌, refl, sym, ◌∙◌, nat_eq, ok, ◌>>=◌, >>=-eq-ok,
  arith, Bool-cases, inl, inr, subst, &&-eq-true, ◌+◌, ◌*◌,
}
use post_urbit.Mailbox.Urls.{
  is_unreserved, is_hex_digit, hex_value, to_upper, escape, normalize_percent_encoding,
}

-- a byte that starts no escape is copied
normalize_literal :
    (c : ℕ) (s : Bytes)
    → (c == b'%') ≡ false
    → normalize_percent_encoding (c ∷ s) ≡ (normalize_percent_encoding s >>= λ r. ok (c ∷ r))
unfolding normalize_percent_encoding
normalize_literal c [] h = rw (h, normalize_percent_encoding) refl
normalize_literal c (a ∷ []) h = rw (h, normalize_percent_encoding) refl
normalize_literal c (a ∷ b ∷ s) h = rw (h, normalize_percent_encoding) refl

hex_digit-to_upper :
    (a : ℕ)
    → is_hex_digit a ≡ true
    → (is_hex_digit (to_upper a) ≡ true)
      × (hex_value (to_upper a) ≡ hex_value a)
      × (to_upper (to_upper a) ≡ to_upper a)
unfolding is_hex_digit hex_value to_upper
hex_digit-to_upper a h = (ground (arith, h), ground (arith, h), ground (arith, h))

unreserved_literal : (c : ℕ) → is_unreserved c ≡ true → (c == b'%') ≡ false
unfolding is_unreserved
unreserved_literal c h = ground (arith, h)

normalize_escaped :
    (c a b : ℕ) (s : Bytes)
    → (c == b'%') ≡ true
    → is_hex_digit a ≡ true
    → is_hex_digit b ≡ true
    → normalize_percent_encoding (c ∷ a ∷ b ∷ s)
      ≡ (normalize_percent_encoding s >>= λ r. ok (escape a b r))
unfolding normalize_percent_encoding
normalize_escaped c a b s e h k = rw (e, normalize_percent_encoding) (rw (h, k) refl)

refused :
    (c : ℕ) (s r : Bytes)
    → (c == b'%') ≡ true
    → normalize_percent_encoding (c ∷ s) ≡ ok r
    → (a : ℕ) × (b : ℕ) × (rest : Bytes) × (s ≡ a ∷ b ∷ rest)
      × (is_hex_digit a ≡ true)
      × (is_hex_digit b ≡ true)
unfolding normalize_percent_encoding
refused c [] r e h = let bad = rw (e, normalize_percent_encoding) at h in cc
refused c (a ∷ []) r e h = let bad = rw (e, normalize_percent_encoding) at h in cc
refused c (a ∷ b ∷ s) r e h = elim (Bool-cases (is_hex_digit a && is_hex_digit b)) [
  | inl k ↦
      let (hex_a, hex_b) = &&-eq-true (is_hex_digit a) (is_hex_digit b) k in
      (a, b, s, refl, hex_a, hex_b)
  | inr k ↦ let bad = rw (e, normalize_percent_encoding, k) at h in cc
]

-- an escape as it is written is kept
normalize-escape :
    (a b : ℕ) (s : Bytes)
    → is_hex_digit a ≡ true
    → is_hex_digit b ≡ true
    → normalize_percent_encoding s ≡ ok s
    → normalize_percent_encoding (escape a b s) ≡ ok (escape a b s)
unfolding escape
normalize-escape a b s h k same =
    let v = hex_value a * 16 + hex_value b in
    elim (Bool-cases (is_unreserved v)) [
      | inl e ↦ rw (e, escape) (normalize_literal v s (unreserved_literal v e) ∙ rw same refl)
      | inr e ↦
          let (hex_a, value_a, upper_a) = hex_digit-to_upper a h in
          let (hex_b, value_b, upper_b) = hex_digit-to_upper b k in
          rw (e, escape)
            (normalize_escaped b'%' (to_upper a) (to_upper b) s refl hex_a hex_b
              ∙ rw (same, value_a, value_b, upper_a, upper_b, e) refl)
    ]

IsKept : Bytes → Type 0
IsKept s = (r : Bytes) → normalize_percent_encoding s ≡ ok r → normalize_percent_encoding r ≡ ok r

literal-IsKept : (c : ℕ) (s : Bytes) → (c == b'%') ≡ false → IsKept s → IsKept (c ∷ s)
unfolding IsKept
literal-IsKept c s e kept r h =
    let (q, read, same) =
      >>=-eq-ok (normalize_percent_encoding s) _ (sym (normalize_literal c s e) ∙ h) in
    subst (λ x. (x >>= normalize_percent_encoding) ≡ x) same
      (normalize_literal c q e ∙ rw (kept q read) refl)

escaped-IsKept :
    (c a b : ℕ) (s : Bytes)
    → (c == b'%') ≡ true
    → is_hex_digit a ≡ true
    → is_hex_digit b ≡ true
    → IsKept s
    → IsKept (c ∷ a ∷ b ∷ s)
unfolding IsKept
escaped-IsKept c a b s e k l kept r h =
    let (q, read, same) =
      >>=-eq-ok (normalize_percent_encoding s) _ (sym (normalize_escaped c a b s e k l) ∙ h) in
    subst (λ x. (x >>= normalize_percent_encoding) ≡ x) same
      (normalize-escape a b q k l (kept q read))

all-IsKept : (s : Bytes) → IsKept s
unfolding IsKept normalize_percent_encoding
all-IsKept [] r h = subst (λ x. (x >>= normalize_percent_encoding) ≡ x) h refl
all-IsKept (c ∷ []) r h = elim (Bool-cases (c == b'%')) [
  | inl e ↦ let (a, b, rest, same, k, l) = refused c [] r e h in cc
  | inr e ↦ literal-IsKept c [] e (all-IsKept []) r h
]
all-IsKept (c ∷ a ∷ []) r h = elim (Bool-cases (c == b'%')) [
  | inl e ↦ let (x, b, rest, same, k, l) = refused c (a ∷ []) r e h in cc
  | inr e ↦ literal-IsKept c (a ∷ []) e (all-IsKept (a ∷ [])) r h
]
all-IsKept (c ∷ a ∷ b ∷ s) r h = elim (Bool-cases (c == b'%')) [
  | inl e ↦
      let (x, y, rest, same, k, l) = refused c (a ∷ b ∷ s) r e h in
      let ax : a ≡ x = cc in
      let by : b ≡ y = cc in escaped-IsKept c a b s e (rw ax k) (rw by l) (all-IsKept s) r h
  | inr e ↦ literal-IsKept c (a ∷ b ∷ s) e (all-IsKept (a ∷ b ∷ s)) r h
]

-- A path that was normalized is left as it is when it is normalized again.
pub normalize-normalize_percent_encoding :
    (s r : Bytes) → normalize_percent_encoding s ≡ ok r → normalize_percent_encoding r ≡ ok r
unfolding IsKept
normalize-normalize_percent_encoding s r h = all-IsKept s r h
