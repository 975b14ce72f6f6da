-- ===== src/Mailbox/Store/Admission.antt =====
-- mailbox_store.rs: which envelopes are taken in from a sender, said by plain comparisons.
use post_urbit.Prelude.{
  ◌≢◌, ℕ, Bytes, Bool, true, false, ◌&&◌, Option, none, some, [], ◌∷◌, ◌≡◌, refl, sym, ap, ◌∙◌,
  arith, ◌==◌, list_eq, nat_eq, leb, length, if◌then◌else◌, Result, ok, err, is_ok, Result-cases,
  Bool-cases, inl, inr, list_beq_iff, nat_beq_iff, bit_xor, bit_or, bit_xor-zero, bit_xor_same,
  bit_or-zero, PostUrbitError,
}
use post_urbit.Encoding.{crockford_base32_decode, validate_crockford_base32_lower}
use post_urbit.Messaging.{decode_puse_envelope}
use post_urbit.Messaging.Lengths.{decoded_sender}
use post_urbit.Mailbox.Store.{StoredMessage, diff_loop, constant_time_eq, accept, accept_group}

diff_loop-zero :
    (diff : ℕ) (xs ys : Bytes)
    → length xs ≡ length ys
    → diff_loop diff xs ys ≡ 0
    → (diff ≡ 0) × (xs ≡ ys)
unfolding diff_loop
diff_loop-zero diff [] [] l h = (h, refl)
diff_loop-zero diff [] (y ∷ ys) l h = absurd (omega (arith, l))
diff_loop-zero diff (x ∷ xs) [] l h = absurd (omega (arith, l))
diff_loop-zero diff (x ∷ xs) (y ∷ ys) l h =
    let (heads, tails) = diff_loop-zero (bit_or diff (bit_xor x y)) xs ys (omega (arith, l)) h in
    let (before, here) = bit_or-zero diff (bit_xor x y) heads in
    (before, rw (bit_xor-zero x y here, tails) refl)

diff_loop_same : (xs : Bytes) → diff_loop 0 xs xs ≡ 0
unfolding diff_loop
diff_loop_same [] = refl
diff_loop_same (x ∷ xs) = rw (bit_xor_same x) (diff_loop_same xs)

true-not-false : true ≢ false
true-not-false h = cc

-- the comparison that takes the same time is the plain one
constant_time_eq-beq :
    (a b : Bytes) → length a ≡ 20 → constant_time_eq a b ≡ (length b == 20 && b == a)
unfolding constant_time_eq
constant_time_eq-beq a b l = elim (Bool-cases (length b == 20)) [
  | inr e ↦ rw e refl
  | inl e ↦ rw e (elim (Bool-cases (b == a)) [
    | inl k ↦ rw (k, (list_beq_iff b a).0 k, diff_loop_same a) refl
    | inr k ↦ elim (Bool-cases (diff_loop 0 a b == 0)) [
      | inr z ↦ rw (k, z) refl
      | inl z ↦
          let lengths : length a ≡ length b = l ∙ sym ((nat_beq_iff (length b) 20).0 e) in
          let same = (diff_loop-zero 0 a b lengths ((nat_beq_iff (diff_loop 0 a b) 0).0 z)).1 in
          absurd (true-not-false (sym ((list_beq_iff b a).1 (sym same)) ∙ k))
    ]
  ])
]

same_length : (a b : Bytes) → length b ≡ 20 → (a == b) ≡ true → (length a == 20) ≡ true
same_length a b l h = (nat_beq_iff (length a) 20).1 (ap length ((list_beq_iff a b).0 h) ∙ l)

abbrev pub to_option {ℓ} : {A : Type ℓ} → Result A → Option A
to_option (ok a) = some a
to_option (err e) = none

pub accepted {ℓ} : {A : Type ℓ} (r : Result A) (a : A) → to_option r ≡ some a → r ≡ ok a
accepted (ok b) a h = ground (arith, h)
accepted (err e) a h = cc

pub refused {ℓ} :
    {A : Type ℓ} (r : Result A) → to_option r ≡ none → (e : PostUrbitError) × (r ≡ err e)
refused (ok b) h = cc
refused (err e) h = (e, refl)

-- the text stands for the bytes
unfoldable pub sent_by : Bytes → Bytes → Bool
sent_by sender_iid raw = elim (crockford_base32_decode sender_iid) [
  | err e ↦ false
  | ok sender_raw ↦ sender_raw == raw
]

module _ (uuid : Bytes → Bytes) where
  -- the message, but for its time, of an envelope that a sender may leave: its size is at most
  -- 1 MiB, it is decoded, and the identifier in its header is the sender's
  unfoldable pub letter : Bytes → Bytes → Option (Bytes → StoredMessage)
  letter sender_iid envelope = elim (decode_puse_envelope envelope) [
    | err e ↦ none
    | ok parsed ↦
        if is_ok (validate_crockford_base32_lower sender_iid)
          && (leb (length envelope) 1048576 && sent_by sender_iid parsed.header.sender_iid)
        then some (λ stored_at. record {
          message_id = uuid parsed.header.message_id;
          stored_at = stored_at;
          sender_iid = sender_iid;
          size = length envelope;
          envelope = envelope;
        })
        else none
  ]

  -- Both checks take in the letters, and no other envelope.
  pub accept_group-letter :
      (sender_iid envelope : Bytes)
      → to_option (accept_group uuid sender_iid envelope) ≡ letter sender_iid envelope
  unfolding accept_group letter sent_by
  accept_group-letter sender_iid envelope = elim (Result-cases (decode_puse_envelope envelope)) [
    | inr (x, d) ↦ rw (d, accept_group, letter) ground arith
    | inl (parsed, d) ↦ elim (Result-cases (crockford_base32_decode sender_iid)) [
      | inr (x, c) ↦ rw (d, c, accept_group, letter, sent_by) ground arith
      | inl (raw, c) ↦
          let twenty = decoded_sender envelope parsed d in
          rw
            (
              d,
              c,
              accept_group,
              letter,
              sent_by,
              constant_time_eq-beq parsed.header.sender_iid raw twenty,
            )
            ground (arith, same_length raw parsed.header.sender_iid twenty)
    ]
  ]

  pub accept-letter :
      (inbox_owner_iid sender_iid envelope stored_at : Bytes)
      → to_option (accept uuid inbox_owner_iid sender_iid envelope stored_at) ≡ (
          if is_ok (validate_crockford_base32_lower inbox_owner_iid)
          then elim (letter sender_iid envelope) [
            | none ↦ none
            | some message ↦ some (message stored_at)
          ]
          else none)
  unfolding accept letter sent_by
  accept-letter inbox_owner_iid sender_iid envelope stored_at =
      elim (Result-cases (decode_puse_envelope envelope)) [
        | inr (x, d) ↦ rw (d, accept, letter) ground arith
        | inl (parsed, d) ↦ elim (Result-cases (crockford_base32_decode sender_iid)) [
          | inr (x, c) ↦ rw (d, c, accept, letter, sent_by) ground arith
          | inl (raw, c) ↦
              let twenty = decoded_sender envelope parsed d in
              rw
                (
                  d,
                  c,
                  accept,
                  letter,
                  sent_by,
                  constant_time_eq-beq parsed.header.sender_iid raw twenty,
                )
                ground (arith, same_length raw parsed.header.sender_iid twenty)
        ]
      ]
