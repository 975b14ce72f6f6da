-- ===== src/Tests/Toys.antt =====
-- Concrete functions for the parameters of the models.
use post_urbit.Prelude.{
  ℕ, zero, suc, ◌+◌, ◌-◌, Bytes, [], ◌∷◌, ◌≡◌, refl, ap, some, false, contains, nat_eq, arith, map,
  Ed25519, IsKeyPair, true,
}
use post_urbit.Encoding.{Base64, IsBase64}
use post_urbit.Messaging.Sealing.{Aead, IsAead}

abbrev pub zeros : ℕ → Bytes
zeros zero = []
zeros (suc n) = 0 ∷ zeros n

-- every signature is 64 zeros, and is accepted
abbrev pub toy_ed25519 : Ed25519
toy_ed25519 = record {
  sign = λ key message. zeros 64;
  is_key = λ key. true;
  verify_strict = λ key message signature. true;
}

pub toy-IsKeyPair : IsKeyPair toy_ed25519 [] (zeros 32)
toy-IsKeyPair = record {
  key_long = refl;
  key_good = refl;
  signature_long = λ message. refl;
  accepts = λ message. refl;
}

-- a byte is written as the letter 100 further on
abbrev pub toy_base64 : Base64
toy_base64 = record { encode = map (λ b. b + 100); decode = λ text. some (map (λ b. b - 100) text) }

back : (bytes : Bytes) → map (λ b. b - 100) (map (λ b. b + 100) bytes) ≡ bytes
back [] = refl
back (b ∷ bytes) = let e : b + 100 - 100 ≡ b = omega arith in rw e (ap (λ l. b ∷ l) (back bytes))

unpadded : (bytes : Bytes) → contains (map (λ b. b + 100) bytes) b'=' ≡ false
unfolding contains
unpadded [] = refl
unpadded (b ∷ bytes) = ground (arith, unpadded bytes)

pub toy-IsBase64 : IsBase64 toy_base64
toy-IsBase64 = record { decode_encode = λ bytes. ap some (back bytes); no_padding = unpadded }

abbrev pub toy_aead : Aead
toy_aead = record {
  encrypt = λ key nonce aad text. some text;
  decrypt = λ key nonce aad text. some text;
}

pub toy-IsAead : IsAead toy_aead
toy-IsAead = record { decrypt_encrypt = λ key nonce aad plaintext ciphertext h. cc }
