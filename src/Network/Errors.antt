-- ===== src/Network/Errors.antt =====
-- network.rs: `NetworkError`, and `NetworkResult` with the `?` operator.
use post_urbit.Prelude.{String, Bool, true, false}

pub record NetworkError : Type 0 where
  pub code : String
  pub message : String

pub data NetworkResult {ℓ} (T : Type ℓ) : Type ℓ where
  ok : T → NetworkResult T
  err : NetworkError → NetworkResult T

-- `Err(NetworkError::new(code, message))`
abbrev pub fail {ℓ} : {T : Type ℓ} → String → String → NetworkResult T
fail code message = err (record { code = code; message = message })

infixl 5 ◌>>=◌
abbrev pub ◌>>=◌ {ℓ κ} :
    {T : Type ℓ} {U : Type κ} → NetworkResult T → (T → NetworkResult U) → NetworkResult U
ok value >>= next = next value
err e >>= next = err e

abbrev pub is_ok {ℓ} : {T : Type ℓ} → NetworkResult T → Bool
is_ok (ok value) = true
is_ok (err e) = false
