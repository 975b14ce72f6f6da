-- ===== src/Prelude/Errors.antt =====
-- error.rs: the error type of every fallible function, and `Result` with the `?` operator.
-- The boxed text of an `Io` error comes from the operating system, and is not modelled.
use Prim.Native.String.{String}
use mathlib.Core.Path.{◌≡◌, refl}
use mathlib.Core.Logic.{◌⊎◌, inl, inr}
use mathlib.Core.Option.{Option, none, some}
use mathlib.Core.Bool.{Bool, true, false}

pub data PostUrbitError : Type 0 where
  invalid_input : String → PostUrbitError
  invalid_encoding : String → PostUrbitError
  crypto : String → PostUrbitError
  io : PostUrbitError

pub data Result {ℓ} (A : Type ℓ) : Type ℓ where
  ok : A → Result A
  err : PostUrbitError → Result A

-- `Option::ok_or`
abbrev pub ok_or {ℓ} : {T : Type ℓ} → Option T → PostUrbitError → Result T
ok_or (some value) e = ok value
ok_or none e = err e

-- the `?` operator
infixl 5 ◌>>=◌
abbrev pub ◌>>=◌ {ℓ κ} : {T : Type ℓ} {U : Type κ} → Result T → (T → Result U) → Result U
err e >>= next = err e
ok value >>= next = next value

-- `if !test { return Err(e) }`
abbrev pub guard : Bool → PostUrbitError → Result (Unit {0})
guard false e = err e
guard true e = ok tt

infixl 5 ◌>>◌
abbrev pub ◌>>◌ {ℓ} : {U : Type ℓ} → Result (Unit {0}) → Result U → Result U
first >> next = first >>= λ _. next

pub guard-eq-ok : (b : Bool) (e : PostUrbitError) → guard b e ≡ ok tt → b ≡ true
guard-eq-ok true e h = refl
guard-eq-ok false e h = cc

-- the test held, and the rest gave the value
pub passed {ℓ} :
    {B : Type ℓ} (b : Bool) (message : String) (m : Result B) {v : B}
    → (guard b (invalid_input message) >> m) ≡ ok v
    → (b ≡ true) × (m ≡ ok v)
passed true message m h = (refl, h)
passed false message m h = cc

pub Result-cases {ℓ} :
    {A : Type ℓ} (r : Result A) → ((a : A) × (r ≡ ok a)) ⊎ ((e : PostUrbitError) × (r ≡ err e))
Result-cases (ok a) = inl (a, refl)
Result-cases (err e) = inr (e, refl)

pub >>=-eq-ok {ℓ κ} :
    {T : Type ℓ} {U : Type κ} (first : Result T) (next : T → Result U) {u : U}
    → (first >>= next) ≡ ok u
    → (value : T) × (first ≡ ok value) × (next value ≡ ok u)
>>=-eq-ok (err e) next h = cc
>>=-eq-ok (ok value) next h = (value, refl, h)

-- `?` on a call that also changes the state: what was written before an error stays written.
abbrev pub and_then {ℓ κ μ} :
    {S : Type ℓ} {A : Type κ} {B : Type μ} → Result A × S → (A → S → Result B × S) → Result B × S
and_then (ok a, s) f = f a s
and_then (err e, s) f = (err e, s)

-- `?` keeps an invariant that both parts keep
pub and_then_keeps {ℓ κ μ} :
    {S : Type ℓ} {A : Type κ} {B : Type μ} (P : S → Type 0) (x : Result A × S)
    (f : A → S → Result B × S)
    → P x.1
    → ((a : A) (s : S) → P s → P (f a s).1)
    → P (and_then x f).1
and_then_keeps P (ok a, s) f h k = k a s h
and_then_keeps P (err e, s) f h k = h

pub and_then_ok {ℓ κ μ} :
    {S : Type ℓ} {A : Type κ} {B : Type μ} (x : Result A × S) (f : A → S → Result B × S) {a : A}
    → x.0 ≡ ok a
    → and_then x f ≡ f a x.1
and_then_ok (r, s) f e = rw e refl

abbrev pub is_ok {ℓ} : {A : Type ℓ} → Result A → Bool
is_ok (ok a) = true
is_ok (err e) = false

pub ok_or-some {ℓ} :
    {T : Type ℓ} (o : Option T) (e : PostUrbitError) {value : T}
    → ok_or o e ≡ ok value
    → o ≡ some value
ok_or-some none e h = cc
ok_or-some (some value) e h = cc
