-- ===== src/Error.antt =====
-- src/error.rs: the error type, and the results of the library's functions.
pub mod Table
pub mod Search
mod Runs
use openstar_ads.Common.{ℕ, String, ◌≡◌, refl, ◌⊎◌, inl, inr, Bool, true, false, Option, none}

pub data IoKind : Type 0 where
  unexpected_eof timed_out invalid_data connection_reset broken_pipe other_kind : IoKind

-- An `io::Error`: its kind, and the payload that it may carry.
pub record IoError : Type 0 where
  pub kind : IoKind
  pub payload : Option String

-- `io::ErrorKind::into`.
abbrev pub from_kind : IoKind → IoError
from_kind k = record { kind = k; payload = none }

pub data Error : Type 0 where
  io : String → IoError → Error
  ads : String → String → ℕ → Error
  reply : String → String → ℕ → Error
  overflow : Error
  io_sync : String → String → ℕ → Error
  symbol_type_tree : String → Error
  disconnected : Error
  other : String → Error

-- `Error::clone`: an IO error keeps its kind and loses its payload.
unfoldable pub clone : Error → Error
clone (io ctx e) = io ctx (from_kind e.kind)
clone e = e

-- What a call returns: a value, an error, or a Rust panic.
pub data Result {ℓ} (A : Type ℓ) : Type ℓ where
  ok : A → Result A
  err : Error → Result A
  panic : Result A

-- `assert!(test)`, and any test whose failure panics.
abbrev pub assert : Bool → Result (Unit {0})
assert false = panic
assert true = ok tt

-- `if !test { return Err(error) }`.
abbrev pub guard : Bool → Error → Result (Unit {0})
guard false error = err error
guard true error = ok tt

-- `Result::expect`.
abbrev pub expect {ℓ} : {A : Type ℓ} → Result A → Result A
expect (ok a) = ok a
expect (err e) = panic
expect panic = panic

-- The operator `?`, which ends the function on an error, and a panic, which unwinds it.
infixl 5 ◌>>=◌ ◌>>◌
abbrev pub ◌>>=◌ {ℓ κ} : {A : Type ℓ} {B : Type κ} → Result A → (A → Result B) → Result B
panic >>= next = panic
err error >>= next = err error
ok value >>= next = next value

abbrev pub ◌>>◌ {ℓ} : {B : Type ℓ} → Result (Unit {0}) → Result B → Result B
check >> rest = check >>= λ passed. rest

abbrev pub eof : String → Error
eof ctx = io ctx (from_kind IoKind.unexpected_eof)

-- A chain that succeeds, taken apart: its head succeeds, and what follows it.
pub >>=-eq-ok {ℓ κ} :
    {A : Type ℓ} {B : Type κ} (head : Result A) (next : A → Result B) {out : B}
    → (head >>= next) ≡ ok out
    → (value : A) × (head ≡ ok value) × (next value ≡ ok out)
>>=-eq-ok panic next e = cc
>>=-eq-ok (err error) next e = cc
>>=-eq-ok (ok value) next e = (value, refl, e)

-- The three kinds of results.
pub Result-cases {ℓ} :
    {A : Type ℓ} (r : Result A)
    → ((a : A) × (r ≡ ok a)) ⊎ (((e : Error) × (r ≡ err e)) ⊎ (r ≡ panic))
Result-cases (ok a) = inl (a, refl)
Result-cases (err e) = inr (inl (e, refl))
Result-cases panic = inr (inr refl)
