-- ===== src/Notification/Total.antt =====
-- `Notification::new` answers on every input.
use openstar_ads.Common.{
  ℕ, zero, suc, ◌≡◌, ◌⊎◌, inl, inr, refl, List, length, leb, drop, Bool-cases, le→ltb, leb→le,
  arith,
}
use openstar_ads.Error.{Result, ok, err, ◌>>=◌, eof}
use openstar_ads.Wire.{read_uint, split_at}
use openstar_ads.Wire.Laws.{read_uint_cases}
use openstar_ads.Notification.{new, skip_samples, skip_stamps, parsing, is_empty}

-- A value, or the error of a message that ends too early.
abbrev pub OkOrEof {ℓ} : {A : Type ℓ} → Result A → Type ℓ
OkOrEof {A = A} r = ((a : A) × (r ≡ ok a)) ⊎ (r ≡ err (eof parsing))

-- A read at the head of a chain whose rest answers.
read_then {ℓ} :
    {A : Type ℓ} (k : ℕ) (ptr : List ℕ) (f : ℕ × List ℕ → Result A)
    → ((v : ℕ) (rest : List ℕ) → OkOrEof (f (v, rest)))
    → OkOrEof (read_uint parsing k ptr >>= f)
read_then k ptr f answers = elim (read_uint_cases parsing k ptr) [
  | inl (v, rest, e) ↦ rw e (answers v rest)
  | inr e ↦ inr (rw e)
]

chain {ℓ κ} :
    {A : Type ℓ} {B : Type κ} (r : Result A) (f : A → Result B)
    → OkOrEof r
    → ((a : A) → OkOrEof (f a))
    → OkOrEof (r >>= f)
chain r f (inl (a, e)) answers = rw e (answers a)
chain r f (inr e) answers = inr (rw e)

skip_samples_answers : (n : ℕ) (ptr : List ℕ) → OkOrEof (skip_samples n ptr)
unfolding skip_samples split_at
skip_samples_answers zero ptr = inl (ptr, refl)
skip_samples_answers (suc n) ptr = read_then 4 ptr _ λ handle ptr. read_then 4 ptr _ λ len rest.
    elim (Bool-cases (leb len (length rest))) [
      | inl room ↦
          rw (room, le→ltb (length rest) len (leb→le _ _ room))
            (skip_samples_answers n (drop len rest))
      | inr short ↦ inr (rw short)
    ]

skip_stamps_answers : (n : ℕ) (ptr : List ℕ) → OkOrEof (skip_stamps n ptr)
unfolding skip_stamps
skip_stamps_answers zero ptr = inl (ptr, refl)
skip_stamps_answers (suc n) ptr = read_then 8 ptr _ λ timestamp ptr. read_then 4 ptr _ λ count rest.
    chain (skip_samples count rest) _ (skip_samples_answers count rest) (skip_stamps_answers n)

-- On every input `new` answers: with a notification, or with the error of an early end. It never
-- panics: its slices lie within the message.
pub new_answers : (msg : List ℕ) → OkOrEof (new msg)
unfolding new split_at
new_answers msg = elim (Bool-cases (leb 46 (length msg))) [
  | inr short ↦ inr (rw short)
  | inl room ↦
      rw (room, le→ltb (length msg) 42 (omega (arith, leb→le _ _ room)))
        (read_then 4 (drop 42 msg) _ λ count ptr.
          chain (skip_stamps count ptr) _ (skip_stamps_answers count ptr) λ rest.
            elim (Bool-cases (is_empty rest)) [
              | inl done ↦ inl (record { bytes = msg; nstamps = count }, rw done)
              | inr more ↦ inr (rw more)
            ])
]
