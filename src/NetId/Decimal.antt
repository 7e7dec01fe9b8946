-- ===== src/NetId/Decimal.antt =====
-- Numbers in decimal, as the standard library reads (`str::parse`) and prints (`Display`) them.
-- A text is the list of its characters' codes.
use openstar_ads.Common.{
  ℕ, zero, suc, ◌+◌, ◌-◌, ◌*◌, ◌/◌, ◌%◌, ◌^◌, ◌<◌, ◌≤◌, ◌≡◌, ◌≢◌, refl, List, [], ◌∷◌, ◌++◌, Bool,
  ◌&&◌, ltb, leb, ◌==◌, if◌then◌else◌, All, arith, ◌∙◌, All-append, ◌⊎◌, inl, inr, Bool-cases,
  ltb→lt, ==_ne,
}
use native.Mathlib.Nat.{pow-suc}

-- The kinds of a `ParseIntError` that an unsigned number can have.
pub data IntErrorKind : Type 0 where
  empty invalid_digit pos_overflow : IntErrorKind

-- `Result<A, E>` with an error type of its own.
pub data Parsed {ℓ κ} (E : Type κ) (A : Type ℓ) : Type (ℓ ⊔ κ) where
  good : A → Parsed E A
  bad : E → Parsed E A

infixl 5 ◌>>=◌
abbrev pub ◌>>=◌ {ℓ κ ι} :
    {E : Type ι} {A : Type ℓ} {B : Type κ} → Parsed E A → (A → Parsed E B) → Parsed E B
good a >>= f = f a
bad e >>= f = bad e

abbrev pub map_bad {ℓ κ ι} :
    {E : Type ι} {F : Type κ} {A : Type ℓ} → (E → F) → Parsed E A → Parsed F A
map_bad f (good a) = good a
map_bad f (bad e) = bad (f e)

abbrev pub is_digit : ℕ → Bool
is_digit c = leb b'0' c && leb c b'9'

-- The digits' loop, with its checked multiplication and addition; `max` is the type's largest value.
unfoldable pub parse_digits : ℕ → ℕ → List ℕ → Parsed IntErrorKind ℕ
parse_digits max acc [] = good acc
parse_digits max acc (c ∷ cs) =
    let next = acc * 10 + (c - b'0') in
    let rest = parse_digits max next cs in
    if is_digit c then (if ltb max next then bad pos_overflow else rest) else bad invalid_digit

-- `str::parse` into an unsigned type: a leading `+` is allowed before at least one digit.
unfoldable pub parse_uint : ℕ → List ℕ → Parsed IntErrorKind ℕ
parse_uint max [] = bad empty
parse_uint max (c ∷ []) = parse_digits max 0 (c ∷ [])
parse_uint max (c ∷ d ∷ cs) =
    if c == b'+' then parse_digits max 0 (d ∷ cs) else parse_digits max 0 (c ∷ d ∷ cs)

-- `Display` of a number with at most `k + 1` digits.
unfoldable pub digits : ℕ → ℕ → List ℕ
digits zero n = (b'0' + n % 10) ∷ []
digits (suc k) n =
    let front = digits k (n / 10) in
    if ltb n 10 then (b'0' + n) ∷ [] else front ++ ((b'0' + n % 10) ∷ [])

-- Five digits serve `u8` and `u16`.
abbrev pub print : ℕ → List ℕ
print n = digits 4 n

parse_digits-snoc :
    (max acc : ℕ) (xs : List ℕ) (c m : ℕ)
    → parse_digits max acc xs ≡ good m
    → parse_digits max acc (xs ++ (c ∷ [])) ≡ parse_digits max m (c ∷ [])
unfolding parse_digits
parse_digits-snoc max acc [] c m e = ground arith
parse_digits-snoc max acc (x ∷ xs) c m e =
    ground (arith, parse_digits-snoc max (acc * 10 + (x - b'0')) xs c m)

last_digit :
    (max m d : ℕ)
    → d < 10
    → m * 10 + d ≤ max
    → parse_digits max m ((b'0' + d) ∷ []) ≡ good (m * 10 + d)
unfolding parse_digits
last_digit max m d hd hm = ground arith

parse_digits-digits :
    (k max n : ℕ) → n < 10 ^ suc k → n ≤ max → parse_digits max 0 (digits k n) ≡ good n
unfolding digits
parse_digits-digits zero max n h hm = ground (arith, last_digit max 0 (n % 10), pow-suc 10 0)
parse_digits-digits (suc k) max n h hm =
    let front =
      parse_digits-digits k max (n / 10) (omega (arith, pow-suc 10 (suc k))) (omega arith) in
    ground (
      arith,
      last_digit max 0 n,
      last_digit max (n / 10) (n % 10),
      parse_digits-snoc max 0 (digits k (n / 10)) (b'0' + n % 10) (n / 10) front,
    )

abbrev pub IsDigit : ℕ → Type 0
IsDigit c = (b'0' ≤ c) × (c ≤ b'9')

pub digits-IsDigit : (k n : ℕ) → All IsDigit (digits k n)
unfolding digits
digits-IsDigit zero n = omega arith
digits-IsDigit (suc k) n = elim (Bool-cases (ltb n 10)) [
  | inl small ↦ rw small (omega (arith, ltb→lt n 10 small))
  | inr large ↦
      rw large (All-append IsDigit (digits k (n / 10)) _ (digits-IsDigit k (n / 10)) (omega arith))
]

digits-ne-nil : (k n : ℕ) → digits k n ≢ []
unfolding digits
digits-ne-nil zero n e = cc
digits-ne-nil (suc k) n e = go (digits k (n / 10)) (ground arith)
  where
    go : (front : List ℕ) → (front ++ ((b'0' + n % 10) ∷ []) ≡ []) ⊎ ((b'0' + n) ∷ [] ≡ []) → ⊥
    go front (inr h) = cc
    go [] (inl h) = cc
    go (x ∷ front) (inl h) = cc

parse_uint_unsigned :
    (max : ℕ) (xs : List ℕ) → All IsDigit xs → xs ≢ [] → parse_uint max xs ≡ parse_digits max 0 xs
unfolding parse_uint
parse_uint_unsigned max [] d h = absurd (h refl)
parse_uint_unsigned max (c ∷ []) d h = refl
parse_uint_unsigned max (c ∷ e ∷ cs) d h = rw (==_ne c b'+' (omega arith))

-- What is printed is read back, where it fits the type.
pub parse_uint-print : (max n : ℕ) → n < 10 ^ 5 → n ≤ max → parse_uint max (print n) ≡ good n
parse_uint-print max n h hm =
    parse_uint_unsigned max (print n) (digits-IsDigit 4 n) (digits-ne-nil 4 n)
    ∙ parse_digits-digits 4 max n h hm

parse_digits-le :
    (max acc : ℕ) (xs : List ℕ) (n : ℕ) → acc ≤ max → parse_digits max acc xs ≡ good n → n ≤ max
unfolding parse_digits
parse_digits-le max acc [] n h e = ground arith
parse_digits-le max acc (c ∷ cs) n h e =
    ground (arith, parse_digits-le max (acc * 10 + (c - b'0')) cs n)

-- A parsed number fits the type.
pub parse_uint-le : (max : ℕ) (xs : List ℕ) (n : ℕ) → parse_uint max xs ≡ good n → n ≤ max
unfolding parse_uint
parse_uint-le max [] n e = cc
parse_uint-le max (c ∷ []) n e = parse_digits-le max 0 (c ∷ []) n (omega arith) e
parse_uint-le max (c ∷ d ∷ cs) n e =
    ground (arith, parse_digits-le max 0 (d ∷ cs) n, parse_digits-le max 0 (c ∷ d ∷ cs) n)
