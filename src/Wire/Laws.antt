-- ===== src/Wire/Laws.antt =====
-- The laws of the little-endian reads: what was written is read back, and what is read was written.
use openstar_ads.Common.{
  ℕ, zero, suc, ◌+◌, ◌*◌, ◌/◌, ◌%◌, ◌^◌, ◌≤◌, ◌<◌, ◌≡◌, ◌≢◌, refl, sym, ap, String, List, [], ◌∷◌,
  ◌++◌, false, ltb, length, take, drop, arith, All, Bool-cases, inl, inr, take-append-drop,
  length-take, take-append_at, drop-append_at, length-append, All-take, All-drop, le→ltb, lt→ltb,
  ltb→lt, ◌⊎◌,
}
use openstar_ads.Error.{Result, ok, err, panic, eof, ◌>>=◌, >>=-eq-ok}
use openstar_ads.Wire.{IsByte, le_value, le_bytes, read_exact, read_uint}
use native.Mathlib.Nat.{pow-suc}

pub length-le_bytes : (k n : ℕ) → length (le_bytes k n) ≡ k
unfolding le_bytes
length-le_bytes zero n = refl
length-le_bytes (suc k) n = ap suc (length-le_bytes k (n / 256))

pub le_bytes-IsByte : (k n : ℕ) → All IsByte (le_bytes k n)
unfolding le_bytes
le_bytes-IsByte zero n = tt
le_bytes-IsByte (suc k) n = (omega arith, le_bytes-IsByte k (n / 256))

-- Encoding then decoding, for a number that fits.
pub le_value-le_bytes : (k n : ℕ) → n < 256 ^ k → le_value (le_bytes k n) ≡ n
unfolding le_value le_bytes
le_value-le_bytes zero n h = omega arith
le_value-le_bytes (suc k) n h =
    omega (arith, le_value-le_bytes k (n / 256) (omega (arith, pow-suc 256 k)))

-- Decoding then encoding, for bytes.
pub le_bytes-le_value :
    (k : ℕ) (bs : List ℕ) → length bs ≡ k → All IsByte bs → le_bytes k (le_value bs) ≡ bs
unfolding le_value le_bytes
le_bytes-le_value zero [] h b = refl
le_bytes-le_value zero (x ∷ bs) h b = absurd (omega arith)
le_bytes-le_value (suc k) [] h b = absurd (omega arith)
le_bytes-le_value (suc k) (x ∷ bs) h (hx, hb) =
    let quot : (x + 256 * le_value bs) / 256 ≡ le_value bs = omega arith in
    let low : (x + 256 * le_value bs) % 256 ≡ x = omega arith in
    rw (quot, low, le_bytes-le_value k bs (omega arith) hb)

pub le_value-lt : (k : ℕ) (bs : List ℕ) → length bs ≡ k → All IsByte bs → le_value bs < 256 ^ k
unfolding le_value
le_value-lt zero [] h b = omega arith
le_value-lt zero (x ∷ bs) h b = absurd (omega arith)
le_value-lt (suc k) [] h b = absurd (omega arith)
le_value-lt (suc k) (x ∷ bs) h (hx, hb) =
    omega (arith, le_value-lt k bs (omega arith) hb, pow-suc 256 k)

module _ (ctx : String) where
  pub read_exact-append :
      (n : ℕ) (front rest : List ℕ)
      → length front ≡ n
      → read_exact ctx n (front ++ rest) ≡ ok (front, rest)
  unfolding read_exact
  read_exact-append n front rest h = rw (
    le→ltb (length (front ++ rest)) n (omega (arith, length-append front rest)),
    take-append_at n front rest h,
    drop-append_at n front rest h,
  )

  -- The number that was written is read back, and the rest is left.
  pub read_uint-le_bytes :
      (k n : ℕ) (rest : List ℕ)
      → n < 256 ^ k
      → read_uint ctx k (le_bytes k n ++ rest) ≡ ok (n, rest)
  unfolding read_uint
  read_uint-le_bytes k n rest h =
      rw (read_exact-append k (le_bytes k n) rest (length-le_bytes k n), le_value-le_bytes k n h)

  pub read_exact-ne-panic : (n : ℕ) (ptr : List ℕ) → read_exact ctx n ptr ≢ panic
  unfolding read_exact
  read_exact-ne-panic n ptr = ground arith

  pub read_uint-ne-panic : (k : ℕ) (ptr : List ℕ) → read_uint ctx k ptr ≢ panic
  unfolding read_uint read_exact
  read_uint-ne-panic k ptr = ground arith

  pub read_uint_short :
      (k : ℕ) (ptr : List ℕ) → length ptr < k → read_uint ctx k ptr ≡ err (eof ctx)
  unfolding read_uint read_exact
  read_uint_short k ptr h = rw (lt→ltb (length ptr) k h)

  long_lem :
      (k : ℕ) (ptr : List ℕ)
      → ltb (length ptr) k ≡ false
      → read_uint ctx k ptr ≡ ok (le_value (take k ptr), drop k ptr)
  unfolding read_uint read_exact
  long_lem k ptr h = rw h

  pub read_exact_inv :
      (n : ℕ) (ptr front rest : List ℕ)
      → read_exact ctx n ptr ≡ ok (front, rest)
      → (ptr ≡ front ++ rest) × (length front ≡ n)
  unfolding read_exact
  read_exact_inv n ptr front rest e = ground (arith, take-append-drop n ptr, length-take n ptr)

  pub read_exact_shrinks :
      (n : ℕ) (ptr front rest : List ℕ)
      → read_exact ctx n ptr ≡ ok (front, rest)
      → length rest + n ≡ length ptr
  read_exact_shrinks n ptr front rest e =
      let (split, size) = read_exact_inv n ptr front rest e in
      omega (arith, ap length split, length-append front rest)

  pub read_uint_ok :
      (k : ℕ) (ptr : List ℕ) (v : ℕ) (rest : List ℕ)
      → read_uint ctx k ptr ≡ ok (v, rest)
      → (v ≡ le_value (take k ptr)) × (rest ≡ drop k ptr) × (k ≤ length ptr)
  unfolding read_uint read_exact
  read_uint_ok k ptr v rest e = ground arith

  -- Whatever is read off a slice of bytes stands at its front.
  pub read_uint_inv :
      (k : ℕ) (ptr : List ℕ) (v : ℕ) (rest : List ℕ)
      → All IsByte ptr
      → read_uint ctx k ptr ≡ ok (v, rest)
      → (ptr ≡ le_bytes k v ++ rest) × (v < 256 ^ k) × All IsByte rest
  read_uint_inv k ptr v rest b e =
      let (ev, er, hk) = read_uint_ok k ptr v rest e in
      let front = take k ptr in
      let hl : length front ≡ k = omega (arith, length-take k ptr) in
      let hb : All IsByte front = All-take IsByte k ptr b in
      rw (ev, er)
        (
          rw (le_bytes-le_value k front hl hb) (sym (take-append-drop k ptr)),
          le_value-lt k front hl hb,
          All-drop IsByte k ptr b,
        )

  -- The two answers of a read.
  pub read_uint_cases :
      (k : ℕ) (ptr : List ℕ)
      → ((v : ℕ) × (rest : List ℕ) × (read_uint ctx k ptr ≡ ok (v, rest)))
        ⊎ (read_uint ctx k ptr ≡ err (eof ctx))
  read_uint_cases k ptr = elim (Bool-cases (ltb (length ptr) k)) [
    | inl short ↦ inr (read_uint_short k ptr (ltb→lt _ _ short))
    | inr long ↦ inl (le_value (take k ptr), drop k ptr, long_lem k ptr long)
  ]

-- A chain that starts with a read and succeeds.
pub read_uint_then {ℓ} :
    {A : Type ℓ} (ctx : String) (k : ℕ) (ptr : List ℕ) (f : ℕ × List ℕ → Result A) {a : A}
    → All IsByte ptr
    → (read_uint ctx k ptr >>= f) ≡ ok a
    → (v : ℕ) × (rest : List ℕ) × (ptr ≡ le_bytes k v ++ rest)
      × (v < 256 ^ k)
      × All IsByte rest
      × (f (v, rest) ≡ ok a)
read_uint_then ctx k ptr f b e =
    let ((v, rest), read, more) = >>=-eq-ok (read_uint ctx k ptr) f e in
    let (split, fits, bytes) = read_uint_inv ctx k ptr v rest b read in
    (v, rest, split, fits, bytes, more)

-- A chain that starts with the read of a number that was written.
pub read_uint_step {ℓ} :
    {A : Type ℓ} (ctx : String) (k n : ℕ) (rest : List ℕ) (f : ℕ × List ℕ → Result A)
    → n < 256 ^ k
    → (read_uint ctx k (le_bytes k n ++ rest) >>= f) ≡ f (n, rest)
read_uint_step ctx k n rest f h = ap (λ r. r >>= f) (read_uint-le_bytes ctx k n rest h)

pub read_exact_step {ℓ} :
    {A : Type ℓ} (ctx : String) (n : ℕ) (front rest : List ℕ) (f : List ℕ × List ℕ → Result A)
    → length front ≡ n
    → (read_exact ctx n (front ++ rest) >>= f) ≡ f (front, rest)
read_exact_step ctx n front rest f h = ap (λ r. r >>= f) (read_exact-append ctx n front rest h)
