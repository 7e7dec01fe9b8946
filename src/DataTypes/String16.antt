-- ===== src/DataTypes/String16.antt =====
-- `AdsString16`: a text that is sent and read back.
use openstar_ads.Common.{
  ℕ, zero, suc, ◌-◌, ◌≤◌, ◌<◌, ◌≡◌, ◌≢◌, refl, sym, subst, ap, false, ◌==◌, ==_iff, Bool-cases, inl,
  inr, ◌∙◌, List, [], ◌∷◌, ◌++◌, some, length, replicate, All, arith, le→ltb, lt→ltb, length-append,
  length-replicate, take-append_at, drop-append_at,
}
use openstar_ads.Symbol.{Text}
use openstar_ads.Wire.{le_value}
use openstar_ads.Symbol.Values.Utf16.{utf8}
use openstar_ads.DataTypes.{
  AdsString16, converted, refused, longer_than_16_bytes, try_from_string, chars, trim_cons,
  trim_end, into_string, string16_bytes, string16_from_bytes,
}

utf8_ascii : (c : ℕ) → c < 128 → utf8 c ≡ c ∷ []
unfolding utf8
utf8_ascii c h = rw (lt→ltb c 128 h) refl

chars_ascii : (text : Text) → All (λ c. c < 128) text → chars text ≡ text
chars_ascii [] h = refl
chars_ascii (c ∷ text) (h, hs) = rw (utf8_ascii c h, chars_ascii text hs) refl

trim_end_zeros : (n : ℕ) → trim_end (replicate n 0) ≡ []
unfolding trim_end
trim_end_zeros zero = refl
trim_end_zeros (suc n) = rw (trim_end_zeros n) refl

trim_end-append_zeros : (text : Text) (n : ℕ) → trim_end (text ++ replicate n 0) ≡ trim_end text
unfolding trim_end
trim_end-append_zeros [] n = trim_end_zeros n
trim_end-append_zeros (c ∷ text) n = rw (trim_end-append_zeros text n) refl

ascii_padded :
    (text : Text) (n : ℕ) → All (λ c. c < 128) text → All (λ c. c < 128) (text ++ replicate n 0)
ascii_padded [] zero h = tt
ascii_padded [] (suc n) h = (omega arith, ascii_padded [] n tt)
ascii_padded (c ∷ text) n (h, hs) = (h, ascii_padded text n hs)

never_empty : (front : Text) → ◌≢◌ {A = Text} [] (front ++ (0 ∷ []))
never_empty [] e = cc
never_empty (x ∷ front) e = cc

-- A text as it is without the NULs at its end.
pub record IsTrimmed (text core : Text) : Type 0 where
  pub nuls : ℕ
  pub restored : text ≡ core ++ replicate nuls 0
  pub no_nul_last : (front : Text) → core ≢ front ++ (0 ∷ [])

trim_cons-IsTrimmed :
    (c : ℕ) (text core : Text) → IsTrimmed text core → IsTrimmed (c ∷ text) (trim_cons c core)
trim_cons-IsTrimmed c text [] w = elim (Bool-cases (c == 0)) [
  | inl zero_byte ↦ rw zero_byte (record {
    nuls = suc w.nuls;
    restored = ap (λ d. d ∷ text) ((==_iff c 0).0 zero_byte) ∙ ap (λ s. 0 ∷ s) w.restored;
    no_nul_last = never_empty;
  })
  | inr other ↦ rw other (record {
    nuls = w.nuls;
    restored = ap (λ s. c ∷ s) w.restored;
    no_nul_last = λ front e. one_byte c front other e;
  })
]
  where
    one_byte :
        (d : ℕ) (front : Text) → (d == 0) ≡ false → ◌≢◌ {A = Text} (d ∷ []) (front ++ (0 ∷ []))
    one_byte d [] other e =
        let same : d ≡ 0 = ap (λ (s : Text). elim s [ [] ↦ d | ◌∷◌ x xs ↦ x ]) e in
        cc ((==_iff d 0).1 same, other)
    one_byte d (x ∷ front) other e =
        never_empty front (ap (λ (s : Text). elim s [ [] ↦ [] | ◌∷◌ y ys ↦ ys ]) e)
trim_cons-IsTrimmed c text (d ∷ core) w = record {
  nuls = w.nuls;
  restored = ap (λ s. c ∷ s) w.restored;
  no_nul_last = λ front e. longer front e;
}
  where
    tail_of : Text → Text
    tail_of [] = []
    tail_of (x ∷ xs) = xs

    longer : (front : Text) → ◌≢◌ {A = Text} (c ∷ d ∷ core) (front ++ (0 ∷ []))
    longer [] e = cc
    longer (x ∷ front) e = w.no_nul_last front (ap tail_of e)

trim_end-IsTrimmed : (text : Text) → IsTrimmed text (trim_end text)
unfolding trim_end
trim_end-IsTrimmed [] = record { nuls = 0; restored = refl; no_nul_last = never_empty }
trim_end-IsTrimmed (c ∷ text) = trim_cons-IsTrimmed c text (trim_end text) (trim_end-IsTrimmed text)

pub try_from_string_long :
    (text : Text) → 16 < length text → try_from_string text ≡ refused longer_than_16_bytes
unfolding try_from_string
try_from_string_long text long = rw (lt→ltb 16 (length text) long) refl

-- A text of at most sixteen ASCII characters is accepted, goes over the wire as seventeen bytes that
-- are read back as they were written, and comes out as it went in, less the NULs at its end: what
-- comes out, followed by some NULs, is the text, and does not end in a NUL itself.
pub into_string-try_from :
    (text : Text)
    → All (λ c. c < 128) text
    → length text ≤ 16
    → (s : AdsString16) × (try_from_string text ≡ converted s)
      × (length (string16_bytes s) ≡ 17)
      × (string16_from_bytes (string16_bytes s) ≡ some s)
      × IsTrimmed text (into_string s)
unfolding try_from_string string16_bytes string16_from_bytes into_string le_value
into_string-try_from text ascii short =
    let pad = replicate (16 - length text) 0 in
    let inner : List ℕ = text ++ pad in
    let n : length inner ≡ 16 =
      omega (arith, length-append text pad, length-replicate {A = ℕ} (16 - length text) 0) in
    let total : length (inner ++ (0 ∷ [])) ≡ 17 = omega (arith, length-append inner (0 ∷ [])) in
    (
      record { inner = inner; null_terminator = 0 },
      rw (le→ltb 16 (length text) short) refl,
      total,
      rw (total, take-append_at 16 inner (0 ∷ []) n, drop-append_at 16 inner (0 ∷ []) n) refl,
      subst (IsTrimmed text)
          (sym (
            ap trim_end (chars_ascii inner (ascii_padded text (16 - length text) ascii))
            ∙ trim_end-append_zeros text (16 - length text)))
          (trim_end-IsTrimmed text),
    )
