-- ===== src/Notification/Parse.antt =====
-- The loops of `Notification::new` accept the layout of `Stamps`, and nothing else.
use openstar_ads.Common.{
  ℕ, zero, suc, ◌^◌, ◌<◌, ◌≤◌, ◌≡◌, refl, sym, ap, ◌∙◌, List, [], ◌∷◌, ◌++◌, length, All, arith,
  leb, take, drop, Bool-cases, inl, inr, leb→le, le→leb, le→ltb, length-append, drop-append,
  length-take, take-append-drop, All-drop,
}
use openstar_ads.Error.{ok, >>=-eq-ok}
use openstar_ads.Wire.{IsByte, le_bytes, split_at}
use openstar_ads.Wire.Laws.{read_uint_then, read_uint_step}
use openstar_ads.Notification.{skip_samples, skip_stamps, parsing}
use openstar_ads.Notification.Stamps.{Entry, Stamp, IsEntry, IsStamp, encode_entries, encode_stamps}

pub skip_samples-encode_entries :
    (es : List Entry) (rest : List ℕ)
    → All IsEntry es
    → skip_samples (length es) (encode_entries es rest) ≡ ok rest
unfolding skip_samples encode_entries split_at
skip_samples-encode_entries [] rest h = refl
skip_samples-encode_entries (e ∷ es) rest h =
    read_uint_step parsing 4 e.handle _ _ h.0.handle_fits
    ∙ read_uint_step parsing 4 (length e.payload) _ _ h.0.length_fits
    ∙ rw
        (
          le→leb (length e.payload) (length (e.payload ++ encode_entries es rest))
              (omega (arith, length-append e.payload (encode_entries es rest))),
          le→ltb (length (e.payload ++ encode_entries es rest)) (length e.payload)
              (omega (arith, length-append e.payload (encode_entries es rest))),
          drop-append e.payload (encode_entries es rest),
        )
        (skip_samples-encode_entries es rest h.1)

pub skip_stamps-encode_stamps :
    (ss : List Stamp) (rest : List ℕ)
    → All IsStamp ss
    → skip_stamps (length ss) (encode_stamps ss rest) ≡ ok rest
unfolding skip_stamps encode_stamps
skip_stamps-encode_stamps [] rest h = refl
skip_stamps-encode_stamps (s ∷ ss) rest h =
    read_uint_step parsing 8 s.timestamp _ _ h.0.timestamp_fits
    ∙ read_uint_step parsing 4 (length s.entries) _ _ h.0.count_fits
    ∙ rw (skip_samples-encode_entries s.entries (encode_stamps ss rest) h.0.entries_fit)
        (skip_stamps-encode_stamps ss rest h.1)

abbrev Entries : ℕ → List ℕ → List ℕ → Type 0
Entries n ptr rest =
    (es : List Entry) × (length es ≡ n)
    × All IsEntry es
    × (ptr ≡ encode_entries es rest)
    × All IsByte rest

-- One entry in front of the others.
Entries-cons :
    (n h len : ℕ) (ptr p q rest : List ℕ)
    → ptr ≡ le_bytes 4 h ++ p
    → h < 256 ^ 4
    → p ≡ le_bytes 4 len ++ q
    → len < 256 ^ 4
    → len ≤ length q
    → Entries n (drop len q) rest
    → Entries (suc n) ptr rest
unfolding encode_entries
Entries-cons n h len ptr p q rest split_h fits_h split_l fits_l room (es, count, fits, split, b) =
    let data_len : length (take len q) ≡ len = omega (arith, length-take len q) in
    let tail : q ≡ take len q ++ encode_entries es rest =
      sym (take-append-drop len q) ∙ ap (λ r. take len q ++ r) split in
    (
      record { handle = h; payload = take len q } ∷ es,
      ap suc count,
      (record { handle_fits = fits_h; length_fits = omega arith }, fits),
      split_h
          ∙ ap (λ r. le_bytes 4 h ++ r)
              (split_l ∙ rw data_len (ap (λ r. le_bytes 4 len ++ r) tail)),
      b,
    )

pub skip_samples_inv :
    (n : ℕ) (ptr rest : List ℕ) → All IsByte ptr → skip_samples n ptr ≡ ok rest → Entries n ptr rest
unfolding skip_samples encode_entries split_at
skip_samples_inv zero ptr rest b e = ([], refl, tt, ground arith, ground arith)
skip_samples_inv (suc n) ptr rest b e =
    let (h, p, split_h, fits_h, b_p, e₁) = read_uint_then parsing 4 ptr _ b e in
    let (len, q, split_l, fits_l, b_q, e₂) = read_uint_then parsing 4 p _ b_p e₁ in
    elim (Bool-cases (leb len (length q))) [
      | inl long ↦
          Entries-cons n h len ptr p q rest split_h fits_h split_l fits_l (leb→le _ _ long) (
            skip_samples_inv n (drop len q) rest (All-drop IsByte len q b_q)
              (rw (long, le→ltb (length q) len (leb→le _ _ long)) at e₂))
      | inr short ↦ cc (rw short at e₂)
    ]

abbrev Stamps : ℕ → List ℕ → List ℕ → Type 0
Stamps n ptr rest =
    (ss : List Stamp) × (length ss ≡ n)
    × All IsStamp ss
    × (ptr ≡ encode_stamps ss rest)
    × All IsByte rest

pub skip_stamps_inv :
    (n : ℕ) (ptr rest : List ℕ) → All IsByte ptr → skip_stamps n ptr ≡ ok rest → Stamps n ptr rest
unfolding skip_stamps encode_stamps
skip_stamps_inv zero ptr rest b e = ([], refl, tt, ground arith, ground arith)
skip_stamps_inv (suc n) ptr rest b e =
    let (ts, p, split_t, fits_t, b_p, e₁) = read_uint_then parsing 8 ptr _ b e in
    let (count, q, split_c, fits_c, b_q, e₂) = read_uint_then parsing 4 p _ b_p e₁ in
    let (r, e₃, e₄) = >>=-eq-ok (skip_samples count q) _ e₂ in
    let (es, len_es, fits_es, split_es, b_r) = skip_samples_inv count q r b_q e₃ in
    let (ss, len_ss, fits_ss, split_ss, b_rest) = skip_stamps_inv n r rest b_r e₄ in
    (
      record { timestamp = ts; entries = es } ∷ ss,
      ap suc len_ss,
      (
        record { timestamp_fits = fits_t; count_fits = omega arith; entries_fit = fits_es },
        fits_ss,
      ),
      split_t
          ∙ ap (λ t. le_bytes 8 ts ++ t)
              (split_c
                ∙ rw len_es
                    (ap (λ t. le_bytes 4 count ++ t) (split_es ∙ ap (encode_entries es) split_ss))),
      b_rest,
    )
