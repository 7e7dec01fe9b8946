-- ===== src/Notification/Iterate.antt =====
-- The iterator over the samples, run on the layout of `Stamps`.
use openstar_ads.Common.{
  ℕ, zero, suc, ◌^◌, ◌<◌, ◌≡◌, refl, sym, ap, ◌∙◌, List, [], ◌∷◌, ◌++◌, length, All, arith, some,
  le→ltb, length-append, take-append, drop-append,
}
use openstar_ads.Error.{Result, ok, ◌>>=◌, expect}
use openstar_ads.Wire.{le_bytes, read_uint, split_at}
use openstar_ads.Wire.Laws.{read_uint-le_bytes}
use openstar_ads.Notification.{Sample, SampleIter, next_from, next, collect}
use openstar_ads.Notification.Stamps.{Entry, Stamp, IsEntry, IsStamp, encode_entries, encode_stamps}

-- The samples that the stamps stand for, in order.
abbrev pub entry_samples : ℕ → List Entry → List Sample
entry_samples ts [] = []
entry_samples ts (e ∷ es) =
    record { handle = e.handle; timestamp = ts; payload = e.payload } ∷ entry_samples ts es

abbrev pub stamp_samples : List Stamp → List Sample
stamp_samples [] = []
stamp_samples (s ∷ ss) = entry_samples s.timestamp s.entries ++ stamp_samples ss

-- The iterator that stands before `es`, with `ss` to follow.
abbrev pub iter_at : ℕ → List Entry → List Stamp → SampleIter
iter_at ts es ss = record {
  remaining = encode_entries es (encode_stamps ss []);
  cur_timestamp = ts;
  stamps_left = length ss;
  samples_left = length es;
}

pub split_at-append :
    (n : ℕ) (front rest : List ℕ) → length front ≡ n → split_at n (front ++ rest) ≡ ok (front, rest)
unfolding split_at
split_at-append n front rest h = rw (
  sym h,
  le→ltb (length (front ++ rest)) (length front) (omega (arith, length-append front rest)),
  take-append front rest,
  drop-append front rest,
)

-- A read that cannot fail, at the head of a chain.
expect_step {ℓ} :
    {A : Type ℓ} (k n : ℕ) (rest : List ℕ) (f : ℕ × List ℕ → Result A)
    → n < 256 ^ k
    → (expect (read_uint "size" k (le_bytes k n ++ rest)) >>= f) ≡ f (n, rest)
expect_step k n rest f h = ap (λ r. expect r >>= f) (read_uint-le_bytes "size" k n rest h)

next_entry :
    (ts : ℕ) (e : Entry) (es : List Entry) (ss : List Stamp)
    → IsEntry e
    → next (iter_at ts (e ∷ es) ss)
      ≡ ok (
          some
            (record { handle = e.handle; timestamp = ts; payload = e.payload }, iter_at ts es ss))
unfolding next next_from encode_entries
next_entry ts e es ss h =
    let more = encode_entries es (encode_stamps ss []) in
    expect_step 4 e.handle _ _ h.handle_fits
    ∙ expect_step 4 (length e.payload) _ _ h.length_fits
    ∙ rw (split_at-append (length e.payload) e.payload more refl)

next_stamp :
    (ts : ℕ) (s : Stamp) (ss : List Stamp)
    → IsStamp s
    → next (iter_at ts [] (s ∷ ss)) ≡ next (iter_at s.timestamp s.entries ss)
unfolding next next_from encode_entries encode_stamps
next_stamp ts s ss h =
    expect_step 8 s.timestamp _ _ h.timestamp_fits
    ∙ expect_step 4 (length s.entries) _ _ h.count_fits

-- With fuel for one call more than there are samples, the loop ends and gives them all.
pub collect-iter_at :
    (ss : List Stamp) (es : List Entry) (ts fuel : ℕ)
    → All IsStamp ss
    → All IsEntry es
    → length (entry_samples ts es ++ stamp_samples ss) < fuel
    → collect fuel (iter_at ts es ss) ≡ ok (some (entry_samples ts es ++ stamp_samples ss))
unfolding collect
collect-iter_at [] [] ts zero hs he room = absurd (omega arith)
collect-iter_at [] [] ts (suc fuel) hs he room = unfold next next_from in refl
collect-iter_at (s ∷ ss) [] ts zero hs he room = absurd (omega arith)
collect-iter_at (s ∷ ss) [] ts (suc fuel) hs he room =
    rw (next_stamp ts s ss hs.0)
      (collect-iter_at ss s.entries s.timestamp (suc fuel) hs.1 hs.0.entries_fit room)
collect-iter_at ss (e ∷ es) ts zero hs he room = absurd (omega arith)
collect-iter_at ss (e ∷ es) ts (suc fuel) hs he room =
    rw (next_entry ts e es ss he.0) (rw (collect-iter_at ss es ts fuel hs he.1 (omega arith)))
