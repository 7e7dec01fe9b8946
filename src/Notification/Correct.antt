-- ===== src/Notification/Correct.antt =====
-- `Notification::new` and the samples of what it accepts.
use openstar_ads.Common.{
  ℕ, ◌+◌, ◌^◌, ◌<◌, ◌≤◌, ◌≡◌, refl, sym, ap, ◌∙◌, List, [], ◌∷◌, ◌++◌, length, All, arith, some,
  drop, leb, if◌then◌else◌, Bool-cases, inl, inr, le→ltb, leb→le, le→leb, length-append, All-drop,
  drop-append_at, length-drop, drop-drop,
}
use openstar_ads.Error.{ok, err, >>=-eq-ok, eof}
use openstar_ads.Wire.{IsByte, le_bytes, split_at}
use openstar_ads.Wire.Laws.{read_uint_then, read_uint_step, length-le_bytes}
use openstar_ads.Notification.{
  Notification, new, samples, all_samples, skip_stamps, is_empty, parsing,
}
use openstar_ads.Notification.Stamps.{Entry, Stamp, IsStamp, encode_entries, encode_stamps}
use openstar_ads.Notification.Parse.{skip_stamps-encode_stamps, skip_stamps_inv}
use openstar_ads.Notification.Iterate.{stamp_samples, collect-iter_at, entry_samples}

-- A message that holds these stamps behind its first 42 bytes.
abbrev pub Holds : List ℕ → List Stamp → Type 0
Holds msg ss =
    (46 ≤ length msg)
    × (drop 42 msg ≡ le_bytes 4 (length ss) ++ encode_stamps ss [])
    × (length ss < 256 ^ 4)
    × All IsStamp ss

-- Each sample takes eight bytes at least.
length-encode_entries :
    (ts : ℕ) (es : List Entry) (rest : List ℕ)
    → length (entry_samples ts es) + length rest ≤ length (encode_entries es rest)
unfolding encode_entries
length-encode_entries ts [] rest = omega arith
length-encode_entries ts (e ∷ es) rest = omega (
  arith,
  length-encode_entries ts es rest,
  length-append (le_bytes 4 e.handle)
      (le_bytes 4 (length e.payload) ++ (e.payload ++ encode_entries es rest)),
  length-append (le_bytes 4 (length e.payload)) (e.payload ++ encode_entries es rest),
  length-append e.payload (encode_entries es rest),
  length-le_bytes 4 e.handle,
)

length-encode_stamps : (ss : List Stamp) → length (stamp_samples ss) ≤ length (encode_stamps ss [])
unfolding encode_stamps
length-encode_stamps [] = omega arith
length-encode_stamps (s ∷ ss) = omega (
  arith,
  length-encode_stamps ss,
  length-encode_entries s.timestamp s.entries (encode_stamps ss []),
  length-append (entry_samples s.timestamp s.entries) (stamp_samples ss),
  length-append (le_bytes 8 s.timestamp)
      (le_bytes 4 (length s.entries) ++ encode_entries s.entries (encode_stamps ss [])),
  length-append (le_bytes 4 (length s.entries)) (encode_entries s.entries (encode_stamps ss [])),
)

-- The end of `new`: nothing may be left.
new_end :
    (msg : List ℕ) (k : ℕ) (r : List ℕ) (n : Notification)
    → (if is_empty r then ok (record { bytes = msg; nstamps = k }) else err (eof parsing)) ≡ ok n
    → (r ≡ []) × (n ≡ record { bytes = msg; nstamps = k })
new_end msg k [] n e = (refl, cc)
new_end msg k (x ∷ r) n e = cc

sound :
    (msg : List ℕ) (n : Notification)
    → All IsByte msg
    → new msg ≡ ok n
    → (ss : List Stamp) × Holds msg ss × (n ≡ record { bytes = msg; nstamps = length ss })
unfolding new split_at
sound msg n b e = elim (Bool-cases (leb 46 (length msg))) [
  | inl room ↦
      let (k, ptr, split, fits, b_ptr, e₁) =
        read_uint_then parsing 4 (drop 42 msg) _ (All-drop IsByte 42 msg b)
          (rw (room, le→ltb (length msg) 42 (omega (arith, leb→le _ _ room))) at e) in
      let (r, e₂, e₃) = >>=-eq-ok (skip_stamps k ptr) _ e₁ in
      let (ss, count, fit, split_ss, b_r) = skip_stamps_inv k ptr r b_ptr e₂ in
      let (done, whole) = new_end msg k r n e₃ in
      (
        ss,
        (
          leb→le _ _ room,
          split ∙ rw count (ap (λ t. le_bytes 4 k ++ t) (split_ss ∙ ap (encode_stamps ss) done)),
          rw count fits,
          fit,
        ),
        rw count whole,
      )
  | inr short ↦ cc (rw short at e)
]

pub complete :
    (msg : List ℕ) (ss : List Stamp)
    → Holds msg ss
    → new msg ≡ ok (record { bytes = msg; nstamps = length ss })
unfolding new split_at
complete msg ss (room, layout, fits, fit) =
    rw (le→leb 46 (length msg) room, le→ltb (length msg) 42 (omega arith), layout)
      (read_uint_step parsing 4 (length ss) (encode_stamps ss []) _ fits
        ∙ rw (skip_stamps-encode_stamps ss [] fit))

pub samples_Holds :
    (msg : List ℕ) (ss : List Stamp)
    → Holds msg ss
    → all_samples (record { bytes = msg; nstamps = length ss }) ≡ ok (some (stamp_samples ss))
unfolding all_samples samples split_at encode_entries
samples_Holds msg ss (room, layout, fits, fit) =
    let behind : drop 46 msg ≡ encode_stamps ss [] =
      sym (drop-drop 42 4 msg)
      ∙ ap (drop 4) layout
      ∙ drop-append_at 4 _ (encode_stamps ss []) (length-le_bytes 4 (length ss)) in
    rw (le→ltb (length msg) 46 room, behind)
      (collect-iter_at ss [] 0 (length msg) fit tt
        (omega (arith, length-encode_stamps ss, ap length behind, length-drop 46 msg)))

-- A message is accepted exactly when it holds, behind its first 42 bytes, a count and as many
-- stamps, each with a count and as many samples, and nothing after them; and every accepted
-- message is kept whole, with its count of stamps.
pub new-Holds :
    (msg : List ℕ)
    → All IsByte msg
    → ((n : Notification)
        → new msg ≡ ok n
        → (ss : List Stamp) × Holds msg ss × (n ≡ record { bytes = msg; nstamps = length ss }))
      × ((ss : List Stamp)
          → Holds msg ss
          → new msg ≡ ok (record { bytes = msg; nstamps = length ss }))
new-Holds msg b = ((λ n e. sound msg n b e), (λ ss h. complete msg ss h))

-- The iterator over an accepted message never panics and ends: a `for` loop sees the samples of the
-- stamps that the message holds, in order, each with the timestamp of its stamp.
pub all_samples-new :
    (msg : List ℕ) (n : Notification)
    → All IsByte msg
    → new msg ≡ ok n
    → (ss : List Stamp) × Holds msg ss × (all_samples n ≡ ok (some (stamp_samples ss)))
all_samples-new msg n b e =
    let (ss, holds, whole) = sound msg n b e in (ss, holds, rw whole (samples_Holds msg ss holds))
