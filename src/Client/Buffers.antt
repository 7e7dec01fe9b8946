-- ===== src/Client/Buffers.antt =====
-- src/core/client.rs: the end of `communicate`, which deals the reply's data out to the caller's buffers.
use openstar_ads.Common.{
  ℕ, zero, suc, ◌+◌, ◌-◌, ◌≡◌, refl, sym, List, [], ◌∷◌, ◌++◌, length, take, drop, min, ◌==◌,
  if◌then◌else◌, arith, length-append, length-take, length-drop, Bool-cases, inl, inr, append_assoc,
  map, dec_lt, ==_ne, drop_all, append-nil, take-add, drop-append_ge, drop-append_le, take_all,
  take_over,
}

-- The sum of the buffers' lengths.
unfoldable pub total_length : List (List ℕ) → ℕ
total_length [] = 0
total_length (buf ∷ bufs) = length buf + total_length bufs

-- The buffers' contents, one after the other.
unfoldable pub concat : List (List ℕ) → List ℕ
concat [] = []
concat (buf ∷ bufs) = buf ++ concat bufs

-- The loop over `result_bufs`: each takes what it has room for, until nothing is left.
unfoldable pub distribute : List ℕ → List (List ℕ) → List (List ℕ)
distribute data_left [] = []
distribute data_left (buf ∷ bufs) =
    let n = min (length buf) (length data_left) in
    let filled = take n data_left ++ drop n buf in
    let rest = distribute (drop n data_left) bufs in
    if length data_left - n == 0 then filled ∷ bufs else filled ∷ rest

pub length-concat : (bufs : List (List ℕ)) → length (concat bufs) ≡ total_length bufs
unfolding concat total_length
length-concat [] = refl
length-concat (buf ∷ bufs) = omega (arith, length-append buf (concat bufs), length-concat bufs)

-- The buffers keep their lengths.
distribute-lengths :
    (xs : List ℕ) (bufs : List (List ℕ)) → map length (distribute xs bufs) ≡ map length bufs
unfolding distribute
distribute-lengths xs [] = refl
distribute-lengths xs (buf ∷ bufs) =
    let n = min (length buf) (length xs) in
    let filled : length (take n xs ++ drop n buf) ≡ length buf =
      omega (arith, length-append (take n xs) (drop n buf), length-take n xs, length-drop n buf) in
    elim (Bool-cases (length xs - n == 0)) [
      | inl done ↦ rw (done, filled)
      | inr more ↦ rw (more, filled, distribute-lengths (drop n xs) bufs)
    ]

drop_nil : (k : ℕ) → [] ≡ drop {A = ℕ} k []
drop_nil zero = refl
drop_nil (suc k) = refl

distribute-concat :
    (xs : List ℕ) (bufs : List (List ℕ))
    → concat (distribute xs bufs) ≡ take (total_length bufs) xs ++ drop (length xs) (concat bufs)
unfolding distribute concat total_length
distribute-concat xs [] = drop_nil (length xs)
distribute-concat xs (buf ∷ bufs) = elim (dec_lt (length buf) (length xs)) [
  | yes fits ↦
      let n : min (length buf) (length xs) ≡ length buf = omega arith in
      rw
        (
          n,
          ==_ne (length xs - length buf) 0 (omega arith),
          drop_all buf,
          append-nil (take (length buf) xs),
          distribute-concat (drop (length buf) xs) bufs,
          take-add (length buf) (total_length bufs) xs,
          drop-append_ge (length xs) buf (concat bufs) (omega arith),
          length-drop (length buf) xs,
        )
        (sym (
          append_assoc (take (length buf) xs) (take (total_length bufs) (drop (length buf) xs))
            (drop (length xs - length buf) (concat bufs))))
  | no over ↦
      let n : min (length buf) (length xs) ≡ length xs = omega arith in
      let none_left : length xs - length xs ≡ 0 = omega arith in
      rw
        (
          n,
          none_left,
          take_all xs,
          take_over (length buf + total_length bufs) xs (omega arith),
          drop-append_le (length xs) buf (concat bufs) (omega arith),
        )
        (append_assoc xs (drop (length xs) buf) (concat bufs))
]

-- The data fills the buffers in order, byte by byte: what does not fit is dropped, and where the
-- data is shorter, the bytes behind it are those that the buffers held; no buffer changes its length.
pub distribute_lem :
    (xs : List ℕ) (bufs : List (List ℕ))
    → (map length (distribute xs bufs) ≡ map length bufs)
      × (concat (distribute xs bufs)
          ≡ take (total_length bufs) xs ++ drop (length xs) (concat bufs))
distribute_lem xs bufs = (distribute-lengths xs bufs, distribute-concat xs bufs)
