-- ===== src/Symbol/Outcome.antt =====
-- What the decoder of symbols of src/symbol/type.rs makes of any data, well-formed or not.
use openstar_ads.Common.{
  ℕ, zero, suc, ◌+◌, ◌≤◌, ◌<◌, ◌≡◌, refl, ap, sym, ◌∙◌, String, List, [], ◌∷◌, arith, length,
  length-drop, take, drop, ltb, Bool-cases, ltb→lt, ltb_false→le, lt→ltb, le→ltb, le→leb,
  lt→leb_false, ◌⊎◌, inl, inr,
}
use openstar_ads.Error.{Result, ok, err, panic, ◌>>=◌, eof}
use openstar_ads.Wire.{le_value, read_uint, read_exact}
use openstar_ads.Symbol.{Text, Symbol}
use openstar_ads.Symbol.Fields.{read_text}
use openstar_ads.Symbol.Decode.{decode_symbol}

abbrev pub context : String
context = "decoding symbol info"

-- A little-endian number of `k` bytes at a place.
abbrev pub number_at : ℕ → ℕ → List ℕ → ℕ
number_at k place body = le_value (take k (drop place body))

abbrev pub name_len : List ℕ → ℕ
name_len body = number_at 2 20 body

abbrev pub type_len : List ℕ → ℕ
type_len body = number_at 2 22 body

-- Where the type's name begins.
abbrev pub type_place : List ℕ → ℕ
type_place body = 26 + (name_len body + 1)

-- The entry has both its texts, and they fit the decoder's buffer.
pub record Whole (body : List ℕ) : Type 0 where
  pub name_room : name_len body < 1024
  pub type_room : type_len body < 1024
  pub enough : type_place body + (type_len body + 1) ≤ length body

-- It ends before its numbers or the texts do.
pub data Short (body : List ℕ) : Type 0 where
  numbers : length body < 26 → Short body
  in_name : name_len body < 1024 → length body < type_place body → Short body
  in_type :
      name_len body < 1024
      → type_len body < 1024
      → length body < type_place body + (type_len body + 1)
      → Short body

-- It has a text that does not fit the decoder's buffer.
pub data Overlong (body : List ℕ) : Type 0 where
  long_name : 26 ≤ length body → 1024 ≤ name_len body → Overlong body
  long_type :
      name_len body < 1024 → type_place body ≤ length body → 1024 ≤ type_len body → Overlong body

suc_plus : (n m : ℕ) → suc (n + m) ≡ suc n + m
suc_plus n m = omega arith

drop-nil {ℓ} : {A : Type ℓ} (n : ℕ) → ◌≡◌ {A = List A} (drop n []) []
drop-nil zero = refl
drop-nil (suc n) = refl

pub drop-drop {ℓ} : {A : Type ℓ} (m n : ℕ) (xs : List A) → drop m (drop n xs) ≡ drop (n + m) xs
drop-drop m zero xs = ap (λ k. drop k xs) (omega arith)
drop-drop m (suc n) [] = drop-nil m ∙ sym (drop-nil (suc n + m))
drop-drop m (suc n) (x ∷ xs) = drop-drop m n xs ∙ ap (λ k. drop k (x ∷ xs)) (suc_plus n m)

pub lt_or_le : (a b : ℕ) → (a < b) ⊎ (b ≤ a)
lt_or_le a b = elim (Bool-cases (ltb a b)) [
  | inl e ↦ inl (ltb→lt a b e)
  | inr e ↦ inr (ltb_false→le a b e)
]

take-take {ℓ} : {A : Type ℓ} (n : ℕ) (xs : List A) → take n (take (suc n) xs) ≡ take n xs
take-take zero xs = refl
take-take (suc n) [] = refl
take-take (suc n) (x ∷ xs) = ap (λ ys. x ∷ ys) (take-take n xs)

take-plus_one {ℓ} : {A : Type ℓ} (n : ℕ) (xs : List A) → take n (take (n + 1) xs) ≡ take n xs
take-plus_one n xs =
    let next : n + 1 ≡ suc n = omega arith in ap (λ k. take n (take k xs)) next ∙ take-take n xs

-- A read at a place ends with an error where the bytes are too few, and goes on otherwise.
pub read_at :
    {A : Type 0} (P : Result A → Type 0) (ctx : String) (k place : ℕ) (body : List ℕ)
    (f : ℕ × List ℕ → Result A)
    → (length body < place + k → P (err (eof ctx)))
    → (place + k ≤ length body → P (f (number_at k place body, drop (place + k) body)))
    → (place ≤ length body)
    → P (read_uint ctx k (drop place body) >>= f)
unfolding read_uint read_exact
read_at P ctx k place body f short long there = elim (lt_or_le (length body) (place + k)) [
  | inl h ↦
      rw (lt→ltb (length (drop place body)) k (omega (arith, length-drop place body))) (short h)
  | inr h ↦
      rw
        (
          le→ltb (length (drop place body)) k (omega (arith, length-drop place body)),
          drop-drop k place body,
        )
        (long h)
]

module _ (lossy : List ℕ → Text) where
  -- The same for a text, which panics where it does not fit the buffer.
  text_at :
      {A : Type 0} (P : Result A → Type 0) (ctx : String) (limit len place : ℕ) (body : List ℕ)
      (f : Text × List ℕ → Result A)
      → (limit ≤ len → P panic)
      → (len < limit → length body < place + (len + 1) → P (err (eof ctx)))
      → (len < limit
          → place + (len + 1) ≤ length body
          → P (f (lossy (take len (drop place body)), drop (place + (len + 1)) body)))
      → place ≤ length body
      → P (read_text lossy limit ctx len (drop place body) >>= f)
  unfolding read_text read_exact
  text_at P ctx limit len place body f over short long there =
      let size = length-drop place body in
      elim (lt_or_le len limit) [
        | inr h ↦ rw (lt→leb_false (len + 1) limit (omega arith)) (over h)
        | inl room ↦ elim (lt_or_le (length body) (place + (len + 1))) [
          | inl h ↦
              rw
                (
                  le→leb (len + 1) limit (omega arith),
                  lt→ltb (length (drop place body)) (len + 1) (omega (arith, size)),
                )
                (short room h)
          | inr h ↦
              rw
                (
                  le→leb (len + 1) limit (omega arith),
                  le→ltb (length (drop place body)) (len + 1) (omega (arith, size)),
                  drop-drop (len + 1) place body,
                  take-plus_one len (drop place body),
                )
                (long room h)
        ]
      ]

  -- The symbol that a whole entry describes.
  abbrev pub symbol_at : List ℕ → Symbol
  symbol_at body = record {
    name = lossy (take (name_len body) (drop 26 body));
    ix_group = number_at 4 0 body;
    ix_offset = number_at 4 4 body;
    typ = lossy (take (type_len body) (drop (type_place body) body));
    size = number_at 4 8 body;
    base_type = number_at 4 12 body;
    flags = number_at 2 16 body;
  }

  -- What the outcome of an entry's decoder says of the entry.
  abbrev pub OnBody : List ℕ → Result Symbol → Type 0
  OnBody body (ok s) = Whole body × (s ≡ symbol_at body)
  OnBody body (err e) = Short body × (e ≡ eof context)
  OnBody body panic = Overlong body

  pub decode_symbol-OnBody : (body : List ℕ) → OnBody body (decode_symbol lossy body)
  unfolding decode_symbol
  decode_symbol-OnBody body =
      let P = OnBody body in
      let few : length body < 26 → P (err (eof context)) = λ h. (Short.numbers h, refl) in
      read_at P context 4 0 body _ (λ h. few (omega arith))
        (λ h1.
          read_at P context 4 4 body _ (λ h. few (omega arith))
            (λ h2.
              read_at P context 4 8 body _ (λ h. few (omega arith))
                (λ h3.
                  read_at P context 4 12 body _ (λ h. few (omega arith))
                    (λ h4.
                      read_at P context 2 16 body _ (λ h. few (omega arith))
                        (λ h5.
                          read_at P context 2 18 body _ (λ h. few (omega arith))
                            (λ h6.
                              read_at P context 2 20 body _ (λ h. few (omega arith))
                                (λ h7.
                                  read_at P context 2 22 body _ (λ h. few (omega arith))
                                    (λ h8.
                                      read_at P context 2 24 body _ (λ h. few (omega arith))
                                        (λ h9.
                                          text_at P context 1024 (name_len body) 26 body _
                                            (λ h. Overlong.long_name (omega arith) h)
                                            (λ n h. (Short.in_name n h, refl))
                                            (λ n there.
                                              text_at P context 1024 (type_len body)
                                                (type_place body) body _
                                                (λ h. Overlong.long_type n there h)
                                                (λ t h. (Short.in_type n t h, refl))
                                                (λ t enough. (
                                                  record {
                                                    name_room = n;
                                                    type_room = t;
                                                    enough = enough;
                                                  },
                                                  refl,
                                                ))
                                                there)
                                            (omega arith))
                                        (omega arith))
                                    (omega arith))
                                (omega arith))
                            (omega arith))
                        (omega arith))
                    (omega arith))
                (omega arith))
            (omega arith))
        (omega arith)
