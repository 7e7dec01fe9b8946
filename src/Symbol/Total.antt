-- ===== src/Symbol/Total.antt =====
-- The loops over symbol and type entries come to an end: each entry takes four bytes at least.
use openstar_ads.Common.{
  ℕ, zero, suc, ◌-◌, ◌≤◌, ◌<◌, ◌≡◌, ◌≢◌, refl, ap, String, List, [], ◌∷◌, Option, none, some, arith,
  length, length-drop, ltb, true, false, if◌then◌else◌, inl, inr,
}
use openstar_ads.Error.{Result, ok, err, panic, assert, >>=-eq-ok, Result-cases}
use openstar_ads.Wire.{read_uint, split_at}
use openstar_ads.Wire.Laws.{read_uint_ok}
use openstar_ads.Symbol.{Text, PlcType, Symbol}
use openstar_ads.Symbol.Decode.{
  raw_entry, until_empty, item_before, decode_types, decode_symbols, with_types, decode_symbol_info,
  decode_type_info, decode_symbol,
}

split_at-length :
    (n : ℕ) (ptr front rest : List ℕ) → split_at n ptr ≡ ok (front, rest) → length rest ≤ length ptr
unfolding split_at
split_at-length n ptr front rest e = ground (arith, length-drop n ptr)

module _ {ℓ} {A : Type ℓ} where
  -- Each item moves the slice on.
  abbrev Shrinks : (List ℕ → Result (A × List ℕ)) → Type ℓ
  Shrinks item =
      (ptr : List ℕ) (a : A) (rest : List ℕ) → item ptr ≡ ok (a, rest) → length rest < length ptr

  raw_entry-Shrinks : (ctx : String) (part : List ℕ → Result A) → Shrinks (raw_entry ctx part)
  unfolding raw_entry
  raw_entry-Shrinks ctx part ptr a rest e =
      let ((size, p), read, e₁) = >>=-eq-ok (read_uint ctx 4 ptr) _ e in
      let (u, tested, e₂) = >>=-eq-ok (assert (if ltb size 4 then false else true)) _ e₁ in
      let ((front, q), cut, e₃) = >>=-eq-ok (split_at (size - 4) p) _ e₂ in
      let (b, parsed, e₄) = >>=-eq-ok (part front) _ e₃ in
      let (_, er, room) = read_uint_ok ctx 4 ptr size p read in
      let shorter = split_at-length (size - 4) p front q cut in
      let same : q ≡ rest = cc in omega (arith, ap length same, ap length er, length-drop 4 ptr)

  item_before-answers : (a : A) (o : Option (Result (List A))) → o ≢ none → item_before a o ≢ none
  item_before-answers a none h = h
  item_before-answers a (some (ok rest)) h = λ p. cc
  item_before-answers a (some (err e)) h = λ p. cc
  item_before-answers a (some panic) h = λ p. cc

  until_empty-answers :
      (item : List ℕ → Result (A × List ℕ)) (fuel : ℕ) (ptr : List ℕ)
      → Shrinks item
      → length ptr ≤ fuel
      → until_empty item fuel ptr ≢ none
  unfolding until_empty
  until_empty-answers item fuel [] sh h = λ p. cc
  until_empty-answers item zero (b ∷ ptr) sh h = absurd (omega arith)
  until_empty-answers item (suc fuel) (b ∷ ptr) sh h = elim (Result-cases (item (b ∷ ptr))) [
    | inl ((a, rest), e) ↦
        rw (e, until_empty)
          (item_before-answers a (until_empty item fuel rest)
            (until_empty-answers item fuel rest sh (omega (arith, sh (b ∷ ptr) a rest e))))
    | inr (inl (x, e)) ↦ rw (e, until_empty) (λ p. cc)
    | inr (inr e) ↦ rw (e, until_empty) (λ p. cc)
  ]

module _ (lossy : List ℕ → Text) where
  decode_symbols-answers : (symbol_data : List ℕ) → decode_symbols lossy symbol_data ≢ none
  unfolding decode_symbols
  decode_symbols-answers symbol_data =
      until_empty-answers _ (length symbol_data) symbol_data
        (raw_entry-Shrinks "decoding symbol info" (decode_symbol lossy)) (omega arith)

  decode_types-answers : (type_data : List ℕ) → decode_types lossy type_data ≢ none
  unfolding decode_types
  decode_types-answers type_data =
      until_empty-answers _ (length type_data) type_data
        (raw_entry-Shrinks "decoding type info" (decode_type_info lossy)) (omega arith)

  with_types-answers :
      (symbol_data : List ℕ) (types : Option (Result (List PlcType)))
      → types ≢ none
      → with_types lossy symbol_data types ≢ none
  unfolding with_types
  with_types-answers symbol_data none h = absurd (h refl)
  with_types-answers symbol_data (some (err e)) h = λ p. cc
  with_types-answers symbol_data (some panic) h = λ p. cc
  with_types-answers symbol_data (some (ok types)) h =
      by_symbols (decode_symbols lossy symbol_data) refl
    where
      by_symbols :
          (o : Option (Result (List Symbol)))
          → decode_symbols lossy symbol_data ≡ o
          → with_types lossy symbol_data (some (ok types)) ≢ none
      by_symbols none e = absurd (decode_symbols-answers symbol_data e)
      by_symbols (some (ok ss)) e = rw (e, with_types) (λ p. cc)
      by_symbols (some (err x)) e = rw (e, with_types) (λ p. cc)
      by_symbols (some panic) e = rw (e, with_types) (λ p. cc)

  -- The loops of `decode_symbol_info` end on any symbol data and any type data, with the bytes of
  -- each as their fuel.
  pub decode_symbol_info-answers :
      (symbol_data type_data : List ℕ) → decode_symbol_info lossy symbol_data type_data ≢ none
  unfolding decode_symbol_info
  decode_symbol_info-answers symbol_data type_data =
      with_types-answers symbol_data (decode_types lossy type_data) (decode_types-answers type_data)
