-- ===== src/Symbol/Outcomes.antt =====
-- What `decode_symbol_info` of src/symbol/type.rs makes of any symbol data: its loop over the entries.
use openstar_ads.Common.{
  ℕ, zero, suc, ◌-◌, ◌≤◌, ◌<◌, ◌≡◌, refl, subst, ap, ◌∙◌, List, [], ◌∷◌, Option, some, arith,
  length, length-drop, take, drop, lt→ltb, le→ltb, ◌⊎◌, inl, inr,
}
use openstar_ads.Error.{Result, ok, err, panic, ◌>>=◌, eof}
use openstar_ads.Wire.{split_at}
use openstar_ads.Symbol.{Text, Symbol}
use openstar_ads.Symbol.Decode.{
  raw_entry, until_empty, items_after, item_before, decode_symbols, decode_symbol,
}
use openstar_ads.Symbol.Outcome.{
  context, number_at, Whole, Short, Overlong, drop-drop, lt_or_le, read_at, symbol_at, OnBody,
  decode_symbol-OnBody,
}

-- The length that an entry begins with, and what it encloses.
abbrev pub entry_len : List ℕ → ℕ
entry_len data_part = number_at 4 0 data_part

abbrev pub entry_body : List ℕ → List ℕ
entry_body data_part = take (entry_len data_part - 4) (drop 4 data_part)

-- An entry whose length counts its own four bytes and lies within the data.
pub record Framed (data_part : List ℕ) : Type 0 where
  pub at_least : 4 ≤ entry_len data_part
  pub within : entry_len data_part ≤ length data_part

-- A length that does not.
abbrev pub Unframed : List ℕ → Type 0
Unframed data_part =
    (4 ≤ length data_part) × ((entry_len data_part < 4) ⊎ (length data_part < entry_len data_part))

abbrev pub symbol_before : Symbol → Result (List Symbol) → Result (List Symbol)
symbol_before s (ok rest) = ok (s ∷ rest)
symbol_before s (err e) = err e
symbol_before s panic = panic

pub item_before-some :
    (s : Symbol) (r : Result (List Symbol)) → item_before s (some r) ≡ some (symbol_before s r)
item_before-some s (ok rest) = refl
item_before-some s (err e) = refl
item_before-some s panic = refl

module _ (lossy : List ℕ → Text) where
  -- The outcome of data, read entry by entry: the first entry that is not whole decides it.
  pub data Decodes : List ℕ → Result (List Symbol) → Type 0 where
    at_end : Decodes [] (ok [])
    no_length : (d : List ℕ) → 0 < length d → length d < 4 → Decodes d (err (eof context))
    bad_length : (d : List ℕ) → Unframed d → Decodes d panic
    long_text : (d : List ℕ) → Framed d → Overlong (entry_body d) → Decodes d panic
    cut_short : (d : List ℕ) → Framed d → Short (entry_body d) → Decodes d (err (eof context))
    whole_entry :
        (d : List ℕ) (rest r : Result (List Symbol))
        → Framed d
        → Whole (entry_body d)
        → Decodes (drop (entry_len d) d) rest
        → r ≡ symbol_before (symbol_at lossy (entry_body d)) rest
        → Decodes d r

module _ (lossy : List ℕ → Text) where
  -- What the outcome of one round says of the entry.
  abbrev pub OnEntry : List ℕ → Result (Symbol × List ℕ) → Type 0
  OnEntry d (ok (s, rest)) =
      (Framed d × Whole (entry_body d))
      × ((s ≡ symbol_at lossy (entry_body d)) × (rest ≡ drop (entry_len d) d))
  OnEntry d (err e) = (e ≡ eof context) × ((length d < 4) ⊎ (Framed d × Short (entry_body d)))
  OnEntry d panic = Unframed d ⊎ (Framed d × Overlong (entry_body d))

  OnEntry-OnBody :
      (d rest : List ℕ) (r : Result Symbol)
      → Framed d
      → rest ≡ drop (entry_len d) d
      → OnBody lossy (entry_body d) r
      → OnEntry d (r >>= λ s. ok (s, rest))
  OnEntry-OnBody d rest (ok s) f e w = ((f, w.0), (w.1, e))
  OnEntry-OnBody d rest (err x) f e w = (w.1, inr (f, w.0))
  OnEntry-OnBody d rest panic f e w = inr (f, w)

  pub raw_entry-OnEntry : (d : List ℕ) → OnEntry d (raw_entry context (decode_symbol lossy) d)
  unfolding raw_entry split_at
  raw_entry-OnEntry d =
      let n = entry_len d in
      let left = length-drop 4 d in
      read_at (OnEntry d) context 4 0 d _ (λ h. (refl, inl (omega arith)))
        (λ there. elim (lt_or_le n 4) [
          | inl h ↦ rw (lt→ltb n 4 h) (inl (omega arith, inl h))
          | inr h ↦ elim (lt_or_le (length d) n) [
            | inl out ↦
                rw (le→ltb n 4 h, lt→ltb (length (drop 4 d)) (n - 4) (omega arith))
                  (inl (omega arith, inr out))
            | inr within ↦
                rw (le→ltb n 4 h, le→ltb (length (drop 4 d)) (n - 4) (omega arith))
                  (OnEntry-OnBody d (drop (n - 4) (drop 4 d)) (decode_symbol lossy (entry_body d))
                    (record { at_least = h; within = within })
                    (drop-drop (n - 4) 4 d ∙ ap (λ k. drop k d) (omega arith))
                    (decode_symbol-OnBody lossy (entry_body d)))
          ]
        ])
        (omega arith)

  -- An answer, and what it says.
  abbrev pub Answers : List ℕ → Option (Result (List Symbol)) → Type 0
  Answers d o = (r : Result (List Symbol)) × ((o ≡ some r) × Decodes lossy d r)

  Answers-step :
      (d : List ℕ) (next : List ℕ → Option (Result (List Symbol))) (r : Result (Symbol × List ℕ))
      → 0 < length d
      → OnEntry d r
      → ((rest : List ℕ) → length rest < length d → Answers rest (next rest))
      → Answers d (items_after next r)
  Answers-step d next (err e) some_data (same, inl h) more =
      (err e, (refl, rw same (Decodes.no_length d some_data h)))
  Answers-step d next (err e) some_data (same, inr (f, h)) more =
      (err e, (refl, rw same (Decodes.cut_short d f h)))
  Answers-step d next panic some_data (inl h) more = (panic, (refl, Decodes.bad_length d h))
  Answers-step d next panic some_data (inr (f, h)) more = (panic, (refl, Decodes.long_text d f h))
  Answers-step d next (ok (s, rest)) some_data ((f, w), (same, e)) more =
      let (r, (answer, decoded)) =
        more rest (omega (arith, ap length e, length-drop (entry_len d) d, f.at_least)) in
      (
        symbol_before s r,
        (
          ap (item_before s) answer ∙ item_before-some s r,
          Decodes.whole_entry d r (symbol_before s r) f w (subst (λ x. Decodes lossy x r) e decoded)
              (ap (λ x. symbol_before x r) same),
        ),
      )

  loop-Answers :
      (fuel : ℕ) (d : List ℕ)
      → length d ≤ fuel
      → Answers d (until_empty (raw_entry context (decode_symbol lossy)) fuel d)
  unfolding until_empty
  loop-Answers fuel [] h = (ok [], (refl, Decodes.at_end))
  loop-Answers zero (b ∷ d) h = absurd (omega arith)
  loop-Answers (suc fuel) (b ∷ d) h =
      Answers-step (b ∷ d) (until_empty (raw_entry context (decode_symbol lossy)) fuel)
        (raw_entry context (decode_symbol lossy) (b ∷ d)) (omega arith) (raw_entry-OnEntry (b ∷ d))
        (λ rest shorter. loop-Answers fuel rest (omega arith))

  pub decode_symbols-Decodes : (d : List ℕ) → Answers d (decode_symbols lossy d)
  unfolding decode_symbols
  decode_symbols-Decodes d = loop-Answers (length d) d (omega arith)
