-- ===== src/Symbol/Determined.antt =====
-- The bytes of symbol data determine what `decode_symbol_info` of src/symbol/type.rs makes of them.
use openstar_ads.Common.{
  ℕ, zero, suc, ◌≤◌, ◌<◌, ◌≡◌, refl, sym, ap, ◌∙◌, ◌↔◌, List, [], ◌∷◌, Option, some, none, subst,
  arith, length, length-drop, drop, inl, inr,
}
use openstar_ads.Error.{Result, ok, err, panic, eof}
use openstar_ads.Symbol.{Text, Symbol}
use openstar_ads.Symbol.Decode.{
  raw_entry, until_empty, items_after, item_before, decode_symbols, decode_symbol,
}
use openstar_ads.Symbol.Outcome.{context, Whole, Short, Overlong, symbol_at}
use openstar_ads.Symbol.Outcomes.{
  entry_len, entry_body, Framed, Unframed, item_before-some, Decodes, OnEntry, raw_entry-OnEntry,
  decode_symbols-Decodes,
}

-- An entry is of one kind only, so its kind says what the round does.
exclusive :
    (body : List ℕ)
    → ¬ (Whole body × Short body)
      × (¬ (Whole body × Overlong body) × ¬ (Short body × Overlong body))
exclusive body = (whole_short, (whole_long, short_long))
  where
    whole_short : ¬ (Whole body × Short body)
    whole_short (w, Short.numbers h) = omega (arith, w.enough)
    whole_short (w, Short.in_name n h) = omega (arith, w.enough)
    whole_short (w, Short.in_type n t h) = omega (arith, w.enough)

    whole_long : ¬ (Whole body × Overlong body)
    whole_long (w, Overlong.long_name h n) = omega (arith, w.name_room)
    whole_long (w, Overlong.long_type n h t) = omega (arith, w.type_room)

    short_long : ¬ (Short body × Overlong body)
    short_long (Short.numbers h, Overlong.long_name k n) = omega arith
    short_long (Short.numbers h, Overlong.long_type n k t) = omega arith
    short_long (Short.in_name n h, Overlong.long_name k m) = omega arith
    short_long (Short.in_name n h, Overlong.long_type m k t) = omega arith
    short_long (Short.in_type n t h, Overlong.long_name k m) = omega arith
    short_long (Short.in_type n t h, Overlong.long_type m k u) = omega arith

Framed-Unframed : (d : List ℕ) → ¬ (Framed d × Unframed d)
Framed-Unframed d (f, (l, inl h)) = omega (arith, f.at_least)
Framed-Unframed d (f, (l, inr h)) = omega (arith, f.within)

Framed-length : (d : List ℕ) → Framed d → 4 ≤ length d
Framed-length d f = omega (arith, f.at_least, f.within)

module _ (lossy : List ℕ → Text) (next : List ℕ → Option (Result (List Symbol))) where
  after-Unframed :
      (d : List ℕ) (r : Result (Symbol × List ℕ))
      → OnEntry lossy d r
      → Unframed d
      → items_after next r ≡ some panic
  after-Unframed d (ok (s, rest)) ((f, w), e) u = absurd (Framed-Unframed d (f, u))
  after-Unframed d (err e) (same, inl h) (l, u) = absurd (omega arith)
  after-Unframed d (err e) (same, inr (f, h)) u = absurd (Framed-Unframed d (f, u))
  after-Unframed d panic o u = refl

  after-Overlong :
      (d : List ℕ) (r : Result (Symbol × List ℕ))
      → OnEntry lossy d r
      → Framed d
      → Overlong (entry_body d)
      → items_after next r ≡ some panic
  after-Overlong d (ok (s, rest)) ((f, w), e) g o = absurd ((exclusive (entry_body d)).1.0 (w, o))
  after-Overlong d (err e) (same, inl h) g o = absurd (omega (arith, Framed-length d g))
  after-Overlong d (err e) (same, inr (f, h)) g o = absurd ((exclusive (entry_body d)).1.1 (h, o))
  after-Overlong d panic p g o = refl

  after-Short :
      (d : List ℕ) (r : Result (Symbol × List ℕ))
      → OnEntry lossy d r
      → Framed d
      → Short (entry_body d)
      → items_after next r ≡ some (err (eof context))
  after-Short d (ok (s, rest)) ((f, w), e) g h = absurd ((exclusive (entry_body d)).0 (w, h))
  after-Short d (err e) (same, why) g h = ap (λ x. some (err x)) same
  after-Short d panic (inl u) g h = absurd (Framed-Unframed d (g, u))
  after-Short d panic (inr (f, o)) g h = absurd ((exclusive (entry_body d)).1.1 (h, o))

  after_end :
      (d : List ℕ) (r : Result (Symbol × List ℕ))
      → OnEntry lossy d r
      → length d < 4
      → items_after next r ≡ some (err (eof context))
  after_end d (ok (s, rest)) ((f, w), e) h = absurd (omega (arith, Framed-length d f))
  after_end d (err e) (same, why) h = ap (λ x. some (err x)) same
  after_end d panic (inl (l, u)) h = absurd (omega arith)
  after_end d panic (inr (f, o)) h = absurd (omega (arith, Framed-length d f))

  after-Whole :
      (d : List ℕ) (r : Result (Symbol × List ℕ))
      → OnEntry lossy d r
      → Framed d
      → Whole (entry_body d)
      → items_after next r
        ≡ item_before (symbol_at lossy (entry_body d)) (next (drop (entry_len d) d))
  after-Whole d (ok (s, rest)) (fw, (same, e)) g w = rw (same, e) refl
  after-Whole d (err e) (same, inl h) g w = absurd (omega (arith, Framed-length d g))
  after-Whole d (err e) (same, inr (f, h)) g w = absurd ((exclusive (entry_body d)).0 (w, h))
  after-Whole d panic (inl u) g w = absurd (Framed-Unframed d (g, u))
  after-Whole d panic (inr (f, o)) g w = absurd ((exclusive (entry_body d)).1.0 (w, o))

module _ (lossy : List ℕ → Text) where
  loop : ℕ → List ℕ → Option (Result (List Symbol))
  loop fuel d = until_empty (raw_entry context (decode_symbol lossy)) fuel d

  -- A round of the loop, where there is data and fuel.
  Round : ℕ → List ℕ → Type 0
  Round fuel d =
      (smaller : ℕ) × ((fuel ≡ suc smaller)
        × (loop fuel d ≡ items_after (loop smaller) (raw_entry context (decode_symbol lossy) d)))

  round : (fuel : ℕ) (d : List ℕ) → 0 < length d → length d ≤ fuel → Round fuel d
  unfolding until_empty loop Round
  round fuel [] h room = absurd (omega arith)
  round zero (b ∷ d) h room = absurd (omega arith)
  round (suc fuel) (b ∷ d) h room = (fuel, (refl, refl))

  loop-Decodes :
      (d : List ℕ) (r : Result (List Symbol)) (fuel : ℕ)
      → Decodes lossy d r
      → length d ≤ fuel
      → loop fuel d ≡ some r
  unfolding until_empty loop Round
  loop-Decodes d r fuel Decodes.at_end room = until_nothing fuel
    where
      until_nothing : (n : ℕ) → loop n [] ≡ some (ok [])
      until_nothing n = refl
  loop-Decodes d r fuel (Decodes.no_length e h k) room =
      let (n, (same, step)) = round fuel d h room in
      step ∙ after_end lossy (loop n) d _ (raw_entry-OnEntry lossy d) k
  loop-Decodes d r fuel (Decodes.bad_length e u) room =
      let (n, (same, step)) = round fuel d (omega (arith, u.0)) room in
      step ∙ after-Unframed lossy (loop n) d _ (raw_entry-OnEntry lossy d) u
  loop-Decodes d r fuel (Decodes.long_text e f o) room =
      let (n, (same, step)) = round fuel d (omega (arith, Framed-length d f)) room in
      step ∙ after-Overlong lossy (loop n) d _ (raw_entry-OnEntry lossy d) f o
  loop-Decodes d r fuel (Decodes.cut_short e f h) room =
      let (n, (same, step)) = round fuel d (omega (arith, Framed-length d f)) room in
      step ∙ after-Short lossy (loop n) d _ (raw_entry-OnEntry lossy d) f h
  loop-Decodes d r fuel (Decodes.whole_entry e rest q f w more is_before) room =
      let (n, (same, step)) = round fuel d (omega (arith, Framed-length d f)) room in
      let left : length (drop (entry_len d) d) ≤ n =
        omega (arith, length-drop (entry_len d) d, Framed-length d f, f.at_least) in
      step
      ∙ after-Whole lossy (loop n) d _ (raw_entry-OnEntry lossy d) f w
      ∙ ap (item_before _) (loop-Decodes (drop (entry_len d) d) rest n more left)
      ∙ item_before-some _ rest
      ∙ ap some (sym is_before)

  -- What the symbol decoder makes of any data is what its bytes determine: the symbols of the
  -- entries, each read at its place in its entry, or the error of an end of the data, or a panic, as
  -- the first entry decides that is not whole. One whose length is below four or beyond the data
  -- panics, and so does one with a text of 1024 bytes or more.
  pub decode_symbols_iff :
      (d : List ℕ) (r : Result (List Symbol))
      → (decode_symbols lossy d ≡ some r) ↔ Decodes lossy d r
  unfolding decode_symbols loop
  decode_symbols_iff d r = (
    (λ e.
        let (q, (answer, decoded)) = decode_symbols-Decodes lossy d in
        let same : q ≡ r = ap (λ o. elim o [ some x ↦ x | none ↦ r ]) (sym answer ∙ e) in
        subst (λ x. Decodes lossy d x) same decoded),
    (λ decoded. loop-Decodes d r (length d) decoded (omega arith)),
  )
