-- ===== src/Symbol/Format.antt =====
-- The layout of the symbol upload: an encoder for it, which the decoder of src/symbol/type.rs inverts.
use openstar_ads.Common.{
  ℕ, zero, suc, ◌+◌, ◌-◌, ◌^◌, ◌≤◌, ◌<◌, ◌≡◌, refl, sym, ap, ◌∙◌, String, List, [], ◌∷◌, ◌++◌, some,
  arith, All, length, map, length-append, append_assoc, take-append_at, drop-append_at, take-append,
  length-map, le→leb, le→ltb,
}
use openstar_ads.Error.{Result, ok, ◌>>=◌}
use openstar_ads.Wire.{le_bytes, split_at}
use openstar_ads.Wire.Laws.{length-le_bytes, read_uint_step, read_exact-append}
use openstar_ads.Symbol.{Text, Symbol}
use openstar_ads.Symbol.Fields.{read_text}
use openstar_ads.Symbol.Decode.{
  raw_entry, until_empty, item_before, items_after, decode_symbol, decode_symbols,
}

-- A symbol, and the parts of its entry that the decoder passes over: the old array dimension, the
-- length that is given for the comment, and what stands behind the type's name.
pub record Entry : Type 0 where
  pub symbol : Symbol
  pub array_dim : ℕ
  pub comment_len : ℕ
  pub tail : List ℕ

-- A text with its final zero.
abbrev pub encode_text : Text → List ℕ → List ℕ
encode_text s rest = s ++ (0 ∷ rest)

unfoldable pub encode_body : Entry → List ℕ
encode_body e =
    le_bytes 4 e.symbol.ix_group
    ++ (le_bytes 4 e.symbol.ix_offset
        ++ (le_bytes 4 e.symbol.size
            ++ (le_bytes 4 e.symbol.base_type
                ++ (le_bytes 2 e.symbol.flags
                    ++ (le_bytes 2 e.array_dim
                        ++ (le_bytes 2 (length e.symbol.name)
                            ++ (le_bytes 2 (length e.symbol.typ)
                                ++ (le_bytes 2 e.comment_len
                                    ++ encode_text e.symbol.name
                                        (encode_text e.symbol.typ e.tail)))))))))

-- Entries, each behind its length.
unfoldable pub encode_sized : List (List ℕ) → List ℕ
encode_sized [] = []
encode_sized (body ∷ bodies) = le_bytes 4 (4 + length body) ++ (body ++ encode_sized bodies)

abbrev pub encode_entries : List Entry → List ℕ
encode_entries es = encode_sized (map encode_body es)

module _ (lossy : List ℕ → Text) where
  -- An entry whose numbers fit their fields, and whose texts fit the decoder's buffer and are UTF-8.
  pub record IsEntry (e : Entry) : Type 0 where
    pub group_fits : e.symbol.ix_group < 256 ^ 4
    pub offset_fits : e.symbol.ix_offset < 256 ^ 4
    pub size_fits : e.symbol.size < 256 ^ 4
    pub base_type_fits : e.symbol.base_type < 256 ^ 4
    pub flags_fit : e.symbol.flags < 256 ^ 2
    pub array_dim_fits : e.array_dim < 256 ^ 2
    pub comment_len_fits : e.comment_len < 256 ^ 2
    pub name_fits : length e.symbol.name + 1 ≤ 1024
    pub typ_fits : length e.symbol.typ + 1 ≤ 1024
    pub name_utf8 : lossy e.symbol.name ≡ e.symbol.name
    pub typ_utf8 : lossy e.symbol.typ ≡ e.symbol.typ
    pub body_fits : 4 + length (encode_body e) < 256 ^ 4

  pub read_text-encode_text :
      (cap : ℕ) (ctx : String) (s : Text) (rest : List ℕ)
      → length s + 1 ≤ cap
      → lossy s ≡ s
      → read_text lossy cap ctx (length s) (encode_text s rest) ≡ ok (s, rest)
  unfolding read_text
  read_text-encode_text cap ctx s rest room utf8 =
      let size : length (s ++ (0 ∷ [])) ≡ length s + 1 = omega (arith, length-append s (0 ∷ [])) in
      rw (le→leb (length s + 1) cap room, sym (append_assoc s (0 ∷ []) rest))
        (rw (
          read_exact-append ctx (length s + 1) (s ++ (0 ∷ [])) rest size,
          take-append s (0 ∷ []),
          utf8,
        ))

  pub read_text_step {ℓ} :
      {A : Type ℓ} (cap : ℕ) (ctx : String) (s : Text) (rest : List ℕ)
      (f : Text × List ℕ → Result A)
      → length s + 1 ≤ cap
      → lossy s ≡ s
      → (read_text lossy cap ctx (length s) (encode_text s rest) >>= f) ≡ f (s, rest)
  read_text_step cap ctx s rest f room utf8 =
      ap (λ r. r >>= f) (read_text-encode_text cap ctx s rest room utf8)

  decode_symbol-encode_body :
      (e : Entry) → IsEntry e → decode_symbol lossy (encode_body e) ≡ ok e.symbol
  unfolding decode_symbol encode_body
  decode_symbol-encode_body e w =
      let ctx : String = "decoding symbol info" in
      read_uint_step ctx 4 e.symbol.ix_group _ _ w.group_fits
      ∙ read_uint_step ctx 4 e.symbol.ix_offset _ _ w.offset_fits
      ∙ read_uint_step ctx 4 e.symbol.size _ _ w.size_fits
      ∙ read_uint_step ctx 4 e.symbol.base_type _ _ w.base_type_fits
      ∙ read_uint_step ctx 2 e.symbol.flags _ _ w.flags_fit
      ∙ read_uint_step ctx 2 e.array_dim _ _ w.array_dim_fits
      ∙ read_uint_step ctx 2 (length e.symbol.name) _ _ (omega (arith, w.name_fits))
      ∙ read_uint_step ctx 2 (length e.symbol.typ) _ _ (omega (arith, w.typ_fits))
      ∙ read_uint_step ctx 2 e.comment_len _ _ w.comment_len_fits
      ∙ read_text_step 1024 ctx e.symbol.name _ _ w.name_fits w.name_utf8
      ∙ read_text_step 1024 ctx e.symbol.typ _ _ w.typ_fits w.typ_utf8

-- An entry of whatever kind is read back behind its length.
pub raw_entry-append {ℓ} :
    {A : Type ℓ} (ctx : String) (part : List ℕ → Result A) (body rest : List ℕ) (a : A)
    → 4 + length body < 256 ^ 4
    → part body ≡ ok a
    → raw_entry ctx part (le_bytes 4 (4 + length body) ++ (body ++ rest)) ≡ ok (a, rest)
unfolding raw_entry split_at
raw_entry-append ctx part body rest a fits e =
    let size : 4 + length body - 4 ≡ length body = omega arith in
    read_uint_step ctx 4 (4 + length body) _ _ fits
    ∙ rw (
      le→ltb (4 + length body) 4 (omega arith),
      size,
      le→ltb (length (body ++ rest)) (length body) (omega (arith, length-append body rest)),
      take-append_at (length body) body rest refl,
      drop-append_at (length body) body rest refl,
      e,
    )

pub until_empty_step {ℓ} :
    {A : Type ℓ} (item : List ℕ → Result (A × List ℕ)) (fuel : ℕ) (ptr rest : List ℕ) (a : A)
    → 0 < length ptr
    → item ptr ≡ ok (a, rest)
    → until_empty item (suc fuel) ptr ≡ item_before a (until_empty item fuel rest)
unfolding until_empty
until_empty_step item fuel [] rest a h e = absurd (omega arith)
until_empty_step item fuel (b ∷ ptr) rest a h e = ap (items_after (until_empty item fuel)) e

encode_sized-length : (bodies : List (List ℕ)) → length bodies ≤ length (encode_sized bodies)
unfolding encode_sized
encode_sized-length [] = omega arith
encode_sized-length (body ∷ bodies) =
    let n = 4 + length body in
    omega (
      arith,
      encode_sized-length bodies,
      length-le_bytes 4 n,
      length-append (le_bytes 4 n) (body ++ encode_sized bodies),
      length-append body (encode_sized bodies),
    )

-- Bodies that fit a 32-bit length, and what a parse makes of each.
abbrev pub Parses {ℓ κ} :
    {X : Type κ} {A : Type ℓ} → (List ℕ → Result A) → (X → List ℕ) → (X → A) → X → Type ℓ
Parses part enc f x = (4 + length (enc x) < 256 ^ 4) × (part (enc x) ≡ ok (f x))

module _ {ℓ κ} {A : Type ℓ} {X : Type κ} (ctx : String) (part : List ℕ → Result A)
    (enc : X → List ℕ) (f : X → A) where
  sized_entries :
      (xs : List X) (fuel : ℕ)
      → All (Parses part enc f) xs
      → length xs ≤ fuel
      → until_empty (raw_entry ctx part) fuel (encode_sized (map enc xs)) ≡ some (ok (map f xs))
  unfolding encode_sized until_empty
  sized_entries [] zero w h = refl
  sized_entries [] (suc fuel) w h = refl
  sized_entries (x ∷ xs) zero w h = absurd (omega arith)
  sized_entries (x ∷ xs) (suc fuel) w h =
      let n = 4 + length (enc x) in
      let rest = encode_sized (map enc xs) in
      until_empty_step (raw_entry ctx part) fuel (le_bytes 4 n ++ (enc x ++ rest)) rest (f x)
        (omega (arith, length-append (le_bytes 4 n) (enc x ++ rest), length-le_bytes 4 n))
        (raw_entry-append ctx part (enc x) rest (f x) w.0.0 w.0.1)
      ∙ ap (item_before (f x)) (sized_entries xs fuel w.1 (omega arith))

  -- The loop over a slice of entries, with the slice's length as its fuel.
  pub until_empty-encode_sized :
      (xs : List X)
      → All (Parses part enc f) xs
      → until_empty
          (raw_entry ctx part)
          (length (encode_sized (map enc xs)))
          (encode_sized (map enc xs))
        ≡ some (ok (map f xs))
  until_empty-encode_sized xs w =
      sized_entries xs _ w (omega (arith, encode_sized-length (map enc xs), length-map enc xs))

-- A statement about each element, from another one.
pub All-imp {ℓ κ μ} :
    {X : Type ℓ} (P : X → Type κ) (Q : X → Type μ) (xs : List X)
    → ((x : X) → P x → Q x)
    → All P xs
    → All Q xs
All-imp P Q [] h w = tt
All-imp P Q (x ∷ xs) h w = (h x w.0, All-imp P Q xs h w.1)

module _ (lossy : List ℕ → Text) where
  -- The symbol upload round-trips: symbols whose numbers fit their fields, and whose texts fit the
  -- decoder's buffer and are UTF-8, are decoded in their order from the entries that describe them,
  -- whatever the parts that the decoder passes over hold.
  pub decode_symbols-encode_entries :
      (es : List Entry)
      → All (IsEntry lossy) es
      → decode_symbols lossy (encode_entries es) ≡ some (ok (map (λ e. e.symbol) es))
  unfolding decode_symbols
  decode_symbols-encode_entries es w =
      until_empty-encode_sized "decoding symbol info" (decode_symbol lossy) encode_body
        (λ e. e.symbol) es
        (All-imp (IsEntry lossy) _ es (λ e we. (we.body_fits, decode_symbol-encode_body lossy e we))
          w)
