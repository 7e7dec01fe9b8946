-- ===== src/Symbol/Values/Paths.antt =====
-- `SymbolTree::get_child`: what stands at a path in the values is what is read at its place.
use openstar_ads.Common.{
  ℕ, ◌+◌, ◌≡◌, refl, sym, ap, ◌∙◌, subst, List, [], ◌∷◌, true, Option, none, some, ltb, length,
  Bool-cases, inl, inr, ltb→lt,
}
use openstar_ads.Error.{Result, ok, err, panic, ◌>>=◌}
use openstar_ads.NetId.Split.{split}
use openstar_ads.Symbol.{Text}
use openstar_ads.Symbol.Tree.{SymbolTypeTree}
use openstar_ads.Symbol.Values.{SymbolTree, Values, from_bytes, walk_values, get_child}
use openstar_ads.Symbol.Values.Ordered.{distinct, fields_of, from_fields-fields_of}
use openstar_ads.Symbol.Values.Leaves.{leafy_result, walk_values-leafy, from_bytes-leafy}
use openstar_ads.Symbol.Values.Places.{
  find_field, locate, At, walk_values_missing, locate_beyond, FoundIn, fields_of-Found, DistinctIn,
  distinct-find_field,
}

module _ (lossy : List ℕ → Text) (to_f64 : List ℕ → ℕ) (bytes : List ℕ) where
  -- The values at a path of a result, against a place.
  abbrev pub AtIn : Option (SymbolTypeTree × ℕ) → List Text → Result SymbolTree → Type 0
  AtIn place tokens (ok v) = At lossy to_f64 bytes place (walk_values tokens v)
  AtIn place tokens r = Unit {0}

  -- What `get_child` goes on with.
  abbrev next_value : List Text → Option SymbolTree → SymbolTree
  next_value tokens w = elim w [ some v ↦ walk_values tokens v | none ↦ SymbolTree.missing ]

  located_field :
      (token : Text) (tokens : List Text) (offset : ℕ) (f : Option (SymbolTypeTree × Option ℕ))
      (r : Result Values)
      → ((t : SymbolTypeTree) (o : ℕ)
          → distinct t ≡ true
          → AtIn
              (locate tokens t (offset + o))
              tokens
              (from_bytes lossy to_f64 bytes t (offset + o)))
      → DistinctIn f
      → FoundIn lossy to_f64 bytes offset f token r
      → AtIn
          (elim f [
            | some (t, some o) ↦ locate tokens t (offset + o)
            | some (t, none) ↦ none
            | none ↦ none
          ])
          (token ∷ tokens)
          (do tree_map ← r; ok (SymbolTree.struct tree_map))
  unfolding walk_values
  located_field token tokens offset (some (t, some o)) (ok m) more d (v, there, e) =
      subst (λ w. At lossy to_f64 bytes (locate tokens t (offset + o)) (next_value tokens w))
        (sym there) (subst (AtIn (locate tokens t (offset + o)) tokens) e (more t o d))
  located_field token tokens offset (some (t, none)) (ok m) more d found =
      ap (next_value tokens) found ∙ walk_values_missing tokens
  located_field token tokens offset none (ok m) more d found = ap (next_value tokens) found
  located_field token tokens offset f (err e) more d found = tt
  located_field token tokens offset f panic more d found = tt

  located_leaf :
      (token : Text) (tokens : List Text) (r : Result SymbolTree)
      → leafy_result r ≡ true
      → AtIn none (token ∷ tokens) r
  located_leaf token tokens (ok v) h = walk_values-leafy token tokens v h
  located_leaf token tokens (err e) h = tt
  located_leaf token tokens panic h = tt

  pub from_bytes-AtIn :
      (tokens : List Text) (t : SymbolTypeTree) (offset : ℕ)
      → distinct t ≡ true
      → AtIn (locate tokens t offset) tokens (from_bytes lossy to_f64 bytes t offset)
  unfolding locate from_bytes distinct walk_values
  from_bytes-AtIn [] t offset d = here (from_bytes lossy to_f64 bytes t offset) refl
    where
      here :
          (r : Result SymbolTree)
          → from_bytes lossy to_f64 bytes t offset ≡ r
          → AtIn (some (t, offset)) [] r
      here (ok v) e = e
      here (err x) e = tt
      here panic e = tt
  from_bytes-AtIn (token ∷ tokens) (SymbolTypeTree.struct children size) offset d =
      elim (Bool-cases (ltb (length bytes) offset)) [
        | inl beyond ↦ rw beyond (
            locate_beyond lossy to_f64 bytes (token ∷ tokens) (SymbolTypeTree.struct children size)
              offset (ltb→lt (length bytes) offset beyond))
        | inr inside ↦
            rw (inside, from_fields-fields_of lossy to_f64 bytes children offset d)
              (located_field token tokens offset (find_field token children)
                (fields_of lossy to_f64 bytes children offset)
                (λ t o h. from_bytes-AtIn tokens t (offset + o) h)
                (distinct-find_field token children d)
                (fields_of-Found lossy to_f64 bytes token children offset))
      ]
  from_bytes-AtIn (token ∷ tokens) leaf offset d =
      located_leaf token tokens (from_bytes lossy to_f64 bytes leaf offset)
        (from_bytes-leafy lossy to_f64 bytes leaf offset refl)

  -- The values at a path of a tree whose structures have fields of distinct names. Where the type tree
  -- has a part at the path, with an offset for each field on the way, the value there is what is read
  -- as that part at the sum of the offsets; at any other path it is missing.
  pub get_child-locate :
      (t : SymbolTypeTree) (offset : ℕ) (v : SymbolTree) (path : Text)
      → distinct t ≡ true
      → from_bytes lossy to_f64 bytes t offset ≡ ok v
      → At lossy to_f64 bytes (locate (split b'.' path) t offset) (get_child v path)
  unfolding get_child
  get_child-locate t offset v path d e =
      let tokens = split b'.' path in
      subst (AtIn (locate tokens t offset) tokens) e (from_bytes-AtIn tokens t offset d)
