-- ===== src/Symbol/Values/Places.antt =====
-- The places of the parts of a type tree, and what the fields of a structure have read there.
use openstar_ads.Common.{
  ℕ, ◌+◌, ◌<◌, ◌≡◌, refl, List, [], ◌∷◌, true, not, Option, none, some, if◌then◌else◌, length,
  arith, Bool-cases, inl, inr, lt→ltb,
}
use openstar_ads.Error.{Result, ok, err, panic, ◌>>=◌}
use openstar_ads.Symbol.{Text, same_text}
use openstar_ads.Symbol.Tree.{SymbolTypeTree, Children, end, child}
use openstar_ads.Symbol.Values.{SymbolTree, Values, value, find_value, from_bytes, walk_values}
use openstar_ads.Symbol.Values.Ordered.{distinct, distinct_children, has_name, fields_of, and-both}

-- A field of a structure: its type, and its offset if it has one.
abbrev pub find_field : Text → Children → Option (SymbolTypeTree × Option ℕ)
find_field name end = none
find_field name (child n t o rest) = if same_text n name then some (t, o) else find_field name rest

-- Where the part at a path stands: its type, and the sum of the offsets on the way. A field without
-- an offset has no place.
unfoldable pub locate : List Text → SymbolTypeTree → ℕ → Option (SymbolTypeTree × ℕ)
locate [] t offset = some (t, offset)
locate (token ∷ tokens) (SymbolTypeTree.struct children size) offset =
    elim (find_field token children) [
      | some (t, some o) ↦ locate tokens t (offset + o)
      | some (t, none) ↦ none
      | none ↦ none
    ]
locate (token ∷ tokens) t offset = none

pub walk_values_missing :
    (tokens : List Text) → walk_values tokens SymbolTree.missing ≡ SymbolTree.missing
unfolding walk_values
walk_values_missing [] = refl
walk_values_missing (token ∷ tokens) = refl

abbrev pub DistinctIn : Option (SymbolTypeTree × Option ℕ) → Type 0
DistinctIn none = Unit {0}
DistinctIn (some (t, o)) = distinct t ≡ true

pub distinct-find_field :
    (token : Text) (children : Children)
    → distinct_children children ≡ true
    → DistinctIn (find_field token children)
unfolding distinct
distinct-find_field token end d = tt
distinct-find_field token (child n u p rest) d =
    let (here, there) = and-both (distinct u) _ (and-both (not (has_name n rest)) _ d).1 in
    elim (Bool-cases (same_text n token)) [
      | inl same ↦ rw same here
      | inr other ↦ rw other (distinct-find_field token rest there)
    ]

module _ (lossy : List ℕ → Text) (to_f64 : List ℕ → ℕ) (bytes : List ℕ) where
  -- What is found at a place, against what the values have there.
  abbrev pub At : Option (SymbolTypeTree × ℕ) → SymbolTree → Type 0
  At none v = v ≡ SymbolTree.missing
  At (some (t, offset)) v = from_bytes lossy to_f64 bytes t offset ≡ ok v

  -- Behind the end of the bytes everything is missing.
  from_bytes_beyond :
      (t : SymbolTypeTree) (offset : ℕ)
      → length bytes < offset
      → from_bytes lossy to_f64 bytes t offset ≡ ok SymbolTree.missing
  unfolding from_bytes
  from_bytes_beyond (SymbolTypeTree.struct children size) offset h =
      rw (lt→ltb (length bytes) offset h) refl
  from_bytes_beyond _ offset h = rw (lt→ltb (length bytes) offset h) refl

  pub locate_beyond :
      (tokens : List Text) (t : SymbolTypeTree) (offset : ℕ)
      → length bytes < offset
      → At (locate tokens t offset) SymbolTree.missing
  unfolding locate
  locate_beyond [] t offset h = from_bytes_beyond t offset h
  locate_beyond (token ∷ tokens) (SymbolTypeTree.struct children size) offset h =
      by_field (find_field token children)
        (λ t o. locate_beyond tokens t (offset + o) (omega arith))
    where
      by_field :
          (f : Option (SymbolTypeTree × Option ℕ))
          → ((t : SymbolTypeTree) (o : ℕ) → At (locate tokens t (offset + o)) SymbolTree.missing)
          → At
              (elim f [
                | some (t, some o) ↦ locate tokens t (offset + o)
                | some (t, none) ↦ none
                | none ↦ none
              ])
              SymbolTree.missing
      by_field (some (t, some o)) more = more t o
      by_field (some (t, none)) more = refl
      by_field none more = refl
  locate_beyond (token ∷ tokens) _ offset h = refl

  -- What the values have under a name, against the field of that name.
  abbrev pub Found : ℕ → Option (SymbolTypeTree × Option ℕ) → Option SymbolTree → Type 0
  Found offset none w = w ≡ none
  Found offset (some (t, none)) w = w ≡ some SymbolTree.missing
  Found offset (some (t, some o)) w =
      (v : SymbolTree) × (w ≡ some v) × (from_bytes lossy to_f64 bytes t (offset + o) ≡ ok v)

  abbrev pub FoundIn : ℕ → Option (SymbolTypeTree × Option ℕ) → Text → Result Values → Type 0
  FoundIn offset f token (ok m) = Found offset f (find_value token m)
  FoundIn offset f token r = Unit {0}

  absent_found :
      (offset : ℕ) (token n : Text) (t : SymbolTypeTree) (rest : Children) (r : Result Values)
      → FoundIn offset (find_field token rest) token r
      → FoundIn offset
          (find_field token (child n t none rest))
          token
          (do vs ← r; ok (value n SymbolTree.missing vs))
  unfolding find_value
  absent_found offset token n t rest (ok vs) h = elim (Bool-cases (same_text n token)) [
    | inl same ↦ rw same refl
    | inr other ↦ rw other h
  ]
  absent_found offset token n t rest (err e) h = tt
  absent_found offset token n t rest panic h = tt

  field_found :
      (offset : ℕ) (token n : Text) (t : SymbolTypeTree) (o : ℕ) (rest : Children)
      (d : Result SymbolTree) (r : Result Values)
      → from_bytes lossy to_f64 bytes t (offset + o) ≡ d
      → FoundIn offset (find_field token rest) token r
      → FoundIn offset
          (find_field token (child n t (some o) rest))
          token
          (do v ← d; vs ← r; ok (value n v vs))
  unfolding find_value
  field_found offset token n t o rest (ok v) (ok vs) e h = elim (Bool-cases (same_text n token)) [
    | inl same ↦ rw same (v, refl, e)
    | inr other ↦ rw other h
  ]
  field_found offset token n t o rest (ok v) (err x) e h = tt
  field_found offset token n t o rest (ok v) panic e h = tt
  field_found offset token n t o rest (err x) r e h = tt
  field_found offset token n t o rest panic r e h = tt

  pub fields_of-Found :
      (token : Text) (children : Children) (offset : ℕ)
      → FoundIn offset
          (find_field token children)
          token
          (fields_of lossy to_f64 bytes children offset)
  unfolding fields_of find_value
  fields_of-Found token end offset = refl
  fields_of-Found token (child n t none rest) offset =
      absent_found offset token n t rest (fields_of lossy to_f64 bytes rest offset)
        (fields_of-Found token rest offset)
  fields_of-Found token (child n t (some o) rest) offset =
      field_found offset token n t o rest (from_bytes lossy to_f64 bytes t (offset + o))
        (fields_of lossy to_f64 bytes rest offset) refl (fields_of-Found token rest offset)
