-- ===== src/Symbol/Values/Ordered.antt =====
-- The fields that `SymbolTree::from_bytes` reads are those of the structure, in its order, where their
-- names differ.
use openstar_ads.Common.{
  ℕ, ◌+◌, ◌≡◌, refl, sym, ap, ◌∙◌, List, Bool, true, false, not, ◌&&◌, ◌||◌, none, some, arith,
  Bool-cases, inl, inr,
}
use openstar_ads.Error.{Result, ok, err, panic, ◌>>=◌}
use openstar_ads.Symbol.{Text, same_text}
use openstar_ads.Symbol.Tree.{SymbolTypeTree, Children, end, child}
use openstar_ads.Symbol.Values.{
  SymbolTree, Values, no_value, value, insert_value, from_bytes, from_fields,
}

abbrev pub has_name : Text → Children → Bool
has_name name end = false
has_name name (child n t o rest) = same_text name n || has_name name rest

-- No structure has two fields of one name.
unfoldable mutual
  pub distinct : SymbolTypeTree → Bool
  distinct (SymbolTypeTree.struct children size) = distinct_children children
  distinct t = true

  pub distinct_children : Children → Bool
  distinct_children end = true
  distinct_children (child n t o rest) =
      not (has_name n rest) && (distinct t && distinct_children rest)

abbrev append_values : Values → Values → Values
append_values no_value ws = ws
append_values (value n v vs) ws = value n v (append_values vs ws)

abbrev named : Text → Values → Bool
named name no_value = false
named name (value n v rest) = same_text n name || named name rest

-- None of the children has the name of a value that is there.
abbrev free : Values → Children → Bool
free m end = true
free m (child n t o rest) = not (named n m) && free m rest

append_values_assoc :
    (us vs ws : Values)
    → append_values (append_values us vs) ws ≡ append_values us (append_values vs ws)
append_values_assoc no_value vs ws = refl
append_values_assoc (value n v us) vs ws = ap (value n v) (append_values_assoc us vs ws)

append_values_none : (vs : Values) → append_values vs no_value ≡ vs
append_values_none no_value = refl
append_values_none (value n v vs) = ap (value n v) (append_values_none vs)

insert_value_fresh :
    (name : Text) (v : SymbolTree) (m : Values)
    → named name m ≡ false
    → insert_value name v m ≡ append_values m (value name v no_value)
unfolding insert_value
insert_value_fresh name v no_value h = refl
insert_value_fresh name v (value n w rest) h = elim (Bool-cases (same_text n name)) [
  | inl same ↦ absurd (ground (arith, h, same))
  | inr other ↦
      rw other (ap (value n w) (insert_value_fresh name v rest (ground (arith, h, other))))
]

named-append_values :
    (name n : Text) (v : SymbolTree) (m : Values)
    → named name (append_values m (value n v no_value)) ≡ (named name m || same_text n name)
named-append_values name n v no_value = ground arith
named-append_values name n v (value k w rest) = ground (arith, named-append_values name n v rest)

free-append_values :
    (n : Text) (v : SymbolTree) (m : Values) (children : Children)
    → has_name n children ≡ false
    → free m children ≡ true
    → free (append_values m (value n v no_value)) children ≡ true
free-append_values n v m end h f = refl
free-append_values n v m (child k t o rest) h f =
    ground (arith, named-append_values k n v m, free-append_values n v m rest)

free-none : (children : Children) → free no_value children ≡ true
free-none end = refl
free-none (child n t o rest) = free-none rest

pub and-both : (a b : Bool) → (a && b) ≡ true → (a ≡ true) × (b ≡ true)
and-both a b e = ground arith

pub not-true : (a : Bool) → not a ≡ true → a ≡ false
not-true a e = ground arith

module _ (lossy : List ℕ → Text) (to_f64 : List ℕ → ℕ) where
  -- The values of the fields, one after the other.
  unfoldable pub fields_of : List ℕ → Children → ℕ → Result Values
  fields_of bytes end offset = ok no_value
  fields_of bytes (child n t none rest) offset = do
    vs ← fields_of bytes rest offset
    ok (value n SymbolTree.missing vs)
  fields_of bytes (child n t (some o) rest) offset = do
    v ← from_bytes lossy to_f64 bytes t (offset + o)
    vs ← fields_of bytes rest offset
    ok (value n v vs)

  abbrev behind : Values → Result Values → Result Values
  behind m r = do vs ← r; ok (append_values m vs)

  behind_next :
      (m : Values) (n : Text) (v : SymbolTree) (r : Result Values)
      → behind (append_values m (value n v no_value)) r ≡ behind m (do vs ← r; ok (value n v vs))
  behind_next m n v (ok vs) = ap ok (append_values_assoc m (value n v no_value) vs)
  behind_next m n v (err e) = refl
  behind_next m n v panic = refl

  field_next :
      (bytes : List ℕ) (rest : Children) (offset : ℕ) (m : Values) (n : Text)
      (r : Result SymbolTree)
      → ((v : SymbolTree)
          → from_fields lossy to_f64 bytes rest offset (insert_value n v m)
            ≡ behind (append_values m (value n v no_value)) (fields_of bytes rest offset))
      → (r >>= λ v. from_fields lossy to_f64 bytes rest offset (insert_value n v m))
        ≡ behind m (do v ← r; vs ← fields_of bytes rest offset; ok (value n v vs))
  field_next bytes rest offset m n (ok v) more =
      more v ∙ behind_next m n v (fields_of bytes rest offset)
  field_next bytes rest offset m n (err e) more = refl
  field_next bytes rest offset m n panic more = refl

  from_fields-behind :
      (bytes : List ℕ) (children : Children) (offset : ℕ) (m : Values)
      → distinct_children children ≡ true
      → free m children ≡ true
      → from_fields lossy to_f64 bytes children offset m
        ≡ behind m (fields_of bytes children offset)
  unfolding from_fields distinct fields_of
  from_fields-behind bytes end offset m d f = ap ok (sym (append_values_none m))
  from_fields-behind bytes (child n t none rest) offset m d f =
      let (fresh, more) = and-both (not (has_name n rest)) _ d in
      let (here, there) = and-both (not (named n m)) _ f in
      ap (from_fields lossy to_f64 bytes rest offset)
        (insert_value_fresh n SymbolTree.missing m (not-true _ here))
      ∙ (from_fields-behind bytes rest offset
            (append_values m (value n SymbolTree.missing no_value)) (and-both (distinct t) _ more).1
            (free-append_values n SymbolTree.missing m rest (not-true _ fresh) there)
          ∙ behind_next m n SymbolTree.missing (fields_of bytes rest offset))
  from_fields-behind bytes (child n t (some o) rest) offset m d f =
      let (fresh, more) = and-both (not (has_name n rest)) _ d in
      let (here, there) = and-both (not (named n m)) _ f in
      field_next bytes rest offset m n (from_bytes lossy to_f64 bytes t (offset + o)) λ v.
        ap (from_fields lossy to_f64 bytes rest offset) (insert_value_fresh n v m (not-true _ here))
        ∙ (from_fields-behind bytes rest offset (append_values m (value n v no_value))
            (and-both (distinct t) _ more).1
            (free-append_values n v m rest (not-true _ fresh) there))

  pub from_fields-fields_of :
      (bytes : List ℕ) (children : Children) (offset : ℕ)
      → distinct_children children ≡ true
      → from_fields lossy to_f64 bytes children offset no_value ≡ fields_of bytes children offset
  from_fields-fields_of bytes children offset d =
      from_fields-behind bytes children offset no_value d (free-none children)
      ∙ alone (fields_of bytes children offset)
    where
      alone : (r : Result Values) → behind no_value r ≡ r
      alone (ok vs) = refl
      alone (err e) = refl
      alone panic = refl
