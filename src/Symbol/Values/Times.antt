-- ===== src/Symbol/Values/Times.antt =====
-- A time structure: the date that the map reads is that of the tree of values.
use openstar_ads.Common.{
  ℕ, suc, ◌+◌, ◌≤◌, ◌≡◌, refl, sym, ap, ◌∙◌, subst, List, [], ◌∷◌, true, Option, none, some, length,
  take, drop, get_elem?, replicate, arith, drop-drop,
}
use openstar_ads.Error.{ok, panic}
use openstar_ads.Wire.{le_value}
use openstar_ads.Symbol.{Text, same_text}
use openstar_ads.Symbol.Tree.{SymbolTypeTree, Children, end, child, get_size}
use openstar_ads.Symbol.Tree.Flat.{
  same_keys, timestruct_keys, put_offset, time_offsets, time_struct,
}
use openstar_ads.Symbol.Values.{
  SymbolTree, Values, no_value, value, find_value, from_bytes, number, date_of,
}
use openstar_ads.Symbol.Values.Primitive.{
  u16_at, datetime_from_bytes, or_no_date, read_as, read_from_bytes, nth_offset,
}
use openstar_ads.Symbol.Values.Slices.{accessible_in, length-drop_ge, read_from_prefix_in}
use openstar_ads.Symbol.Values.Ordered.{
  distinct_children, fields_of, from_fields-fields_of, and-both,
}
use openstar_ads.Symbol.Values.Types.{SizedIn}
use openstar_ads.Symbol.Values.Names.{same_text-eq}
use openstar_ads.Symbol.Values.Agree.{slice_from_in, dated, Agree}

-- Fields of 16-bit numbers, under the names and at the offsets.
abbrev pub of_uints : List Text → List ℕ → Children
of_uints (key ∷ keys) (p ∷ ps) = child key SymbolTypeTree.uint (some p) (of_uints keys ps)
of_uints keys ps = end

after_put : Children → Option (List ℕ) → Option (List ℕ)
after_put rest o = elim o [ some more ↦ time_offsets rest more | none ↦ none ]

-- The first field of a time structure.
first_uint :
    (children : Children) (key : Text) (keys : List Text) (offsets out : List ℕ)
    → same_keys children (key ∷ keys) ≡ true
    → time_offsets children offsets ≡ some out
    → (rest : Children) × (p : ℕ) × (children ≡ child key SymbolTypeTree.uint (some p) rest)
      × (same_keys rest keys ≡ true)
      × (after_put rest (put_offset key p timestruct_keys offsets) ≡ some out)
unfolding time_offsets after_put
first_uint end key keys offsets out same e = cc
first_uint (child n SymbolTypeTree.uint (some p) rest) key keys offsets out same e =
    let (head, tail) = and-both (same_text n key) (same_keys rest keys) same in
    let name : n ≡ key = same_text-eq n key head in
    (
      rest,
      p,
      ap (λ k. child k SymbolTypeTree.uint (some p) rest) name,
      tail,
      subst (λ k. after_put rest (put_offset k p timestruct_keys offsets) ≡ some out) name e,
    )
first_uint (child n t o rest) key keys offsets out same e = cc

after_put-some :
    (rest : Children) (o : Option (List ℕ)) (out : List ℕ)
    → after_put rest o ≡ some out
    → (more : List ℕ) × (time_offsets rest more ≡ some out)
unfolding after_put
after_put-some rest (some more) out e = (more, e)
after_put-some rest none out e = cc

-- The fields of a time structure are all of this kind.
all_uints :
    (children : Children) (keys : List Text) (offsets out : List ℕ)
    → same_keys children keys ≡ true
    → time_offsets children offsets ≡ some out
    → (ps : List ℕ) × (length ps ≡ length keys) × (children ≡ of_uints keys ps)
all_uints end [] offsets out same e = ([], refl, refl)
all_uints (child n t o rest) [] offsets out same e = cc
all_uints children (key ∷ keys) offsets out same e =
    let (rest, p, here, tail, next) = first_uint children key keys offsets out same e in
    let (more, later) = after_put-some rest (put_offset key p timestruct_keys offsets) out next in
    let (ps, n, there) = all_uints rest keys more out tail later in
    (p ∷ ps, ap suc n, here ∙ ap (child key SymbolTypeTree.uint (some p)) there)

-- The 16-bit number at a place.
abbrev word : List ℕ → ℕ → ℕ
word bytes place = le_value (take 2 (drop place bytes))

from_bytes-uint :
    (lossy : List ℕ → Text) (to_f64 : List ℕ → ℕ) (bytes : List ℕ) (place : ℕ)
    → place + 2 ≤ length bytes
    → from_bytes lossy to_f64 bytes SymbolTypeTree.uint place
      ≡ ok (SymbolTree.uint (word bytes place))
unfolding from_bytes
from_bytes-uint lossy to_f64 bytes place room =
    rw
      (
        accessible_in bytes place (number 2 SymbolTree.uint) (omega arith),
        read_from_prefix_in 2 (drop place bytes) (length-drop_ge bytes place 2 room),
      )
      refl

-- The values of such fields.
abbrev uint_values : List ℕ → ℕ → List Text → List ℕ → Values
uint_values bytes offset (key ∷ keys) (p ∷ ps) =
    value key (SymbolTree.uint (word bytes (offset + p))) (uint_values bytes offset keys ps)
uint_values bytes offset keys ps = no_value

fields_of-of_uints :
    (lossy : List ℕ → Text) (to_f64 : List ℕ → ℕ) (bytes : List ℕ) (offset size : ℕ)
    (keys : List Text) (ps : List ℕ)
    → SizedIn (of_uints keys ps) size
    → offset + size ≤ length bytes
    → fields_of lossy to_f64 bytes (of_uints keys ps) offset ≡ ok (uint_values bytes offset keys ps)
unfolding fields_of SizedIn get_size
fields_of-of_uints lossy to_f64 bytes offset size (key ∷ keys) (p ∷ ps) (inside, _, sized) room =
    rw
      (
        from_bytes-uint lossy to_f64 bytes (offset + p) (omega arith),
        fields_of-of_uints lossy to_f64 bytes offset size keys ps sized room,
      )
      refl
fields_of-of_uints lossy to_f64 bytes offset size (key ∷ keys) [] sized room = refl
fields_of-of_uints lossy to_f64 bytes offset size [] ps sized room = refl

nth_offset_lem :
    (i : ℕ) (offsets : List ℕ) (p : ℕ) → get_elem? offsets i ≡ some p → nth_offset i offsets ≡ ok p
nth_offset_lem i offsets p e = ap (λ (o : Option ℕ). (elim o [ some q ↦ ok q | none ↦ panic ])) e

u16_at_lem :
    (i : ℕ) (offsets bytes : List ℕ) (offset p : ℕ)
    → get_elem? offsets i ≡ some p
    → offset + (p + 2) ≤ length bytes
    → u16_at i offsets (drop offset bytes) ≡ ok (word bytes (offset + p))
unfolding u16_at
u16_at_lem i offsets bytes offset p e room =
    let rest = drop offset bytes in
    let long = length-drop_ge bytes offset (p + 2) room in
    rw
      (
        nth_offset_lem i offsets p e,
        slice_from_in p rest (omega arith),
        drop-drop offset p bytes,
        read_from_prefix_in 2 (drop (offset + p) bytes)
            (length-drop_ge bytes (offset + p) 2 (omega arith)),
      )
      refl

module _ {Date : Type 0} (datetime : ℕ → ℕ → ℕ → ℕ → ℕ → ℕ → ℕ → Option Date)
    (lossy : List ℕ → Text) (to_f64 : List ℕ → ℕ) (bytes : List ℕ) (offset : ℕ) where
  or_no_date-dated : (o : Option Date) → or_no_date (ok o) ≡ ok (dated datetime o)
  or_no_date-dated none = refl
  or_no_date-dated (some date) = refl

  uints-Agree :
      (p0 p1 p2 p3 p4 p5 p6 p7 size : ℕ)
      → let ps = p0 ∷ p1 ∷ p2 ∷ p3 ∷ p4 ∷ p5 ∷ p6 ∷ p7 ∷ [] in
        SizedIn (of_uints timestruct_keys ps) size
        → offset + size ≤ length bytes
        → Agree datetime lossy to_f64 bytes offset
            (SymbolTypeTree.struct (of_uints timestruct_keys ps) size)
            (time_struct ps)
  unfolding from_bytes read_from_bytes read_as datetime_from_bytes date_of find_value
      distinct_children SizedIn get_size
  uints-Agree p0 p1 p2 p3 p4 p5 p6 p7 size sized room =
      let ps : List ℕ = p0 ∷ p1 ∷ p2 ∷ p3 ∷ p4 ∷ p5 ∷ p6 ∷ p7 ∷ [] in
      let (i0, _, j1) = sized in
      let (i1, _, j2) = j1 in
      let (i2, _, j3) = j2 in
      let (i3, _, j4) = j3 in
      let (i4, _, j5) = j4 in
      let (i5, _, j6) = j5 in
      let (i6, _, j7) = j6 in
      let (i7, _, j8) = j7 in
      rw
        (
          accessible_in bytes offset _ (omega arith),
          from_fields-fields_of lossy to_f64 bytes (of_uints timestruct_keys ps) offset refl,
          fields_of-of_uints lossy to_f64 bytes offset size timestruct_keys ps sized room,
          slice_from_in offset bytes (omega arith),
          u16_at_lem 0 ps bytes offset p0 refl (omega arith),
          u16_at_lem 1 ps bytes offset p1 refl (omega arith),
          u16_at_lem 3 ps bytes offset p3 refl (omega arith),
          u16_at_lem 4 ps bytes offset p4 refl (omega arith),
          u16_at_lem 5 ps bytes offset p5 refl (omega arith),
          u16_at_lem 6 ps bytes offset p6 refl (omega arith),
          u16_at_lem 7 ps bytes offset p7 refl (omega arith),
          or_no_date-dated _,
        )
        refl

  eight :
      (ps offsets : List ℕ) (size : ℕ)
      → length ps ≡ 8
      → SizedIn (of_uints timestruct_keys ps) size
      → offset + size ≤ length bytes
      → time_offsets (of_uints timestruct_keys ps) (replicate 8 0) ≡ some offsets
      → Agree datetime lossy to_f64 bytes offset
          (SymbolTypeTree.struct (of_uints timestruct_keys ps) size)
          (time_struct offsets)
  unfolding time_offsets
  eight (p0 ∷ p1 ∷ p2 ∷ p3 ∷ p4 ∷ p5 ∷ p6 ∷ p7 ∷ []) offsets size n sized room e =
      let ps : List ℕ = p0 ∷ p1 ∷ p2 ∷ p3 ∷ p4 ∷ p5 ∷ p6 ∷ p7 ∷ [] in
      let same : ps ≡ offsets = ap (λ o. elim o [ some x ↦ x | none ↦ [] ]) e in
      subst
        (λ out.
          Agree datetime lossy to_f64 bytes offset
            (SymbolTypeTree.struct (of_uints timestruct_keys ps) size) (time_struct out))
        same (uints-Agree p0 p1 p2 p3 p4 p5 p6 p7 size sized room)
  eight ps offsets size n sized room e = absurd (omega arith)

  -- A structure that is listed as a time structure.
  pub time-Agree :
      (children : Children) (size : ℕ) (offsets : List ℕ)
      → same_keys children timestruct_keys ≡ true
      → time_offsets children (replicate 8 0) ≡ some offsets
      → SizedIn children size
      → offset + size ≤ length bytes
      → Agree datetime lossy to_f64 bytes offset
          (SymbolTypeTree.struct children size)
          (time_struct offsets)
  time-Agree children size offsets same e sized room =
      let (ps, n, there) = all_uints children timestruct_keys (replicate 8 0) offsets same e in
      subst
        (λ c.
          SizedIn c size
          → time_offsets c (replicate 8 0) ≡ some offsets
          → Agree datetime lossy to_f64 bytes offset (SymbolTypeTree.struct c size)
              (time_struct offsets))
        (sym there) (λ sized e. eight ps offsets size n sized room e) sized e
