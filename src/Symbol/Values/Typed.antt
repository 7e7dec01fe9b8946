-- ===== src/Symbol/Values/Typed.antt =====
-- The values that `SymbolTree::from_bytes` reads have the types of the type tree.
use openstar_ads.Common.{
  ℕ, ◌+◌, ◌/◌, ◌%◌, ◌^◌, ◌≤◌, ◌<◌, ◌≡◌, refl, List, true, not, none, some, ◌==◌, length, take, drop,
  All, arith, Bool-cases, inl, inr, le→ltb, length-take, All-drop,
}
use openstar_ads.Error.{ok, ◌>>=◌}
use openstar_ads.Wire.{IsByte, le_value}
use openstar_ads.Symbol.{Text}
use openstar_ads.Symbol.Tree.{SymbolTypeTree, Children, end, child, get_size}
use openstar_ads.Symbol.Values.{
  SymbolTree, Values, no_value, value, no_element, element, from_bytes, number, wide_string,
  extended, accessible, slice_to, nonzero,
}
use openstar_ads.Symbol.Values.Slices.{
  accessible_in, length-drop_ge, read_from_prefix_in, take-lt, slice_to_in, read_words_in, words_of,
}
use openstar_ads.Symbol.Values.Ordered.{
  distinct, distinct_children, has_name, fields_of, from_fields-fields_of, and-both,
}
use openstar_ads.Symbol.Values.Utf16.{from_utf16_lossy}
use openstar_ads.Symbol.Values.Types.{Sized, SizedIn, HasType, HaveTypes}

-- A number of `k` bytes that are there.
number_in :
    (k : ℕ) (wrap : ℕ → SymbolTree) (bytes : List ℕ) (offset : ℕ)
    → offset + k ≤ length bytes
    → All IsByte bytes
    → let n = le_value (take k (drop offset bytes)) in
      (accessible bytes offset (number k wrap) ≡ ok (wrap n)) × (n < 256 ^ k)
number_in k wrap bytes offset h small =
    let room = length-drop_ge bytes offset k h in
    (
      rw
          (
            accessible_in bytes offset (number k wrap) (omega arith),
            read_from_prefix_in k (drop offset bytes) room,
          )
          refl,
      take-lt k (drop offset bytes) room (All-drop IsByte offset bytes small),
    )

length-front :
    (n offset : ℕ) (bytes : List ℕ)
    → offset + n ≤ length bytes
    → length (take n (drop offset bytes)) ≡ n
length-front n offset bytes h =
    omega (arith, length-take n (drop offset bytes), length-drop_ge bytes offset n h)

-- What is read of a type at an offset, and that it has the type.
abbrev Reads : (List ℕ → Text) → (List ℕ → ℕ) → List ℕ → SymbolTypeTree → ℕ → Type 0
Reads lossy to_f64 bytes t offset =
    (v : SymbolTree) × (from_bytes lossy to_f64 bytes t offset ≡ ok v) × HasType t v

-- Bytes that are there, whatever is made of them.
sliced_in :
    (make : List ℕ → SymbolTree) (size offset : ℕ) (bytes : List ℕ)
    → offset + size ≤ length bytes
    → accessible bytes offset (λ rest. do raw ← slice_to size rest; ok (make raw))
      ≡ ok (make (take size (drop offset bytes)))
sliced_in make size offset bytes h =
    rw
      (
        accessible_in bytes offset (λ rest. do raw ← slice_to size rest; ok (make raw))
            (omega arith),
        slice_to_in size (drop offset bytes) (length-drop_ge bytes offset size h),
      )
      refl

module _ (lossy : List ℕ → Text) (to_f64 : List ℕ → ℕ) (bytes : List ℕ) where
  wide_string_in :
      (size offset : ℕ)
      → offset + size ≤ length bytes
      → Reads lossy to_f64 bytes (SymbolTypeTree.wstring size) offset
  unfolding from_bytes wide_string
  wide_string_in size offset h =
      let rest = drop offset bytes in
      let room = length-drop_ge bytes offset size h in
      rw (accessible_in bytes offset (wide_string size) (omega arith))
        (elim (Bool-cases (size % 2 == 0)) [
          | inl even ↦ (
            SymbolTree.string (from_utf16_lossy (words_of (size / 2) rest)),
            rw (even, read_words_in (size / 2) rest (omega arith)) refl,
            HasType.wstring_typed (ground arith),
          )
          | inr odd ↦ (SymbolTree.malformed, rw odd refl, HasType.wstring_odd (ground arith))
        ])

  extended_in :
      (offset : ℕ)
      → offset + 10 ≤ length bytes
      → Reads lossy to_f64 bytes SymbolTypeTree.real80 offset
  unfolding from_bytes extended
  extended_in offset h =
      let rest = drop offset bytes in
      (
        SymbolTree.real80 (to_f64 (take 10 rest)),
        rw
            (
              accessible_in bytes offset (extended lossy to_f64) (omega arith),
              le→ltb (length rest) 10 (length-drop_ge bytes offset 10 h),
            )
            refl,
        HasType.real80_typed,
      )

  module _ (small : All IsByte bytes) where
    mutual
      unfolding from_bytes distinct get_size Sized fields_of

      pub from_bytes-Reads :
          (t : SymbolTypeTree) (offset : ℕ)
          → distinct t ≡ true
          → Sized t
          → offset + get_size t ≤ length bytes
          → Reads lossy to_f64 bytes t offset
      from_bytes-Reads (SymbolTypeTree.struct children size) offset d s h =
          let (values, e, typed) = fields_of-HaveTypes children offset size d s h in
          (
            SymbolTree.struct values,
            rw
                (
                  accessible_in bytes offset _ (omega arith),
                  from_fields-fields_of lossy to_f64 bytes children offset d,
                  e,
                )
                refl,
            HasType.struct_typed typed,
          )
      from_bytes-Reads (SymbolTypeTree.array t size) offset d s h = (
        SymbolTree.array (element (SymbolTree.void (take size (drop offset bytes))) no_element),
        sliced_in (λ raw. SymbolTree.array (element (SymbolTree.void raw) no_element)) size offset
            bytes h,
        HasType.array_typed (length-front size offset bytes h),
      )
      from_bytes-Reads (SymbolTypeTree.void size) offset d s h = (
        SymbolTree.void (take size (drop offset bytes)),
        sliced_in SymbolTree.void size offset bytes h,
        HasType.void_typed (length-front size offset bytes h),
      )
      from_bytes-Reads (SymbolTypeTree.string size) offset d s h = (
        SymbolTree.string (lossy (take size (drop offset bytes))),
        sliced_in (λ raw. SymbolTree.string (lossy raw)) size offset bytes h,
        HasType.string_typed,
      )
      from_bytes-Reads SymbolTypeTree.int offset d s h =
          let (e, lt) = number_in 2 SymbolTree.int bytes offset h small in
          (_, e, HasType.int_typed lt)
      from_bytes-Reads SymbolTypeTree.dint offset d s h =
          let (e, lt) = number_in 4 SymbolTree.dint bytes offset h small in
          (_, e, HasType.dint_typed lt)
      from_bytes-Reads SymbolTypeTree.real offset d s h =
          let (e, lt) = number_in 4 SymbolTree.real bytes offset h small in
          (_, e, HasType.real_typed lt)
      from_bytes-Reads SymbolTypeTree.lreal offset d s h =
          let (e, lt) = number_in 8 SymbolTree.lreal bytes offset h small in
          (_, e, HasType.lreal_typed lt)
      from_bytes-Reads SymbolTypeTree.sint offset d s h =
          let (e, lt) = number_in 1 SymbolTree.sint bytes offset h small in
          (_, e, HasType.sint_typed lt)
      from_bytes-Reads SymbolTypeTree.usint offset d s h =
          let (e, lt) = number_in 1 SymbolTree.usint bytes offset h small in
          (_, e, HasType.usint_typed lt)
      from_bytes-Reads SymbolTypeTree.uint offset d s h =
          let (e, lt) = number_in 2 SymbolTree.uint bytes offset h small in
          (_, e, HasType.uint_typed lt)
      from_bytes-Reads SymbolTypeTree.udint offset d s h =
          let (e, lt) = number_in 4 SymbolTree.udint bytes offset h small in
          (_, e, HasType.udint_typed lt)
      from_bytes-Reads SymbolTypeTree.lint offset d s h =
          let (e, lt) = number_in 8 SymbolTree.lint bytes offset h small in
          (_, e, HasType.lint_typed lt)
      from_bytes-Reads SymbolTypeTree.ulint offset d s h =
          let (e, lt) = number_in 8 SymbolTree.ulint bytes offset h small in
          (_, e, HasType.ulint_typed lt)
      from_bytes-Reads SymbolTypeTree.bool offset d s h =
          (_, (number_in 1 nonzero bytes offset h small).0, HasType.bool_typed)
      from_bytes-Reads (SymbolTypeTree.wstring size) offset d s h = wide_string_in size offset h
      from_bytes-Reads SymbolTypeTree.real80 offset d s h = extended_in offset h
      from_bytes-Reads (SymbolTypeTree.compound size) offset d s h = (
        SymbolTree.malformed,
        accessible_in bytes offset (λ rest. ok SymbolTree.malformed) (omega arith),
        HasType.compound_typed,
      )
      from_bytes-Reads (SymbolTypeTree.unknown size) offset d s h = (
        SymbolTree.unknown,
        accessible_in bytes offset (λ rest. ok SymbolTree.unknown) (omega arith),
        HasType.unknown_typed,
      )
      from_bytes-Reads SymbolTypeTree.missing offset d s h = (
        SymbolTree.missing,
        accessible_in bytes offset (λ rest. ok SymbolTree.missing) (omega arith),
        HasType.missing_typed,
      )

      fields_of-HaveTypes :
          (children : Children) (offset size : ℕ)
          → distinct_children children ≡ true
          → SizedIn children size
          → offset + size ≤ length bytes
          → (values : Values) × (fields_of lossy to_f64 bytes children offset ≡ ok values)
            × HaveTypes children values
      fields_of-HaveTypes end offset size d s h = (no_value, refl, HaveTypes.none_typed)
      fields_of-HaveTypes (child n t none rest) offset size d s h =
          let (fresh, more) = and-both (not (has_name n rest)) _ d in
          let (values, e, typed) =
            fields_of-HaveTypes rest offset size (and-both (distinct t) _ more).1 s h in
          (value n SymbolTree.missing values, rw e refl, HaveTypes.absent_typed typed)
      fields_of-HaveTypes (child n t (some o) rest) offset size d s h =
          let (fresh, more) = and-both (not (has_name n rest)) _ d in
          let (here, there) = and-both (distinct t) _ more in
          let (inside, sized, others) = s in
          let (v, ev, typed) = from_bytes-Reads t (offset + o) here sized (omega arith) in
          let (values, e, all_typed) = fields_of-HaveTypes rest offset size there others h in
          (value n v values, rw (ev, e) refl, HaveTypes.field_typed typed all_typed)
