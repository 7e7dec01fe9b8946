-- ===== src/Symbol/Values/Agree.antt =====
-- A value that a `SymbolTypeMap` lists is read as the tree of values has it.
use openstar_ads.Common.{
  ℕ, ◌+◌, ◌/◌, ◌%◌, ◌≤◌, ◌≡◌, refl, List, true, false, Option, none, some, ◌==◌, length, take, drop,
  arith, Bool-cases, inl, inr, le→ltb,
}
use openstar_ads.Error.{Result, ok, ◌>>=◌}
use openstar_ads.Symbol.{Text}
use openstar_ads.Symbol.Fields.{sign_extend}
use openstar_ads.Symbol.Tree.{SymbolTypeTree}
use openstar_ads.Symbol.Tree.Flat.{PrimitiveSymbolType, real80_value, void_value}
use openstar_ads.Symbol.Values.{
  SymbolTree, no_element, element, from_bytes, number, wide_string, extended, accessible, slice_to,
  date_of,
}
use openstar_ads.Symbol.Values.Primitive.{
  PrimitiveValue, f32_to_f64, slice_from, as_number, wide_text, read_as, read_from_bytes,
}
use openstar_ads.Symbol.Values.Slices.{
  accessible_in, length-drop_ge, read_from_prefix_in, slice_to_in, read_words_in,
}

pub slice_from_in :
    (offset : ℕ) (bytes : List ℕ)
    → offset ≤ length bytes
    → slice_from offset bytes ≡ ok (drop offset bytes)
unfolding slice_from
slice_from_in offset bytes h = rw (le→ltb (length bytes) offset h) refl

module _ {Date : Type 0} (datetime : ℕ → ℕ → ℕ → ℕ → ℕ → ℕ → ℕ → Option Date) where
  abbrev pub dated : Option Date → PrimitiveValue Date
  dated (some date) = PrimitiveValue.timestamp date
  dated none = PrimitiveValue.malformed

  -- The value of the map for a value of the tree: the same number, text, truth value or bytes. An
  -- array is its bytes, a structure its date, and what the tree does not know is bytes in the map.
  abbrev pub Agrees : SymbolTree → PrimitiveValue Date → Type 0
  Agrees (SymbolTree.int n) w = w ≡ PrimitiveValue.int (sign_extend 16 n)
  Agrees (SymbolTree.dint n) w = w ≡ PrimitiveValue.int (sign_extend 32 n)
  Agrees (SymbolTree.sint n) w = w ≡ PrimitiveValue.int (sign_extend 8 n)
  Agrees (SymbolTree.lint n) w = w ≡ PrimitiveValue.int n
  Agrees (SymbolTree.usint n) w = w ≡ PrimitiveValue.uint n
  Agrees (SymbolTree.uint n) w = w ≡ PrimitiveValue.uint n
  Agrees (SymbolTree.udint n) w = w ≡ PrimitiveValue.uint n
  Agrees (SymbolTree.ulint n) w = w ≡ PrimitiveValue.uint n
  Agrees (SymbolTree.real n) w = w ≡ PrimitiveValue.float (f32_to_f64 n)
  Agrees (SymbolTree.lreal n) w = w ≡ PrimitiveValue.float n
  Agrees (SymbolTree.real80 n) w = w ≡ PrimitiveValue.float n
  Agrees (SymbolTree.string text) w = w ≡ PrimitiveValue.string text
  Agrees (SymbolTree.bool b) w = w ≡ PrimitiveValue.bool b
  Agrees (SymbolTree.void raw) w = w ≡ PrimitiveValue.void raw
  Agrees (SymbolTree.array (element (SymbolTree.void raw) no_element)) w =
      w ≡ PrimitiveValue.void raw
  Agrees (SymbolTree.array elements) w = false ≡ true
  Agrees SymbolTree.malformed w = w ≡ PrimitiveValue.malformed
  Agrees SymbolTree.unknown w = (raw : List ℕ) × (w ≡ PrimitiveValue.void raw)
  Agrees (SymbolTree.struct values) w = w ≡ dated (date_of datetime (SymbolTree.struct values))
  Agrees SymbolTree.missing w = false ≡ true

  -- Two readings that succeed, with values that agree.
  abbrev pub AgreesIn : Result SymbolTree → Result (PrimitiveValue Date) → Type 0
  AgreesIn (ok x) (ok w) = Agrees x w
  AgreesIn (ok x) r = false ≡ true
  AgreesIn r s = false ≡ true

  module _ (bytes : List ℕ) (offset : ℕ) where
    -- The bytes from the offset on, read in the way of the map.
    abbrev pub sliced : (List ℕ → Result (PrimitiveValue Date)) → Result (PrimitiveValue Date)
    sliced read = do rest ← slice_from offset bytes; read rest

    pub number-AgreesIn :
        (k : ℕ) (wrap : ℕ → SymbolTree) (pack : ℕ → PrimitiveValue Date)
        → ((n : ℕ) → Agrees (wrap n) (pack n))
        → offset + k ≤ length bytes
        → AgreesIn (accessible bytes offset (number k wrap)) (sliced (as_number k pack))
    number-AgreesIn k wrap pack h room =
        rw
          (
            accessible_in bytes offset (number k wrap) (omega arith),
            slice_from_in offset bytes (omega arith),
            read_from_prefix_in k (drop offset bytes) (length-drop_ge bytes offset k room),
          )
          (h _)

    pub raw-AgreesIn :
        (size : ℕ) (make : List ℕ → SymbolTree) (pack : List ℕ → PrimitiveValue Date)
        → ((raw : List ℕ) → Agrees (make raw) (pack raw))
        → offset + size ≤ length bytes
        → AgreesIn
            (accessible bytes offset (λ rest. do raw ← slice_to size rest; ok (make raw)))
            (sliced (λ rest. do raw ← slice_to size rest; ok (pack raw)))
    raw-AgreesIn size make pack h room =
        rw
          (
            accessible_in bytes offset (λ rest. do raw ← slice_to size rest; ok (make raw))
                (omega arith),
            slice_from_in offset bytes (omega arith),
            slice_to_in size (drop offset bytes) (length-drop_ge bytes offset size room),
          )
          (h _)

    pub wide-AgreesIn :
        (size : ℕ)
        → offset + size ≤ length bytes
        → AgreesIn (accessible bytes offset (wide_string size)) (sliced (wide_text size))
    unfolding wide_string wide_text
    wide-AgreesIn size room =
        let rest = drop offset bytes in
        let long = length-drop_ge bytes offset size room in
        rw
          (
            accessible_in bytes offset (wide_string size) (omega arith),
            slice_from_in offset bytes (omega arith),
          )
          (elim (Bool-cases (size % 2 == 0)) [
            | inl even ↦ rw (even, read_words_in (size / 2) rest (omega arith)) refl
            | inr odd ↦ rw odd refl
          ])

  module _ (lossy : List ℕ → Text) (to_f64 : List ℕ → ℕ) (bytes : List ℕ) (offset : ℕ) where
    -- What the map reads of a part that is listed as `s`.
    abbrev pub reading : PrimitiveSymbolType → Result (PrimitiveValue Date)
    reading s =
        read_from_bytes lossy to_f64 datetime
          (record { symbol_type = s; root_symbol_offset = offset }) bytes

    abbrev pub Agree : SymbolTypeTree → PrimitiveSymbolType → Type 0
    Agree t s = AgreesIn (from_bytes lossy to_f64 bytes t offset) (reading s)

    pub real80-Agree : offset + 10 ≤ length bytes → Agree SymbolTypeTree.real80 real80_value
    unfolding from_bytes extended read_from_bytes read_as
    real80-Agree room =
        rw
          (
            accessible_in bytes offset (extended lossy to_f64) (omega arith),
            slice_from_in offset bytes (omega arith),
            le→ltb (length (drop offset bytes)) 10 (length-drop_ge bytes offset 10 room),
          )
          refl

    pub unknown-Agree :
        (size : ℕ)
        → offset + size ≤ length bytes
        → Agree (SymbolTypeTree.unknown size) (void_value size)
    unfolding from_bytes read_from_bytes read_as
    unknown-Agree size room =
        rw
          (
            accessible_in bytes offset (λ rest. ok SymbolTree.unknown) (omega arith),
            slice_from_in offset bytes (omega arith),
            slice_to_in size (drop offset bytes) (length-drop_ge bytes offset size room),
          )
          (take size (drop offset bytes), refl)
