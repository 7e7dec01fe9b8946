-- ===== src/Symbol/Values/Leaves.antt =====
-- What is read of a type that is no structure is no structure, and has no part with a name.
use openstar_ads.Common.{
  ℕ, ◌≡◌, refl, List, ◌∷◌, Bool, true, false, Option, none, some, ltb, ◌==◌, ◌%◌, ◌/◌, length, drop,
  Bool-cases, inl, inr,
}
use openstar_ads.Error.{Result, ok, err, panic, ◌>>=◌}
use openstar_ads.Symbol.{Text}
use openstar_ads.Symbol.Tree.{SymbolTypeTree}
use openstar_ads.Symbol.Values.{
  SymbolTree, from_bytes, number, wide_string, extended, accessible, slice_to, nonzero, walk_values,
  read_from_prefix, or_malformed, read_words, element, no_element,
}
use openstar_ads.Symbol.Values.Utf16.{from_utf16_lossy}

abbrev pub leafy : SymbolTree → Bool
leafy (SymbolTree.struct values) = false
leafy v = true

pub walk_values-leafy :
    (token : Text) (tokens : List Text) (v : SymbolTree)
    → leafy v ≡ true
    → walk_values (token ∷ tokens) v ≡ SymbolTree.missing
unfolding walk_values
walk_values-leafy token tokens (SymbolTree.struct values) h = cc
walk_values-leafy token tokens _ h = refl

abbrev pub is_struct : SymbolTypeTree → Bool
is_struct (SymbolTypeTree.struct children size) = true
is_struct t = false

abbrev pub leafy_result : Result SymbolTree → Bool
leafy_result (ok v) = leafy v
leafy_result r = true

-- A reading that gives no structure.
abbrev Leafs : (List ℕ → Result SymbolTree) → Type 0
Leafs read = (bytes : List ℕ) → leafy_result (read bytes) ≡ true

accessible-leafy :
    (bytes : List ℕ) (offset : ℕ) (read : List ℕ → Result SymbolTree)
    → Leafs read
    → leafy_result (accessible bytes offset read) ≡ true
accessible-leafy bytes offset read leafs = elim (Bool-cases (ltb (length bytes) offset)) [
  | inl beyond ↦ rw beyond refl
  | inr inside ↦ rw inside (leafs (drop offset bytes))
]

number-Leafs :
    (k : ℕ) (wrap : ℕ → SymbolTree) → ((n : ℕ) → leafy (wrap n) ≡ true) → Leafs (number k wrap)
number-Leafs k wrap h bytes = by_option (read_from_prefix k bytes)
  where
    by_option : (o : Option ℕ) → leafy (or_malformed wrap o) ≡ true
    by_option none = refl
    by_option (some n) = h n

then-leafy :
    {A : Type 0} (r : Result A) (make : A → SymbolTree)
    → ((a : A) → leafy (make a) ≡ true)
    → leafy_result (do a ← r; ok (make a)) ≡ true
then-leafy (ok a) make h = h a
then-leafy (err e) make h = refl
then-leafy panic make h = refl

wide_string-Leafs : (size : ℕ) → Leafs (wide_string size)
unfolding wide_string
wide_string-Leafs size bytes = elim (Bool-cases (size % 2 == 0)) [
  | inl even ↦ rw even (
      then-leafy (read_words (size / 2) bytes) (λ ws. SymbolTree.string (from_utf16_lossy ws))
        (λ ws. refl))
  | inr odd ↦ rw odd refl
]

module _ (lossy : List ℕ → Text) (to_f64 : List ℕ → ℕ) (bytes : List ℕ) where
  extended-Leafs : Leafs (extended lossy to_f64)
  unfolding extended
  extended-Leafs rest = elim (Bool-cases (ltb (length rest) 10)) [
    | inl short ↦ rw short refl
    | inr room ↦ rw room refl
  ]

  pub from_bytes-leafy :
      (t : SymbolTypeTree) (offset : ℕ)
      → is_struct t ≡ false
      → leafy_result (from_bytes lossy to_f64 bytes t offset) ≡ true
  unfolding from_bytes
  from_bytes-leafy (SymbolTypeTree.struct children size) offset h = cc
  from_bytes-leafy (SymbolTypeTree.array t size) offset h = accessible-leafy bytes offset _ λ rest.
      then-leafy (slice_to size rest)
        (λ raw. SymbolTree.array (element (SymbolTree.void raw) no_element)) (λ raw. refl)
  from_bytes-leafy (SymbolTypeTree.void size) offset h =
      accessible-leafy bytes offset _
        λ rest. then-leafy (slice_to size rest) SymbolTree.void (λ raw. refl)
  from_bytes-leafy (SymbolTypeTree.string size) offset h =
      accessible-leafy bytes offset _
        λ rest. then-leafy (slice_to size rest) (λ raw. SymbolTree.string (lossy raw)) (λ raw. refl)
  from_bytes-leafy (SymbolTypeTree.wstring size) offset h =
      accessible-leafy bytes offset (wide_string size) (wide_string-Leafs size)
  from_bytes-leafy SymbolTypeTree.real80 offset h =
      accessible-leafy bytes offset (extended lossy to_f64) extended-Leafs
  from_bytes-leafy SymbolTypeTree.bool offset h =
      accessible-leafy bytes offset (number 1 nonzero) (number-Leafs 1 nonzero (λ n. refl))
  from_bytes-leafy SymbolTypeTree.int offset h =
      accessible-leafy bytes offset (number 2 SymbolTree.int)
        (number-Leafs 2 SymbolTree.int (λ n. refl))
  from_bytes-leafy SymbolTypeTree.dint offset h =
      accessible-leafy bytes offset (number 4 SymbolTree.dint)
        (number-Leafs 4 SymbolTree.dint (λ n. refl))
  from_bytes-leafy SymbolTypeTree.real offset h =
      accessible-leafy bytes offset (number 4 SymbolTree.real)
        (number-Leafs 4 SymbolTree.real (λ n. refl))
  from_bytes-leafy SymbolTypeTree.lreal offset h =
      accessible-leafy bytes offset (number 8 SymbolTree.lreal)
        (number-Leafs 8 SymbolTree.lreal (λ n. refl))
  from_bytes-leafy SymbolTypeTree.sint offset h =
      accessible-leafy bytes offset (number 1 SymbolTree.sint)
        (number-Leafs 1 SymbolTree.sint (λ n. refl))
  from_bytes-leafy SymbolTypeTree.usint offset h =
      accessible-leafy bytes offset (number 1 SymbolTree.usint)
        (number-Leafs 1 SymbolTree.usint (λ n. refl))
  from_bytes-leafy SymbolTypeTree.uint offset h =
      accessible-leafy bytes offset (number 2 SymbolTree.uint)
        (number-Leafs 2 SymbolTree.uint (λ n. refl))
  from_bytes-leafy SymbolTypeTree.udint offset h =
      accessible-leafy bytes offset (number 4 SymbolTree.udint)
        (number-Leafs 4 SymbolTree.udint (λ n. refl))
  from_bytes-leafy SymbolTypeTree.lint offset h =
      accessible-leafy bytes offset (number 8 SymbolTree.lint)
        (number-Leafs 8 SymbolTree.lint (λ n. refl))
  from_bytes-leafy SymbolTypeTree.ulint offset h =
      accessible-leafy bytes offset (number 8 SymbolTree.ulint)
        (number-Leafs 8 SymbolTree.ulint (λ n. refl))
  from_bytes-leafy (SymbolTypeTree.compound size) offset h =
      accessible-leafy bytes offset (λ rest. ok SymbolTree.malformed) (λ rest. refl)
  from_bytes-leafy (SymbolTypeTree.unknown size) offset h =
      accessible-leafy bytes offset (λ rest. ok SymbolTree.unknown) (λ rest. refl)
  from_bytes-leafy SymbolTypeTree.missing offset h =
      accessible-leafy bytes offset (λ rest. ok SymbolTree.missing) (λ rest. refl)
