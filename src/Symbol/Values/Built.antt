-- ===== src/Symbol/Values/Built.antt =====
-- The values of a tree that was built from a type map: their types, and what stands at a path.
use openstar_ads.Common.{
  ℕ, ◌+◌, ◌≤◌, ◌≡◌, refl, inl, inr, List, true, false, not, Option, length, All, arith, Bool-cases,
}
use openstar_ads.Error.{ok}
use openstar_ads.Wire.{IsByte}
use openstar_ads.NetId.Split.{split}
use openstar_ads.Symbol.{Text, same_text}
use openstar_ads.Symbol.Tree.{
  SymbolTypeTree, Children, end, child, insert_child, built, TypeMap, try_from_type_or_field,
  get_size, from_type_id,
}
use openstar_ads.Symbol.Tree.Kept.{Kept, try_from-good}
use openstar_ads.Symbol.Values.{SymbolTree, from_bytes, get_child}
use openstar_ads.Symbol.Values.Ordered.{distinct, distinct_children, has_name, and-both}
use openstar_ads.Symbol.Values.Types.{Sized, HasType}
use openstar_ads.Symbol.Values.Typed.{from_bytes-Reads}
use openstar_ads.Symbol.Values.Places.{locate, At}
use openstar_ads.Symbol.Values.Paths.{get_child-locate}

has_name-insert_child :
    (n name : Text) (t : SymbolTypeTree) (o : Option ℕ) (c : Children)
    → same_text n name ≡ false
    → has_name n (insert_child name t o c) ≡ has_name n c
unfolding insert_child
has_name-insert_child n name t o end h = rw h refl
has_name-insert_child n name t o (child k u p rest) h = elim (Bool-cases (same_text k name)) [
  | inl same ↦ rw same refl
  | inr other ↦ rw (other, has_name-insert_child n name t o rest h) refl
]

insert_child-distinct :
    (name : Text) (t : SymbolTypeTree) (o : Option ℕ) (c : Children)
    → distinct t ≡ true
    → distinct_children c ≡ true
    → distinct_children (insert_child name t o c) ≡ true
unfolding insert_child distinct
insert_child-distinct name t o end ht hc = rw ht refl
insert_child-distinct name t o (child n u p rest) ht hc =
    let (fresh, more) = and-both (not (has_name n rest)) _ hc in
    let (hu, hr) = and-both (distinct u) _ more in
    elim (Bool-cases (same_text n name)) [
      | inl same ↦ rw (same, fresh, ht, hr) refl
      | inr other ↦
          rw
            (
              other,
              has_name-insert_child n name t o rest other,
              fresh,
              hu,
              insert_child-distinct name t o rest ht hr,
            )
            refl
    ]

distinct-from_type_id : (id size : ℕ) → distinct (from_type_id id size) ≡ true
unfolding distinct from_type_id
distinct-from_type_id id size = ground arith

pub distinct-Kept : Kept distinct distinct_children
unfolding distinct
distinct-Kept = record {
  unknown_good = λ size. refl;
  bytes_good = λ size. refl;
  struct_good = λ c size h. h;
  end_good = refl;
  insert_good = insert_child-distinct;
  flat_good = λ id size. inl (distinct-from_type_id id size);
}

module _ (lossy : List ℕ → Text) (to_f64 : List ℕ → ℕ) (types : TypeMap) (fuel base_type size : ℕ)
    (name : Text) (t : SymbolTypeTree)
    (from_types : try_from_type_or_field types fuel base_type size name ≡ built t) where
  -- Values that are read by a tree that was built from a type map, at any path: where the type tree
  -- has a part at the path, with an offset for each field on the way, `get_child` gives what is read
  -- as that part at the sum of the offsets; at any other path it gives `Missing`.
  pub get_child-from_bytes :
      (bytes : List ℕ) (offset : ℕ) (v : SymbolTree) (path : Text)
      → from_bytes lossy to_f64 bytes t offset ≡ ok v
      → At lossy to_f64 bytes (locate (split b'.' path) t offset) (get_child v path)
  get_child-from_bytes bytes offset v path e =
      get_child-locate lossy to_f64 bytes t offset v path
        (try_from-good distinct-Kept types fuel base_type size name t from_types) e

  -- Bytes that reach from the offset over the size of the tree, where each field lies within its
  -- structure: the reading does not panic, and gives values of the tree's types. Each number is there
  -- and in the range of its type, each array and each raw value has all of its bytes, and each
  -- structure its fields in their order; only a field without an offset is missing, and only a wide
  -- string of an odd size and a compound type are malformed.
  pub from_bytes-HasType :
      (bytes : List ℕ) (offset : ℕ)
      → Sized t
      → offset + get_size t ≤ length bytes
      → All IsByte bytes
      → (v : SymbolTree) × (from_bytes lossy to_f64 bytes t offset ≡ ok v) × HasType t v
  from_bytes-HasType bytes offset sized room small =
      from_bytes-Reads lossy to_f64 bytes small t offset
        (try_from-good distinct-Kept types fuel base_type size name t from_types) sized room
