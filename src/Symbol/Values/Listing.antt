-- ===== src/Symbol/Values/Listing.antt =====
-- What `SymbolTypeMap::from_tree` lists: parts of the tree, under their paths and at their places.
use openstar_ads.Common.{
  ℕ, ◌+◌, ◌%◌, ◌^◌, ◌<◌, ◌≡◌, refl, sym, subst, List, [], ◌∷◌, true, false, not, Option, none, some,
  All, arith, Bool-cases, inl, inr, replicate,
}
use openstar_ads.Error.{Result, ok, err, panic, ◌>>=◌}
use openstar_ads.Symbol.{Text}
use openstar_ads.Symbol.Tree.{SymbolTypeTree, Children, end, child, get_size}
use openstar_ads.Symbol.Tree.Flat.{
  SymbolTypeMap, PrimitiveSymbolDescriptor, from_tree, from_children, same_keys, timestruct_keys,
  time_offsets, time_entry, join_path, append, int_value, dint_value, real_value, lreal_value,
  sint_value, usint_value, uint_value, udint_value, lint_value, ulint_value, real80_value,
  bool_value, string_value, wstring_value, void_value, time_struct,
}
use openstar_ads.Symbol.Values.Ordered.{distinct, distinct_children, has_name, and-both, not-true}
use openstar_ads.Symbol.Values.Types.{Sized, SizedIn}
use openstar_ads.Symbol.Values.Places.{find_field}
use openstar_ads.Symbol.Values.Names.{same_text_refl, has_name-find_field, All-append_entries}
use openstar_ads.Symbol.Values.Listed.{Listed, whole, in_field}

-- Every entry of a listing that there is.
abbrev AllIn : (Text × PrimitiveSymbolDescriptor → Type 0) → Result SymbolTypeMap → Type 0
AllIn P (ok m) = All P m
AllIn P r = Unit {0}

All-mono :
    {A : Type 0} (P Q : A → Type 0) (xs : List A) → ((a : A) → P a → Q a) → All P xs → All Q xs
All-mono P Q [] f h = tt
All-mono P Q (x ∷ xs) f h = (f x h.0, All-mono P Q xs f h.1)

then-AllIn :
    (P Q : Text × PrimitiveSymbolDescriptor → Type 0) (r : Result SymbolTypeMap)
    (next : SymbolTypeMap → Result SymbolTypeMap)
    → AllIn P r
    → ((inner : SymbolTypeMap) → All P inner → AllIn Q (next inner))
    → AllIn Q (r >>= next)
then-AllIn P Q (ok inner) next h more = more inner h
then-AllIn P Q (err e) next h more = tt
then-AllIn P Q panic next h more = tt

-- The fields of `rest` are found among all of the structure's.
abbrev AllFound : Children → Children → Type 0
AllFound rest children =
    (n : Text) (f : SymbolTypeTree × Option ℕ)
    → find_field n rest ≡ some f
    → find_field n children ≡ some f

found_first :
    (n : Text) (t : SymbolTypeTree) (o : Option ℕ) (rest children : Children)
    → AllFound (child n t o rest) children
    → find_field n children ≡ some (t, o)
found_first n t o rest children found = found n (t, o) (rw (same_text_refl n) refl)

found_rest :
    (n : Text) (t : SymbolTypeTree) (o : Option ℕ) (rest children : Children)
    → has_name n rest ≡ false
    → AllFound (child n t o rest) children
    → AllFound rest children
found_rest n t o rest children fresh found name f e =
    found name f (rw (has_name-find_field name n rest f fresh e) e)

time-AllIn :
    (children : Children) (size offset : ℕ) (path : Text) (r : Option (List ℕ))
    → Sized (SymbolTypeTree.struct children size)
    → same_keys children timestruct_keys ≡ true
    → time_offsets children (replicate 8 0) ≡ r
    → All (Listed (SymbolTypeTree.struct children size) offset path) (time_entry path offset r)
time-AllIn children size offset path none sized keys e = tt
time-AllIn children size offset path (some offsets) sized keys e = (
  whole (SymbolTypeTree.struct children size) offset path (time_struct offsets) sized
      (keys, offsets, e, refl),
  tt,
)

mutual
  unfolding from_tree distinct get_size Sized

  from_tree-AllIn :
      (t : SymbolTypeTree) (offset : ℕ) (path : Text)
      → distinct t ≡ true
      → Sized t
      → offset + get_size t < 2 ^ 32
      → AllIn (Listed t offset path) (from_tree t offset path)
  from_tree-AllIn (SymbolTypeTree.struct children size) offset path d sized room =
      elim (Bool-cases (same_keys children timestruct_keys)) [
        | inl time ↦ rw time (
            time-AllIn children size offset path (time_offsets children (replicate 8 0)) sized time
              refl)
        | inr other ↦
            rw other (
              from_children-AllIn children children size offset path [] (λ n f e. e) d sized room
                tt)
      ]
  from_tree-AllIn (SymbolTypeTree.compound size) offset path d sized room = tt
  from_tree-AllIn SymbolTypeTree.missing offset path d sized room = tt
  from_tree-AllIn (SymbolTypeTree.array t size) offset path d sized room =
      (whole (SymbolTypeTree.array t size) offset path (void_value size) tt refl, tt)
  from_tree-AllIn (SymbolTypeTree.void size) offset path d sized room =
      (whole (SymbolTypeTree.void size) offset path (void_value size) tt refl, tt)
  from_tree-AllIn (SymbolTypeTree.unknown size) offset path d sized room =
      (whole (SymbolTypeTree.unknown size) offset path (void_value size) tt refl, tt)
  from_tree-AllIn (SymbolTypeTree.string size) offset path d sized room =
      (whole (SymbolTypeTree.string size) offset path (string_value size) tt refl, tt)
  from_tree-AllIn (SymbolTypeTree.wstring size) offset path d sized room =
      (whole (SymbolTypeTree.wstring size) offset path (wstring_value size) tt refl, tt)
  from_tree-AllIn SymbolTypeTree.int offset path d sized room =
      (whole SymbolTypeTree.int offset path int_value tt refl, tt)
  from_tree-AllIn SymbolTypeTree.dint offset path d sized room =
      (whole SymbolTypeTree.dint offset path dint_value tt refl, tt)
  from_tree-AllIn SymbolTypeTree.real offset path d sized room =
      (whole SymbolTypeTree.real offset path real_value tt refl, tt)
  from_tree-AllIn SymbolTypeTree.lreal offset path d sized room =
      (whole SymbolTypeTree.lreal offset path lreal_value tt refl, tt)
  from_tree-AllIn SymbolTypeTree.sint offset path d sized room =
      (whole SymbolTypeTree.sint offset path sint_value tt refl, tt)
  from_tree-AllIn SymbolTypeTree.usint offset path d sized room =
      (whole SymbolTypeTree.usint offset path usint_value tt refl, tt)
  from_tree-AllIn SymbolTypeTree.uint offset path d sized room =
      (whole SymbolTypeTree.uint offset path uint_value tt refl, tt)
  from_tree-AllIn SymbolTypeTree.udint offset path d sized room =
      (whole SymbolTypeTree.udint offset path udint_value tt refl, tt)
  from_tree-AllIn SymbolTypeTree.lint offset path d sized room =
      (whole SymbolTypeTree.lint offset path lint_value tt refl, tt)
  from_tree-AllIn SymbolTypeTree.ulint offset path d sized room =
      (whole SymbolTypeTree.ulint offset path ulint_value tt refl, tt)
  from_tree-AllIn SymbolTypeTree.real80 offset path d sized room =
      (whole SymbolTypeTree.real80 offset path real80_value tt refl, tt)
  from_tree-AllIn SymbolTypeTree.bool offset path d sized room =
      (whole SymbolTypeTree.bool offset path bool_value tt refl, tt)

  from_children-AllIn :
      (rest children : Children) (size offset : ℕ) (path : Text) (m : SymbolTypeMap)
      → AllFound rest children
      → distinct_children rest ≡ true
      → SizedIn rest size
      → offset + size < 2 ^ 32
      → All (Listed (SymbolTypeTree.struct children size) offset path) m
      → AllIn
          (Listed (SymbolTypeTree.struct children size) offset path)
          (from_children rest offset path m)
  from_children-AllIn end children size offset path m found d sized room h = h
  from_children-AllIn (child n t none rest) children size offset path m found d sized room h =
      let (fresh, more) = and-both (not (has_name n rest)) _ d in
      from_children-AllIn rest children size offset path m
        (found_rest n t none rest children (not-true _ fresh) found)
        (and-both (distinct t) _ more).1 sized room h
  from_children-AllIn (child n t (some o) rest) children size offset path m found d sized room h =
      let (fresh, more) = and-both (not (has_name n rest)) _ d in
      let (here, there) = and-both (distinct t) _ more in
      let (inside, part_sized, others) = sized in
      let whole_of = Listed (SymbolTypeTree.struct children size) offset path in
      let field_of = Listed t (offset + o) (join_path path n) in
      let no_wrap : (offset + o) % 2 ^ 32 ≡ offset + o = omega arith in
      then-AllIn field_of whole_of (from_tree t ((offset + o) % 2 ^ 32) (join_path path n)) _
        (subst (λ k. AllIn field_of (from_tree t k (join_path path n))) (sym no_wrap)
          (from_tree-AllIn t (offset + o) (join_path path n) here part_sized (omega arith)))
        λ inner hs.
          from_children-AllIn rest children size offset path (append m inner)
            (found_rest n t (some o) rest children (not-true _ fresh) found) there others room
            (All-append_entries whole_of m inner h (
              All-mono field_of whole_of inner
                (λ entry l.
                  in_field children size offset path n t o entry
                    (found_first n t (some o) rest children found) inside l)
                hs))

-- Every entry that `from_tree` lists stands for a part of the tree: under the names that lead to it,
-- at the sum of their offsets, and as its type.
pub from_tree-Listed :
    (t : SymbolTypeTree) (offset : ℕ) (path : Text) (m : SymbolTypeMap)
    → distinct t ≡ true
    → Sized t
    → offset + get_size t < 2 ^ 32
    → from_tree t offset path ≡ ok m
    → All (Listed t offset path) m
from_tree-Listed t offset path m d sized room e =
    subst (AllIn (Listed t offset path)) e (from_tree-AllIn t offset path d sized room)
