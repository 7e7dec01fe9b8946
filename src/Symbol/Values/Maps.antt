-- ===== src/Symbol/Values/Maps.antt =====
-- The map of values that `SymbolMap::from_bytes` reads has the values of the tree.
use openstar_ads.Common.{
  ℕ, ◌+◌, ◌^◌, ◌≤◌, ◌<◌, ◌≡◌, refl, sym, subst, List, [], ◌∷◌, Bool, true, ◌||◌, Option, length,
  All, arith,
}
use openstar_ads.Error.{Result, ok, err, panic}
use openstar_ads.Symbol.{Text, same_text}
use openstar_ads.Symbol.Fields.{sign_extend}
use openstar_ads.Symbol.Tree.{SymbolTypeTree, get_size, built, TypeMap, try_from_type_or_field}
use openstar_ads.Symbol.Tree.Kept.{try_from-good}
use openstar_ads.Symbol.Tree.Flat.{
  PrimitiveSymbolType, PrimitiveSymbolDescriptor, SymbolTypeMap, from_tree,
}
use openstar_ads.Symbol.Values.{SymbolTree, from_bytes, element, no_element, nonzero, walk_values}
use openstar_ads.Symbol.Values.Ordered.{distinct}
use openstar_ads.Symbol.Values.Types.{Sized}
use openstar_ads.Symbol.Values.Places.{At, locate}
use openstar_ads.Symbol.Values.Paths.{from_bytes-AtIn, AtIn}
use openstar_ads.Symbol.Values.Built.{distinct-Kept}
use openstar_ads.Symbol.Values.Names.{
  All-insert_primitive, has_path, has_path-insert_primitive, same_text_refl,
}
use openstar_ads.Symbol.Values.Listing.{from_tree-Listed}
use openstar_ads.Symbol.Values.Listed.{ListedAs, Listed, join_all}
use openstar_ads.Symbol.Values.Primitive.{
  PrimitiveValue, SymbolMap, f32_to_f64, read_as, read_from_bytes, read_entries, insert_primitive,
  truth,
}
use openstar_ads.Symbol.Values.Primitive
use openstar_ads.Symbol.Values.Agree.{
  Agrees, AgreesIn, Agree, reading, number-AgreesIn, raw-AgreesIn, wide-AgreesIn, real80-Agree,
  unknown-Agree,
}
use openstar_ads.Symbol.Values.Times.{time-Agree}

or_true : (a b : Bool) → b ≡ true → (a || b) ≡ true
or_true a b h = ground (arith, h)

module _ {Date : Type 0} (datetime : ℕ → ℕ → ℕ → ℕ → ℕ → ℕ → ℕ → Option Date) where
  -- The value of a path: the one of the tree at the names that the path spells.
  abbrev pub HasValue : SymbolTree → Text × PrimitiveValue Date → Type 0
  HasValue v (path, w) =
      (tokens : List Text) × (path ≡ join_all [] tokens) × Agrees datetime (walk_values tokens v) w

module _ {Date : Type 0} (datetime : ℕ → ℕ → ℕ → ℕ → ℕ → ℕ → ℕ → Option Date)
    (lossy : List ℕ → Text) (to_f64 : List ℕ → ℕ) (bytes : List ℕ) where
  -- The reading that a type is listed for.
  by_type :
      (t : SymbolTypeTree) (s : PrimitiveSymbolType) (place : ℕ)
      → ListedAs t s
      → Sized t
      → place + get_size t ≤ length bytes
      → Agree datetime lossy to_f64 bytes place t s
  unfolding from_bytes read_from_bytes read_as get_size Sized
  by_type (SymbolTypeTree.struct children size) s place (same, offsets, e, listed) sized room =
      subst (Agree datetime lossy to_f64 bytes place (SymbolTypeTree.struct children size))
        (sym listed)
        (time-Agree datetime lossy to_f64 bytes place children size offsets same e sized room)
  by_type SymbolTypeTree.int s place listed sized room =
      subst (Agree datetime lossy to_f64 bytes place SymbolTypeTree.int) (sym listed) (
        number-AgreesIn datetime bytes place 2 SymbolTree.int
          (λ n. PrimitiveValue.int (sign_extend 16 n)) (λ n. refl) room)
  by_type SymbolTypeTree.dint s place listed sized room =
      subst (Agree datetime lossy to_f64 bytes place SymbolTypeTree.dint) (sym listed) (
        number-AgreesIn datetime bytes place 4 SymbolTree.dint
          (λ n. PrimitiveValue.int (sign_extend 32 n)) (λ n. refl) room)
  by_type SymbolTypeTree.real s place listed sized room =
      subst (Agree datetime lossy to_f64 bytes place SymbolTypeTree.real) (sym listed) (
        number-AgreesIn datetime bytes place 4 SymbolTree.real
          (λ n. PrimitiveValue.float (f32_to_f64 n)) (λ n. refl) room)
  by_type SymbolTypeTree.lreal s place listed sized room =
      subst (Agree datetime lossy to_f64 bytes place SymbolTypeTree.lreal) (sym listed) (
        number-AgreesIn datetime bytes place 8 SymbolTree.lreal PrimitiveValue.float (λ n. refl)
          room)
  by_type SymbolTypeTree.sint s place listed sized room =
      subst (Agree datetime lossy to_f64 bytes place SymbolTypeTree.sint) (sym listed) (
        number-AgreesIn datetime bytes place 1 SymbolTree.sint
          (λ n. PrimitiveValue.int (sign_extend 8 n)) (λ n. refl) room)
  by_type SymbolTypeTree.usint s place listed sized room =
      subst (Agree datetime lossy to_f64 bytes place SymbolTypeTree.usint) (sym listed) (
        number-AgreesIn datetime bytes place 1 SymbolTree.usint PrimitiveValue.uint (λ n. refl)
          room)
  by_type SymbolTypeTree.uint s place listed sized room =
      subst (Agree datetime lossy to_f64 bytes place SymbolTypeTree.uint) (sym listed) (
        number-AgreesIn datetime bytes place 2 SymbolTree.uint PrimitiveValue.uint (λ n. refl) room)
  by_type SymbolTypeTree.udint s place listed sized room =
      subst (Agree datetime lossy to_f64 bytes place SymbolTypeTree.udint) (sym listed) (
        number-AgreesIn datetime bytes place 4 SymbolTree.udint PrimitiveValue.uint (λ n. refl)
          room)
  by_type SymbolTypeTree.lint s place listed sized room =
      subst (Agree datetime lossy to_f64 bytes place SymbolTypeTree.lint) (sym listed)
        (number-AgreesIn datetime bytes place 8 SymbolTree.lint PrimitiveValue.int (λ n. refl) room)
  by_type SymbolTypeTree.ulint s place listed sized room =
      subst (Agree datetime lossy to_f64 bytes place SymbolTypeTree.ulint) (sym listed) (
        number-AgreesIn datetime bytes place 8 SymbolTree.ulint PrimitiveValue.uint (λ n. refl)
          room)
  by_type SymbolTypeTree.bool s place listed sized room =
      subst (Agree datetime lossy to_f64 bytes place SymbolTypeTree.bool) (sym listed)
        (number-AgreesIn datetime bytes place 1 nonzero truth (λ n. refl) room)
  by_type SymbolTypeTree.real80 s place listed sized room =
      subst (Agree datetime lossy to_f64 bytes place SymbolTypeTree.real80) (sym listed)
        (real80-Agree datetime lossy to_f64 bytes place room)
  by_type (SymbolTypeTree.wstring size) s place listed sized room =
      subst (Agree datetime lossy to_f64 bytes place (SymbolTypeTree.wstring size)) (sym listed)
        (wide-AgreesIn datetime bytes place size room)
  by_type (SymbolTypeTree.unknown size) s place listed sized room =
      subst (Agree datetime lossy to_f64 bytes place (SymbolTypeTree.unknown size)) (sym listed)
        (unknown-Agree datetime lossy to_f64 bytes place size room)
  by_type (SymbolTypeTree.string size) s place listed sized room =
      subst (Agree datetime lossy to_f64 bytes place (SymbolTypeTree.string size)) (sym listed) (
        raw-AgreesIn datetime bytes place size (λ raw. SymbolTree.string (lossy raw))
          (λ raw. PrimitiveValue.string (lossy raw)) (λ raw. refl) room)
  by_type (SymbolTypeTree.void size) s place listed sized room =
      subst (Agree datetime lossy to_f64 bytes place (SymbolTypeTree.void size)) (sym listed) (
        raw-AgreesIn datetime bytes place size SymbolTree.void PrimitiveValue.void (λ raw. refl)
          room)
  by_type (SymbolTypeTree.array t size) s place listed sized room =
      subst (Agree datetime lossy to_f64 bytes place (SymbolTypeTree.array t size)) (sym listed) (
        raw-AgreesIn datetime bytes place size
          (λ raw. SymbolTree.array (element (SymbolTree.void raw) no_element)) PrimitiveValue.void
          (λ raw. refl) room)
  by_type (SymbolTypeTree.compound size) s place listed sized room = cc
  by_type SymbolTypeTree.missing s place listed sized room = cc

  split_ok :
      (x : SymbolTree) (r : Result (PrimitiveValue Date))
      → AgreesIn datetime (ok x) r
      → (w : PrimitiveValue Date) × (r ≡ ok w) × Agrees datetime x w
  split_ok x (ok w) h = (w, refl, h)
  split_ok x (err e) h = cc
  split_ok x panic h = cc

  -- An entry is read as the tree has it.
  entry_reads :
      (t : SymbolTypeTree) (offset : ℕ) (path : Text) (v : SymbolTree)
      (entry : Text × PrimitiveSymbolDescriptor)
      → distinct t ≡ true
      → from_bytes lossy to_f64 bytes t offset ≡ ok v
      → offset + get_size t ≤ length bytes
      → (l : Listed t offset path entry)
      → (w : PrimitiveValue Date) × (read_from_bytes lossy to_f64 datetime entry.1 bytes ≡ ok w)
        × Agrees datetime (walk_values l.tokens v) w
  entry_reads t offset path v entry d e room l =
      let x = walk_values l.tokens v in
      let s = entry.1.symbol_type in
      let there : At lossy to_f64 bytes (locate l.tokens t offset) x =
        subst (AtIn lossy to_f64 bytes (locate l.tokens t offset) l.tokens) e
          (from_bytes-AtIn lossy to_f64 bytes l.tokens t offset d) in
      let part : from_bytes lossy to_f64 bytes l.part l.place ≡ ok x =
        subst (λ p. At lossy to_f64 bytes p x) l.located there in
      let read : AgreesIn datetime (ok x) (reading datetime lossy to_f64 bytes l.place s) =
        subst (λ r. AgreesIn datetime r (reading datetime lossy to_f64 bytes l.place s)) part
          (by_type l.part s l.place l.listed_as l.part_sized (omega (arith, l.within))) in
      split_ok x (read_from_bytes lossy to_f64 datetime entry.1 bytes) (
        subst (λ o. AgreesIn datetime (ok x) (reading datetime lossy to_f64 bytes o s))
          (sym l.at_place) read)

  -- What is known of each entry before the loop reads it.
  abbrev Readable : SymbolTree → Text × PrimitiveSymbolDescriptor → Type 0
  Readable v entry =
      (w : PrimitiveValue Date) × (read_from_bytes lossy to_f64 datetime entry.1 bytes ≡ ok w)
      × HasValue datetime v (entry.0, w)

  entries_read :
      (v : SymbolTree) (m : SymbolTypeMap) (map : SymbolMap Date)
      → All (Readable v) m
      → All (HasValue datetime v) map
      → (result : SymbolMap Date) × (read_entries lossy to_f64 datetime bytes m map ≡ ok result)
        × All (HasValue datetime v) result
        × ((path : Text) → has_path path map ≡ true → has_path path result ≡ true)
        × All (λ entry. has_path entry.0 result ≡ true) m
  unfolding read_entries
  entries_read v [] map hs known = (map, refl, known, (λ path h. h), tt)
  entries_read v ((p, d) ∷ m) map ((w, e, value_of), hs) known =
      let (result, r, all_known, kept, each) =
        entries_read v m (insert_primitive p w map) hs
          (All-insert_primitive (HasValue datetime v) p w map value_of known) in
      (
        result,
        rw e r,
        all_known,
        (λ path h. kept path (
            has_path-insert_primitive path p w map
              (or_true (same_text p path) (has_path path map) h))),
        (kept p (has_path-insert_primitive p p w map (rw (same_text_refl p) refl)), each),
      )

  entries-Readable :
      (t : SymbolTypeTree) (v : SymbolTree) (m : SymbolTypeMap)
      → distinct t ≡ true
      → from_bytes lossy to_f64 bytes t 0 ≡ ok v
      → get_size t ≤ length bytes
      → All (Listed t 0 []) m
      → All (Readable v) m
  entries-Readable t v [] d e room hs = tt
  entries-Readable t v (entry ∷ m) d e room (l, hs) =
      let (w, read, agrees) = entry_reads t 0 [] v entry d e (omega arith) l in
      ((w, read, (l.tokens, l.spelled, agrees)), entries-Readable t v m d e room hs)

  -- A type tree that was built from a type map, whose fields lie within their structures, bytes that
  -- reach over it and are fewer than `2 ^ 32`, and the values `v` that the tree of values has of them:
  -- the map of values is read from what `from_tree` lists, without a panic. It has a value under each
  -- path that is listed, and each of its values is that of `v` at the names that its path spells: the
  -- same number, text, truth value or bytes, and for a time structure the date in it.
  pub from_bytes-from_tree :
      (types : TypeMap) (fuel base_type size : ℕ) (name : Text) (t : SymbolTypeTree)
      (m : SymbolTypeMap) (v : SymbolTree)
      → try_from_type_or_field types fuel base_type size name ≡ built t
      → Sized t
      → get_size t ≤ length bytes
      → length bytes < 2 ^ 32
      → from_tree t 0 [] ≡ ok m
      → from_bytes lossy to_f64 bytes t 0 ≡ ok v
      → (result : SymbolMap Date) × (Primitive.from_bytes lossy to_f64 datetime bytes m ≡ ok result)
        × All (HasValue datetime v) result
        × All (λ entry. has_path entry.0 result ≡ true) m
  unfolding Primitive.from_bytes
  from_bytes-from_tree types fuel base_type size name t m v made sized room short listing e =
      let d = try_from-good distinct-Kept types fuel base_type size name t made in
      let readable =
        entries-Readable t v m d e room (from_tree-Listed t 0 [] m d sized (omega arith) listing) in
      let (result, r, known, kept, each) = entries_read v m [] readable tt in
      (result, r, known, each)
