-- ===== src/Symbol/Tree/Built.antt =====
-- The trees that `try_from_type_or_field` builds: they are built, and they can be listed.
use openstar_ads.Common.{
  ℕ, ◌+◌, ◌%◌, ◌^◌, ◌≡◌, ◌≢◌, ◌⊎◌, inl, inr, refl, [], Bool, true, false, ◌&&◌, Option, none, some,
  arith, Bool-cases,
}
use openstar_ads.Error.{panic, Result-cases}
use openstar_ads.Symbol.{Text, same_text}
use openstar_ads.Symbol.Tree.{
  SymbolTypeTree, Children, struct, array, void, string, wstring, compound, unknown, int, dint,
  real, lreal, sint, usint, uint, udint, lint, ulint, real80, bool, missing, end, child, built,
  from_type_id, insert_child, TypeMap, try_from_type_or_field,
}
use openstar_ads.Symbol.Tree.Kept.{Kept, try_from-good}
use openstar_ads.Symbol.Tree.Flat.{
  from_tree, from_children, same_keys, timestruct_keys, join_path, append, SymbolTypeMap,
}

-- No part of the tree is a compound type that was not looked up.
unfoldable mutual
  pub clean : SymbolTypeTree → Bool
  clean (compound n) = false
  clean (struct children n) = clean_children children
  clean t = true

  pub clean_children : Children → Bool
  clean_children end = true
  clean_children (child n t o rest) = clean t && clean_children rest

and-both : (a b : Bool) → (a && b) ≡ true → (a ≡ true) × (b ≡ true)
and-both a b e = ground arith

mutual
  unfolding from_tree clean

  from_tree-clean :
      (t : SymbolTypeTree) (offset : ℕ) (path : Text)
      → clean t ≡ true
      → from_tree t offset path ≢ panic
  from_tree-clean (struct children n) offset path e =
      elim (Bool-cases (same_keys children timestruct_keys)) [
        | inl yes_time ↦ rw yes_time (λ p. cc)
        | inr no_time ↦ rw no_time (from_children-clean children offset path [] e)
      ]
  from_tree-clean (compound n) offset path e = cc
  from_tree-clean missing offset path e = λ p. cc
  from_tree-clean int offset path e = λ p. cc
  from_tree-clean dint offset path e = λ p. cc
  from_tree-clean real offset path e = λ p. cc
  from_tree-clean lreal offset path e = λ p. cc
  from_tree-clean sint offset path e = λ p. cc
  from_tree-clean usint offset path e = λ p. cc
  from_tree-clean uint offset path e = λ p. cc
  from_tree-clean udint offset path e = λ p. cc
  from_tree-clean lint offset path e = λ p. cc
  from_tree-clean ulint offset path e = λ p. cc
  from_tree-clean (string n) offset path e = λ p. cc
  from_tree-clean (wstring n) offset path e = λ p. cc
  from_tree-clean real80 offset path e = λ p. cc
  from_tree-clean bool offset path e = λ p. cc
  from_tree-clean (array t n) offset path e = λ p. cc
  from_tree-clean (void n) offset path e = λ p. cc
  from_tree-clean (unknown n) offset path e = λ p. cc

  from_children-clean :
      (children : Children) (offset : ℕ) (path : Text) (m : SymbolTypeMap)
      → clean_children children ≡ true
      → from_children children offset path m ≢ panic
  from_children-clean end offset path m e = λ p. cc
  from_children-clean (child n t none rest) offset path m e =
      from_children-clean rest offset path m (and-both _ _ e).1
  from_children-clean (child n t (some o) rest) offset path m e =
      elim (Result-cases (from_tree t ((offset + o) % 2 ^ 32) (join_path path n))) [
        | inl (inner, r) ↦
            rw r (from_children-clean rest offset path (append m inner) (and-both _ _ e).1)
        | inr (inl (x, r)) ↦ rw r (λ p. cc)
        | inr (inr r) ↦
            absurd
              (from_tree-clean t ((offset + o) % 2 ^ 32) (join_path path n) (and-both _ _ e).0 r)
      ]

insert_child-clean :
    (name : Text) (t : SymbolTypeTree) (o : Option ℕ) (c : Children)
    → clean t ≡ true
    → clean_children c ≡ true
    → clean_children (insert_child name t o c) ≡ true
unfolding insert_child clean
insert_child-clean name t o end ht hc = rw ht refl
insert_child-clean name t o (child n u p rest) ht hc =
    let (hu, hr) = and-both (clean u) (clean_children rest) hc in
    elim (Bool-cases (same_text n name)) [
      | inl same ↦ rw (same, ht, hr) refl
      | inr other ↦ rw (other, hu, insert_child-clean name t o rest ht hr) refl
    ]

pub from_type_id-cases :
    (id size : ℕ)
    → (clean (from_type_id id size) ≡ true) ⊎ ((id ≡ 65) × (from_type_id id size ≡ compound size))
unfolding from_type_id clean
from_type_id-cases id size = ground arith

clean-Kept : Kept clean clean_children
unfolding clean
clean-Kept = record {
  unknown_good = λ size. refl;
  bytes_good = λ size. refl;
  struct_good = λ c size h. h;
  end_good = refl;
  insert_good = insert_child-clean;
  flat_good = from_type_id-cases;
}

-- A tree that was built from a type map can be listed at any offset and under any path: no compound
-- type is left in it, on which `from_tree` would panic.
pub from_tree-ne-panic :
    (types : TypeMap) (fuel base_type size offset : ℕ) (name path : Text) (t : SymbolTypeTree)
    → try_from_type_or_field types fuel base_type size name ≡ built t
    → from_tree t offset path ≢ panic
from_tree-ne-panic types fuel base_type size offset name path t e =
    from_tree-clean t offset path (try_from-good clean-Kept types fuel base_type size name t e)
