-- ===== src/Symbol/Values/Names.antt =====
-- Equality of texts, and what the insertion under a name does to the entries of a map.
use openstar_ads.Common.{
  ℕ, ◌≡◌, refl, sym, subst, [], ◌∷◌, Bool, true, false, ◌==◌, ◌||◌, Option, some, All, arith,
  Bool-cases, inl, inr, ==_iff, ==_refl,
}
use openstar_ads.Symbol.{Text, same_text}
use openstar_ads.Symbol.Tree.{SymbolTypeTree, Children, end, child}
use openstar_ads.Symbol.Tree.Flat.{SymbolTypeMap, PrimitiveSymbolDescriptor, insert_entry, append}
use openstar_ads.Symbol.Values.Ordered.{has_name, and-both}
use openstar_ads.Symbol.Values.Places.{find_field}
use openstar_ads.Symbol.Values.Primitive.{PrimitiveValue, SymbolMap, insert_primitive}

pub same_text_refl : (a : Text) → same_text a a ≡ true
same_text_refl [] = refl
same_text_refl (x ∷ xs) = rw (==_refl x) (same_text_refl xs)

pub same_text-eq : (a b : Text) → same_text a b ≡ true → a ≡ b
same_text-eq [] [] e = refl
same_text-eq [] (y ∷ ys) e = cc
same_text-eq (x ∷ xs) [] e = cc
same_text-eq (x ∷ xs) (y ∷ ys) e =
    let (head, tail) = and-both (x == y) (same_text xs ys) e in
    rw ((==_iff x y).0 head, same_text-eq xs ys tail) refl

-- A field that is found has a name that is there.
pub has_name-find_field :
    (name n : Text) (children : Children) (f : SymbolTypeTree × Option ℕ)
    → has_name n children ≡ false
    → find_field name children ≡ some f
    → same_text n name ≡ false
has_name-find_field name n end f h e = cc
has_name-find_field name n (child k t o rest) f h e = elim (Bool-cases (same_text k name)) [
  | inl same ↦ elim (Bool-cases (same_text n name)) [
    | inl both ↦
        let names : n ≡ k =
          subst (λ x. n ≡ x) (sym (same_text-eq k name same)) (same_text-eq n name both) in
        absurd (ground (arith, h, subst (λ x. same_text n x ≡ true) names (same_text_refl n)))
    | inr other ↦ other
  ]
  | inr other ↦ has_name-find_field name n rest f (ground (arith, h)) (rw other at e)
]

module _ {ℓ} (P : Text × PrimitiveSymbolDescriptor → Type ℓ) where
  All-insert_entry :
      (path : Text) (d : PrimitiveSymbolDescriptor) (m : SymbolTypeMap)
      → P (path, d)
      → All P m
      → All P (insert_entry path d m)
  unfolding insert_entry
  All-insert_entry path d [] h hs = (h, tt)
  All-insert_entry path d ((p, e) ∷ m) h (here, there) = elim (Bool-cases (same_text p path)) [
    | inl same ↦ rw same (subst (λ q. P (q, d)) (sym (same_text-eq p path same)) h, there)
    | inr other ↦ rw other (here, All-insert_entry path d m h there)
  ]

  pub All-append_entries :
      (m other : SymbolTypeMap) → All P m → All P other → All P (append m other)
  unfolding append
  All-append_entries m [] hm ho = hm
  All-append_entries m ((p, d) ∷ other) hm ho =
      All-append_entries (insert_entry p d m) other (All-insert_entry p d m ho.0 hm) ho.1

module _ {ℓ} {Date : Type 0} (P : Text × PrimitiveValue Date → Type ℓ) where
  pub All-insert_primitive :
      (path : Text) (v : PrimitiveValue Date) (m : SymbolMap Date)
      → P (path, v)
      → All P m
      → All P (insert_primitive path v m)
  unfolding insert_primitive
  All-insert_primitive path v [] h hs = (h, tt)
  All-insert_primitive path v ((p, w) ∷ m) h (here, there) = elim (Bool-cases (same_text p path)) [
    | inl same ↦ rw same (subst (λ q. P (q, v)) (sym (same_text-eq p path same)) h, there)
    | inr other ↦ rw other (here, All-insert_primitive path v m h there)
  ]

abbrev pub has_path : {Date : Type 0} → Text → SymbolMap Date → Bool
has_path path [] = false
has_path path ((p, v) ∷ m) = same_text p path || has_path path m

pub has_path-insert_primitive :
    {Date : Type 0} (path p : Text) (v : PrimitiveValue Date) (m : SymbolMap Date)
    → (same_text p path || has_path path m) ≡ true
    → has_path path (insert_primitive p v m) ≡ true
unfolding insert_primitive
has_path-insert_primitive path p v [] h = h
has_path-insert_primitive path p v ((q, w) ∷ m) h = elim (Bool-cases (same_text q p)) [
  | inl same ↦
      let merged : (same_text q path || (same_text q path || has_path path m)) ≡ true =
        subst (λ x. (same_text x path || (same_text q path || has_path path m)) ≡ true)
          (sym (same_text-eq q p same)) h in
      rw same (ground (arith, merged))
  | inr other ↦ rw other (ground (arith, h, has_path-insert_primitive path p v m))
]
