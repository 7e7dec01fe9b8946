-- ===== src/Symbol/Tree/Kept.antt =====
-- What holds of every tree that `try_from_type_or_field` builds, as soon as it holds of its parts.
use openstar_ads.Common.{
  ℕ, zero, suc, ◌≡◌, ◌⊎◌, inl, inr, refl, subst, List, [], ◌∷◌, Bool, true, Option, none, some,
}
use openstar_ads.Symbol.{Text, Field, PlcType, get_type}
use openstar_ads.Symbol.Tree.{
  SymbolTypeTree, Children, struct, array, compound, unknown, usint, missing, end, Outcome, built,
  missing_symbol_type_info, exhausted, Gathered, gathered, ran_out, from_type_id, insert_child,
  or_unknown, TypeMap, add_child, complete, add_children, with_fields, look_up, fill,
  try_from_type_or_field,
}

-- A test of trees that the steps of the construction keep.
pub record Kept (good : SymbolTypeTree → Bool) (good_children : Children → Bool) : Type 0 where
  pub unknown_good : (size : ℕ) → good (unknown size) ≡ true
  pub bytes_good : (size : ℕ) → good (array usint size) ≡ true
  pub struct_good : (c : Children) (size : ℕ) → good_children c ≡ true → good (struct c size) ≡ true
  pub end_good : good_children end ≡ true
  pub insert_good :
      (name : Text) (t : SymbolTypeTree) (o : Option ℕ) (c : Children)
      → good t ≡ true
      → good_children c ≡ true
      → good_children (insert_child name t o c) ≡ true
  pub flat_good :
      (id size : ℕ)
      → (good (from_type_id id size) ≡ true) ⊎ ((id ≡ 65) × (from_type_id id size ≡ compound size))

-- The tree of an outcome, and the children that were gathered.
abbrev tree_of : Outcome → SymbolTypeTree
tree_of (built t) = t
tree_of (missing_symbol_type_info name) = missing
tree_of exhausted = missing

abbrev kids_of : Gathered → Children
kids_of (gathered c) = c
kids_of ran_out = end

module _ {good : SymbolTypeTree → Bool} {good_children : Children → Bool}
    (kept : Kept good good_children) where
  open kept use {unknown_good, bytes_good, struct_good, end_good, insert_good, flat_good}

  -- A way to build trees that are all good.
  abbrev BuildsGood : (ℕ → ℕ → Text → Outcome) → Type 0
  BuildsGood recur =
      (base_type size : ℕ) (name : Text) (t : SymbolTypeTree)
      → recur base_type size name ≡ built t
      → good t ≡ true

  or_unknown-good :
      (size : ℕ) (o : Outcome) (t : SymbolTypeTree)
      → ((u : SymbolTypeTree) → o ≡ built u → good u ≡ true)
      → or_unknown size o ≡ built t
      → good t ≡ true
  or_unknown-good size (built u) t h e = h t e
  or_unknown-good size (missing_symbol_type_info name) t h e =
      subst (λ o. good (tree_of o) ≡ true) e (unknown_good size)
  or_unknown-good size exhausted t h e = cc

  add_child-good :
      (f : Field) (children kids : Children) (next : Children → Gathered) (o : Outcome)
      → ((t : SymbolTypeTree) → o ≡ built t → good t ≡ true)
      → good_children children ≡ true
      → ((c : Children)
          → good_children c ≡ true
          → next c ≡ gathered kids
          → good_children kids ≡ true)
      → add_child f children next o ≡ gathered kids
      → good_children kids ≡ true
  unfolding add_child
  add_child-good f children kids next (built t) ht h more e =
      more (insert_child f.name t f.offset children)
        (insert_good f.name t f.offset children (ht t refl) h) e
  add_child-good f children kids next (missing_symbol_type_info name) ht h more e = cc
  add_child-good f children kids next exhausted ht h more e = cc

  module _ (recur : ℕ → ℕ → Text → Outcome) (goods : BuildsGood recur) where
    add_children-good :
        (fs : List Field) (children kids : Children)
        → good_children children ≡ true
        → add_children recur fs children ≡ gathered kids
        → good_children kids ≡ true
    unfolding add_children
    add_children-good [] children kids h e = subst (λ g. good_children (kids_of g) ≡ true) e h
    add_children-good (f ∷ fs) children kids h e =
        add_child-good f children kids (add_children recur fs)
          (or_unknown f.size (recur f.base_type f.size f.typ))
          (λ t q.
            or_unknown-good f.size (recur f.base_type f.size f.typ) t
              (goods f.base_type f.size f.typ) q)
          h (λ c hc q. add_children-good fs c kids hc q) e

    complete-good :
        (size : ℕ) (g : Gathered) (t : SymbolTypeTree)
        → ((c : Children) → g ≡ gathered c → good_children c ≡ true)
        → complete size g ≡ built t
        → good t ≡ true
    complete-good size (gathered c) t h e =
        subst (λ o. good (tree_of o) ≡ true) e (struct_good c size (h c refl))
    complete-good size ran_out t h e = cc

    with_fields-good :
        (p : PlcType) (size : ℕ) (fs : List Field) (t : SymbolTypeTree)
        → with_fields recur p size fs ≡ built t
        → good t ≡ true
    unfolding with_fields
    with_fields-good p size [] t e = subst (λ o. good (tree_of o) ≡ true) e (bytes_good size)
    with_fields-good p size (f ∷ fs) t e =
        complete-good p.size (add_children recur (f ∷ fs) end) t
          (λ c q. add_children-good (f ∷ fs) end c end_good q) e

    look_up-good :
        (name : Text) (size : ℕ) (o : Option PlcType) (t : SymbolTypeTree)
        → look_up recur name size o ≡ built t
        → good t ≡ true
    unfolding look_up
    look_up-good name size none t e = cc
    look_up-good name size (some p) t e = with_fields-good p size p.fields t e

    fill-good :
        (types : TypeMap) (name : Text) (size : ℕ) (u t : SymbolTypeTree)
        → (good u ≡ true) ⊎ ((n : ℕ) × (u ≡ compound n))
        → fill recur types name size u ≡ built t
        → good t ≡ true
    unfolding fill
    fill-good types name size (compound n) t h e = look_up-good name size (get_type name types) t e
    fill-good types name size _ t (inl h) e = subst (λ o. good (tree_of o) ≡ true) e h
    fill-good types name size _ t (inr (m, h)) e = cc

  pub try_from-good : (types : TypeMap) (fuel : ℕ) → BuildsGood (try_from_type_or_field types fuel)
  unfolding try_from_type_or_field
  try_from-good types zero base_type size name t e = cc
  try_from-good types (suc fuel) base_type size name t e =
      fill-good (try_from_type_or_field types fuel) (try_from-good types fuel) types name size
        (from_type_id base_type size) t
        (elim (flat_good base_type size) [ inl h ↦ inl h | inr (_, h) ↦ inr (size, h) ]) e
