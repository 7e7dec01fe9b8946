-- ===== src/Symbol/Tree/Depth.antt =====
-- How deep `try_from_type_or_field` calls itself: as deep as the types are nested, and without end on
-- a type that has itself as a field.
use openstar_ads.Common.{
  ℕ, zero, suc, ◌<◌, ◌≡◌, ◌≢◌, inl, inr, refl, ap, List, [], ◌∷◌, ◌++◌, true, some, ◌==◌, All,
  arith, Bool-cases, Option-cases, ==_iff,
}
use openstar_ads.Symbol.{Text, Field, PlcType, get_type}
use openstar_ads.Symbol.Tree.{
  SymbolTypeTree, Children, compound, end, Outcome, built, missing_symbol_type_info, exhausted,
  Gathered, gathered, ran_out, from_type_id, or_unknown, TypeMap, add_child, complete, add_children,
  with_fields, look_up, fill, try_from_type_or_field,
}
use openstar_ads.Symbol.Tree.Built.{clean, from_type_id-cases}

-- A rank of the type names that falls from a structure to each compound type among its fields.
abbrev pub Ranked : TypeMap → (Text → ℕ) → Type 0
Ranked types rank =
    (name : Text) (t : PlcType)
    → get_type name types ≡ some t
    → All (λ f. f.base_type ≡ 65 → rank f.typ < rank name) t.fields

add_child-done :
    (f : Field) (children : Children) (next : Children → Gathered) (size : ℕ) (o : Outcome)
    → o ≢ exhausted
    → ((c : Children) → next c ≢ ran_out)
    → add_child f children next (or_unknown size o) ≢ ran_out
unfolding add_child
add_child-done f children next size (built t) h more = more _
add_child-done f children next size (missing_symbol_type_info name) h more = more _
add_child-done f children next size exhausted h more = absurd (h refl)

module _ (recur : ℕ → ℕ → Text → Outcome) where
  add_children-done :
      (fs : List Field) (children : Children)
      → All (λ f. recur f.base_type f.size f.typ ≢ exhausted) fs
      → add_children recur fs children ≢ ran_out
  unfolding add_children
  add_children-done [] children h = λ p. cc
  add_children-done (f ∷ fs) children h =
      add_child-done f children (add_children recur fs) f.size (recur f.base_type f.size f.typ) h.0
        (λ c. add_children-done fs c h.1)

  complete-done : (size : ℕ) (g : Gathered) → g ≢ ran_out → complete size g ≢ exhausted
  complete-done size (gathered c) h = λ p. cc
  complete-done size ran_out h = absurd (h refl)

  with_fields-done :
      (t : PlcType) (size : ℕ) (fs : List Field)
      → All (λ f. recur f.base_type f.size f.typ ≢ exhausted) fs
      → with_fields recur t size fs ≢ exhausted
  unfolding with_fields
  with_fields-done t size [] h = λ p. cc
  with_fields-done t size (f ∷ fs) h =
      complete-done t.size (add_children recur (f ∷ fs) end) (add_children-done (f ∷ fs) end h)

  fill-other :
      (types : TypeMap) (name : Text) (size : ℕ) (u : SymbolTypeTree)
      → clean u ≡ true
      → fill recur types name size u ≡ built u
  unfolding fill clean
  fill-other types name size (compound n) h = cc
  fill-other types name size _ h = refl

-- A type that is no compound one needs a single call.
try_from-flat :
    (types : TypeMap) (fuel base_type size : ℕ) (name : Text)
    → base_type ≢ 65
    → try_from_type_or_field types (suc fuel) base_type size name ≢ exhausted
unfolding try_from_type_or_field
try_from-flat types fuel base_type size name other = elim (from_type_id-cases base_type size) [
  | inl h ↦
      rw
        (fill-other (try_from_type_or_field types fuel) types name size
          (from_type_id base_type size) h)
        (λ p. cc)
  | inr (same, _) ↦ absurd (other same)
]

module _ (types : TypeMap) (rank : Text → ℕ) where
  field-done :
      (fuel : ℕ) (n : ℕ) (f : Field)
      → ((base_type size : ℕ) (name : Text)
          → suc (rank name) < fuel
          → try_from_type_or_field types fuel base_type size name ≢ exhausted)
      → n < fuel
      → (f.base_type ≡ 65 → rank f.typ < n)
      → try_from_type_or_field types fuel f.base_type f.size f.typ ≢ exhausted
  field-done zero n f ih h below = absurd (omega arith)
  field-done (suc fuel) n f ih h below = elim (Bool-cases (f.base_type == 65)) [
    | inl same ↦ ih f.base_type f.size f.typ (omega (arith, below ((==_iff f.base_type 65).0 same)))
    | inr other ↦
        try_from-flat types fuel f.base_type f.size f.typ
          (λ e. cc ((==_iff f.base_type 65).1 e, other))
  ]

  fields-done :
      (fuel : ℕ) (n : ℕ) (fs : List Field)
      → ((base_type size : ℕ) (name : Text)
          → suc (rank name) < fuel
          → try_from_type_or_field types fuel base_type size name ≢ exhausted)
      → n < fuel
      → All (λ f. f.base_type ≡ 65 → rank f.typ < n) fs
      → All (λ f. try_from_type_or_field types fuel f.base_type f.size f.typ ≢ exhausted) fs
  fields-done fuel n [] ih h below = tt
  fields-done fuel n (f ∷ fs) ih h below =
      (field-done fuel n f ih h below.0, fields-done fuel n fs ih h below.1)

  -- On a type map whose structures have a rank that falls from each of them to the compound types of
  -- its fields, the construction ends: calls of a depth of two more than the rank are enough.
  pub try_from-answers :
      Ranked types rank
      → (fuel base_type size : ℕ) (name : Text) → suc (rank name) < fuel
      → try_from_type_or_field types fuel base_type size name ≢ exhausted
  unfolding try_from_type_or_field fill look_up
  try_from-answers ranked zero base_type size name h = absurd (omega arith)
  try_from-answers ranked (suc fuel) base_type size name h =
      elim (from_type_id-cases base_type size) [
        | inl flat ↦
            rw
              (fill-other (try_from_type_or_field types fuel) types name size
                (from_type_id base_type size) flat)
              (λ p. cc)
        | inr (_, deep) ↦ rw deep (elim (Option-cases (get_type name types)) [
          | inl absent ↦ rw absent (λ p. cc)
          | inr (t, there) ↦ rw there (
              with_fields-done (try_from_type_or_field types fuel) t size t.fields (
                fields-done fuel (rank name) t.fields (try_from-answers ranked fuel) (omega arith)
                  (ranked name t there)))
        ])
      ]

add_child-stuck :
    (f : Field) (children : Children) (next : Children → Gathered) (o : Outcome)
    → ((c : Children) → next c ≡ ran_out)
    → add_child f children next o ≡ ran_out
unfolding add_child
add_child-stuck f children next (built t) h = h _
add_child-stuck f children next (missing_symbol_type_info name) h = refl
add_child-stuck f children next exhausted h = refl

module _ (recur : ℕ → ℕ → Text → Outcome) where
  add_children-stuck :
      (before after : List Field) (f : Field) (children : Children)
      → recur f.base_type f.size f.typ ≡ exhausted
      → add_children recur (before ++ (f ∷ after)) children ≡ ran_out
  unfolding add_children add_child
  add_children-stuck [] after f children e = rw e refl
  add_children-stuck (g ∷ before) after f children e =
      add_child-stuck g children (add_children recur (before ++ (f ∷ after)))
        (or_unknown g.size (recur g.base_type g.size g.typ))
        (λ c. add_children-stuck before after f c e)

  with_fields-stuck :
      (t : PlcType) (size : ℕ) (before after : List Field) (f : Field)
      → recur f.base_type f.size f.typ ≡ exhausted
      → with_fields recur t size (before ++ (f ∷ after)) ≡ exhausted
  unfolding with_fields
  with_fields-stuck t size [] after f e = ap (complete t.size) (add_children-stuck [] after f end e)
  with_fields-stuck t size (g ∷ before) after f e =
      ap (complete t.size) (add_children-stuck (g ∷ before) after f end e)

-- A compound type that has itself as a field, at whatever place: no depth of calls is enough for it.
pub try_from-endless :
    (types : TypeMap) (fuel size : ℕ) (name : Text) (t : PlcType) (before after : List Field)
    (f : Field)
    → get_type name types ≡ some t
    → t.fields ≡ before ++ (f ∷ after)
    → f.base_type ≡ 65
    → f.typ ≡ name
    → try_from_type_or_field types fuel 65 size name ≡ exhausted
unfolding try_from_type_or_field fill look_up from_type_id
try_from-endless types zero size name t before after f there split is_compound same = refl
try_from-endless types (suc fuel) size name t before after f there split is_compound same =
    let inner : try_from_type_or_field types fuel f.base_type f.size f.typ ≡ exhausted =
      rw (is_compound, same)
        (try_from-endless types fuel f.size name t before after f there split is_compound same) in
    rw (there, split)
      (with_fields-stuck (try_from_type_or_field types fuel) t size before after f inner)
