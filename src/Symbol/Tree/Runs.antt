-- ===== src/Symbol/Tree/Runs.antt =====
-- Examples of type trees.
use openstar_ads.Common.{
  ℕ, ◌≡◌, ◌≢◌, ◌<◌, refl, subst, List, [], ◌∷◌, Option, none, some, if◌then◌else◌, All, arith,
  Bool-cases, inl, inr,
}
use openstar_ads.Error.{panic}
use openstar_ads.Symbol.{Text, Field, PlcType, same_text, get_type}
use openstar_ads.Symbol.Tree.{int, exhausted, try_from_type_or_field, get_child, walk}
use openstar_ads.Symbol.Tree.Samples.{
  int_field, t_field, structure, t_type, s_type, two_types, s_tree, s_tree_built,
}
use openstar_ads.Symbol.Tree.Flat.{from_tree}
use openstar_ads.Symbol.Tree.Built.{from_tree-ne-panic}
use openstar_ads.Symbol.Tree.Depth.{Ranked, try_from-answers, try_from-endless}

s_tree_child : get_child s_tree (b't' ∷ b'.' ∷ b'x' ∷ []) ≡ int
unfolding get_child walk openstar_ads.NetId.Split.split
s_tree_child = refl

from_tree-ne-panic_example : from_tree s_tree 100 (b'M' ∷ []) ≢ panic
from_tree-ne-panic_example =
    from_tree-ne-panic two_types 3 65 4 100 (b'S' ∷ []) (b'M' ∷ []) s_tree s_tree_built

abbrev rank : Text → ℕ
rank name = if same_text (b'S' ∷ []) name then 1 else 0

abbrev fields_of : Option PlcType → List Field
fields_of none = []
fields_of (some t) = t.fields

two_types-Ranked : Ranked two_types rank
unfolding get_type
two_types-Ranked name t e = elim (Bool-cases (same_text (b'S' ∷ []) name)) [
  | inl is_s ↦
      rw is_s
        (of_type s_type t 1 (rw is_s at e) ((λ p. absurd (omega arith)), ((λ p. omega arith), tt)))
  | inr no_s ↦ elim (Bool-cases (same_text (b'T' ∷ []) name)) [
    | inl is_t ↦
        rw no_s (of_type t_type t 0 (rw (no_s, is_t) at e) ((λ p. absurd (omega arith)), tt))
    | inr no_t ↦ cc (rw (no_s, no_t) at e)
  ]
]
  where
    falls : ℕ → Field → Type 0
    falls n f = f.base_type ≡ 65 → rank f.typ < n

    of_type :
        (u v : PlcType) (n : ℕ)
        → ◌≡◌ {A = Option PlcType} (some u) (some v)
        → All (falls n) u.fields
        → All (falls n) v.fields
    of_type u v n e h = subst (λ o. All (falls n) (fields_of o)) e h

try_from-answers_example : try_from_type_or_field two_types 4 65 4 (b'S' ∷ []) ≢ exhausted
try_from-answers_example =
    try_from-answers two_types rank two_types-Ranked 4 65 4 (b'S' ∷ []) (omega arith)

-- `T` with a `T` behind its number.
abbrev self_type : PlcType
self_type = structure (b'T' ∷ []) 4 (int_field ∷ t_field ∷ [])

try_from-endless_example :
    try_from_type_or_field ((b'T' ∷ [], self_type) ∷ []) 1000 65 4 (b'T' ∷ []) ≡ exhausted
try_from-endless_example =
    try_from-endless ((b'T' ∷ [], self_type) ∷ []) 1000 4 (b'T' ∷ []) self_type (int_field ∷ []) []
      t_field (unfold get_type in refl) refl refl refl
