-- ===== src/Symbol/Values/Visit/Rebuilt.antt =====
-- A visitor of the `Deserializer` of src/symbol/tree.rs sees every part of a tree, in order.
use openstar_ads.Common.{ℕ, zero, suc, ◌+◌, ◌≤◌, ◌≡◌, refl, ◌∙◌, ap, some, arith}
use openstar_ads.Symbol.Values.{SymbolTree, Values, no_value, value, Elements, no_element, element}
use openstar_ads.Symbol.Values.Visit.{
  Deserialised, done, deserialisation, MapAccessor, SeqAccessor, deserialize_any, next_key,
  next_value, next_element, deserialize_key, get_index, get_element, key_of, value_at, element_at,
}
use openstar_ads.Symbol.Values.Visit.Rebuild.{
  and_then, answer_then, entries_after, elements_after, visit_entries, visit_elements, on_visit,
  rebuild, rebuilt, rebuilt_values, rebuilt_elements, nodes, value_nodes, element_nodes,
}

-- The entries behind the first `i`, and the elements.
abbrev drop_values : ℕ → Values → Values
drop_values zero vs = vs
drop_values (suc i) no_value = no_value
drop_values (suc i) (value n v rest) = drop_values i rest

abbrev drop_elements : ℕ → Elements → Elements
drop_elements zero es = es
drop_elements (suc i) no_element = no_element
drop_elements (suc i) (element v rest) = drop_elements i rest

get_index-drop : (vs : Values) (i : ℕ) → get_index vs i ≡ get_index (drop_values i vs) 0
get_index-drop vs zero = refl
get_index-drop no_value (suc i) = refl
get_index-drop (value n v rest) (suc i) = get_index-drop rest i

get_element-drop : (es : Elements) (i : ℕ) → get_element es i ≡ get_element (drop_elements i es) 0
get_element-drop es zero = refl
get_element-drop no_element (suc i) = refl
get_element-drop (element v rest) (suc i) = get_element-drop rest i

drop_values-one : (vs : Values) (i : ℕ) → drop_values (suc i) vs ≡ drop_values 1 (drop_values i vs)
drop_values-one vs zero = refl
drop_values-one no_value (suc i) = refl
drop_values-one (value n v rest) (suc i) = drop_values-one rest i

drop_elements-one :
    (es : Elements) (i : ℕ) → drop_elements (suc i) es ≡ drop_elements 1 (drop_elements i es)
drop_elements-one es zero = refl
drop_elements-one no_element (suc i) = refl
drop_elements-one (element v rest) (suc i) = drop_elements-one rest i

-- A last step that cannot run out of fuel.
answered_one :
    {A B : Type 0} (r : Deserialised A) (f : A → B)
    → answer_then (some r) (λ a. some (done (f a))) ≡ some (and_then r λ a. done (f a))
answered_one (done a) f = refl
answered_one (deserialisation e) f = refl

answered_two :
    {A B C : Type 0} (r : Deserialised A) (s : Deserialised B) (f : A → B → C)
    → (answer_then (some r) λ a. answer_then (some s) λ b. some (done (f a b)))
      ≡ some (and_then r λ a. and_then s λ b. done (f a b))
answered_two (done a) s f = answered_one s (f a)
answered_two (deserialisation e) s f = refl

succ_lem : (i : ℕ) → i + 1 ≡ suc i
succ_lem i = omega arith

nodes-pos : (t : SymbolTree) → 1 ≤ nodes t
unfolding nodes
nodes-pos SymbolTree.missing = omega arith
nodes-pos SymbolTree.malformed = omega arith
nodes-pos SymbolTree.unknown = omega arith
nodes-pos (SymbolTree.struct v) = omega arith
nodes-pos (SymbolTree.array v) = omega arith
nodes-pos (SymbolTree.void v) = omega arith
nodes-pos (SymbolTree.int v) = omega arith
nodes-pos (SymbolTree.dint v) = omega arith
nodes-pos (SymbolTree.real v) = omega arith
nodes-pos (SymbolTree.lreal v) = omega arith
nodes-pos (SymbolTree.sint v) = omega arith
nodes-pos (SymbolTree.usint v) = omega arith
nodes-pos (SymbolTree.uint v) = omega arith
nodes-pos (SymbolTree.udint v) = omega arith
nodes-pos (SymbolTree.lint v) = omega arith
nodes-pos (SymbolTree.ulint v) = omega arith
nodes-pos (SymbolTree.real80 v) = omega arith
nodes-pos (SymbolTree.string v) = omega arith
nodes-pos (SymbolTree.bool v) = omega arith

value_nodes-pos : (vs : Values) → 1 ≤ value_nodes vs
unfolding value_nodes
value_nodes-pos no_value = omega arith
value_nodes-pos (value n v rest) = omega arith

element_nodes-pos : (es : Elements) → 1 ≤ element_nodes es
unfolding element_nodes
element_nodes-pos no_element = omega arith
element_nodes-pos (element v rest) = omega arith

mutual
  unfolding rebuild on_visit deserialize_any rebuilt nodes visit_entries next_key next_value
      deserialize_key rebuilt_values value_nodes visit_elements next_element rebuilt_elements
      element_nodes

  rebuild_all : (t : SymbolTree) (fuel : ℕ) → nodes t ≤ fuel → rebuild fuel t ≡ some (rebuilt t)
  rebuild_all t zero h = absurd (omega (arith, nodes-pos t))
  rebuild_all (SymbolTree.struct vs) (suc fuel) h =
      rw (rebuild_values vs vs 0 fuel fuel refl (omega arith) (omega arith))
        (answered_one (rebuilt_values vs) SymbolTree.struct)
  rebuild_all (SymbolTree.array es) (suc fuel) h =
      rw (rebuild_elements es es 0 fuel fuel refl (omega arith) (omega arith))
        (answered_one (rebuilt_elements es) SymbolTree.array)
  rebuild_all SymbolTree.missing (suc fuel) h = refl
  rebuild_all SymbolTree.malformed (suc fuel) h = refl
  rebuild_all SymbolTree.unknown (suc fuel) h = refl
  rebuild_all (SymbolTree.void v) (suc fuel) h = refl
  rebuild_all (SymbolTree.int v) (suc fuel) h = refl
  rebuild_all (SymbolTree.dint v) (suc fuel) h = refl
  rebuild_all (SymbolTree.real v) (suc fuel) h = refl
  rebuild_all (SymbolTree.lreal v) (suc fuel) h = refl
  rebuild_all (SymbolTree.sint v) (suc fuel) h = refl
  rebuild_all (SymbolTree.usint v) (suc fuel) h = refl
  rebuild_all (SymbolTree.uint v) (suc fuel) h = refl
  rebuild_all (SymbolTree.udint v) (suc fuel) h = refl
  rebuild_all (SymbolTree.lint v) (suc fuel) h = refl
  rebuild_all (SymbolTree.ulint v) (suc fuel) h = refl
  rebuild_all (SymbolTree.real80 v) (suc fuel) h = refl
  rebuild_all (SymbolTree.string v) (suc fuel) h = refl
  rebuild_all (SymbolTree.bool v) (suc fuel) h = refl

  rebuild_values :
      (rest vs : Values) (i fuel inner : ℕ)
      → drop_values i vs ≡ rest
      → value_nodes rest ≤ fuel
      → value_nodes rest ≤ inner
      → visit_entries (rebuild inner) fuel (record { items = vs; key_index = i })
        ≡ some (rebuilt_values rest)
  rebuild_values rest vs i zero inner e h g = absurd (omega (arith, value_nodes-pos rest))
  rebuild_values no_value vs i (suc fuel) inner e h g = rw (get_index-drop vs i, e) refl
  rebuild_values (value n v rest) vs i (suc fuel) inner e h g =
      let at : get_index vs i ≡ some (n, v) =
        get_index-drop vs i ∙ ap (λ more. get_index more 0) e in
      let a : MapAccessor = record { items = vs; key_index = i } in
      let next = visit_entries (rebuild inner) fuel in
      ap (λ o. entries_after (rebuild inner) next (key_of o) (value_at a o)) at
      ∙ rw
          (
            rebuild_all v inner (omega arith),
            rebuild_values rest vs (i + 1) fuel inner
                (ap (λ n. drop_values n vs) (succ_lem i)
                  ∙ drop_values-one vs i
                  ∙ ap (drop_values 1) e)
                (omega (arith, nodes-pos v)) (omega arith),
          )
          (answered_two (rebuilt v) (rebuilt_values rest) (value n))

  rebuild_elements :
      (rest es : Elements) (i fuel inner : ℕ)
      → drop_elements i es ≡ rest
      → element_nodes rest ≤ fuel
      → element_nodes rest ≤ inner
      → visit_elements (rebuild inner) fuel (record { items = es; index = i })
        ≡ some (rebuilt_elements rest)
  rebuild_elements rest es i zero inner e h g = absurd (omega (arith, element_nodes-pos rest))
  rebuild_elements no_element es i (suc fuel) inner e h g = rw (get_element-drop es i, e) refl
  rebuild_elements (element v rest) es i (suc fuel) inner e h g =
      let at : get_element es i ≡ some v =
        get_element-drop es i ∙ ap (λ more. get_element more 0) e in
      let a : SeqAccessor = record { items = es; index = i } in
      let next = visit_elements (rebuild inner) fuel in
      ap (λ o. elements_after (rebuild inner) next (element_at a o)) at
      ∙ rw
          (
            rebuild_all v inner (omega arith),
            rebuild_elements rest es (i + 1) fuel inner
                (ap (λ n. drop_elements n es) (succ_lem i)
                  ∙ drop_elements-one es i
                  ∙ ap (drop_elements 1) e)
                (omega (arith, nodes-pos v)) (omega arith),
          )
          (answered_two (rebuilt v) (rebuilt_elements rest) element)

-- A visitor that follows `deserialize_any` and asks for entries and elements until there is none
-- sees every part of a tree in order: with as much fuel as the tree has nodes, it ends with the tree
-- itself, where a `REAL80` is the `LREAL` of its value, or with the error of the first part that is
-- unknown or malformed.
pub rebuild_lem : (t : SymbolTree) (fuel : ℕ) → nodes t ≤ fuel → rebuild fuel t ≡ some (rebuilt t)
rebuild_lem t fuel enough = rebuild_all t fuel enough
