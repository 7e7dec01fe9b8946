-- ===== src/Ads/Describe.antt =====
-- src/symbol/type.rs: `get_symbol_info`; src/ads.rs: `Ads::get_dynamic_type_tree`.
use openstar_ads.Common.{
  ℕ, List, [], ◌∷◌, Bool, Option, none, some, replicate, take, drop, if◌then◌else◌,
}
use openstar_ads.Error.{Result, ok, panic}
use openstar_ads.Wire.{le_value}
use openstar_ads.Client.{Client}
use openstar_ads.Client.Commands.{Outcome, Exchange, then_result, then_step, read_exact}
use openstar_ads.Symbol.{Text, Symbol, same_text}
use openstar_ads.Symbol.Decode.{decode_symbol_info}
use openstar_ads.Symbol.Tree.{
  SymbolTypeTree, missing, unknown, TypeMap, built, missing_symbol_type_info, exhausted,
  try_from_type_or_field,
}
use openstar_ads.Symbol.Tree
use openstar_ads.Ads.{Ads, Step, with_client}

-- `index::SYM_UPLOAD_INFO2`, `SYM_DT_UPLOAD` and `SYM_UPLOAD`.
abbrev pub sym_upload_info2 : ℕ
sym_upload_info2 = 61455

abbrev pub sym_dt_upload : ℕ
sym_dt_upload = 61454

abbrev pub sym_upload : ℕ
sym_upload = 61451

-- The lengths in the answer to `SYM_UPLOAD_INFO2`.
abbrev pub length_at : ℕ → List ℕ → ℕ
length_at place read_data = le_value (take 4 (drop place read_data))

-- The loops of the decoder end on their fuel, so that there is always an answer.
abbrev pub answer : {A : Type 0} → Option (Result A) → Result A
answer none = panic
answer (some r) = r

-- The last of the symbols whose name is the one asked for, but for the case of its letters.
abbrev pub find_symbol : (Text → Text) → Text → List Symbol → Option Symbol → Option Symbol
find_symbol to_lowercase name [] symbol = symbol
find_symbol to_lowercase name (info ∷ symbols) symbol =
    find_symbol to_lowercase name symbols
      (if same_text (to_lowercase info.name) (to_lowercase name) then some info else symbol)

-- The tree, or an unknown one of the symbol's size; the depth of calls is bounded by the stack.
abbrev pub or_unknown_tree : ℕ → Tree.Outcome → Result SymbolTypeTree
or_unknown_tree size (built t) = ok t
or_unknown_tree size (missing_symbol_type_info name) = ok (unknown size)
or_unknown_tree size exhausted = panic

-- `SymbolTypeTree::try_from_symbol`, for a stack of `depth` calls.
abbrev pub try_from_symbol : TypeMap → ℕ → Symbol → Tree.Outcome
try_from_symbol types depth symbol =
    try_from_type_or_field types depth symbol.base_type symbol.size symbol.typ

unfoldable pub tree_of_symbol : ℕ → TypeMap → Option Symbol → Result SymbolTypeTree
tree_of_symbol depth types none = ok missing
tree_of_symbol depth types (some symbol) =
    or_unknown_tree symbol.size (try_from_symbol types depth symbol)

module _ {Chan : Type 0} (communicate : Exchange Chan) (lossy : List ℕ → Text) where
  unfoldable pub get_symbol_info : Client Chan → Outcome Chan (List Symbol × TypeMap)
  get_symbol_info c =
      then_step (read_exact communicate c sym_upload_info2 0 (replicate 64 0)) λ c read_data.
        then_step (read_exact communicate c sym_dt_upload 0 (replicate (length_at 12 read_data) 0))
          λ c type_data.
            then_result
              (read_exact communicate c sym_upload 0 (replicate (length_at 4 read_data) 0))
              λ symbol_data. answer (decode_symbol_info lossy symbol_data type_data)

  module _ (port_opened : Bool) (to_lowercase : Text → Text) (depth : ℕ) where
    -- `Ads::get_dynamic_type_tree`.
    unfoldable pub get_dynamic_type_tree : Ads Chan → Text → Step Chan SymbolTypeTree
    unfolding get_symbol_info tree_of_symbol
    get_dynamic_type_tree ads symbol = with_client communicate port_opened ads λ c.
        then_result (get_symbol_info c) λ (symbols, types).
          tree_of_symbol depth types (find_symbol to_lowercase symbol symbols none)
