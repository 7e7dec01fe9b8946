-- ===== src/Symbol/Values/Visit/Runs.antt =====
-- An example of a visitor of a tree.
use openstar_ads.Common.{◌≡◌, refl, [], ◌∷◌, true, some, arith}
use openstar_ads.Symbol.Values.{SymbolTree, value, no_value, element, no_element}
use openstar_ads.Symbol.Values.Visit.{done}
use openstar_ads.Symbol.Values.Visit.Rebuild.{rebuild, rebuilt, nodes}
use openstar_ads.Symbol.Values.Visit.Rebuilt.{rebuild_lem}

-- A structure of a number, an array and a `REAL80`.
abbrev parts : SymbolTree
parts = SymbolTree.struct (
    value (b'a' ∷ []) (SymbolTree.int 7) (
      value (b'b' ∷ [])
        (SymbolTree.array (element (SymbolTree.bool true) (element SymbolTree.missing no_element)))
        (value (b'c' ∷ []) (SymbolTree.real80 9) no_value)))

parts_again :
    rebuilt parts
    ≡ done (
        SymbolTree.struct (
          value (b'a' ∷ []) (SymbolTree.int 7) (
            value
              (b'b' ∷ [])
              (SymbolTree.array
                (element (SymbolTree.bool true) (element SymbolTree.missing no_element)))
              (value (b'c' ∷ []) (SymbolTree.lreal 9) no_value))))
unfolding rebuilt
parts_again = refl

rebuild_lem_example : rebuild 20 parts ≡ some (rebuilt parts)
unfolding nodes
rebuild_lem_example = rebuild_lem parts 20 (omega arith)
