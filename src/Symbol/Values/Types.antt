-- ===== src/Symbol/Values/Types.antt =====
-- Type trees whose fields lie within their structures, and the values of each type.
use openstar_ads.Common.{ℕ, ◌+◌, ◌%◌, ◌^◌, ◌≤◌, ◌<◌, ◌≡◌, List, Bool, none, some, length}
use openstar_ads.Symbol.{Text}
use openstar_ads.Symbol.Tree.{SymbolTypeTree, Children, end, child, get_size}
use openstar_ads.Symbol.Values.{SymbolTree, Values, no_value, value, no_element, element}

-- Each field of a structure lies within it.
unfoldable mutual
  pub Sized : SymbolTypeTree → Type 0
  Sized (SymbolTypeTree.struct children size) = SizedIn children size
  Sized t = Unit {0}

  pub SizedIn : Children → ℕ → Type 0
  SizedIn end size = Unit {0}
  SizedIn (child n t none rest) size = SizedIn rest size
  SizedIn (child n t (some o) rest) size = (o + get_size t ≤ size) × Sized t × SizedIn rest size

-- The values of each type. Wide strings of an odd size and compound types are malformed, a field
-- without an offset is missing, and an array is the bytes that it takes.
mutual
  pub data HasType : SymbolTypeTree → SymbolTree → Type 0 where
    struct_typed :
        {children : Children} {size : ℕ} {values : Values}
        → HaveTypes children values
        → HasType (SymbolTypeTree.struct children size) (SymbolTree.struct values)
    array_typed :
        {t : SymbolTypeTree} {size : ℕ} {raw : List ℕ}
        → length raw ≡ size
        → HasType
            (SymbolTypeTree.array t size)
            (SymbolTree.array (element (SymbolTree.void raw) no_element))
    void_typed :
        {size : ℕ} {raw : List ℕ}
        → length raw ≡ size
        → HasType (SymbolTypeTree.void size) (SymbolTree.void raw)
    int_typed : {n : ℕ} → n < 256 ^ 2 → HasType SymbolTypeTree.int (SymbolTree.int n)
    dint_typed : {n : ℕ} → n < 256 ^ 4 → HasType SymbolTypeTree.dint (SymbolTree.dint n)
    real_typed : {n : ℕ} → n < 256 ^ 4 → HasType SymbolTypeTree.real (SymbolTree.real n)
    lreal_typed : {n : ℕ} → n < 256 ^ 8 → HasType SymbolTypeTree.lreal (SymbolTree.lreal n)
    sint_typed : {n : ℕ} → n < 256 ^ 1 → HasType SymbolTypeTree.sint (SymbolTree.sint n)
    usint_typed : {n : ℕ} → n < 256 ^ 1 → HasType SymbolTypeTree.usint (SymbolTree.usint n)
    uint_typed : {n : ℕ} → n < 256 ^ 2 → HasType SymbolTypeTree.uint (SymbolTree.uint n)
    udint_typed : {n : ℕ} → n < 256 ^ 4 → HasType SymbolTypeTree.udint (SymbolTree.udint n)
    lint_typed : {n : ℕ} → n < 256 ^ 8 → HasType SymbolTypeTree.lint (SymbolTree.lint n)
    ulint_typed : {n : ℕ} → n < 256 ^ 8 → HasType SymbolTypeTree.ulint (SymbolTree.ulint n)
    string_typed :
        {size : ℕ} {text : Text} → HasType (SymbolTypeTree.string size) (SymbolTree.string text)
    wstring_typed :
        {size : ℕ} {text : Text}
        → size % 2 ≡ 0
        → HasType (SymbolTypeTree.wstring size) (SymbolTree.string text)
    wstring_odd :
        {size : ℕ} → size % 2 ≡ 1 → HasType (SymbolTypeTree.wstring size) SymbolTree.malformed
    real80_typed : {n : ℕ} → HasType SymbolTypeTree.real80 (SymbolTree.real80 n)
    bool_typed : {b : Bool} → HasType SymbolTypeTree.bool (SymbolTree.bool b)
    compound_typed : {size : ℕ} → HasType (SymbolTypeTree.compound size) SymbolTree.malformed
    unknown_typed : {size : ℕ} → HasType (SymbolTypeTree.unknown size) SymbolTree.unknown
    missing_typed : HasType SymbolTypeTree.missing SymbolTree.missing

  pub data HaveTypes : Children → Values → Type 0 where
    none_typed : HaveTypes end no_value
    absent_typed :
        {n : Text} {t : SymbolTypeTree} {rest : Children} {values : Values}
        → HaveTypes rest values
        → HaveTypes (child n t none rest) (value n SymbolTree.missing values)
    field_typed :
        {n : Text} {t : SymbolTypeTree} {o : ℕ} {v : SymbolTree} {rest : Children} {values : Values}
        → HasType t v
        → HaveTypes rest values
        → HaveTypes (child n t (some o) rest) (value n v values)
