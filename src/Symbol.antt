-- ===== src/Symbol.antt =====
-- src/symbol/type.rs: the symbols and types of a PLC. A text is the list of its bytes, and a signed
-- number the unsigned one of the same bits.
pub mod Fields
pub mod Methods
pub mod Decode
pub mod ByName
pub mod Total
pub mod Outcome
pub mod Outcomes
pub mod Determined
pub mod Format
pub mod Parts
pub mod MethodLayout
pub mod MethodDecoded
pub mod Variants
pub mod Layout
pub mod Decoded
pub mod Upload
pub mod Named
pub mod Tree
pub mod Values
pub mod Samples
mod Runs
use openstar_ads.Common.{
  ℕ, ◌+◌, ◌-◌, ◌*◌, ◌/◌, ◌%◌, ◌^◌, List, [], ◌∷◌, Bool, true, false, Option, none, some, ◌==◌, ◌&&◌,
  if◌then◌else◌,
}

abbrev pub Text : Type 0
Text = List ℕ

pub record Attribute : Type 0 where
  pub name : Text
  pub value : Text

pub record EnumInfo : Type 0 where
  pub name : Text
  pub value : ℕ

pub record RpcMethodParameter : Type 0 where
  pub name : Text
  pub typ : Text
  pub size : ℕ
  pub flags : ℕ
  pub comment : Text
  pub attributes : List Attribute

pub record RpcMethod : Type 0 where
  pub name : Text
  pub return_type : Text
  pub return_size : ℕ
  pub comment : Text
  pub parameters : List RpcMethodParameter
  pub attributes : List Attribute

pub record Field : Type 0 where
  pub name : Text
  pub typ : Text
  pub offset : Option ℕ
  pub size : ℕ
  pub array : List (ℕ × ℕ)
  pub base_type : ℕ
  pub flags : ℕ
  pub comment : Text
  pub attributes : Option (List Attribute)

-- `Type`.
pub record PlcType : Type 0 where
  pub name : Text
  pub type_name : Text
  pub comment : Text
  pub size : ℕ
  pub array : List (ℕ × ℕ)
  pub fields : List Field
  pub base_type : ℕ
  pub flags : ℕ
  pub guid : Option Text
  pub methods : Option (List RpcMethod)
  pub attributes : Option (List Attribute)
  pub enum_info : Option (List EnumInfo)

pub record Symbol : Type 0 where
  pub name : Text
  pub ix_group : ℕ
  pub ix_offset : ℕ
  pub typ : Text
  pub size : ℕ
  pub base_type : ℕ
  pub flags : ℕ

-- `flags & bit != 0`, for the bit of value `2 ^ k`.
abbrev pub has_flag : ℕ → ℕ → Bool
has_flag flags k = (flags / 2 ^ k) % 2 == 1

-- The flags, by the number of their bit.
abbrev pub type_flag_guid : ℕ
type_flag_guid = 7

abbrev pub type_flag_copy_mask : ℕ
type_flag_copy_mask = 9

abbrev pub type_flag_method_infos : ℕ
type_flag_method_infos = 11

abbrev pub type_flag_attributes : ℕ
type_flag_attributes = 12

abbrev pub type_flag_enum_infos : ℕ
type_flag_enum_infos = 13

abbrev pub rpc_method_attribute_flag : ℕ
rpc_method_attribute_flag = 3

abbrev pub rpc_param_attribute_flag : ℕ
rpc_param_attribute_flag = 6

abbrev pub same_text : Text → Text → Bool
same_text [] [] = true
same_text [] (y ∷ ys) = false
same_text (x ∷ xs) [] = false
same_text (x ∷ xs) (y ∷ ys) = (x == y) && same_text xs ys

-- `HashMap::insert` and `get`, for `TypeMap`.
unfoldable pub insert_type : Text → PlcType → List (Text × PlcType) → List (Text × PlcType)
insert_type name t [] = (name, t) ∷ []
insert_type name t ((n, u) ∷ m) =
    let rest = insert_type name t m in if same_text n name then (name, t) ∷ m else (n, u) ∷ rest

unfoldable pub get_type : Text → List (Text × PlcType) → Option PlcType
get_type name [] = none
get_type name ((n, u) ∷ m) = let rest = get_type name m in if same_text n name then some u else rest
