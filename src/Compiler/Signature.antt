-- ===== src/Compiler/Signature.antt =====
-- src/tcompiler.cpp: the type of a function and the attributes of its parameters, from the
-- classification of its arguments.
pub mod Attributes
pub mod Calls
use terra.Common.{
  ℕ, zero, suc, ◌+◌, ◌-◌, Bool, true, false, Option, none, some, List, [], ◌∷◌, ◌++◌, leb, ltb,
  ◌==◌, not, ◌&&◌, ◌||◌, if◌then◌else◌, length,
}
use terra.Compiler.Types.{
  LlvmType, LlvmTypes, void, float, double, pointer, integer, vector, array, struct, no_types,
  with_type, Obj, type_of, issigned, Target, ◌>>=◌,
}
use terra.Compiler.Convention.{CCallingConv}
use terra.Compiler.Aggregates.{
  ArgumentKind, c_primitive, c_aggregate_reg, c_aggregate_mem, c_array_reg, Argument,
}
use terra.Compiler.Classify.{Classification, returned_in_memory}

-- `GetNumberOfTypesInParamList` of a type
unfoldable mutual
  pub type_count : LlvmType → ℕ
  type_count (struct elements) = types_count elements
  type_count t = 1

  pub types_count : LlvmTypes → ℕ
  types_count no_types = 0
  types_count (with_type t types) = type_count t + types_count types

-- `GetNumberOfTypesInParamList` of an argument
unfoldable pub param_count : Argument → ℕ
unfolding type_count
param_count a = elim a.kind [
  | c_aggregate_reg ↦ type_count a.cctype
  | c_primitive ↦ 1
  | c_aggregate_mem ↦ 1
  | c_array_reg ↦ 1
]

-- `GatherArgumentsAggReg`
unfoldable mutual
  pub gather : LlvmType → List LlvmType
  gather (struct elements) = gather_all elements
  gather t = t ∷ []

  pub gather_all : LlvmTypes → List LlvmType
  gather_all no_types = []
  gather_all (with_type t types) = gather t ++ gather_all types

-- the types of an argument in the parameter list
unfoldable pub param_types : Argument → List LlvmType
unfolding gather
param_types a = elim a.kind [
  | c_primitive ↦ a.cctype ∷ []
  | c_aggregate_mem ↦ pointer ∷ []
  | c_aggregate_reg ↦ gather a.cctype
  | c_array_reg ↦ a.cctype ∷ []
]

unfoldable pub all_param_types : List Argument → List LlvmType
unfolding param_types
all_param_types [] = []
all_param_types (a ∷ params) = param_types a ++ all_param_types params

-- the first element, again and again; the first element of an empty struct is undefined.
unfoldable pub first_scalar : LlvmType → Option LlvmType
first_scalar (struct no_types) = none
first_scalar (struct (with_type t types)) = first_scalar t
first_scalar t = some t

-- the struct of an argument in registers; another type is a failed `cast`.
unfoldable pub single_type : LlvmType → Option LlvmType
unfolding first_scalar
single_type (struct elements) = first_scalar (struct elements)
single_type _ = none

-- the type that is returned
unfoldable pub return_type : Argument → Option LlvmType
unfolding type_count single_type
return_type a =
    let n = type_count a.cctype in
    elim a.kind [
      | c_aggregate_reg ↦
          if n == 0 then some void else if n == 1 then single_type a.cctype else some a.cctype
      | c_aggregate_mem ↦ some void
      | c_array_reg ↦ some a.cctype
      | c_primitive ↦ some a.cctype
    ]

-- `llvm::FunctionType`
pub record FunctionType : Type 0 where
  pub result : LlvmType
  pub arguments : List LlvmType
  pub isvararg : Bool

-- the parameter for the place of the returned value
unfoldable pub sret_types : Argument → List LlvmType
sret_types a = if returned_in_memory a then pointer ∷ [] else []

unfoldable pub first_params : ℕ → List Argument → List Argument
first_params zero params = []
first_params (suc n) [] = []
first_params (suc n) (a ∷ params) = a ∷ first_params n params

-- `CreateFunctionType`, with its assertions on the number of the parameters
unfoldable pub create_function_type : Classification → ℕ → Bool → Option FunctionType
unfolding return_type sret_types all_param_types first_params
create_function_type info formal_params isvararg =
    let n = length info.paramtypes in
    let right = if isvararg then leb formal_params n else formal_params == n in
    if right
    then (return_type info.returntype >>= λ rt. some (record {
      result = rt;
      arguments =
          sret_types info.returntype
          ++ all_param_types (first_params formal_params info.paramtypes);
      isvararg = isvararg;
    }))
    else none

-- An attribute with the index of its parameter, from 0.
pub data Attribute : Type 0 where
  struct_ret by_val : LlvmType → Attribute
  no_alias no_undef s_ext z_ext : Attribute

abbrev is_narrow : LlvmType → Bool
is_narrow (integer bits) = ltb bits 32
is_narrow _ = false

abbrev extension : Obj → Attribute
extension t = if issigned t then s_ext else z_ext

-- `addExtAttrIfNeeded` of a parameter
unfoldable pub ext_attr : Obj → ℕ → List (ℕ × Attribute)
ext_attr t i = if is_narrow (type_of t) then (i, extension t) ∷ [] else []

-- `addExtAttrIfNeeded` of the value that is returned
unfoldable pub return_attr : CCallingConv → Obj → List Attribute
return_attr conv t =
    if is_narrow (type_of t) && not conv.aarch64_cconv then extension t ∷ [] else []

unfoldable pub memory_attr : CCallingConv → Argument → ℕ → List (ℕ × Attribute)
memory_attr conv a i =
    if not (returned_in_memory a)
    then []
    else if conv.aarch64_cconv
    then (i, no_undef) ∷ []
    else if conv.win_cconv
    then []
    else (i, by_val a.cctype) ∷ []

-- the loop of `AttributeFnOrCall`, with the index of the next parameter
unfoldable pub param_attrs : CCallingConv → List Argument → ℕ → List (ℕ × Attribute)
unfolding memory_attr ext_attr param_count
param_attrs conv [] i = []
param_attrs conv (a ∷ params) i =
    memory_attr conv a i ++ (ext_attr a.type i ++ param_attrs conv params (i + param_count a))

-- `addSRetAttr` and the loop of `AttributeFnOrCall`
unfoldable pub all_param_attrs : CCallingConv → Classification → List (ℕ × Attribute)
unfolding param_attrs
all_param_attrs conv info =
    if returned_in_memory info.returntype
    then (0, struct_ret info.returntype.cctype) ∷ (0, no_alias) ∷ param_attrs conv info.paramtypes 1
    else param_attrs conv info.paramtypes 0

-- The attributes of the returned value and of the parameters.
pub record Attributed : Type 0 where
  pub on_return : List Attribute
  pub on_params : List (ℕ × Attribute)

-- `AttributeFnOrCall`
unfoldable pub attribute_fn_or_call : CCallingConv → Classification → Attributed
unfolding return_attr all_param_attrs
attribute_fn_or_call conv info = record {
  on_return = return_attr conv info.returntype.type;
  on_params = all_param_attrs conv info;
}
