-- ===== src/Compiler/Classify.antt =====
-- src/tcompiler.cpp: `ClassifyArgument` and `Classify`.
pub mod Formed
pub mod Registers
use terra.Common.{
  ℕ, zero, suc, ◌+◌, ◌-◌, Bool, true, false, Option, none, some, List, [], ◌∷◌, ◌++◌, leb, ltb,
  ◌==◌, not, ◌&&◌, ◌||◌, if◌then◌else◌,
}
use terra.Compiler.Types.{
  LlvmType, LlvmTypes, void, float, double, pointer, integer, vector, array, struct, no_types,
  with_type, Obj, type_of, islogical, Target, is_aggregate, is_vector, is_floating, ◌>>=◌,
}
use terra.Compiler.Convention.{
  CCallingConv, RegisterClass, c_no_class, c_sse_float, c_sse_double, c_integer, c_memory, Classes,
  merge_value, type_for_class, valid_aggregate_size,
}
use terra.Compiler.Aggregates.{
  ArgumentKind, c_primitive, c_aggregate_reg, c_aggregate_mem, c_array_reg, Argument, types_of,
  classify_agg_ppc64, wasm_is_singleton_or_empty,
}

-- `*usedfloat` and `*usedint`
pub record Used : Type 0 where
  pub usedfloat : ℕ
  pub usedint : ℕ

abbrev is_sse : RegisterClass → Bool
is_sse c_sse_float = true
is_sse c_sse_double = true
is_sse _ = false

abbrev is_integer : RegisterClass → Bool
is_integer c_integer = true
is_integer _ = false

abbrev is_memory : RegisterClass → Bool
is_memory c_memory = true
is_memory _ = false

abbrev one_if : Bool → ℕ
one_if true = 1
one_if false = 0

-- `nfloat` and `nint`
abbrev pub sse_count : Classes → ℕ
sse_count (a, b) = one_if (is_sse a) + one_if (is_sse b)

abbrev pub integer_count : Classes → ℕ
integer_count (a, b) = one_if (is_integer a) + one_if (is_integer b)

abbrev pub in_memory : Obj → Argument
in_memory t = record { kind = c_aggregate_mem; type = t; cctype = type_of t }

abbrev pub in_registers : Obj → List LlvmType → Argument
in_registers t elements = record {
  kind = c_aggregate_reg;
  type = t;
  cctype = struct (types_of elements);
}

unfoldable pub primitive : Obj → Argument
primitive t = record {
  kind = c_primitive;
  type = t;
  cctype = if islogical t && not (is_vector (type_of t)) then integer 1 else type_of t;
}

unfoldable pub count_primitive : Obj → Used → Used
count_primitive t used =
    if is_floating (type_of t) || is_vector (type_of t)
    then record used { usedfloat = used.usedfloat + 1 }
    else record used { usedint = used.usedint + 1 }

-- the type for one of the eightbytes, where it has a size
unfoldable pub eightbyte : CCallingConv → ℕ → RegisterClass → Option (List LlvmType)
unfolding type_for_class
eightbyte conv zero c = some []
eightbyte conv (suc n) c = type_for_class conv (suc n) c >>= λ t. some (t ∷ [])

abbrev min8 : ℕ → ℕ
min8 sz = if ltb 8 sz then 8 else sz

-- the elements for the two eightbytes
unfoldable pub eightbytes : CCallingConv → ℕ → Classes → Option (List LlvmType)
unfolding eightbyte
eightbytes conv sz (a, b) = eightbyte conv (min8 sz) a >>= λ first.
    eightbyte conv (sz - 8) b >>= λ second. some (first ++ second)

-- an aggregate that does not fit into the free registers
unfoldable pub spilled : CCallingConv → Target → Obj → ℕ → Used → Option (Argument × Used)
unfolding type_for_class
spilled conv target t sz used =
    if conv.x86_64_sysv_cconv
      && (leb 6 used.usedint && (leb sz 8 && leb (target.abi_align (type_of t)) 8))
    then (type_for_class conv sz c_integer >>= λ coerced.
        some (in_registers t (coerced ∷ []), used))
    else some (in_memory t, used)

-- `ClassifyArgument` of an aggregate with the classes of its eightbytes
unfoldable pub classify_classes :
    CCallingConv → Target → Obj → ℕ → Used → Bool → Classes → Option (Argument × Used)
unfolding spilled eightbytes
classify_classes conv target t sz used isreturn (a, b) =
    let fits =
      leb (sse_count (a, b)) (8 - used.usedfloat)
      && leb (integer_count (a, b)) (6 - used.usedint) in
    if is_memory a || is_memory b
    then some (in_memory t, used)
    else if not isreturn && (not fits && (conv.x86_64_sysv_cconv || ltb 8 sz))
    then spilled conv target t sz used
    else eightbytes conv sz (a, b) >>= λ elements. some (
      in_registers t elements,
      record {
        usedfloat = used.usedfloat + sse_count (a, b);
        usedint = used.usedint + integer_count (a, b);
      },
    )

-- `ClassifyArgument`; `none` is a failed assertion or an access behind the classes.
unfoldable pub classify_argument :
    CCallingConv → Target → Obj → Used → Bool → Option (Argument × Used)
unfolding primitive count_primitive classify_agg_ppc64 classify_classes merge_value
classify_argument conv target t used isreturn =
    let sz = target.alloc_size (type_of t) in
    let packed = classify_agg_ppc64 conv target t used.usedint isreturn in
    if not (is_aggregate (type_of t))
    then some (primitive t, count_primitive t used)
    else if (conv.wasm_cconv && not (wasm_is_singleton_or_empty (type_of t))) || conv.spirv_cconv
    then some (in_memory t, used)
    else if conv.amdgpu_cconv
    then some (record { kind = c_aggregate_reg; type = t; cctype = type_of t }, used)
    else if conv.aarch64_cconv || conv.ppc64_cconv
    then some (packed.0, record used { usedint = packed.1 })
    else if not (valid_aggregate_size conv sz)
    then some (in_memory t, used)
    else merge_value target 0 t (c_no_class, c_no_class) >>= λ classes.
        classify_classes conv target t sz used isreturn classes

-- `Classification`, without the type of the function
pub record Classification : Type 0 where
  pub returntype : Argument
  pub paramtypes : List Argument

-- the parameters, in their order
unfoldable pub classify_params : CCallingConv → Target → List Obj → Used → Option (List Argument)
unfolding classify_argument
classify_params conv target [] used = some []
classify_params conv target (t ∷ params) used =
    classify_argument conv target t used false >>= λ found.
    classify_params conv target params found.1 >>= λ rest. some (found.0 ∷ rest)

-- the place of the value that is returned
unfoldable pub classify_return : CCallingConv → Target → Obj → Option Argument
unfolding classify_argument
classify_return conv target t =
    classify_argument conv target t (record { usedfloat = 0; usedint = 0 }) true >>= λ found.
    some
      (if conv.return_empty_struct_as_void && target.is_unit t then in_registers t [] else found.0)

abbrev pub returned_in_memory : Argument → Bool
returned_in_memory a = elim a.kind [
  | c_aggregate_mem ↦ true
  | c_primitive ↦ false
  | c_aggregate_reg ↦ false
  | c_array_reg ↦ false
]

-- `Classify` up to the type of the function
unfoldable pub classify : CCallingConv → Target → Obj → List Obj → Option Classification
unfolding classify_return classify_params
classify conv target returntype params = classify_return conv target returntype >>= λ r.
    classify_params conv target params
      (record { usedfloat = 0; usedint = one_if (returned_in_memory r) })
    >>= λ rest. some (record { returntype = r; paramtypes = rest })
