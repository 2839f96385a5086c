-- ===== src/CompilerTests.antt =====
-- Calls of the conventions of src/tcompiler.cpp on the types of a few functions.
use terra.Common.{arith, ℕ, zero, suc, ◌+◌, ◌*◌, ◌/◌, refl, true, false, [], ◌∷◌}
use terra.Compiler.Types.{
  LlvmType, LlvmTypes, void, float, double, pointer, integer, vector, array, struct, no_types,
  with_type, Obj, scalar, structure, array_of, no_entries, entry, type_of, islogical, issigned,
  Target, is_aggregate, is_vector, is_floating,
}
use terra.Compiler.Convention.{
  c_no_class, arch_cconv, merge_value, merge_elements, merge_scalar, set_class, meet,
  type_for_class, class_type, sse_type, integer_type, valid_aggregate_size,
}
use terra.Compiler.Convention.Strongest.{Found, merge_value-strongest}
use terra.Compiler.Convention.Inside.{IsDefined, IsLaid, merge_value-IsDefined}
use terra.Compiler.Aggregates.{
  c_primitive, c_aggregate_reg, c_aggregate_mem, Argument, types_of, repeated, count_values,
  classify_agg_ppc64, wasm_primitive_count, wasm_is_singleton_or_empty,
}
use terra.Compiler.Classify.{
  primitive, count_primitive, eightbyte, eightbytes, spilled, classify_classes, classify_argument,
  Classification, classify_params, classify_return, classify,
}
use terra.Compiler.Classify.Registers.{sysv, Within, classify_argument-Within}
use terra.Compiler.Signature.{
  type_count, param_count, gather, param_types, all_param_types, first_scalar, single_type,
  return_type, FunctionType, sret_types, first_params, create_function_type, attribute_fn_or_call,
}
use terra.Compiler.Signature.Attributes.{AllPlaced}
use terra.Compiler.Signature.Calls.{attribute_fn_or_call-AllPlaced}

-- the sizes of x86-64, for structs without padding
abbrev mutual
  size : LlvmType → ℕ
  size void = 0
  size float = 4
  size double = 8
  size pointer = 8
  size (integer bits) = bits / 8
  size (vector n elem) = n * size elem
  size (array n elem) = n * size elem
  size (struct elements) = sizes elements

  sizes : LlvmTypes → ℕ
  sizes no_types = 0
  sizes (with_type t types) = size t + sizes types

abbrev offset_of : LlvmTypes → ℕ → ℕ
offset_of no_types i = 0
offset_of (with_type t types) zero = 0
offset_of (with_type t types) (suc i) = size t + offset_of types i

abbrev machine : Target
machine = record {
  alloc_size = size;
  abi_align = λ t. 8;
  element_offset = offset_of;
  is_unit = λ t. false;
}

-- `int8`
abbrev small : Obj
small = scalar (integer 8) true false

abbrev word : Obj
word = scalar (integer 64) true false

abbrev real : Obj
real = scalar double false false

-- a struct of a double and a word, in two registers
abbrev pair : Obj
pair =
    structure (with_type double (with_type (integer 64) no_types))
      (entry 0 real (entry 1 word no_entries))

-- a struct of three words, in memory
abbrev triple : Obj
triple =
    structure (with_type (integer 64) (with_type (integer 64) (with_type (integer 64) no_types)))
      (entry 0 word (entry 1 word (entry 2 word no_entries)))

abbrev pair_argument : Argument
pair_argument = record {
  kind = c_aggregate_reg;
  type = pair;
  cctype = struct (with_type double (with_type (integer 64) no_types));
}

abbrev triple_argument : Argument
triple_argument = record {
  kind = c_aggregate_mem;
  type = triple;
  cctype =
      struct (with_type (integer 64) (with_type (integer 64) (with_type (integer 64) no_types)));
}

-- the pair takes the last SSE register and the last but one of the integers.
classify_argument-Within_example :
    Within (record { usedfloat = 7; usedint = 4 }) (record { usedfloat = 8; usedint = 5 })
unfolding arch_cconv type_of islogical issigned is_aggregate is_vector is_floating merge_value
    merge_elements merge_scalar set_class meet type_for_class class_type sse_type integer_type
    valid_aggregate_size types_of repeated count_values classify_agg_ppc64 wasm_primitive_count
    wasm_is_singleton_or_empty primitive count_primitive eightbyte eightbytes spilled
    classify_classes classify_argument
classify_argument-Within_example =
    classify_argument-Within machine pair (record { usedfloat = 7; usedint = 4 })
      (pair_argument, record { usedfloat = 8; usedint = 5 }) refl refl

-- a function of an `int8`, a pair and a triple that returns a triple
abbrev classified : Classification
classified = record {
  returntype = triple_argument;
  paramtypes =
      record { kind = c_primitive; type = small; cctype = integer 8 }
      ∷ pair_argument
      ∷ triple_argument
      ∷ [];
}

abbrev function_type : FunctionType
function_type = record {
  result = void;
  arguments = pointer ∷ integer 8 ∷ double ∷ integer 64 ∷ pointer ∷ [];
  isvararg = false;
}

attribute_fn_or_call-AllPlaced_example :
    AllPlaced function_type.arguments (attribute_fn_or_call sysv classified).on_params
unfolding arch_cconv type_of islogical issigned is_aggregate is_vector is_floating merge_value
    merge_elements merge_scalar set_class meet type_for_class class_type sse_type integer_type
    valid_aggregate_size types_of repeated count_values classify_agg_ppc64 wasm_primitive_count
    wasm_is_singleton_or_empty primitive count_primitive eightbyte eightbytes spilled
    classify_classes classify_argument classify_params classify_return classify type_count
    param_count gather param_types all_param_types first_scalar single_type return_type sret_types
    first_params create_function_type attribute_fn_or_call
attribute_fn_or_call-AllPlaced_example =
    attribute_fn_or_call-AllPlaced sysv machine triple (small ∷ pair ∷ triple ∷ []) classified 3
      function_type refl refl

-- an array of two pairs of floats, which fills both classes
abbrev floats : Obj
floats = array_of 2 (
    structure (with_type float (with_type float no_types))
      (entry 0 (scalar float false false) (entry 1 (scalar float false false) no_entries)))

floats-IsLaid : IsLaid machine floats
unfolding type_of
floats-IsLaid =
    (omega arith, (omega arith, ((tt, omega arith), (omega arith, ((tt, omega arith), tt)))))

merge_value-IsDefined_example : IsDefined (merge_value machine 0 floats (c_no_class, c_no_class))
unfolding type_of
merge_value-IsDefined_example =
    merge_value-IsDefined machine floats (c_no_class, c_no_class) floats-IsLaid (omega arith)

-- the first class is that of floats, and so is the second.
merge_value-strongest_example : Found (merge_value machine 0 floats (c_no_class, c_no_class)) 1 1
unfolding type_of
merge_value-strongest_example = merge_value-strongest machine floats floats-IsLaid (omega arith)
