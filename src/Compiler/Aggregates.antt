-- ===== src/Compiler/Aggregates.antt =====
-- src/tcompiler.cpp: how aggregates are passed on PowerPC, AArch64 and WebAssembly.
use terra.Common.{
  ℕ, zero, suc, ◌+◌, ◌-◌, ◌*◌, ◌/◌, Bool, true, false, List, [], ◌∷◌, ◌++◌, leb, ltb, ◌==◌, not,
  ◌&&◌, if◌then◌else◌,
}
use terra.Compiler.Types.{
  LlvmType, LlvmTypes, void, float, double, integer, array, struct, no_types, with_type, Obj,
  type_of, Target,
}
use terra.Compiler.Convention.{CCallingConv}

-- `ArgumentKind`
pub data ArgumentKind : Type 0 where
  c_primitive c_aggregate_reg c_aggregate_mem c_array_reg : ArgumentKind

pub record Argument : Type 0 where
  pub kind : ArgumentKind
  pub type : Obj
  pub cctype : LlvmType

abbrev is_float : LlvmType → Bool
is_float float = true
is_float _ = false

abbrev is_double : LlvmType → Bool
is_double double = true
is_double _ = false

abbrev max : ℕ → ℕ → ℕ
max a b = if ltb a b then b else a

-- the loop over the elements of an array
unfoldable pub repeated : {A : Type 0} → ℕ → (A → A) → A → A
repeated zero f a = a
repeated (suc n) f a = repeated n f (f a)

-- what `CountValuesPPC64` counts; `align` is in bits.
pub record Counts : Type 0 where
  pub all_float : Bool
  pub all_double : Bool
  pub n_elts : ℕ
  pub align : ℕ

abbrev count_scalar : Target → LlvmType → Counts → Counts
count_scalar target t c = record {
  all_float = c.all_float && is_float t;
  all_double = c.all_double && is_double t;
  n_elts = c.n_elts + 1;
  align = max c.align (target.abi_align t * 8);
}

-- `CountValuesPPC64`
unfoldable mutual
  unfolding repeated

  pub count_values : Target → LlvmType → Counts → Counts
  count_values target (struct elements) c = count_all target elements c
  count_values target (array n elem) c = repeated n (count_values target elem) c
  count_values target t c = count_scalar target t c

  pub count_all : Target → LlvmTypes → Counts → Counts
  count_all target no_types c = c
  count_all target (with_type t types) c = count_all target types (count_values target t c)

-- `(bits + align - 1) & (-align)`, for an alignment that is a power of 2
abbrev align_up : ℕ → ℕ → ℕ
align_up bits align = (bits + align - 1) / align * align

-- the elements that `MergeValuePPC64` makes, and the bits behind them
pub record Packed : Type 0 where
  pub elements : List LlvmType
  pub bits : ℕ

unfoldable pub pack_scalar : Target → LlvmType → Packed → Packed
pack_scalar target t p =
    let bits = align_up (p.bits + target.alloc_size t * 8) (target.abi_align t * 8) in
    if leb 64 bits
    then record { elements = p.elements ++ integer 64 ∷ []; bits = bits - 64 }
    else record p { bits = bits }

-- `MergeValuePPC64`
unfoldable mutual
  unfolding repeated pack_scalar

  pub pack_values : Target → LlvmType → Packed → Packed
  pack_values target (struct elements) p = pack_all target elements p
  pack_values target (array n elem) p = repeated n (pack_values target elem) p
  pack_values target t p = pack_scalar target t p

  pub pack_all : Target → LlvmTypes → Packed → Packed
  pack_all target no_types p = p
  pack_all target (with_type t types) p = pack_all target types (pack_values target t p)

unfoldable pub types_of : List LlvmType → LlvmTypes
types_of [] = no_types
types_of (t ∷ ts) = with_type t (types_of ts)

unfoldable pub copies : ℕ → LlvmType → List LlvmType
copies zero t = []
copies (suc n) t = t ∷ copies n t

-- an aggregate of floating point numbers in registers
unfoldable pub homogeneous : Obj → LlvmType → ℕ → Argument
unfolding types_of
homogeneous t elem n =
    if n == 1
    then record { kind = c_aggregate_reg; type = t; cctype = struct (with_type elem no_types) }
    else record { kind = c_array_reg; type = t; cctype = array n elem }

-- an argument of AArch64, as a whole number of registers
unfoldable pub whole_registers : Target → Obj → ℕ → Argument
unfolding types_of copies
whole_registers target t align =
    let regbits = if ltb 64 align then 128 else 64 in
    let bits = target.alloc_size (type_of t) * 8 in
    let nregs = (bits + regbits - 1) / regbits in
    if ltb 1 nregs
    then record { kind = c_array_reg; type = t; cctype = array nregs (integer regbits) }
    else record {
      kind = c_aggregate_reg;
      type = t;
      cctype = struct (types_of (copies nregs (integer regbits)));
    }

unfoldable pub packed_registers : Target → Obj → ℕ → Argument
unfolding types_of pack_values
packed_registers target t align =
    let p = pack_values target (type_of t) (record { elements = []; bits = 0 }) in
    let elements =
      if ltb 0 p.bits then p.elements ++ integer (align_up p.bits align) ∷ [] else p.elements in
    record { kind = c_aggregate_reg; type = t; cctype = struct (types_of elements) }

-- `ClassifyAggPPC64`, with the new number of used integer registers
unfoldable pub classify_agg_ppc64 : CCallingConv → Target → Obj → ℕ → Bool → Argument × ℕ
unfolding count_values homogeneous whole_registers packed_registers
classify_agg_ppc64 conv target t usedint isreturn =
    let c =
      count_values target (type_of t)
        (record { all_float = true; all_double = true; n_elts = 0; align = 0 }) in
    let few = ltb 0 c.n_elts && leb c.n_elts conv.ppc64_float_limit in
    let sz = (target.alloc_size (type_of t) + 7) / 8 in
    let limit = if isreturn then 2 else conv.ppc64_int_limit in
    let used = if conv.ppc64_count_used then usedint else 0 in
    if c.all_float && few
    then (homogeneous t float c.n_elts, usedint + c.n_elts)
    else if c.all_double && few
    then (homogeneous t double c.n_elts, usedint + c.n_elts)
    else if leb (used + sz) limit
    then (if conv.aarch64_cconv && not isreturn
        then (whole_registers target t c.align, usedint + sz)
        else (packed_registers target t c.align, usedint + sz))
    else (record { kind = c_aggregate_mem; type = t; cctype = type_of t }, usedint)

-- `WasmPrimitiveCount`
unfoldable mutual
  pub wasm_primitive_count : LlvmType → ℕ
  wasm_primitive_count (struct elements) = wasm_primitive_counts elements
  wasm_primitive_count (array n elem) = 2
  wasm_primitive_count void = 2
  wasm_primitive_count t = 1

  pub wasm_primitive_counts : LlvmTypes → ℕ
  wasm_primitive_counts no_types = 0
  wasm_primitive_counts (with_type t types) = wasm_primitive_count t + wasm_primitive_counts types

-- `WasmIsSingletonOrEmpty`
unfoldable pub wasm_is_singleton_or_empty : LlvmType → Bool
unfolding wasm_primitive_count
wasm_is_singleton_or_empty t = leb (wasm_primitive_count t) 1
