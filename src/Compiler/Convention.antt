-- ===== src/Compiler/Convention.antt =====
-- src/tcompiler.cpp: the settings of `CCallingConv` and the classes of registers.
pub mod Inside
pub mod Strongest
use terra.Common.{
  ℕ, zero, suc, ◌+◌, ◌*◌, ◌/◌, Bool, true, false, Option, none, some, leb, ltb, ◌==◌, not, ◌||◌,
  if◌then◌else◌,
}
use terra.Compiler.Types.{
  LlvmType, LlvmTypes, float, double, pointer, integer, vector, Obj, Entries, scalar, structure,
  array_of, no_entries, entry, type_of, Target, ◌>>=◌,
}

-- The architectures of `llvm::Triple` that are told apart, and whether its system is Windows.
pub data Arch : Type 0 where
  x86_64 amdgcn aarch64 ppc64 spirv wasm other : Arch

pub record CCallingConv : Type 0 where
  pub return_empty_struct_as_void : Bool
  pub aarch64_cconv : Bool
  pub amdgpu_cconv : Bool
  pub ppc64_cconv : Bool
  pub ppc64_float_limit : ℕ
  pub ppc64_int_limit : ℕ
  pub ppc64_count_used : Bool
  pub spirv_cconv : Bool
  pub wasm_cconv : Bool
  pub win_cconv : Bool
  pub x86_64_sysv_cconv : Bool

abbrev no_cconv : CCallingConv
no_cconv = record {
  return_empty_struct_as_void = false;
  aarch64_cconv = false;
  amdgpu_cconv = false;
  ppc64_cconv = false;
  ppc64_float_limit = 0;
  ppc64_int_limit = 0;
  ppc64_count_used = false;
  spirv_cconv = false;
  wasm_cconv = false;
  win_cconv = false;
  x86_64_sysv_cconv = false;
}

unfoldable pub arch_cconv : Arch → Bool → CCallingConv
arch_cconv x86_64 windows = record no_cconv { x86_64_sysv_cconv = not windows }
arch_cconv amdgcn windows = record no_cconv {
  return_empty_struct_as_void = true;
  amdgpu_cconv = true;
}
arch_cconv aarch64 windows = record no_cconv {
  aarch64_cconv = true;
  ppc64_float_limit = 4;
  ppc64_int_limit = 2;
}
arch_cconv ppc64 windows = record no_cconv {
  ppc64_cconv = true;
  ppc64_float_limit = 8;
  ppc64_int_limit = 8;
  ppc64_count_used = true;
}
arch_cconv spirv windows = record no_cconv {
  return_empty_struct_as_void = true;
  spirv_cconv = true;
}
arch_cconv wasm windows = record no_cconv { wasm_cconv = true }
arch_cconv other windows = no_cconv

-- the constructor of `CCallingConv`
unfoldable pub cconv_of : Arch → Bool → CCallingConv
unfolding arch_cconv
cconv_of arch windows =
    if windows
    then record (arch_cconv arch windows) { return_empty_struct_as_void = true; win_cconv = true }
    else arch_cconv arch windows

pub data RegisterClass : Type 0 where
  c_no_class c_sse_float c_sse_double c_integer c_memory : RegisterClass

abbrev pub rank : RegisterClass → ℕ
rank c_no_class = 0
rank c_sse_float = 1
rank c_sse_double = 2
rank c_integer = 3
rank c_memory = 4

-- `Meet`
unfoldable pub meet : RegisterClass → RegisterClass → RegisterClass
meet a b = if ltb (rank b) (rank a) then a else b

-- The two classes of an aggregate. An access behind them is undefined.
abbrev pub Classes : Type 0
Classes = RegisterClass × RegisterClass

unfoldable pub set_class : ℕ → (RegisterClass → RegisterClass) → Classes → Option Classes
set_class zero f (a, b) = some (f a, b)
set_class (suc zero) f (a, b) = some (a, f b)
set_class (suc (suc i)) f classes = none

unfoldable pub merge_scalar : LlvmType → ℕ → Classes → Option Classes
unfolding set_class meet
merge_scalar (vector n elem) i classes = set_class i (λ c. c_memory) classes
merge_scalar float i classes = set_class i (λ c. meet c c_sse_float) classes
merge_scalar double i classes = set_class i (λ c. meet c c_sse_double) classes
merge_scalar (integer bits) i classes = set_class i (λ c. meet c c_integer) classes
merge_scalar pointer i classes = set_class i (λ c. meet c c_integer) classes
merge_scalar _ i classes = none

-- the loop over the elements of an array
unfoldable pub merge_elements :
    (ℕ → Classes → Option Classes) → ℕ → ℕ → ℕ → ℕ → Classes → Option Classes
merge_elements merge offset elemsize i zero classes = some classes
merge_elements merge offset elemsize i (suc left) classes =
    merge (offset + i * elemsize) classes >>= λ classes'.
    merge_elements merge offset elemsize (i + 1) left classes'

-- `MergeValue`
unfoldable mutual
  pub merge_value : Target → ℕ → Obj → Classes → Option Classes
  merge_value target offset (scalar t sign logical) classes = merge_scalar t (offset / 8) classes
  merge_value target offset (structure elements parts) classes =
      merge_entries target offset elements parts classes
  merge_value target offset (array_of n elem) classes =
      merge_elements (λ o c. merge_value target o elem c) offset (target.alloc_size (type_of elem))
        0 n classes

  pub merge_entries : Target → ℕ → LlvmTypes → Entries → Classes → Option Classes
  merge_entries target offset elements no_entries classes = some classes
  merge_entries target offset elements (entry allocation t rest) classes =
      merge_value target (offset + target.element_offset elements allocation) t classes
      >>= λ classes'. merge_entries target offset elements rest classes'

-- `TypeForClass` of SSE
unfoldable pub sse_type : ℕ → LlvmType → Option LlvmType
sse_type size wide = if size == 4 then some float else if size == 8 then some wide else none

unfoldable pub integer_type : ℕ → Option LlvmType
integer_type size = if leb size 8 then some (integer (size * 8)) else none

unfoldable pub class_type : ℕ → RegisterClass → Option LlvmType
unfolding sse_type integer_type
class_type size c_sse_float = sse_type size (vector 2 float)
class_type size c_sse_double = sse_type size double
class_type size c_integer = integer_type size
class_type size _ = none

-- `TypeForClass`
unfoldable pub type_for_class : CCallingConv → ℕ → RegisterClass → Option LlvmType
unfolding class_type
type_for_class conv size c = if conv.win_cconv then integer_type size else class_type size c

-- `sz && !(sz & (sz - 1))` of a size of 8 at most
abbrev small_power : ℕ → Bool
small_power sz = sz == 1 || sz == 2 || sz == 4 || sz == 8

-- `ValidAggregateSize`
unfoldable pub valid_aggregate_size : CCallingConv → ℕ → Bool
valid_aggregate_size conv sz = if conv.win_cconv then small_power sz else leb sz 16
