-- ===== src/Compiler/Types.antt =====
-- src/tcompiler.cpp: the types of LLVM and of Terra that the conventions for calls look at, and what
-- LLVM tells about them.
use terra.Common.{ℕ, Bool, true, false, Option, none, some}

-- `llvm::Type`; a struct has a list of elements.
mutual
  pub data LlvmType : Type 0 where
    void float double pointer : LlvmType
    integer : ℕ → LlvmType
    vector array : ℕ → LlvmType → LlvmType
    struct : LlvmTypes → LlvmType

  pub data LlvmTypes : Type 0 where
    no_types : LlvmTypes
    with_type : LlvmType → LlvmTypes → LlvmTypes

-- A type of Terra, with the fields of its `TType`. The entries of a struct have their places in the
-- struct of LLVM, and the entries of a union share one.
mutual
  pub data Obj : Type 0 where
    scalar : LlvmType → Bool → Bool → Obj
    structure : LlvmTypes → Entries → Obj
    array_of : ℕ → Obj → Obj

  pub data Entries : Type 0 where
    no_entries : Entries
    entry : ℕ → Obj → Entries → Entries

-- `Ty->Get(obj)->type`
unfoldable pub type_of : Obj → LlvmType
type_of (scalar t sign logical) = t
type_of (structure elements parts) = struct elements
type_of (array_of n elem) = array n (type_of elem)

unfoldable pub islogical : Obj → Bool
islogical (scalar t issigned logical) = logical
islogical _ = false

unfoldable pub issigned : Obj → Bool
issigned (scalar t sign logical) = sign
issigned _ = false

-- What LLVM and the type system of Terra tell: `getTypeAllocSize`, `getABITypeAlign` in bytes,
-- `getElementOffset` and `isunit`.
pub record Target : Type 0 where
  pub alloc_size : LlvmType → ℕ
  pub abi_align : LlvmType → ℕ
  pub element_offset : LlvmTypes → ℕ → ℕ
  pub is_unit : Obj → Bool

-- `isAggregateType`
unfoldable pub is_aggregate : LlvmType → Bool
is_aggregate (struct elements) = true
is_aggregate (array n elem) = true
is_aggregate _ = false

unfoldable pub is_vector : LlvmType → Bool
is_vector (vector n elem) = true
is_vector _ = false

-- `isFloatingPointTy`
unfoldable pub is_floating : LlvmType → Bool
is_floating float = true
is_floating double = true
is_floating _ = false

infixl 5 ◌>>=◌
abbrev pub ◌>>=◌ : {A B : Type 0} → Option A → (A → Option B) → Option B
none >>= f = none
some a >>= f = f a
