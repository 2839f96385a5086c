-- ===== src/Compiler/Convention/Inside.antt =====
-- src/tcompiler.cpp: `MergeValue` within the two classes of an aggregate.
use terra.Common.{ℕ, zero, suc, ◌+◌, ◌*◌, ◌/◌, ◌≤◌, ◌<◌, Option, none, some, arith}
use native.Mathlib.Nat.{add-mul, suc-mul}
use terra.Compiler.Types.{
  LlvmType, LlvmTypes, void, float, double, pointer, integer, vector, array, struct, Obj, Entries,
  scalar, structure, array_of, no_entries, entry, type_of, Target, ◌>>=◌,
}
use terra.Compiler.Convention.{
  RegisterClass, Classes, set_class, merge_scalar, merge_elements, merge_value, merge_entries,
}

-- there is a value
abbrev pub IsDefined : {A : Type 0} → Option A → Type 0
IsDefined none = ⊥
IsDefined (some a) = Unit {0}

bind-IsDefined :
    {A B : Type 0} (o : Option A) (f : A → Option B)
    → IsDefined o
    → ((a : A) → IsDefined (f a))
    → IsDefined (o >>= f)
bind-IsDefined none f h k = h
bind-IsDefined (some a) f h k = k a

-- a type that a register or the memory can hold
abbrev IsMergeable : LlvmType → Type 0
IsMergeable void = ⊥
IsMergeable (array n elem) = ⊥
IsMergeable (struct elements) = ⊥
IsMergeable _ = Unit {0}

-- The layout of LLVM: a scalar has a size, and the parts of a struct and of an array lie in it.
abbrev mutual
  pub IsLaid : Target → Obj → Type 0
  IsLaid target (scalar t sign logical) = IsMergeable t × (0 < target.alloc_size t)
  IsLaid target (structure elements parts) =
      AllLaid target (target.alloc_size (struct elements)) elements parts
  IsLaid target (array_of n elem) =
      (n * target.alloc_size (type_of elem) ≤ target.alloc_size (array n (type_of elem)))
      × IsLaid target elem

  AllLaid : Target → ℕ → LlvmTypes → Entries → Type 0
  AllLaid target size elements no_entries = Unit {0}
  AllLaid target size elements (entry allocation t rest) =
      (target.element_offset elements allocation + target.alloc_size (type_of t) ≤ size)
      × (IsLaid target t × AllLaid target size elements rest)

set_class-IsDefined :
    (i : ℕ) (f : RegisterClass → RegisterClass) (classes : Classes)
    → i < 2
    → IsDefined (set_class i f classes)
unfolding set_class
set_class-IsDefined zero f (a, b) h = tt
set_class-IsDefined (suc zero) f (a, b) h = tt
set_class-IsDefined (suc (suc i)) f classes h = omega (arith, h)

scalar-IsDefined :
    (t : LlvmType) (i : ℕ) (classes : Classes)
    → IsMergeable t
    → i < 2
    → IsDefined (merge_scalar t i classes)
unfolding merge_scalar
scalar-IsDefined void i classes h k = h
scalar-IsDefined (array n elem) i classes h k = h
scalar-IsDefined (struct elements) i classes h k = h
scalar-IsDefined float i classes h k = set_class-IsDefined i _ classes k
scalar-IsDefined double i classes h k = set_class-IsDefined i _ classes k
scalar-IsDefined pointer i classes h k = set_class-IsDefined i _ classes k
scalar-IsDefined (integer bits) i classes h k = set_class-IsDefined i _ classes k
scalar-IsDefined (vector n elem) i classes h k = set_class-IsDefined i _ classes k

-- The loop over the elements of an array stays within the first `limit` bytes.
elements-IsDefined :
    (merge : ℕ → Classes → Option Classes) (offset size limit i left : ℕ) (classes : Classes)
    → ((o : ℕ) (c : Classes) → o + size ≤ limit → IsDefined (merge o c))
    → offset + (i + left) * size ≤ limit
    → IsDefined (merge_elements merge offset size i left classes)
unfolding merge_elements
elements-IsDefined merge offset size limit i zero classes each h = tt
elements-IsDefined merge offset size limit i (suc left) classes each h =
    let whole = add-mul i (suc left) size in
    let first = suc-mul left size in
    let next = add-mul (i + 1) left size in
    let step = add-mul i 1 size in
    bind-IsDefined (merge (offset + i * size) classes) _
      (each (offset + i * size) classes (omega (arith, h, whole, first)))
      λ classes'.
        elements-IsDefined merge offset size limit (i + 1) left classes' each
          (omega (arith, h, whole, first, next, step))

mutual
  unfolding merge_value type_of

  value-IsDefined :
      (target : Target) (offset : ℕ) (t : Obj) (classes : Classes)
      → IsLaid target t
      → offset + target.alloc_size (type_of t) ≤ 16
      → IsDefined (merge_value target offset t classes)
  value-IsDefined target offset (scalar t sign logical) classes (mergeable, sized) h =
      scalar-IsDefined t (offset / 8) classes mergeable (omega (arith, sized, h))
  value-IsDefined target offset (structure elements parts) classes laid h =
      entries-IsDefined target offset elements parts classes (target.alloc_size (struct elements))
        laid h
  value-IsDefined target offset (array_of n elem) classes (fits, laid) h =
      elements-IsDefined _ offset (target.alloc_size (type_of elem)) 16 0 n classes
        (λ o c inside. value-IsDefined target o elem c laid inside) (omega (arith, fits, h))

  entries-IsDefined :
      (target : Target) (offset : ℕ) (elements : LlvmTypes) (parts : Entries) (classes : Classes)
      (size : ℕ)
      → AllLaid target size elements parts
      → offset + size ≤ 16
      → IsDefined (merge_entries target offset elements parts classes)
  entries-IsDefined target offset elements no_entries classes size laid h = tt
  entries-IsDefined target offset elements (entry allocation t rest) classes size
        (fits, (laid, others)) h =
      bind-IsDefined
        (merge_value target (offset + target.element_offset elements allocation) t classes) _
        (value-IsDefined target (offset + target.element_offset elements allocation) t classes laid
          (omega (arith, fits, h)))
        λ classes'. entries-IsDefined target offset elements rest classes' size others h

-- For an aggregate of 16 bytes at most whose parts lie in it, `MergeValue` writes only to the two
-- classes, and fails no assertion.
pub merge_value-IsDefined :
    (target : Target) (t : Obj) (classes : Classes)
    → IsLaid target t
    → target.alloc_size (type_of t) ≤ 16
    → IsDefined (merge_value target 0 t classes)
merge_value-IsDefined target t classes laid h =
    value-IsDefined target 0 t classes laid (omega (arith, h))
