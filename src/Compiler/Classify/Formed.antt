-- ===== src/Compiler/Classify/Formed.antt =====
-- src/tcompiler.cpp: what `ClassifyArgument` makes of the type of an argument.
use terra.Common.{ℕ, ◌+◌, ◌≡◌, refl, Bool, true, Option, none, some, [], ◌∷◌, arith}
use terra.Compiler.Types.{LlvmType, float, double, Obj, type_of, is_aggregate, Target, ◌>>=◌}
use terra.Compiler.Convention.{
  CCallingConv, c_no_class, c_integer, Classes, merge_value, type_for_class,
}
use terra.Compiler.Aggregates.{
  Argument, classify_agg_ppc64, homogeneous, whole_registers, packed_registers,
}
use terra.Compiler.Classify.{
  Used, spilled, eightbytes, classify_classes, classify_argument, sse_count, integer_count,
  in_registers,
}

-- what holds of the value, where there is one
abbrev pub Every : {A : Type 0} → (A → Type 0) → Option A → Type 0
Every Q none = Unit {0}
Every Q (some a) = Q a

pub Every-bind :
    {A B : Type 0} (Q : B → Type 0) (o : Option A) (f : A → Option B)
    → ((a : A) → Every Q (f a))
    → Every Q (o >>= f)
Every-bind Q none f h = tt
Every-bind Q (some a) f h = h a

abbrev OfType : Obj → Argument → Type 0
OfType t a = a.type ≡ t

abbrev pub FoundOfType : Obj → Argument × Used → Type 0
FoundOfType t r = r.0.type ≡ t

abbrev CountedOfType : Obj → Argument × ℕ → Type 0
CountedOfType t r = r.0.type ≡ t

module _ (target : Target) (t : Obj) where
  homogeneous-OfType : (elem : LlvmType) (n : ℕ) → (homogeneous t elem n).type ≡ t
  unfolding homogeneous
  homogeneous-OfType elem n = ground arith

  whole_registers-OfType : (align : ℕ) → (whole_registers target t align).type ≡ t
  unfolding whole_registers
  whole_registers-OfType align = ground arith

module _ (conv : CCallingConv) (target : Target) (t : Obj) where
  ppc64-OfType :
      (usedint : ℕ) (isreturn : Bool)
      → (classify_agg_ppc64 conv target t usedint isreturn).0.type ≡ t
  unfolding classify_agg_ppc64 packed_registers
  ppc64-OfType usedint isreturn =
      let float_case = homogeneous-OfType target t float in
      let double_case = homogeneous-OfType target t double in
      let registers = whole_registers-OfType target t in
      ground (arith, float_case, double_case, registers)

  spilled-OfType : (sz : ℕ) (used : Used) → Every (FoundOfType t) (spilled conv target t sz used)
  unfolding spilled
  spilled-OfType sz used =
      let coerced =
        Every-bind (FoundOfType t) (type_for_class conv sz c_integer)
          (λ coerced. some (in_registers t (coerced ∷ []), used)) λ coerced. refl in
      ground (arith, coerced)

  classes-OfType :
      (sz : ℕ) (used : Used) (isreturn : Bool) (classes : Classes)
      → Every (FoundOfType t) (classify_classes conv target t sz used isreturn classes)
  unfolding classify_classes
  classes-OfType sz used isreturn (a, b) =
      let stack = spilled-OfType sz used in
      let registers =
        Every-bind (FoundOfType t) (eightbytes conv sz (a, b))
          (λ elements. some (
            in_registers t elements,
            record {
              usedfloat = used.usedfloat + sse_count (a, b);
              usedint = used.usedint + integer_count (a, b);
            },
          ))
          λ elements. refl in
      ground (arith, stack, registers)

  -- Every aggregate is classified as an argument of its own type.
  pub aggregate-OfType :
      (used : Used) (isreturn : Bool)
      → is_aggregate (type_of t) ≡ true
      → Every (FoundOfType t) (classify_argument conv target t used isreturn)
  unfolding classify_argument
  aggregate-OfType used isreturn h =
      let sz = target.alloc_size (type_of t) in
      let packed = ppc64-OfType used.usedint isreturn in
      let merged =
        Every-bind (FoundOfType t) (merge_value target 0 t (c_no_class, c_no_class))
          (λ classes. classify_classes conv target t sz used isreturn classes)
          (λ classes. classes-OfType sz used isreturn classes) in
      ground (arith, packed, merged, h)
