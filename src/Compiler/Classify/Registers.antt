-- ===== src/Compiler/Classify/Registers.antt =====
-- src/tcompiler.cpp: the registers that the arguments of x86-64 take.
use terra.Common.{
  ℕ, zero, suc, ◌+◌, ◌-◌, ◌≤◌, ◌≡◌, ◌⊎◌, inl, inr, refl, subst, true, false, some, [], ◌∷◌, leb,
  ◌&&◌, arith, Bool-cases,
}
use terra.Compiler.Types.{Obj, type_of, is_aggregate, Target}
use terra.Compiler.Convention.{
  CCallingConv, x86_64, arch_cconv, c_no_class, c_integer, Classes, merge_value, type_for_class,
}
use terra.Compiler.Aggregates.{Argument}
use terra.Compiler.Classify.{
  Used, spilled, eightbytes, classify_classes, classify_argument, sse_count, integer_count,
  in_registers,
}
use terra.Compiler.Classify.Formed.{Every, Every-bind}

abbrev pub sysv : CCallingConv
sysv = arch_cconv x86_64 false

-- The counters are as before, or within the 8 registers of SSE and the 6 of integers.
pub record Within (used used' : Used) : Type 0 where
  pub floats : (used'.usedfloat ≡ used.usedfloat) ⊎ (used'.usedfloat ≤ 8)
  pub ints : (used'.usedint ≡ used.usedint) ⊎ (used'.usedint ≤ 6)

kept : (used : Used) → Within used used
kept used = record { floats = inl refl; ints = inl refl }

abbrev FoundWithin : Used → Argument × Used → Type 0
FoundWithin used r = Within used r.1

counted : (n limit free : ℕ) → leb n (limit - free) ≡ true → (free + n ≡ free) ⊎ (free + n ≤ limit)
counted zero limit free h = inl (omega arith)
counted (suc n) limit free h = inr (ground arith)

taken :
    (used : Used) (classes : Classes)
    → (leb (sse_count classes) (8 - used.usedfloat)
        && leb (integer_count classes) (6 - used.usedint))
      ≡ true
    → Within used (record {
      usedfloat = used.usedfloat + sse_count classes;
      usedint = used.usedint + integer_count classes;
    })
taken used classes h = record {
  floats = counted (sse_count classes) 8 used.usedfloat (ground (arith, h));
  ints = counted (integer_count classes) 6 used.usedint (ground (arith, h));
}

module _ (target : Target) (t : Obj) (used : Used) where
  spilled-Within :
      (conv : CCallingConv) (sz : ℕ) → Every (FoundWithin used) (spilled conv target t sz used)
  unfolding spilled
  spilled-Within conv sz =
      let same = kept used in
      let coerced =
        Every-bind (FoundWithin used) (type_for_class conv sz c_integer)
          (λ coerced. some (in_registers t (coerced ∷ []), used)) λ coerced. same in
      ground (arith, coerced, same)

  classes-Within :
      (sz : ℕ) (classes : Classes)
      → Every (FoundWithin used) (classify_classes sysv target t sz used false classes)
  unfolding classify_classes arch_cconv
  classes-Within sz (a, b) =
      let same = kept used in
      let stack = spilled-Within sysv sz in
      elim (Bool-cases (
        leb (sse_count (a, b)) (8 - used.usedfloat)
        && leb (integer_count (a, b)) (6 - used.usedint))) [
          | inl e ↦
              let free = taken used (a, b) e in
              let registers =
                Every-bind (FoundWithin used) (eightbytes sysv sz (a, b))
                  (λ elements. some (
                    in_registers t elements,
                    record {
                      usedfloat = used.usedfloat + sse_count (a, b);
                      usedint = used.usedint + integer_count (a, b);
                    },
                  ))
                  λ elements. free in
              ground (arith, registers, same, e)
          | inr e ↦ ground (arith, stack, same, e)
        ]

-- On x86-64 with the System V conventions, an aggregate argument that is classified leaves the
-- counters of the registers as they are, or takes them to at most 8 SSE and 6 integer registers.
pub classify_argument-Within :
    (target : Target) (t : Obj) (used : Used) (r : Argument × Used)
    → is_aggregate (type_of t) ≡ true
    → classify_argument sysv target t used false ≡ some r
    → Within used r.1
unfolding classify_argument arch_cconv
classify_argument-Within target t used r h e =
    let sz = target.alloc_size (type_of t) in
    let same = kept used in
    let merged =
      Every-bind (FoundWithin used) (merge_value target 0 t (c_no_class, c_no_class))
        (λ classes. classify_classes sysv target t sz used false classes)
        (λ classes. classes-Within target t used sz classes) in
    let all : Every (FoundWithin used) (classify_argument sysv target t used false) =
      ground (arith, same, merged, h) in
    subst (Every (FoundWithin used)) e all
